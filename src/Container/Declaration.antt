-- ===== src/Container/Declaration.antt =====
-- The line of a function's source that names its runtime: `parse_container_meta` and
-- `check_runtime_id` of src/containers.c. Where the code counts `first` up, the functions go on with
-- the characters from `first` to the end.
pub mod Regex
pub mod Pieces
pub mod Sound
pub mod Equivalence
use plcontainer.Common.{
  ℕ, suc, Bool, true, false, not, ◌&&◌, ◌||◌, Option, none, some, List, [], ◌∷◌, length, ◌==◌, leb,
  ltb, if◌then◌else◌,
}

-- `isspace` and `isblank` of the C locale.
unfoldable pub isspace : ℕ → Bool
isspace c = c == 32 || (leb 9 c && leb c 13)

unfoldable pub isblank : ℕ → Bool
isblank c = c == 32 || c == 9

-- RUNTIME_ID_MAX_LENGTH
abbrev pub runtime_id_max_length : ℕ
runtime_id_max_length = 64

abbrev pub is_mark : ℕ → Bool
is_mark d = d == b'_' || (d == b'-' || d == b'.')

-- The loop of `check_runtime_id` from index `i`; true is the result 0.
unfoldable pub check_from : ℕ → List ℕ → Bool
check_from i [] = not (i == 0)
check_from i (d ∷ id) =
    let rest = check_from (suc i) id in
    if is_mark d
    then if i == 0 then false else rest
    else if leb b'0' d && leb d b'9'
    then rest
    else if leb b'a' d && leb d b'z'
    then rest
    else if leb b'A' d && leb d b'Z'
    then rest
    else if is_mark d
    then rest
    else false

unfoldable pub check_runtime_id : List ℕ → Bool
unfolding check_from
check_runtime_id id = check_from 0 id

-- A call of `plc_elog(ERROR, ...)`, by its message.
pub data Complaint : Type 0 where
  no_hash : Complaint
  no_container : Complaint
  no_colon : Complaint
  no_id : Complaint
  no_carriage_return : Complaint
  empty_id : Complaint
  too_long : Complaint
  illegal_character : Complaint

pub data Meta : Type 0 where
  runtime_id : List ℕ → Meta
  refused : Complaint → Meta

-- `while (first < len && test(source[first])) first++;`
unfoldable pub skip : (ℕ → Bool) → List ℕ → List ℕ
skip test [] = []
skip test (c ∷ source) = let rest = skip test source in if test c then rest else c ∷ source

-- What follows the text, if the source starts with it: `strncmp` with the length of the text.
unfoldable pub after_text : List ℕ → List ℕ → Option (List ℕ)
after_text [] source = some source
after_text (t ∷ text) [] = none
after_text (t ∷ text) (c ∷ source) =
    let rest = after_text text source in if c == t then rest else none

abbrev pub container_text : List ℕ
container_text = b'c' ∷ b'o' ∷ b'n' ∷ b't' ∷ b'a' ∷ b'i' ∷ b'n' ∷ b'e' ∷ b'r' ∷ []

abbrev pub ends_line : ℕ → Bool
ends_line c = c == 10 || c == 13

-- `while (last < len && source[last] != '\n' && source[last] != '\r') last++;`
unfoldable pub read_line : List ℕ → Option (List ℕ)
read_line [] = none
read_line (c ∷ source) =
    let rest = read_line source in
    if ends_line c then some [] else elim rest [ none ↦ none | some line ↦ some (c ∷ line) ]

-- The line from `c` on without the blanks at its end, when `rest` is that of what follows `c`.
unfoldable pub trim_onto : ℕ → List ℕ → List ℕ
unfolding isblank
trim_onto c [] = if isblank c then [] else c ∷ []
trim_onto c (d ∷ rest) = c ∷ d ∷ rest

-- `while (last >= first && isblank(source[last])) last--;`
unfoldable pub trim_end : List ℕ → List ℕ
unfolding trim_onto
trim_end [] = []
trim_end (c ∷ line) = trim_onto c (trim_end line)

unfoldable pub take_id : List ℕ → Meta
unfolding check_runtime_id
take_id [] = refused empty_id
take_id (c ∷ id) =
    if ltb runtime_id_max_length (suc (length (c ∷ id)))
    then refused too_long
    else if check_runtime_id (c ∷ id)
    then runtime_id (c ∷ id)
    else refused illegal_character

unfoldable pub parse_line : Option (List ℕ) → Meta
unfolding take_id trim_end
parse_line none = refused no_carriage_return
parse_line (some line) = take_id (trim_end line)

unfoldable pub parse_id : List ℕ → Meta
unfolding parse_line read_line
parse_id [] = refused no_id
parse_id (c ∷ source) = parse_line (read_line (c ∷ source))

unfoldable pub parse_colon : List ℕ → Meta
unfolding parse_id skip isblank
parse_colon [] = refused no_colon
parse_colon (c ∷ source) = if c == b':' then parse_id (skip isblank source) else refused no_colon

unfoldable pub parse_container : Option (List ℕ) → Meta
unfolding parse_colon skip isblank
parse_container none = refused no_container
parse_container (some source) = parse_colon (skip isblank source)

unfoldable pub parse_hash : List ℕ → Meta
unfolding parse_container skip isblank after_text
parse_hash [] = refused no_hash
parse_hash (c ∷ source) =
    if c == b'#'
    then parse_container (after_text container_text (skip isblank source))
    else refused no_hash

unfoldable pub parse_container_meta : List ℕ → Meta
unfolding parse_hash skip isspace
parse_container_meta source = parse_hash (skip isspace source)
