-- ===== src/Configuration/Content.antt =====
-- `XML_READ_CONTENT` of src/plc_configuration.c for one field that is a text or an array of texts.
-- The document is what libxml2 made of it.
pub mod Laws
use plcontainer.Common.{
  ℕ, zero, suc, ◌+◌, ◌*◌, Bool, true, false, not, ◌&&◌, Option, none, some, List, [], ◌∷◌, ◌++◌,
  length, ltb, leb, ◌==◌, if◌then◌else◌,
}
use plcontainer.Container.Backend.{same_text}

-- Of an `xmlNode`, whether it is an element, its name and its content.
pub record Node : Type 0 where
  pub is_element : Bool
  pub name : List ℕ
  pub content : List ℕ

-- Of an `XML_FIELD`, its name, `notnull` and whether `N` is XML_TYPE_SIGNLE_ELEMENT.
pub record XmlField : Type 0 where
  pub name : List ℕ
  pub notnull : Bool
  pub single : Bool

-- An array that is read: the number of its elements that the block has room for, 0 for NULL, the
-- number `N` and the elements that were written, in order.
pub record XmlArray : Type 0 where
  pub room : ℕ
  pub n : ℕ
  pub written : List (List ℕ)

abbrev pub no_array : XmlArray
no_array = record { room = 0; n = 0; written = [] }

-- `overrun` is a write or a copy past the end of a block.
pub data Stored : Type 0 where
  stored : XmlArray → Stored
  overrun : Stored
  exhausted : Stored

-- `parser(source_mem, n, v)` and `(*field->N)++`.
unfoldable pub store : ℕ → List ℕ → XmlArray → Stored
store n v a =
    if ltb n a.room
    then stored (record { room = a.room; n = suc a.n; written = a.written ++ (v ∷ []) })
    else overrun

abbrev pub grown_size : ℕ → ℕ
grown_size n = (if n == 0 then 1 else n) * 2

-- `__XML_READ_BASIC_ELEMENT` for an array, which calls itself once it has a larger block.
unfoldable pub xml_read_basic_element : ℕ → ℕ → List ℕ → XmlArray → Stored
unfolding store
xml_read_basic_element zero n v a = exhausted
xml_read_basic_element (suc fuel) n v a =
    let size = grown_size a.n in
    let again =
      xml_read_basic_element fuel n v (record { room = size; n = size; written = a.written }) in
    if not (a.room == 0) && ltb n a.n
    then store n v a
    else if leb a.n a.room
    then again
    else overrun

-- How reading a field ends: with the text or the elements, or by an error.
pub data Content : Type 0 where
  no_text : Content
  text : List ℕ → Content
  texts : XmlArray → Content
  duplicate : Content
  missing : Content
  overran : Content
  out_of_fuel : Content

abbrev pub matches : XmlField → Node → Bool
matches field node = node.is_element && same_text node.name field.name

-- The loop over the children for a single element, with the text that was found before.
unfoldable pub read_single : XmlField → Option (List ℕ) → List Node → Content
unfolding same_text
read_single field found [] = elim found [
  | none ↦ if field.notnull then missing else no_text
  | some v ↦ text v
]
read_single field none (node ∷ nodes) =
    read_single field (if matches field node then some node.content else none) nodes
read_single field (some v) (node ∷ nodes) =
    let rest = read_single field (some v) nodes in if matches field node then duplicate else rest

-- The loop over the children for an array, after `n` elements, and the end of the loop.
abbrev pub after_store : (XmlArray → Content) → Stored → Content
after_store rest (stored a) = rest a
after_store rest overrun = overran
after_store rest exhausted = out_of_fuel

unfoldable pub read_array : XmlField → ℕ → XmlArray → List Node → Content
unfolding same_text xml_read_basic_element
read_array field n a [] = if field.notnull && (n == 0) then missing else texts (record a { n = n })
read_array field n a (node ∷ nodes) =
    let skipped = read_array field n a nodes in
    let read =
      after_store (λ b. read_array field (suc n) b nodes)
        (xml_read_basic_element (suc (suc n)) n node.content a) in
    if matches field node then read else skipped

unfoldable pub xml_read_content : XmlField → List Node → Content
unfolding read_single read_array
xml_read_content field nodes =
    if field.single then read_single field none nodes else read_array field 0 no_array nodes
