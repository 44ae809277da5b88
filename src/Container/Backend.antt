-- ===== src/Container/Backend.antt =====
-- What src/containers.c asks the backend about a container.
use plcontainer.Common.{ℕ, Bool, true, false, ◌||◌, List, [], ◌∷◌, ◌==◌, if◌then◌else◌}

-- A result by its sign: below 0 the call failed, above 0 the container is still there.
pub data Code : Type 0 where
  failed : Code
  done : Code
  alive : Code

-- `strcmp(s, t) == 0`
unfoldable pub same_text : List ℕ → List ℕ → Bool
same_text [] [] = true
same_text [] (d ∷ t) = false
same_text (c ∷ s) [] = false
same_text (c ∷ s) (d ∷ t) = let rest = same_text s t in if c == d then rest else false

-- `plc_backend_inspect`, and what it leaves in `element`.
pub data Inspected : Type 0 where
  inspect_failed : Inspected
  no_element : Inspected
  element : List ℕ → Inspected

abbrev pub false_text : List ℕ
false_text = b'f' ∷ b'a' ∷ b'l' ∷ b's' ∷ b'e' ∷ []

abbrev pub true_text : List ℕ
true_text = b't' ∷ b'r' ∷ b'u' ∷ b'e' ∷ []

abbrev pub exited_text : List ℕ
exited_text = b'e' ∷ b'x' ∷ b'i' ∷ b't' ∷ b'e' ∷ b'd' ∷ []

abbrev pub unexist_text : List ℕ
unexist_text = b'u' ∷ b'n' ∷ b'e' ∷ b'x' ∷ b'i' ∷ b's' ∷ b't' ∷ []

-- `alive` is the result 1, the container was killed for its memory.
unfoldable pub check_container_if_oomkilled : Inspected → Code
unfolding same_text
check_container_if_oomkilled inspect_failed = failed
check_container_if_oomkilled no_element = done
check_container_if_oomkilled (element text) =
    if same_text false_text text then done else if same_text true_text text then alive else failed

-- One round of questions: the replies to the inspection of the status, to that of the memory and to
-- the deletion.
pub record Replies : Type 0 where
  pub status : Inspected
  pub oom : Inspected
  pub deletion : Code

-- With whether the kill for memory is reported and whether `plc_backend_delete` is called.
pub record Exited : Type 0 where
  pub code : Code
  pub oom_reported : Bool
  pub delete_called : Bool

abbrev pub is_alive : Code → Bool
is_alive failed = false
is_alive done = false
is_alive alive = true

unfoldable pub delete_if_exited : Inspected → Replies → Exited
unfolding check_container_if_oomkilled same_text
delete_if_exited inspect_failed r = record {
  code = failed;
  oom_reported = false;
  delete_called = false;
}
delete_if_exited no_element r = record { code = alive; oom_reported = false; delete_called = false }
delete_if_exited (element text) r =
    if same_text exited_text text || same_text false_text text
    then record {
      code = r.deletion;
      oom_reported = is_alive (check_container_if_oomkilled r.oom);
      delete_called = true;
    }
    else record {
      code = if same_text unexist_text text then done else alive;
      oom_reported = false;
      delete_called = false;
    }

unfoldable pub delete_backend_if_exited : Replies → Exited
unfolding delete_if_exited
delete_backend_if_exited r = delete_if_exited r.status r
