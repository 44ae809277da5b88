-- ===== src/Configuration/Runtime/Freed.antt =====
-- What PG_CATCH of parse_runtime_configuration of src/plc_configuration.c frees twice.
use plcontainer.Common.{
  ℕ, ◌≡◌, refl, ap, ◌∙◌, sym, true, false, not, ◌&&◌, Option, none, some, List, [], ◌∷◌, ◌++◌, ◌==◌,
}
use plcontainer.Configuration.Runtime.{
  codes, XmlElement, new_conf, PlcBackend, Server, HeldValue, null, freed, images, Parsed, accepted,
  refused, bind_parsed,
}
use plcontainer.Configuration.Runtime.Outcomes.{
  Holds, holds, skips, bind_parsed-Holds, if_Holds, true-Holds,
}
use plcontainer.Configuration.Runtime.Read.{
  backend, kind, Reading, take_plcbackend_byname, is_remote, set_backend, read_backend, read_kind,
  read_children, check_counts, finish_conf, parse_conf,
}

abbrev IsFreed : Reading → Type 0
IsFreed r = r.value ≡ freed

set_backend-IsFreed : (b : Option PlcBackend) (r : Reading) → Holds IsFreed (set_backend b r)
unfolding set_backend
set_backend-IsFreed none r = skips
set_backend-IsFreed (some b) r =
    if_Holds IsFreed (not r.conf.enable_network && is_remote b.tag) _ _ skips (holds refl)

read_backend-IsFreed :
    (srv : Server) (name : Option (List ℕ)) (r : Reading) → Holds IsFreed (read_backend srv name r)
unfolding read_backend
read_backend-IsFreed srv none r = skips
read_backend-IsFreed srv (some name) r =
    set_backend-IsFreed (take_plcbackend_byname name srv.backends) r

-- A last child that is the element `backend`.
pub record IsLastBackend (b : XmlElement) : Type 0 where
  pub element : b.is_element ≡ true
  pub named : kind b ≡ backend

last_backend-IsFreed :
    (srv : Server) (b : XmlElement) (r : Reading)
    → IsLastBackend b
    → Holds IsFreed (read_children srv (b ∷ []) r)
unfolding read_children read_kind
last_backend-IsFreed srv b r last =
    rw (last.element, last.named)
      (bind_parsed-Holds IsFreed IsFreed _ _ (read_backend-IsFreed srv (b.prop (codes "name")) _)
        (λ s h. holds h))

read_children-IsFreed :
    (srv : Server) (es : List XmlElement) (b : XmlElement) (r : Reading)
    → IsLastBackend b
    → Holds IsFreed (read_children srv (es ++ (b ∷ [])) r)
unfolding read_children
read_children-IsFreed srv [] b r last = last_backend-IsFreed srv b r last
read_children-IsFreed srv (e ∷ es) b r last =
    if_Holds IsFreed e.is_element _ _
      (bind_parsed-Holds (λ s. Unit {0}) IsFreed _ _ (true-Holds (read_kind srv (kind e) e _))
        (λ s u. read_children-IsFreed srv es b s last))
      (read_children-IsFreed srv es b r last)

abbrev value_of : Parsed Reading → HeldValue
value_of (accepted r) = r.value
value_of (refused why v) = v

accepted-IsFreed : (m : Parsed Reading) (r : Reading) → Holds IsFreed m → m ≡ accepted r → IsFreed r
accepted-IsFreed (accepted s) r (holds h) e = ap value_of (sym e) ∙ h
accepted-IsFreed (refused c v) r h e = cc

abbrev pub start : List ℕ → Reading
start name = record { image_num = 0; command_num = 0; value = null; conf = new_conf name }

-- If the last child of a runtime is the element `backend`, every child can be read, and the number of
-- images is not 1, then the error about the images is thrown while `value` points to the name of
-- the backend that was freed, and PG_CATCH frees it again.
pub parse_conf-frees_twice :
    (srv : Server) (name : List ℕ) (es : List XmlElement) (b : XmlElement) (r : Reading)
    → IsLastBackend b
    → read_children srv (es ++ (b ∷ [])) (start name) ≡ accepted r
    → (r.image_num == 1) ≡ false
    → parse_conf srv name (es ++ (b ∷ [])) ≡ refused images freed
unfolding parse_conf finish_conf check_counts bind_parsed
parse_conf-frees_twice srv name es b r last reads several =
    rw (reads, several)
      (ap (refused images)
        (accepted-IsFreed _ r (read_children-IsFreed srv es b (start name) last) reads))
