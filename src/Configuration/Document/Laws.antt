-- ===== src/Configuration/Document/Laws.antt =====
-- Which runtimes plc_get_runtime_configuration of src/plc_configuration.c can return.
use plcontainer.Common.{
  ℕ, Bool, ◌≡◌, refl, ap, subst, inl, inr, Bool-cases, ◌&&◌, Option, none, some, List, [], ◌∷◌,
  take,
}
use plcontainer.Container.Backend.{same_text}
use plcontainer.Configuration.Runtime.{
  codes, RuntimeConf, Server, Complaint, HeldValue, Parsed, accepted, refused, XmlElement,
  PlcBackend,
}
use plcontainer.Configuration.Runtime.Read.{parse_conf, parse_runtime_configuration}
use plcontainer.Configuration.Runtime.Outcomes.{Holds, holds, skips}
use plcontainer.Configuration.Runtime.Guarded.Whole.{parse_conf-IsGuarded}
use plcontainer.Configuration.Runtime.Tables.{Each, parse_runtime_configuration-Each}
use plcontainer.Configuration.Document.Backed.{IsBacked, parse_conf-IsBacked}
use plcontainer.Configuration.Runtime.Guarded.{IsGuarded}
use plcontainer.Configuration.Document.{
  add_default, TopNode, Refreshed, refreshed, wrong_root, no_runtime, broken, refreshed_table,
  after_runtime, after_runtimes, parse_runtimes, get_runtime_configurations, hash_find,
  plc_get_runtime_configuration,
}

abbrev or_else : RuntimeConf → Option RuntimeConf → RuntimeConf
or_else c none = c
or_else c (some d) = d

module _ (P : RuntimeConf → Type 0) where
  after_runtimes-Each :
      (table : List RuntimeConf) → Each P table → Each P (refreshed_table (after_runtimes table))
  after_runtimes-Each [] g = tt
  after_runtimes-Each (c ∷ table) g = g

  after_runtime-Each :
      (rest : List RuntimeConf → Refreshed) (t : List RuntimeConf) (v : HeldValue)
      (error : Option Complaint)
      → ((t : List RuntimeConf) → Each P t → Each P (refreshed_table (rest t)))
      → Each P t
      → Each P (refreshed_table (after_runtime rest t v error))
  after_runtime-Each rest t v none r g = r t g
  after_runtime-Each rest t v (some why) r g = g

  parse_runtimes-Each :
      (srv : Server) (p : (name : List ℕ) (es : List XmlElement) → Holds P (parse_conf srv name es))
      (ns : List TopNode) (table : List RuntimeConf)
      → Each P table
      → Each P (refreshed_table (parse_runtimes srv table ns))
  unfolding parse_runtimes
  parse_runtimes-Each srv p [] table g = after_runtimes-Each table g
  parse_runtimes-Each srv p (n ∷ ns) table g =
      elim (Bool-cases (n.is_element && same_text n.name (codes "runtime"))) [
        | inl e ↦ rw e (
            after_runtime-Each (λ t. parse_runtimes srv t ns)
              (parse_runtime_configuration srv table n.children).table
              (parse_runtime_configuration srv table n.children).value
              (parse_runtime_configuration srv table n.children).error
              (λ t h. parse_runtimes-Each srv p ns t h)
              (parse_runtime_configuration-Each P srv p table n.children g))
        | inr e ↦ rw e (parse_runtimes-Each srv p ns table g)
      ]

  get_runtime_configurations-Each :
      (srv : Server) (p : (name : List ℕ) (es : List XmlElement) → Holds P (parse_conf srv name es))
      (root : List ℕ) (ns : List TopNode)
      → Each P (refreshed_table (get_runtime_configurations srv root ns))
  unfolding get_runtime_configurations
  get_runtime_configurations-Each srv p root ns =
      elim (Bool-cases (same_text root (codes "configuration"))) [
        | inl e ↦ rw e (parse_runtimes-Each srv p ns [] tt)
        | inr e ↦ rw e tt
      ]

  found : (c d : RuntimeConf) → P c → some c ≡ some d → P d
  found c d g e = subst P (ap (or_else c) e) g

  hash_find-Each :
      (name : List ℕ) (table : List RuntimeConf) (c : RuntimeConf)
      → Each P table
      → hash_find name table ≡ some c
      → P c
  unfolding hash_find
  hash_find-Each name [] c g e = cc
  hash_find-Each name (d ∷ table) c g e = elim (Bool-cases (same_text name d.runtimeid)) [
    | inl f ↦ found d c g.0 (rw⁻¹ e (rw f refl))
    | inr f ↦ hash_find-Each name table c g.1 (rw⁻¹ e (rw f refl))
  ]

  plc_get_runtime_configuration-Each :
      (refresh : Refreshed) (name : List ℕ) (table : List RuntimeConf) (c : RuntimeConf)
      → Each P (refreshed_table refresh)
      → Each P table
      → plc_get_runtime_configuration refresh name table ≡ some c
      → P c
  unfolding plc_get_runtime_configuration
  plc_get_runtime_configuration-Each refresh name (d ∷ table) c r g e =
      hash_find-Each (take 63 name) (d ∷ table) c g e
  plc_get_runtime_configuration-Each (refreshed table) name [] c r g e =
      hash_find-Each (take 63 name) table c r e
  plc_get_runtime_configuration-Each wrong_root name [] c r g e = cc
  plc_get_runtime_configuration-Each no_runtime name [] c r g e = cc
  plc_get_runtime_configuration-Each (broken why v table) name [] c r g e = cc

both :
    {A : Type 0} (P Q : A → Type 0) (m : Parsed A)
    → Holds P m
    → Holds Q m
    → Holds (λ a. P a × Q a) m
both P Q (accepted a) (holds p) (holds q) = holds (p, q)
both P Q (refused why v) p q = skips

abbrev IsComplete : RuntimeConf → Type 0
IsComplete c = IsGuarded c × IsBacked c

parse_conf-IsComplete :
    (srv : Server) (by_process : Bool) (bs : List PlcBackend)
    → srv.backends ≡ add_default by_process bs
    → (name : List ℕ) (es : List XmlElement) → Holds IsComplete (parse_conf srv name es)
parse_conf-IsComplete srv by_process bs table name es =
    both IsGuarded IsBacked (parse_conf srv name es) (parse_conf-IsGuarded srv name es)
      (parse_conf-IsBacked srv by_process bs table name es)

-- Whatever the document that was read before and the one of a refresh hold, and whether or not they
-- are refused, a runtime that plc_get_runtime_configuration finds has limits of memory and of CPU
-- that are positive, the control of its users if it has a network, roles or devices, and a backend.
-- The tables of backends begin with the default one.
pub plc_get_runtime_configuration-IsGuarded :
    (srv srv2 : Server) (by_process : Bool) (bs bs2 : List PlcBackend) (root root2 : List ℕ)
    (ns ns2 : List TopNode) (name : List ℕ) (c : RuntimeConf)
    → srv.backends ≡ add_default by_process bs
    → srv2.backends ≡ add_default by_process bs2
    → plc_get_runtime_configuration
        (get_runtime_configurations srv2 root2 ns2)
        name
        (refreshed_table (get_runtime_configurations srv root ns))
      ≡ some c
    → IsGuarded c × IsBacked c
plc_get_runtime_configuration-IsGuarded srv srv2 by_process bs bs2 root root2 ns ns2 name c b b2 e =
    plc_get_runtime_configuration-Each IsComplete (get_runtime_configurations srv2 root2 ns2) name
      (refreshed_table (get_runtime_configurations srv root ns)) c
      (get_runtime_configurations-Each IsComplete srv2
        (parse_conf-IsComplete srv2 by_process bs2 b2) root2 ns2)
      (get_runtime_configurations-Each IsComplete srv (parse_conf-IsComplete srv by_process bs b)
        root ns)
      e
