-- ===== src/Configuration/Runtime/Tables.antt =====
-- What every runtime has that parse_conf accepts, every runtime of the table of
-- src/plc_configuration.c has.
use plcontainer.Common.{ℕ, inl, inr, Bool-cases, none, List, [], ◌∷◌, length, take, ltb}
use plcontainer.Container.Backend.{same_text}
use plcontainer.Configuration.Runtime.{
  XmlElement, RuntimeConf, Server, Parsed, accepted, refused, null, long_id, duplicate_runtime,
  duplicate_id,
}
use plcontainer.Configuration.Runtime.Read.{
  Ids, no_ids, one_id, second_id, read_id, parse_conf, has_runtime, remove_runtime, entered,
  after_id, parse_named, parse_runtime_configuration,
}
use plcontainer.Configuration.Runtime.Outcomes.{Holds, holds, skips}

abbrev pub Each : (RuntimeConf → Type 0) → List RuntimeConf → Type 0
Each P [] = Unit {0}
Each P (c ∷ table) = P c × Each P table

module _ (P : RuntimeConf → Type 0) (srv : Server)
    (p : (name : List ℕ) (es : List XmlElement) → Holds P (parse_conf srv name es)) where
  remove_runtime-Each :
      (name : List ℕ) (table : List RuntimeConf) → Each P table → Each P (remove_runtime name table)
  unfolding remove_runtime
  remove_runtime-Each name [] g = tt
  remove_runtime-Each name (c ∷ table) g = elim (Bool-cases (same_text name c.runtimeid)) [
    | inl e ↦ rw e (remove_runtime-Each name table g.1)
    | inr e ↦ rw e (g.0, remove_runtime-Each name table g.1)
  ]

  entered-Each :
      (name : List ℕ) (table : List RuntimeConf) (m : Parsed RuntimeConf)
      → Each P table
      → Holds P m
      → Each P (entered name table m).table
  unfolding entered
  entered-Each name table (accepted c) g (holds h) = (h, g)
  entered-Each name table (refused why v) g h = remove_runtime-Each (take 63 name) table g

  parse_named-Each :
      (table : List RuntimeConf) (name : List ℕ) (es : List XmlElement)
      → Each P table
      → Each P (parse_named srv table name es).table
  unfolding parse_named
  parse_named-Each table name es g = elim (Bool-cases (ltb 63 (length name))) [
    | inl e ↦ rw e (entered-Each name table (refused long_id null) g skips)
    | inr e ↦ rw e (elim (Bool-cases (has_runtime name table)) [
      | inl f ↦ rw f (entered-Each name table (refused duplicate_runtime null) g skips)
      | inr f ↦ rw f (entered-Each name table (parse_conf srv name es) g (p name es))
    ])
  ]

  after_id-Each :
      (table : List RuntimeConf) (es : List XmlElement) (ids : Ids)
      → Each P table
      → Each P (after_id srv table es ids).table
  unfolding after_id
  after_id-Each table es no_ids g = g
  after_id-Each table es (one_id name) g = parse_named-Each table name es g
  after_id-Each table es (second_id name) g =
      entered-Each name table (refused duplicate_id null) g skips

  pub parse_runtime_configuration-Each :
      (table : List RuntimeConf) (es : List XmlElement)
      → Each P table
      → Each P (parse_runtime_configuration srv table es).table
  unfolding parse_runtime_configuration
  parse_runtime_configuration-Each table es g = after_id-Each table es (read_id none es) g
