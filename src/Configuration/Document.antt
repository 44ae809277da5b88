-- ===== src/Configuration/Document.antt =====
-- The document of the configuration: get_runtime_configurations of src/plc_configuration.c, the
-- backend that is added to the table of backends, and the search for a runtime.
pub mod Backed
pub mod Laws
use plcontainer.Common.{
  ℕ, Bool, true, false, not, ◌&&◌, Option, none, some, List, [], ◌∷◌, take, if◌then◌else◌,
}
use plcontainer.Container.Backend.{same_text}
use plcontainer.Configuration.Runtime.{
  codes, XmlElement, Tag, docker, process, PlcBackend, RuntimeConf, Server, Complaint, HeldValue,
}
use plcontainer.Configuration.Runtime.Read.{Entered, parse_runtime_configuration}

-- The end of parse_runtime_backend_configuration.
abbrev pub add_default : Bool → List PlcBackend → List PlcBackend
add_default by_process bs =
    record { name = codes "default"; tag = if by_process then process else docker } ∷ bs

-- A child of the root.
pub record TopNode : Type 0 where
  pub is_element : Bool
  pub name : List ℕ
  pub children : List XmlElement

-- The table is left as it is by an error.
pub data Refreshed : Type 0 where
  refreshed : List RuntimeConf → Refreshed
  wrong_root : Refreshed
  no_runtime : Refreshed
  broken : Complaint → HeldValue → List RuntimeConf → Refreshed

abbrev pub refreshed_table : Refreshed → List RuntimeConf
refreshed_table (refreshed table) = table
refreshed_table wrong_root = []
refreshed_table no_runtime = []
refreshed_table (broken why v table) = table

abbrev pub after_runtime :
    (List RuntimeConf → Refreshed) → List RuntimeConf → HeldValue → Option Complaint → Refreshed
after_runtime rest table v none = rest table
after_runtime rest table v (some why) = broken why v table

-- `hash_get_num_entries` after the loop
abbrev pub after_runtimes : List RuntimeConf → Refreshed
after_runtimes [] = no_runtime
after_runtimes (c ∷ table) = refreshed (c ∷ table)

unfoldable pub parse_runtimes : Server → List RuntimeConf → List TopNode → Refreshed
unfolding parse_runtime_configuration same_text
parse_runtimes srv table [] = after_runtimes table
parse_runtimes srv table (n ∷ ns) =
    let skipped = parse_runtimes srv table ns in
    let e = parse_runtime_configuration srv table n.children in
    let read = after_runtime (λ t. parse_runtimes srv t ns) e.table e.value e.error in
    if n.is_element && same_text n.name (codes "runtime") then read else skipped

-- The table is empty before.
unfoldable pub get_runtime_configurations : Server → List ℕ → List TopNode → Refreshed
unfolding parse_runtimes same_text
get_runtime_configurations srv root ns =
    if same_text root (codes "configuration") then parse_runtimes srv [] ns else wrong_root

-- `hash_search` with HASH_FIND
unfoldable pub hash_find : List ℕ → List RuntimeConf → Option RuntimeConf
unfolding same_text
hash_find name [] = none
hash_find name (c ∷ table) =
    let rest = hash_find name table in if same_text name c.runtimeid then some c else rest

-- `refresh` is what a refresh of the configuration leaves; an error of it goes up.
unfoldable pub plc_get_runtime_configuration :
    Refreshed → List ℕ → List RuntimeConf → Option RuntimeConf
unfolding hash_find
plc_get_runtime_configuration refresh name (c ∷ table) = hash_find (take 63 name) (c ∷ table)
plc_get_runtime_configuration (refreshed table) name [] = hash_find (take 63 name) table
plc_get_runtime_configuration wrong_root name [] = none
plc_get_runtime_configuration no_runtime name [] = none
plc_get_runtime_configuration (broken why v table) name [] = none
