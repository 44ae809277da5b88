-- ===== src/Configuration/Runtime/Setting.antt =====
-- The element `setting` of a runtime.
use plcontainer.Common.{
  ℕ, zero, suc, ◌-◌, ◌^◌, Bool, true, false, not, ◌||◌, Option, none, some, List, [], ◌∷◌, ◌==◌,
  if◌then◌else◌,
}
use plcontainer.Container.Backend.{same_text}
use plcontainer.Configuration.Runtime.{
  codes, same_word, XmlElement, RuntimeConf, Atoi, not_a_number, below_zero, number, Server,
  bad_number, bad_logging, bad_memory, bad_cpu_share, bad_network, bad_resource_group, empty_roles,
  no_setting, live, null, Parsed, accepted, refused, bind_parsed,
}

-- "yes" or "no"
unfoldable pub yes_no : List ℕ → Option Bool
unfolding same_text
yes_no v =
    if same_word v (codes "yes")
    then some true
    else if same_word v (codes "no")
    then some false
    else none

unfoldable pub set_logging : Option Bool → RuntimeConf → Parsed RuntimeConf
set_logging none c = refused bad_logging live
set_logging (some b) c = accepted (record c { use_container_logging = b })

unfoldable pub set_memory : Atoi → RuntimeConf → Parsed RuntimeConf
set_memory not_a_number c = refused bad_number live
set_memory (below_zero n) c = refused bad_memory live
set_memory (number zero) c = refused bad_memory live
set_memory (number (suc n)) c = accepted (record c { memory_mb = suc n })

unfoldable pub set_cpu_share : Atoi → RuntimeConf → Parsed RuntimeConf
set_cpu_share not_a_number c = refused bad_number live
set_cpu_share (below_zero n) c = refused bad_cpu_share live
set_cpu_share (number zero) c = refused bad_cpu_share live
set_cpu_share (number (suc n)) c = accepted (record c { cpu_share = suc n })

-- A network needs the user control; without one the control is left as it is.
unfoldable pub set_network : Option Bool → RuntimeConf → Parsed RuntimeConf
set_network none c = refused bad_network live
set_network (some true) c = accepted (record c { enable_network = true; use_user_control = true })
set_network (some false) c = accepted (record c { enable_network = false })

-- The conversion to `Oid` wraps a negative number around.
unfoldable pub check_group : Server → ℕ → RuntimeConf → Parsed RuntimeConf
check_group srv oid c =
    if (oid == 0) || not (srv.is_group oid) || not (srv.has_cgroup_auditor oid)
    then refused bad_resource_group live
    else accepted (record c { resgroup_oid = oid })

unfoldable pub set_group : Server → Atoi → RuntimeConf → Parsed RuntimeConf
unfolding check_group
set_group srv not_a_number c = refused bad_number live
set_group srv (below_zero n) c = check_group srv (2 ^ 32 - n) c
set_group srv (number n) c = check_group srv n c

unfoldable pub read_group : Server → List ℕ → RuntimeConf → Parsed RuntimeConf
unfolding set_group
read_group srv [] c = refused bad_resource_group live
read_group srv (d ∷ v) c = set_group srv (srv.pg_atoi (d ∷ v)) c

unfoldable pub set_roles : List ℕ → RuntimeConf → Parsed RuntimeConf
set_roles [] c = refused empty_roles live
set_roles (d ∷ v) c = accepted (record c { roles = some (d ∷ v); use_user_control = true })

-- Where the property is there, `set` reads it.
unfoldable pub when_some :
    Option (List ℕ) → (List ℕ → RuntimeConf → Parsed RuntimeConf) → RuntimeConf → Parsed RuntimeConf
when_some none set c = accepted c
when_some (some v) set c = set v c

abbrev pub is_some : Option (List ℕ) → Bool
is_some none = false
is_some (some v) = true

-- `validSetting`
unfoldable pub valid_setting : XmlElement → Bool
valid_setting e =
    is_some (e.prop (codes "use_container_logging"))
    || is_some (e.prop (codes "memory_mb"))
    || is_some (e.prop (codes "cpu_share"))
    || is_some (e.prop (codes "enable_network"))
    || is_some (e.prop (codes "resource_group_id"))
    || is_some (e.prop (codes "roles"))

-- One property after the other, in the order of the code.
unfoldable pub read_logging : XmlElement → RuntimeConf → Parsed RuntimeConf
unfolding when_some yes_no set_logging
read_logging e = when_some (e.prop (codes "use_container_logging")) (λ v. set_logging (yes_no v))

unfoldable pub read_memory : Server → XmlElement → RuntimeConf → Parsed RuntimeConf
unfolding when_some set_memory
read_memory srv e = when_some (e.prop (codes "memory_mb")) (λ v. set_memory (srv.pg_atoi v))

unfoldable pub read_cpu_share : Server → XmlElement → RuntimeConf → Parsed RuntimeConf
unfolding when_some set_cpu_share
read_cpu_share srv e = when_some (e.prop (codes "cpu_share")) (λ v. set_cpu_share (srv.pg_atoi v))

unfoldable pub read_network : XmlElement → RuntimeConf → Parsed RuntimeConf
unfolding when_some yes_no set_network
read_network e = when_some (e.prop (codes "enable_network")) (λ v. set_network (yes_no v))

unfoldable pub read_resource_group : Server → XmlElement → RuntimeConf → Parsed RuntimeConf
unfolding when_some read_group
read_resource_group srv e = when_some (e.prop (codes "resource_group_id")) (read_group srv)

unfoldable pub read_roles : XmlElement → RuntimeConf → Parsed RuntimeConf
unfolding when_some set_roles
read_roles e = when_some (e.prop (codes "roles")) set_roles

unfoldable pub check_valid : XmlElement → RuntimeConf → Parsed RuntimeConf
unfolding valid_setting
check_valid e c = if valid_setting e then accepted c else refused no_setting null

unfoldable pub read_setting : Server → XmlElement → RuntimeConf → Parsed RuntimeConf
unfolding bind_parsed read_logging read_memory read_cpu_share read_network read_resource_group
    read_roles check_valid
read_setting srv e c =
    let logged = read_logging e c in
    let limited = bind_parsed (bind_parsed logged (read_memory srv e)) (read_cpu_share srv e) in
    let grouped = bind_parsed (bind_parsed limited (read_network e)) (read_resource_group srv e) in
    bind_parsed (bind_parsed grouped (read_roles e)) (check_valid e)
