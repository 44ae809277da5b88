-- ===== src/Configuration/Runtime/Guarded.antt =====
-- Every runtime of the table has limits, and the control of its users where it gives them more than a
-- container: the element `setting`.
pub mod Whole
use plcontainer.Common.{
  ℕ, zero, suc, ◌<◌, ◌≡◌, ◌≢◌, refl, inl, inr, Bool, Bool-cases, true, false, Option, none, some,
  List, [], ◌∷◌, ltb, not, ◌&&◌, ◌||◌, ◌==◌, if◌then◌else◌, arith,
}
use plcontainer.Container.Backend.{same_text}
use plcontainer.Configuration.Runtime.{
  codes, XmlElement, RuntimeConf, new_conf, PlcBackend, DeviceRequest, Atoi, not_a_number,
  below_zero, number, Server, Complaint, HeldValue, Parsed, accepted, refused, bind_parsed, null,
}
use plcontainer.Configuration.Runtime.Outcomes.{Holds, holds, skips, bind_parsed-Holds, if_Holds}
use plcontainer.Configuration.Runtime.Setting.{
  yes_no, set_logging, set_memory, set_cpu_share, set_network, check_group, set_group, read_group,
  set_roles, when_some, valid_setting, read_setting, read_logging, read_memory, read_cpu_share,
  read_network, read_resource_group, read_roles, check_valid,
}
use plcontainer.Configuration.Runtime.Read.{
  Kind, id, image, command, setting, shared_directory, device_request, backend, unknown, kind, Ids,
  no_ids, one_id, second_id, read_id, Reading, take_plcbackend_byname, is_remote, set_backend,
  read_backend, read_kind, read_children, check_counts, read_shared_dirs, read_device_requests,
  with_devices, apply_default, finish_conf, parse_conf, has_runtime, remove_runtime, Entered,
  parse_named, parse_runtime_configuration,
}

-- Limits that are not 0, and the control of users with a network, with roles and with devices.
pub record IsGuarded (c : RuntimeConf) : Type 0 where
  pub memory : 0 < c.memory_mb
  pub cpu : 0 < c.cpu_share
  pub network : c.enable_network ≡ true → c.use_user_control ≡ true
  pub roles : (v : List ℕ) → c.roles ≡ some v → c.use_user_control ≡ true
  pub devices :
      (d : DeviceRequest) (ds : List DeviceRequest)
      → c.device_requests ≡ d ∷ ds
      → c.use_user_control ≡ true

set_logging-IsGuarded :
    (b : Option Bool) (c : RuntimeConf) → IsGuarded c → Holds IsGuarded (set_logging b c)
unfolding set_logging
set_logging-IsGuarded none c g = skips
set_logging-IsGuarded (some b) c g = holds (record {
  memory = g.memory;
  cpu = g.cpu;
  network = g.network;
  roles = g.roles;
  devices = g.devices;
})

set_memory-IsGuarded : (n : Atoi) (c : RuntimeConf) → IsGuarded c → Holds IsGuarded (set_memory n c)
unfolding set_memory
set_memory-IsGuarded not_a_number c g = skips
set_memory-IsGuarded (below_zero n) c g = skips
set_memory-IsGuarded (number zero) c g = skips
set_memory-IsGuarded (number (suc n)) c g = holds (record {
  memory = omega arith;
  cpu = g.cpu;
  network = g.network;
  roles = g.roles;
  devices = g.devices;
})

set_cpu_share-IsGuarded :
    (n : Atoi) (c : RuntimeConf) → IsGuarded c → Holds IsGuarded (set_cpu_share n c)
unfolding set_cpu_share
set_cpu_share-IsGuarded not_a_number c g = skips
set_cpu_share-IsGuarded (below_zero n) c g = skips
set_cpu_share-IsGuarded (number zero) c g = skips
set_cpu_share-IsGuarded (number (suc n)) c g = holds (record {
  memory = g.memory;
  cpu = omega arith;
  network = g.network;
  roles = g.roles;
  devices = g.devices;
})

set_network-IsGuarded :
    (b : Option Bool) (c : RuntimeConf) → IsGuarded c → Holds IsGuarded (set_network b c)
unfolding set_network
set_network-IsGuarded none c g = skips
set_network-IsGuarded (some true) c g = holds (record {
  memory = g.memory;
  cpu = g.cpu;
  network = λ e. refl;
  roles = λ v e. refl;
  devices = λ d ds e. refl;
})
set_network-IsGuarded (some false) c g = holds (record {
  memory = g.memory;
  cpu = g.cpu;
  network = λ e. cc;
  roles = g.roles;
  devices = g.devices;
})

check_group-IsGuarded :
    (srv : Server) (oid : ℕ) (c : RuntimeConf)
    → IsGuarded c
    → Holds IsGuarded (check_group srv oid c)
unfolding check_group
check_group-IsGuarded srv oid c g =
    if_Holds IsGuarded ((oid == 0) || not (srv.is_group oid) || not (srv.has_cgroup_auditor oid)) _
      _ skips
      (holds (record {
        memory = g.memory;
        cpu = g.cpu;
        network = g.network;
        roles = g.roles;
        devices = g.devices;
      }))

set_group-IsGuarded :
    (srv : Server) (n : Atoi) (c : RuntimeConf) → IsGuarded c → Holds IsGuarded (set_group srv n c)
unfolding set_group
set_group-IsGuarded srv not_a_number c g = skips
set_group-IsGuarded srv (below_zero n) c g = check_group-IsGuarded srv _ c g
set_group-IsGuarded srv (number n) c g = check_group-IsGuarded srv n c g

read_group-IsGuarded :
    (srv : Server) (v : List ℕ) (c : RuntimeConf)
    → IsGuarded c
    → Holds IsGuarded (read_group srv v c)
unfolding read_group
read_group-IsGuarded srv [] c g = skips
read_group-IsGuarded srv (d ∷ v) c g = set_group-IsGuarded srv (srv.pg_atoi (d ∷ v)) c g

set_roles-IsGuarded : (v : List ℕ) (c : RuntimeConf) → IsGuarded c → Holds IsGuarded (set_roles v c)
unfolding set_roles
set_roles-IsGuarded [] c g = skips
set_roles-IsGuarded (d ∷ v) c g = holds (record {
  memory = g.memory;
  cpu = g.cpu;
  network = λ e. refl;
  roles = λ w e. refl;
  devices = λ x xs e. refl;
})

when_some-IsGuarded :
    (v : Option (List ℕ)) (set : List ℕ → RuntimeConf → Parsed RuntimeConf)
    → ((w : List ℕ) (c : RuntimeConf) → IsGuarded c → Holds IsGuarded (set w c))
    → (c : RuntimeConf) → IsGuarded c
    → Holds IsGuarded (when_some v set c)
unfolding when_some
when_some-IsGuarded none set s c g = holds g
when_some-IsGuarded (some v) set s c g = s v c g

check_valid-IsGuarded :
    (e : XmlElement) (c : RuntimeConf) → IsGuarded c → Holds IsGuarded (check_valid e c)
unfolding check_valid
check_valid-IsGuarded e c g = if_Holds IsGuarded (valid_setting e) (accepted c) _ (holds g) skips

bind_parsed-IsGuarded :
    (f : RuntimeConf → Parsed RuntimeConf)
    → ((c : RuntimeConf) → IsGuarded c → Holds IsGuarded (f c))
    → (m : Parsed RuntimeConf) → Holds IsGuarded m
    → Holds IsGuarded (bind_parsed m f)
bind_parsed-IsGuarded f p m h = bind_parsed-Holds IsGuarded IsGuarded m f h p

pub read_setting-IsGuarded :
    (srv : Server) (e : XmlElement) (c : RuntimeConf)
    → IsGuarded c
    → Holds IsGuarded (read_setting srv e c)
unfolding read_setting read_logging read_memory read_cpu_share read_network read_resource_group
    read_roles
read_setting-IsGuarded srv e c g =
    bind_parsed-IsGuarded (check_valid e) (check_valid-IsGuarded e) _ (
      bind_parsed-IsGuarded (read_roles e) (when_some-IsGuarded _ set_roles set_roles-IsGuarded) _ (
        bind_parsed-IsGuarded (read_resource_group srv e)
          (when_some-IsGuarded _ (read_group srv) (read_group-IsGuarded srv)) _
          (bind_parsed-IsGuarded (read_network e)
            (when_some-IsGuarded (e.prop (codes "enable_network")) (λ v. set_network (yes_no v))
              (λ v. set_network-IsGuarded (yes_no v)))
            _
            (bind_parsed-IsGuarded (read_cpu_share srv e)
              (when_some-IsGuarded _ (λ v. set_cpu_share (srv.pg_atoi v))
                (λ v. set_cpu_share-IsGuarded (srv.pg_atoi v)))
              _
              (bind_parsed-IsGuarded (read_memory srv e)
                (when_some-IsGuarded _ (λ v. set_memory (srv.pg_atoi v))
                  (λ v. set_memory-IsGuarded (srv.pg_atoi v)))
                _
                (when_some-IsGuarded (e.prop (codes "use_container_logging"))
                  (λ v. set_logging (yes_no v)) (λ v. set_logging-IsGuarded (yes_no v)) c g))))))
