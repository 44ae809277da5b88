-- ===== src/Configuration/Runtime/Guarded/Whole.antt =====
-- The runtimes of the table after parse_runtime_configuration of src/plc_configuration.c.
use plcontainer.Common.{ℕ, refl, Option, none, some, List, [], ◌∷◌, not, ◌&&◌, ◌==◌, arith}
use plcontainer.Configuration.Runtime.{
  codes, XmlElement, SharedDir, RuntimeConf, new_conf, PlcBackend, DeviceRequest, Server, accepted,
  null,
}
use plcontainer.Configuration.Runtime.Setting.{is_some}
use plcontainer.Configuration.Runtime.Read.{
  Kind, id, image, command, setting, shared_directory, device_request, backend, unknown, kind,
  Reading, take_plcbackend_byname, is_remote, set_backend, read_backend, read_kind, read_children,
  check_counts, read_shared_dirs, read_device_requests, with_devices, apply_default, finish_conf,
  parse_conf,
}
use plcontainer.Configuration.Runtime.Outcomes.{
  Holds, holds, skips, bind_parsed-Holds, if_Holds, true-Holds,
}
use plcontainer.Configuration.Runtime.Guarded.{IsGuarded, read_setting-IsGuarded}

new_conf-IsGuarded : (name : List ℕ) → IsGuarded (new_conf name)
new_conf-IsGuarded name = record {
  memory = omega arith;
  cpu = omega arith;
  network = λ e. cc;
  roles = λ v e. cc;
  devices = λ d ds e. cc;
}

abbrev Reads : Reading → Type 0
Reads r = IsGuarded r.conf

-- The fields that the guard is not about.
unguarded :
    (c : RuntimeConf) (i j : Option (List ℕ)) (b : Option PlcBackend) (dirs : List SharedDir)
    → IsGuarded c
    → IsGuarded (record c { image = i; command = j; backend = b; shared_dirs = dirs })
unguarded c i j b dirs g = record {
  memory = g.memory;
  cpu = g.cpu;
  network = g.network;
  roles = g.roles;
  devices = g.devices;
}

set_backend-Reads : (b : Option PlcBackend) (r : Reading) → Reads r → Holds Reads (set_backend b r)
unfolding set_backend
set_backend-Reads none r g = skips
set_backend-Reads (some b) r g =
    if_Holds Reads (not r.conf.enable_network && is_remote b.tag) _ _ skips
      (holds (unguarded r.conf r.conf.image r.conf.command (some b) r.conf.shared_dirs g))

read_backend-Reads :
    (srv : Server) (name : Option (List ℕ)) (r : Reading)
    → Reads r
    → Holds Reads (read_backend srv name r)
unfolding read_backend
read_backend-Reads srv none r g = skips
read_backend-Reads srv (some name) r g =
    set_backend-Reads (take_plcbackend_byname name srv.backends) r g

read_kind-Reads :
    (srv : Server) (k : Kind) (e : XmlElement) (r : Reading)
    → Reads r
    → Holds Reads (read_kind srv k e r)
unfolding read_kind
read_kind-Reads srv id e r g = holds g
read_kind-Reads srv image e r g =
    holds (unguarded r.conf (some e.content) r.conf.command r.conf.backend r.conf.shared_dirs g)
read_kind-Reads srv command e r g =
    holds (unguarded r.conf r.conf.image (some e.content) r.conf.backend r.conf.shared_dirs g)
read_kind-Reads srv setting e r g =
    bind_parsed-Holds IsGuarded Reads _ _ (read_setting-IsGuarded srv e r.conf g) (λ c h. holds h)
read_kind-Reads srv shared_directory e r g = holds g
read_kind-Reads srv device_request e r g =
    if_Holds Reads (is_some (e.prop (codes "type"))) (accepted r) _ (holds g) skips
read_kind-Reads srv backend e r g = read_backend-Reads srv (e.prop (codes "name")) r g
read_kind-Reads srv unknown e r g = skips

read_children-Reads :
    (srv : Server) (es : List XmlElement) (r : Reading)
    → Reads r
    → Holds Reads (read_children srv es r)
unfolding read_children
read_children-Reads srv [] r g = holds g
read_children-Reads srv (e ∷ es) r g =
    if_Holds Reads e.is_element _ _
      (bind_parsed-Holds Reads Reads _ _
        (read_kind-Reads srv (kind e) e (record r { value = null }) g)
        (λ s h. read_children-Reads srv es s h))
      (read_children-Reads srv es r g)

with_devices-IsGuarded :
    (ds : List DeviceRequest) (c : RuntimeConf) → IsGuarded c → IsGuarded (with_devices ds c)
with_devices-IsGuarded [] c g = record {
  memory = g.memory;
  cpu = g.cpu;
  network = g.network;
  roles = g.roles;
  devices = λ d ds e. cc;
}
with_devices-IsGuarded (d ∷ ds) c g = record {
  memory = g.memory;
  cpu = g.cpu;
  network = λ e. refl;
  roles = λ v e. refl;
  devices = λ x xs e. refl;
}

check_counts-Reads : (r : Reading) → Reads r → Holds Reads (check_counts r)
unfolding check_counts
check_counts-Reads r g =
    if_Holds Reads (not (r.image_num == 1)) _ _ skips
      (if_Holds Reads (not (r.command_num == 1)) _ (accepted r) skips (holds g))

finish_conf-IsGuarded :
    (srv : Server) (es : List XmlElement) (r : Reading)
    → Reads r
    → Holds IsGuarded (finish_conf srv es r)
unfolding finish_conf
finish_conf-IsGuarded srv es r0 g0 =
    bind_parsed-Holds Reads IsGuarded _ _ (check_counts-Reads r0 g0) (λ r g.
      bind_parsed-Holds (λ a. Unit {0}) IsGuarded _ _ (true-Holds (read_shared_dirs es []))
        (λ dirs u. holds (
          with_devices-IsGuarded (read_device_requests es) _ (
            unguarded r.conf r.conf.image r.conf.command (apply_default srv.backends r.conf.backend)
              dirs g))))

pub parse_conf-IsGuarded :
    (srv : Server) (name : List ℕ) (es : List XmlElement) → Holds IsGuarded (parse_conf srv name es)
unfolding parse_conf
parse_conf-IsGuarded srv name es =
    bind_parsed-Holds Reads IsGuarded _ _ (read_children-Reads srv es _ (new_conf-IsGuarded name))
      (finish_conf-IsGuarded srv es)
