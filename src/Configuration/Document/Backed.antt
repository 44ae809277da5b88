-- ===== src/Configuration/Document/Backed.antt =====
-- Every runtime has a backend: the assertion at the end of parse_runtime_configuration of
-- src/plc_configuration.c.
use plcontainer.Common.{ℕ, ◌≡◌, refl, inl, inr, Bool, Bool-cases, Option, none, some, List, [], ◌∷◌}
use plcontainer.Container.Backend.{same_text}
use plcontainer.Configuration.Runtime.{
  codes, XmlElement, RuntimeConf, PlcBackend, DeviceRequest, Server,
}
use plcontainer.Configuration.Runtime.Read.{
  Reading, read_children, check_counts, read_shared_dirs, read_device_requests, with_devices,
  apply_default, default_backend, finish_conf, parse_conf,
}
use plcontainer.Configuration.Runtime.Outcomes.{Holds, holds, bind_parsed-Holds, true-Holds}
use plcontainer.Configuration.Document.{add_default}

pub record IsBacked (c : RuntimeConf) : Type 0 where
  pub plc_backend : PlcBackend
  pub holds_it : c.backend ≡ some plc_backend

default_some :
    (bs : List PlcBackend) (b : PlcBackend)
    → (d : PlcBackend) × (default_backend (some b) bs ≡ some d)
unfolding default_backend
default_some [] b = (b, refl)
default_some (d ∷ bs) b = elim (Bool-cases (same_text d.name (codes "default"))) [
  | inl e ↦ rw e (default_some bs d)
  | inr e ↦ rw e (default_some bs b)
]

apply_default-some :
    (by_process : Bool) (bs : List PlcBackend) (o : Option PlcBackend)
    → (d : PlcBackend) × (apply_default (add_default by_process bs) o ≡ some d)
unfolding apply_default default_backend same_text
apply_default-some by_process bs none = default_some bs _
apply_default-some by_process bs (some b) = (b, refl)

with_devices-IsBacked :
    (ds : List DeviceRequest) (c : RuntimeConf) → IsBacked c → IsBacked (with_devices ds c)
with_devices-IsBacked [] c h = record { plc_backend = h.plc_backend; holds_it = h.holds_it }
with_devices-IsBacked (d ∷ ds) c h = record { plc_backend = h.plc_backend; holds_it = h.holds_it }

module _ (srv : Server) (by_process : Bool) (bs : List PlcBackend)
    (table : srv.backends ≡ add_default by_process bs) where
  finish_conf-IsBacked :
      (es : List XmlElement) (r : Reading) → Holds IsBacked (finish_conf srv es r)
  unfolding finish_conf
  finish_conf-IsBacked es r0 =
      bind_parsed-Holds (λ r. Unit {0}) IsBacked _ _ (true-Holds (check_counts r0))
        (λ r u.
          bind_parsed-Holds (λ a. Unit {0}) IsBacked _ _ (true-Holds (read_shared_dirs es []))
            (λ dirs v. holds (
              with_devices-IsBacked (read_device_requests es) _ (
                let d = apply_default-some by_process bs r.conf.backend in
                record { plc_backend = d.0; holds_it = rw table d.1 }))))

  pub parse_conf-IsBacked :
      (name : List ℕ) (es : List XmlElement) → Holds IsBacked (parse_conf srv name es)
  unfolding parse_conf
  parse_conf-IsBacked name es =
      bind_parsed-Holds (λ r. Unit {0}) IsBacked _ _ (true-Holds (read_children srv es _))
        (λ r u. finish_conf-IsBacked es r)
