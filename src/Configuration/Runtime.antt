-- ===== src/Configuration/Runtime.antt =====
-- The entry of a runtime, and what parse_runtime_configuration of src/plc_configuration.c calls
-- errors. The document is what libxml2 made of it.
pub mod Setting
pub mod Read
pub mod Outcomes
pub mod Guarded
pub mod Tables
pub mod Freed
use Prim.Native.Char.{code}
use Prim.Native.String.{String}
use plcontainer.Common.{
  ℕ, ◌+◌, Bool, true, false, ◌&&◌, ◌||◌, Option, none, some, List, [], ◌∷◌, map, leb, if◌then◌else◌,
}
use plcontainer.Container.Backend.{same_text}
use plcontainer.Configuration.Content.{Node}

abbrev pub codes : String → List ℕ
codes String.[] = []
codes (String.◌∷◌ c s) = code c ∷ codes s

abbrev pub lower : ℕ → ℕ
lower c = if leb 65 c && leb c 90 then c + 32 else c

-- `strcasecmp(s, t) == 0`
abbrev pub same_word : List ℕ → List ℕ → Bool
same_word s t = same_text (map lower s) (map lower t)

-- Of an `xmlNode`, with `xmlGetProp` of it.
pub record XmlElement : Type 0 where
  pub is_element : Bool
  pub name : List ℕ
  pub content : List ℕ
  pub prop : List ℕ → Option (List ℕ)
  pub children : List Node

pub data Access : Type 0 where
  readonly : Access
  readwrite : Access

pub record SharedDir : Type 0 where
  pub host : List ℕ
  pub container : List ℕ
  pub mode : Access

-- A `none` in `deviceid` is the count -1: all devices.
pub record DeviceRequest : Type 0 where
  pub driver : Option (List ℕ)
  pub deviceid : Option (List (List ℕ))
  pub capabilities : List (List ℕ)

pub data Tag : Type 0 where
  unimplement : Tag
  docker : Tag
  remote_docker : Tag
  process : Tag

-- Of a `plcBackend`, its name and its type.
pub record PlcBackend : Type 0 where
  pub name : List ℕ
  pub tag : Tag

-- `runtimeConfEntry`
pub record RuntimeConf : Type 0 where
  pub runtimeid : List ℕ
  pub image : Option (List ℕ)
  pub command : Option (List ℕ)
  pub roles : Option (List ℕ)
  pub resgroup_oid : ℕ
  pub memory_mb : ℕ
  pub cpu_share : ℕ
  pub backend : Option PlcBackend
  pub shared_dirs : List SharedDir
  pub use_container_logging : Bool
  pub use_user_control : Bool
  pub enable_network : Bool
  pub device_requests : List DeviceRequest

abbrev pub new_conf : List ℕ → RuntimeConf
new_conf id = record {
  runtimeid = id;
  image = none;
  command = none;
  roles = none;
  resgroup_oid = 0;
  memory_mb = 1024;
  cpu_share = 1024;
  backend = none;
  shared_dirs = [];
  use_container_logging = false;
  use_user_control = false;
  enable_network = false;
  device_requests = [];
}

-- What `pg_atoi` makes of a text: an error, or the number.
pub data Atoi : Type 0 where
  not_a_number : Atoi
  below_zero : ℕ → Atoi
  number : ℕ → Atoi

-- The functions of the server, and the table of the backends.
pub record Server : Type 0 where
  pub pg_atoi : List ℕ → Atoi
  pub is_group : ℕ → Bool
  pub has_cgroup_auditor : ℕ → Bool
  pub backends : List PlcBackend

pub data Complaint : Type 0 where
  duplicate_id : Complaint
  no_id : Complaint
  long_id : Complaint
  duplicate_runtime : Complaint
  bad_number : Complaint
  bad_logging : Complaint
  bad_memory : Complaint
  bad_cpu_share : Complaint
  bad_network : Complaint
  bad_resource_group : Complaint
  empty_roles : Complaint
  no_setting : Complaint
  no_type : Complaint
  no_backend_name : Complaint
  unknown_backend : Complaint
  network_needed : Complaint
  unknown_element : Complaint
  images : Complaint
  commands : Complaint
  no_host : Complaint
  no_container : Complaint
  duplicate_container : Complaint
  no_access : Complaint
  bad_access : Complaint

-- What `value` points to when an error reaches PG_CATCH, which frees it unless it is NULL.
pub data HeldValue : Type 0 where
  null : HeldValue
  live : HeldValue
  freed : HeldValue

pub data Parsed (A : Type 0) : Type 0 where
  accepted : A → Parsed A
  refused : Complaint → HeldValue → Parsed A

unfoldable pub bind_parsed : {A B : Type 0} → Parsed A → (A → Parsed B) → Parsed B
bind_parsed (accepted a) f = f a
bind_parsed (refused c v) f = refused c v
