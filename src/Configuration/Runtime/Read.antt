-- ===== src/Configuration/Runtime/Read.antt =====
-- parse_runtime_configuration: the children of a runtime, the checks, the shared directories, the
-- devices and the table of runtimes.
use plcontainer.Common.{
  ℕ, suc, Bool, true, false, not, ◌&&◌, ◌||◌, Option, none, some, List, [], ◌∷◌, ◌++◌, length, take,
  ltb, ◌==◌, if◌then◌else◌,
}
use plcontainer.Container.Backend.{same_text}
use plcontainer.Configuration.Content.{Node}
use plcontainer.Configuration.Runtime.{
  codes, same_word, XmlElement, Access, readonly, readwrite, SharedDir, DeviceRequest, Tag,
  unimplement, docker, remote_docker, process, PlcBackend, RuntimeConf, new_conf, Server, Complaint,
  duplicate_id, no_id, long_id, duplicate_runtime, no_type, no_backend_name, unknown_backend,
  network_needed, unknown_element, images, commands, no_host, no_container, duplicate_container,
  no_access, bad_access, HeldValue, null, live, freed, Parsed, accepted, refused, bind_parsed,
}
use plcontainer.Configuration.Runtime.Setting.{read_setting, is_some}

-- The names of the children.
pub data Kind : Type 0 where
  id : Kind
  image : Kind
  command : Kind
  setting : Kind
  shared_directory : Kind
  device_request : Kind
  backend : Kind
  unknown : Kind

unfoldable pub kind : XmlElement → Kind
unfolding same_text
kind e =
    if same_text e.name (codes "id")
    then id
    else if same_text e.name (codes "image")
    then image
    else if same_text e.name (codes "command")
    then command
    else if same_text e.name (codes "setting")
    then setting
    else if same_text e.name (codes "shared_directory")
    then shared_directory
    else if same_text e.name (codes "device_request")
    then device_request
    else if same_text e.name (codes "backend")
    then backend
    else unknown

-- The first loop: the id, which is to be there once.
pub data Ids : Type 0 where
  no_ids : Ids
  one_id : List ℕ → Ids
  second_id : List ℕ → Ids

abbrev pub found_id : Option (List ℕ) → Ids
found_id none = no_ids
found_id (some name) = one_id name

unfoldable pub read_id : Option (List ℕ) → List XmlElement → Ids
unfolding same_text
read_id found [] = found_id found
read_id (some name) (e ∷ es) =
    let rest = read_id (some name) es in
    if e.is_element && same_text e.name (codes "id") then second_id name else rest
read_id none (e ∷ es) =
    read_id (if e.is_element && same_text e.name (codes "id") then some e.content else none) es

-- What the second loop counts and keeps.
pub record Reading : Type 0 where
  pub image_num : ℕ
  pub command_num : ℕ
  pub value : HeldValue
  pub conf : RuntimeConf

-- `take_plcbackend_byname`: the first backend of the name.
unfoldable pub take_plcbackend_byname : List ℕ → List PlcBackend → Option PlcBackend
unfolding same_text
take_plcbackend_byname name [] = none
take_plcbackend_byname name (b ∷ bs) =
    let rest = take_plcbackend_byname name bs in if same_text b.name name then some b else rest

abbrev pub is_remote : Tag → Bool
is_remote unimplement = false
is_remote docker = false
is_remote remote_docker = true
is_remote process = false

-- The element `backend`, which leaves `value` freed and not NULL.
unfoldable pub set_backend : Option PlcBackend → Reading → Parsed Reading
set_backend none r = refused unknown_backend live
set_backend (some b) r =
    if not r.conf.enable_network && is_remote b.tag
    then refused network_needed live
    else accepted (record r { value = freed; conf = record r.conf { backend = some b } })

unfoldable pub read_backend : Server → Option (List ℕ) → Reading → Parsed Reading
unfolding set_backend take_plcbackend_byname
read_backend srv none r = refused no_backend_name null
read_backend srv (some name) r = set_backend (take_plcbackend_byname name srv.backends) r

-- One child, with `value` NULL.
unfoldable pub read_kind : Server → Kind → XmlElement → Reading → Parsed Reading
unfolding read_backend read_setting bind_parsed
read_kind srv id e r = accepted r
read_kind srv image e r =
    accepted
      (record r { image_num = suc r.image_num; conf = record r.conf { image = some e.content } })
read_kind srv command e r = accepted (record r {
  command_num = suc r.command_num;
  conf = record r.conf { command = some e.content };
})
read_kind srv setting e r =
    bind_parsed (read_setting srv e r.conf) (λ c. accepted (record r { conf = c }))
read_kind srv shared_directory e r = accepted r
read_kind srv device_request e r =
    if is_some (e.prop (codes "type")) then accepted r else refused no_type null
read_kind srv backend e r = read_backend srv (e.prop (codes "name")) r
read_kind srv unknown e r = refused unknown_element null

-- The second loop.
unfoldable pub read_children : Server → List XmlElement → Reading → Parsed Reading
unfolding kind read_kind bind_parsed
read_children srv [] r = accepted r
read_children srv (e ∷ es) r =
    let skipped = read_children srv es r in
    let read =
      bind_parsed (read_kind srv (kind e) e (record r { value = null }))
        (λ s. read_children srv es s) in
    if e.is_element then read else skipped

-- The checks between the loops.
unfoldable pub check_counts : Reading → Parsed Reading
check_counts r =
    if not (r.image_num == 1)
    then refused images r.value
    else if not (r.command_num == 1)
    then refused commands r.value
    else accepted r

unfoldable pub has_container : List ℕ → List SharedDir → Bool
unfolding same_text
has_container path [] = false
has_container path (d ∷ ds) = same_word path d.container || has_container path ds

unfoldable pub access_mode : Option (List ℕ) → Parsed Access
unfolding same_text
access_mode none = refused no_access null
access_mode (some v) =
    if same_text v (codes "ro")
    then accepted readonly
    else if same_text v (codes "rw")
    then accepted readwrite
    else refused bad_access live

unfoldable pub read_shared_dir :
    Option (List ℕ) → Option (List ℕ) → Option (List ℕ) → List SharedDir → Parsed (List SharedDir)
unfolding has_container access_mode bind_parsed
read_shared_dir none path access dirs = refused no_host null
read_shared_dir (some host) none access dirs = refused no_container null
read_shared_dir (some host) (some path) access dirs =
    if has_container path dirs
    then refused duplicate_container live
    else bind_parsed (access_mode access)
        (λ m. accepted (dirs ++ (record { host = host; container = path; mode = m } ∷ [])))

unfoldable pub read_shared_dirs : List XmlElement → List SharedDir → Parsed (List SharedDir)
unfolding read_shared_dir bind_parsed same_text
read_shared_dirs [] dirs = accepted dirs
read_shared_dirs (e ∷ es) dirs =
    let skipped = read_shared_dirs es dirs in
    let read =
      bind_parsed
        (read_shared_dir (e.prop (codes "host")) (e.prop (codes "container"))
          (e.prop (codes "access")) dirs)
        (λ ds. read_shared_dirs es ds) in
    if e.is_element && same_text e.name (codes "shared_directory") then read else skipped

-- The contents of the children of a name, and of the last one.
unfoldable pub texts_of : List ℕ → List Node → List (List ℕ)
unfolding same_text
texts_of name [] = []
texts_of name (node ∷ nodes) =
    let rest = texts_of name nodes in
    if node.is_element && same_text node.name name then node.content ∷ rest else rest

unfoldable pub last_text : List (List ℕ) → Option (List ℕ)
last_text [] = none
last_text (v ∷ []) = some v
last_text (v ∷ w ∷ vs) = last_text (w ∷ vs)

-- Without a device, or with the property `all`, every device is meant.
abbrev pub devices : Option (List ℕ) → List (List ℕ) → Option (List (List ℕ))
devices (some v) ids = none
devices none [] = none
devices none (d ∷ ids) = some (d ∷ ids)

abbrev pub type_of : Option (List ℕ) → List ℕ
type_of none = []
type_of (some v) = v

unfoldable pub read_device_request : XmlElement → DeviceRequest
unfolding texts_of last_text
read_device_request e = record {
  driver = last_text (texts_of (codes "driver") e.children);
  deviceid = devices (e.prop (codes "all")) (texts_of (codes "deviceid") e.children);
  capabilities = texts_of (codes "capacity") e.children ++ (type_of (e.prop (codes "type")) ∷ []);
}

unfoldable pub read_device_requests : List XmlElement → List DeviceRequest
unfolding read_device_request same_text
read_device_requests [] = []
read_device_requests (e ∷ es) =
    let rest = read_device_requests es in
    if e.is_element && same_text e.name (codes "device_request")
    then read_device_request e ∷ rest
    else rest

-- The count of devices is not 0: it is -1 or positive.
abbrev pub with_devices : List DeviceRequest → RuntimeConf → RuntimeConf
with_devices [] c = record c { device_requests = [] }
with_devices (d ∷ ds) c = record c { device_requests = d ∷ ds; use_user_control = true }

-- The last backend of the name "default", since the loop goes on.
unfoldable pub default_backend : Option PlcBackend → List PlcBackend → Option PlcBackend
unfolding same_text
default_backend found [] = found
default_backend found (b ∷ bs) =
    let here = default_backend (some b) bs in
    let rest = default_backend found bs in if same_text b.name (codes "default") then here else rest

unfoldable pub apply_default : List PlcBackend → Option PlcBackend → Option PlcBackend
unfolding default_backend
apply_default bs none = default_backend none bs
apply_default bs (some b) = some b

unfoldable pub finish_conf : Server → List XmlElement → Reading → Parsed RuntimeConf
unfolding check_counts read_shared_dirs read_device_requests apply_default bind_parsed
finish_conf srv es r0 = bind_parsed (check_counts r0) (λ r.
    bind_parsed (read_shared_dirs es []) (λ dirs. accepted (
      with_devices (read_device_requests es) (record r.conf {
        shared_dirs = dirs;
        backend = apply_default srv.backends r.conf.backend;
      }))))

unfoldable pub parse_conf : Server → List ℕ → List XmlElement → Parsed RuntimeConf
unfolding read_children finish_conf bind_parsed
parse_conf srv name es =
    bind_parsed
      (read_children srv es
        (record { image_num = 0; command_num = 0; value = null; conf = new_conf name }))
      (finish_conf srv es)

unfoldable pub has_runtime : List ℕ → List RuntimeConf → Bool
unfolding same_text
has_runtime name [] = false
has_runtime name (c ∷ table) = same_text name c.runtimeid || has_runtime name table

unfoldable pub remove_runtime : List ℕ → List RuntimeConf → List RuntimeConf
unfolding same_text
remove_runtime name [] = []
remove_runtime name (c ∷ table) =
    let rest = remove_runtime name table in if same_text name c.runtimeid then rest else c ∷ rest

-- The table of the runtimes, and the error that is thrown again. The table compares the first 63
-- characters of a key.
pub record Entered : Type 0 where
  pub table : List RuntimeConf
  pub error : Option Complaint
  pub value : HeldValue

unfoldable pub entered : List ℕ → List RuntimeConf → Parsed RuntimeConf → Entered
unfolding remove_runtime
entered name table (accepted c) = record { table = c ∷ table; error = none; value = null }
entered name table (refused why v) = record {
  table = remove_runtime (take 63 name) table;
  error = some why;
  value = v;
}

unfoldable pub parse_named : Server → List RuntimeConf → List ℕ → List XmlElement → Entered
unfolding has_runtime remove_runtime parse_conf entered
parse_named srv table name es =
    if ltb 63 (length name)
    then entered name table (refused long_id null)
    else if has_runtime name table
    then entered name table (refused duplicate_runtime null)
    else entered name table (parse_conf srv name es)

unfoldable pub after_id : Server → List RuntimeConf → List XmlElement → Ids → Entered
unfolding entered parse_named
after_id srv table es no_ids = record { table = table; error = some no_id; value = null }
after_id srv table es (one_id name) = parse_named srv table name es
after_id srv table es (second_id name) = entered name table (refused duplicate_id null)

unfoldable pub parse_runtime_configuration : Server → List RuntimeConf → List XmlElement → Entered
unfolding read_id after_id
parse_runtime_configuration srv table es = after_id srv table es (read_id none es)
