-- ===== src/Container/Slots.antt =====
-- The static array `containers` of src/containers.c and its accessors.
pub mod Laws
use plcontainer.Common.{
  ℕ, zero, suc, Bool, true, false, Option, none, some, List, [], ◌∷◌, get_elem?, set, replicate,
  if◌then◌else◌,
}
use plcontainer.Container.Backend.{same_text}

-- `runtimeConnectionInfo`: the identity of the container, and the address of its socket where the
-- tag is that of a unix domain socket.
pub record RuntimeConnection : Type 0 where
  pub identity : List ℕ
  pub uds_address : Option (List ℕ)

-- `container_t`; `backend` and `conn` are handles, `none` is NULL.
pub record Container : Type 0 where
  pub runtimeid : Option (List ℕ)
  pub backend : Option ℕ
  pub connection : Option RuntimeConnection
  pub conn : Option ℕ

-- MAX_CONTAINER_NUMBER
abbrev pub max_container_number : ℕ
max_container_number = 10

abbrev pub no_container : Container
no_container = record { runtimeid = none; backend = none; connection = none; conn = none }

-- The statics, the connections that `plcDisconnect` was called for and the addresses that
-- `cleanup_uds` removed, the last one first.
pub record ContainerState : Type 0 where
  pub containers_init : Bool
  pub containers : List Container
  pub disconnected : List ℕ
  pub unlinked : List (List ℕ)

abbrev pub empty_slots : List Container
empty_slots = replicate max_container_number no_container

unfoldable pub init_containers : ContainerState → ContainerState
init_containers s = record s { containers_init = true; containers = empty_slots }

abbrev pub ready : ContainerState → ContainerState
ready s = if s.containers_init then s else init_containers s

abbrev pub is_null : Option (List ℕ) → Bool
is_null none = true
is_null (some id) = false

-- The loop of `find_container_slot`; `none` is the call of `plc_elog(FATAL, ...)`.
unfoldable pub find_free : List Container → Option ℕ
find_free [] = none
find_free (c ∷ containers) =
    let later = find_free containers in
    if is_null c.runtimeid then some 0 else elim later [ none ↦ none | some i ↦ some (suc i) ]

unfoldable pub find_container_slot : ContainerState → Option ℕ
unfolding find_free
find_container_slot s = find_free s.containers

unfoldable pub insert_container_slot :
    List ℕ → Option ℕ → Option RuntimeConnection → ℕ → ContainerState → ContainerState
insert_container_slot runtime_id backend connection slot s =
    let old : Option Container = get_elem? s.containers slot in
    let conn : Option ℕ = elim old [ none ↦ none | some c ↦ c.conn ] in
    record s {
      containers = set s.containers slot (record {
        runtimeid = some runtime_id;
        backend = backend;
        connection = connection;
        conn = conn;
      });
    }

abbrev pub with_conn : ℕ → Container → Container
with_conn conn c = record c { conn = some conn }

-- `set_container_conn` for a connection whose `container_slot` is `slot`.
unfoldable pub set_container_conn : ℕ → ℕ → ContainerState → ContainerState
set_container_conn conn slot s =
    let old : Option Container = get_elem? s.containers slot in
    record s {
      containers = elim old [
        | none ↦ s.containers
        | some c ↦ set s.containers slot (with_conn conn c)
      ];
    }

abbrev pub has_id : List ℕ → Option (List ℕ) → Bool
has_id runtime_id none = false
has_id runtime_id (some id) = same_text id runtime_id

-- The slot at which the loops of `get_container_conn` and `get_container_id` return.
unfoldable pub find_id : List ℕ → List Container → Option Container
unfolding same_text
find_id runtime_id [] = none
find_id runtime_id (c ∷ containers) =
    let later = find_id runtime_id containers in
    if has_id runtime_id c.runtimeid then some c else later

abbrev pub conn_of : Option Container → Option ℕ
conn_of none = none
conn_of (some c) = c.conn

unfoldable pub get_container_conn : List ℕ → ContainerState → Option ℕ × ContainerState
unfolding find_id init_containers
get_container_conn runtime_id s =
    let s : ContainerState = ready s in (conn_of (find_id runtime_id s.containers), s)

-- `invalid` is a read through the NULL `connection` of the slot that is found.
pub data Identity : Type 0 where
  identity : List ℕ → Identity
  null : Identity
  invalid : Identity

abbrev pub identity_in : Option RuntimeConnection → Identity
identity_in none = invalid
identity_in (some r) = identity r.identity

abbrev pub identity_of : Option Container → Identity
identity_of none = null
identity_of (some c) = identity_in c.connection

unfoldable pub get_container_id : List ℕ → ContainerState → Identity × ContainerState
unfolding find_id init_containers
get_container_id runtime_id s =
    let s : ContainerState = ready s in (identity_of (find_id runtime_id s.containers), s)
