-- ===== src/Container/Delete.antt =====
-- `delete_containers` of src/containers.c.
pub mod Laws
use plcontainer.Common.{
  ℕ, zero, suc, Bool, true, false, Option, none, some, List, [], ◌∷◌, ◌++◌, map, if◌then◌else◌,
}
use plcontainer.Container.Backend.{
  Code, failed, done, alive, Replies, Exited, delete_backend_if_exited,
}
use plcontainer.Container.Slots.{RuntimeConnection, Container, ContainerState}

-- The replies about one slot: to the rounds of questions, and to the calls of `plc_backend_delete`
-- that force the deletion.
pub record SlotReplies : Type 0 where
  pub rounds : ℕ → Replies
  pub forced : ℕ → Code

abbrev pub is_done : Code → Bool
is_done failed = false
is_done done = true
is_done alive = false

abbrev pub is_failed : Code → Bool
is_failed failed = true
is_failed done = false
is_failed alive = false

-- `while ((res = delete_backend_if_exited(...)) != 0 && _loop_cnt++ < 5)` at round `k`, with `n` left.
unfoldable pub exit_loop : (ℕ → Replies) → ℕ → ℕ → Code
unfolding delete_backend_if_exited
exit_loop rounds zero k = (delete_backend_if_exited (rounds k)).code
exit_loop rounds (suc n) k =
    let again = exit_loop rounds n (suc k) in
    let res = (delete_backend_if_exited (rounds k)).code in if is_done res then res else again

-- `while ((res = plc_backend_delete(...)) < 0 && _loop_cnt++ < 3)`, likewise.
unfoldable pub force_loop : (ℕ → Code) → ℕ → ℕ → Code
force_loop forced zero k = forced k
force_loop forced (suc n) k =
    let again = force_loop forced n (suc k) in if is_failed (forced k) then again else forced k

unfoldable pub delete_backend : SlotReplies → Code
unfolding exit_loop force_loop
delete_backend r =
    let res = exit_loop r.rounds 5 0 in if is_done res then res else force_loop r.forced 3 0

-- What a call did: the connections that it disconnected, and the containers that it deleted or tried
-- to delete, with the last result, both in order; and the slots that are left.
pub record Deleted : Type 0 where
  pub disconnected : List ℕ
  pub results : List (RuntimeConnection × Code)
  pub slots : List Container

abbrev pub conn_list : Option ℕ → List ℕ
conn_list none = []
conn_list (some conn) = conn ∷ []

-- The result for a slot with both a backend and a connection.
abbrev pub slot_result :
    SlotReplies → Option ℕ → Option RuntimeConnection → List (RuntimeConnection × Code)
unfolding delete_backend
slot_result r none connection = []
slot_result r (some backend) none = []
slot_result r (some backend) (some connection) = (connection, delete_backend r) ∷ []

abbrev pub cleared : Container → Container
cleared c = record c { backend = none; connection = none; conn = none }

-- The loop of `delete_containers` from slot `i` on.
unfoldable pub delete_slots : (ℕ → SlotReplies) → ℕ → List Container → Deleted
unfolding slot_result delete_backend
delete_slots replies i [] = record { disconnected = []; results = []; slots = [] }
delete_slots replies i (c ∷ containers) =
    let rest = delete_slots replies (suc i) containers in
    record {
      disconnected = conn_list c.conn ++ rest.disconnected;
      results = slot_result (replies i) c.backend c.connection ++ rest.results;
      slots = cleared c ∷ rest.slots;
    }

unfoldable pub delete_all : (ℕ → SlotReplies) → ContainerState → Deleted
unfolding delete_slots
delete_all replies s =
    if s.containers_init
    then delete_slots replies 0 s.containers
    else record { disconnected = []; results = []; slots = s.containers }

abbrev pub push_all : List ℕ → List ℕ → List ℕ
push_all [] l = l
push_all (conn ∷ conns) l = push_all conns (conn ∷ l)

unfoldable pub delete_containers : (ℕ → SlotReplies) → ContainerState → ContainerState
unfolding delete_all
delete_containers replies s =
    let d = delete_all replies s in
    record s {
      containers_init = false;
      containers = d.slots;
      disconnected = push_all d.disconnected s.disconnected;
    }
