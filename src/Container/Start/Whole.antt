-- ===== src/Container/Start/Whole.antt =====
-- How `start_backend` of src/containers.c ends.
use plcontainer.Common.{
  ℕ, zero, suc, ◌+◌, ◌≤◌, ◌<◌, leb, ◌≡◌, ◌≢◌, refl, ap, sym, ◌∙◌, subst, inl, inr, Bool, true,
  false, Option, none, some, List, ◌∷◌, get_elem?, set, get_elem?-set_self, set-set, Bool-cases,
  Option-cases, arith,
}
use plcontainer.Container.Slots.{
  RuntimeConnection, Container, ContainerState, find_id, find_container_slot, insert_container_slot,
  set_container_conn, with_conn, get_container_conn, conn_of,
}
use plcontainer.Container.Slots.Laws.{
  get_container_conn-ready, set_container_conn-containers, same_text-ne, find_free_lem,
  find_id-set_self, find_id-set_other,
}
use plcontainer.Container.Start.{
  Attempt, no_pong, ponged, World, create_loop, start_loop, started, timeout, disconnect,
  cleanup_uds, after_connecting, connect_backend, start_created, container_connect_timeout_ms,
  start_in_slot, start_backend,
}
use plcontainer.Container.Start.Backoff.{
  ends_loop, conn_in, conns_in, waited_ms, push, connect_loop-ponged, connect_loop-timeout,
}

-- Each attempt before the `n`-th fails without an error, and the loop goes on.
abbrev pub NoPong : (ℕ → Attempt) → ℕ → Type 0
NoPong attempt n = (i : ℕ) → i < n → ends_loop (attempt i) ≡ false

pub NoPong-add :
    (attempt : ℕ → Attempt) (n : ℕ)
    → NoPong attempt n
    → (i : ℕ) → i < n
    → ends_loop (attempt (0 + i)) ≡ false
NoPong-add attempt n h i l =
    subst (λ j. ends_loop (attempt j) ≡ false) (let e : i ≡ 0 + i = omega arith in e) (h i l)

-- A loop with the results of its calls: the first that does not fail is the result.
create_loop-first :
    (create : ℕ → Option RuntimeConnection) (n k i : ℕ) (r : RuntimeConnection)
    → ((j : ℕ) → j < i → create (k + j) ≡ none)
    → create (k + i) ≡ some r
    → i ≤ n
    → create_loop create n k ≡ some r
unfolding create_loop
create_loop-first create zero k i r fails succeeds within =
    subst (λ j. create j ≡ some r) (let e : k + i ≡ k = omega arith in e) succeeds
create_loop-first create (suc n) k zero r fails succeeds within =
    let now : create k ≡ some r =
      subst (λ j. create j ≡ some r) (let e : k + 0 ≡ k = omega arith in e) succeeds in
    rw (now, create_loop) refl
create_loop-first create (suc n) k (suc i) r fails succeeds within =
    let now : create k ≡ none =
      subst (λ j. create j ≡ none) (let e : k + 0 ≡ k = omega arith in e) (fails 0 (omega arith)) in
    rw (now, create_loop)
      (create_loop-first create n (suc k) i r
        (λ j h.
          subst (λ m. create m ≡ none) (let e : k + suc j ≡ suc k + j = omega arith in e)
            (fails (suc j) (omega arith)))
        (subst (λ m. create m ≡ some r) (let e : k + suc i ≡ suc k + i = omega arith in e) succeeds)
        (omega arith))

start_loop-some :
    (start : ℕ → Bool) (n k i : ℕ) → start (k + i) ≡ true → i ≤ n → start_loop start n k ≡ true
unfolding start_loop
start_loop-some start zero k i succeeds within =
    subst (λ j. start j ≡ true) (let e : k + i ≡ k = omega arith in e) succeeds
start_loop-some start (suc n) k zero succeeds within =
    rw (subst (λ j. start j ≡ true) (let e : k + 0 ≡ k = omega arith in e) succeeds) refl
start_loop-some start (suc n) k (suc i) succeeds within = elim (Bool-cases (start k)) [
  | inl e ↦ rw e refl
  | inr e ↦ rw e (
      start_loop-some start n (suc k) i
        (subst (λ m. start m ≡ true) (let e : k + suc i ≡ suc k + i = omega arith in e) succeeds)
        (omega arith))
]

leb_waited : (n : ℕ) → n < 53 → leb container_connect_timeout_ms (waited_ms n) ≡ false
leb_waited n h = ground arith

module _ (world : World) (connection : RuntimeConnection) (slot : ℕ) (s : ContainerState) where
  connect_backend-ponged :
      (n c : ℕ)
      → NoPong world.attempt n
      → world.attempt n ≡ ponged c
      → n < 53
      → connect_backend world connection slot s ≡ (
        started (some c),
        set_container_conn c slot
            (record s { disconnected = conns_in world.attempt n 0 s.disconnected }),
      )
  unfolding connect_backend
  connect_backend-ponged n c fails pongs within =
      ap (after_connecting connection slot s) (
        connect_loop-ponged world.attempt n 54 0 c none s.disconnected
          (NoPong-add world.attempt n fails)
          (subst (λ j. world.attempt j ≡ ponged c) (let e : n ≡ 0 + n = omega arith in e) pongs)
          (omega arith) (omega arith))
      ∙ rw (leb_waited (0 + n) (omega arith)) refl

  connect_backend-timeout :
      NoPong world.attempt 53
      → connect_backend world connection slot s ≡ (
        timeout,
        cleanup_uds connection (
            disconnect
              (conn_in (world.attempt 52))
              (record s { disconnected = conns_in world.attempt 53 0 s.disconnected })),
      )
  unfolding connect_backend
  connect_backend-timeout fails = ap (after_connecting connection slot s) (
      connect_loop-timeout world.attempt 53 54 0 none s.disconnected
        (NoPong-add world.attempt 53 fails) refl (omega arith))

module _ (world : World) (runtime_id : List ℕ) (s : ContainerState) (slot : ℕ) where
  -- The session once the container is registered in the slot.
  abbrev pub registered : RuntimeConnection → ContainerState
  unfolding insert_container_slot
  registered connection =
      insert_container_slot runtime_id (some world.backend) (some connection) slot s

  start_backend-registered :
      (connection : RuntimeConnection)
      → find_container_slot s ≡ some slot
      → create_loop world.create 2 0 ≡ some connection
      → start_loop world.start 2 0 ≡ true
      → world.fork ≡ true
      → start_backend world runtime_id s
        ≡ connect_backend world connection slot (registered connection)
  unfolding start_backend
  start_backend-registered connection free created runs forked =
      ap (start_in_slot world runtime_id s) free
      ∙ ap (λ r. start_created world runtime_id slot r s) created
      ∙ rw (runs, forked) refl

  -- The slot in the end.
  abbrev filled : RuntimeConnection → ℕ → Container
  filled connection c = record {
    runtimeid = some runtime_id;
    backend = some world.backend;
    connection = some connection;
    conn = some c;
  }

  slots_filled :
      (connection : RuntimeConnection) (c : ℕ) (l : List ℕ) (old : Container)
      → get_elem? s.containers slot ≡ some old
      → (set_container_conn c slot (record (registered connection) { disconnected = l })).containers
        ≡ set s.containers slot (filled connection c)
  unfolding registered insert_container_slot
  slots_filled connection c l old h =
      let new : Container = record (filled connection c) { conn = old.conn } in
      set_container_conn-containers c slot (record (registered connection) { disconnected = l }) new
        (ap
            (λ o.
              get_elem?
                (set s.containers slot
                  (record new { conn = elim o [ none ↦ none | some d ↦ d.conn ] }))
                slot)
            h
          ∙ get_elem?-set_self s.containers slot old new h)
      ∙ ap
          (λ o.
            set
              (set s.containers slot
                (record new { conn = elim o [ none ↦ none | some d ↦ d.conn ] }))
              slot (with_conn c new))
          h
      ∙ set-set s.containers slot _ _

  -- When no slot has the id yet, the connection is found under the id and the other ids keep theirs.
  connected_slots :
      (connection : RuntimeConnection) (c : ℕ) (l : List ℕ) (other : List ℕ)
      → find_container_slot s ≡ some slot
      → find_id runtime_id s.containers ≡ none
      → other ≢ runtime_id
      → s.containers_init ≡ true
      → ((get_container_conn runtime_id
            (set_container_conn c slot (record (registered connection) { disconnected = l }))).0
          ≡ some c)
        × ((get_container_conn other
              (set_container_conn c slot (record (registered connection) { disconnected = l }))).0
            ≡ (get_container_conn other s).0)
  unfolding set_container_conn insert_container_slot find_container_slot registered
  connected_slots connection c l other free fresh differs inited =
      let (old, at_slot, no_id) = find_free_lem s.containers slot free in
      let slots = slots_filled connection c l old at_slot in
      (
        get_container_conn-ready runtime_id _ inited
            ∙ ap (λ cs. conn_of (find_id runtime_id cs)) slots
            ∙ ap conn_of (
                find_id-set_self runtime_id s.containers slot old (filled connection c) at_slot refl
                  fresh),
        get_container_conn-ready other _ inited
            ∙ ap (λ cs. conn_of (find_id other cs)) slots
            ∙ ap conn_of (
                find_id-set_other other s.containers slot old (filled connection c) at_slot
                  (rw no_id refl) (same_text-ne runtime_id other (λ e. differs (sym e))))
            ∙ sym (get_container_conn-ready other s inited),
      )

-- A session with a free slot and none for the runtime, one of three tries to create the container
-- that succeeds, one of three to start it, a cleanup process, and a pong at one of the first 53
-- attempts to connect, before which the others fail without an error: `start_backend` returns the connection of the first pong, under which the
-- runtime is found from then on, any other runtime is found as before, and exactly the connections
-- of the earlier attempts were disconnected.
pub start_backend-started :
    (world : World) (runtime_id other : List ℕ) (s : ContainerState) (slot i j n c : ℕ)
    (connection : RuntimeConnection)
    → s.containers_init ≡ true
    → find_container_slot s ≡ some slot
    → find_id runtime_id s.containers ≡ none
    → other ≢ runtime_id
    → ((k : ℕ) → k < i → world.create (0 + k) ≡ none)
    → world.create (0 + i) ≡ some connection
    → i ≤ 2
    → world.start (0 + j) ≡ true
    → j ≤ 2
    → world.fork ≡ true
    → NoPong world.attempt n
    → world.attempt n ≡ ponged c
    → n < 53
    → ((start_backend world runtime_id s).0 ≡ started (some c))
      × ((get_container_conn runtime_id (start_backend world runtime_id s).1).0 ≡ some c)
      × ((get_container_conn other (start_backend world runtime_id s).1).0
          ≡ (get_container_conn other s).0)
      × ((start_backend world runtime_id s).1.disconnected
          ≡ conns_in world.attempt n 0 s.disconnected)
unfolding set_container_conn insert_container_slot
start_backend-started world runtime_id other s slot i j n c connection inited free fresh differs
      uncreated created i_le runs j_le forked fails pongs within =
    let ends =
      start_backend-registered world runtime_id s slot connection free
        (create_loop-first world.create 2 0 i connection uncreated created i_le)
        (start_loop-some world.start 2 0 j runs j_le) forked
      ∙ connect_backend-ponged world connection slot (registered world runtime_id s slot connection)
          n c fails pongs within in
    let (found, kept) =
      connected_slots world runtime_id s slot connection c
        (conns_in world.attempt n 0 s.disconnected) other free fresh differs inited in
    (
      ap (λ r. r.0) ends,
      ap (λ r. (get_container_conn runtime_id r.1).0) ends ∙ found,
      ap (λ r. (get_container_conn other r.1).0) ends ∙ kept,
      ap (λ r. r.1.disconnected) ends,
    )

cleanup_uds-disconnected :
    (connection : RuntimeConnection) (s : ContainerState)
    → (cleanup_uds connection s).disconnected ≡ s.disconnected
cleanup_uds-disconnected connection s = elim (Option-cases connection.uds_address) [
  | inl e ↦ rw e refl
  | inr (address, e) ↦ rw e refl
]

disconnect-push :
    (conn : Option ℕ) (s : ContainerState)
    → (disconnect conn s).disconnected ≡ push conn s.disconnected
disconnect-push none s = refl
disconnect-push (some conn) s = refl

-- When each of the 53 attempts to connect that the timeout allows fails, without an error, and the
-- last one made a connection that did not answer, that connection is disconnected twice.
pub start_backend_disconnects_twice :
    (world : World) (runtime_id : List ℕ) (s : ContainerState) (slot i j c : ℕ)
    (connection : RuntimeConnection)
    → find_container_slot s ≡ some slot
    → ((k : ℕ) → k < i → world.create (0 + k) ≡ none)
    → world.create (0 + i) ≡ some connection
    → i ≤ 2
    → world.start (0 + j) ≡ true
    → j ≤ 2
    → world.fork ≡ true
    → NoPong world.attempt 53
    → world.attempt 52 ≡ no_pong c
    → ((start_backend world runtime_id s).0 ≡ timeout)
      × ((start_backend world runtime_id s).1.disconnected
          ≡ c ∷ c ∷ conns_in world.attempt 52 0 s.disconnected)
unfolding insert_container_slot
start_backend_disconnects_twice world runtime_id s slot i j c connection free uncreated created i_le
      runs j_le forked fails silent =
    let ends =
      start_backend-registered world runtime_id s slot connection free
        (create_loop-first world.create 2 0 i connection uncreated created i_le)
        (start_loop-some world.start 2 0 j runs j_le) forked
      ∙ connect_backend-timeout world connection slot
          (registered world runtime_id s slot connection) fails in
    (
      ap (λ r. r.0) ends,
      ap (λ r. r.1.disconnected) ends
          ∙ cleanup_uds-disconnected connection _
          ∙ disconnect-push (conn_in (world.attempt 52)) _
          ∙ ap
              (λ a.
                push (conn_in a) (push (conn_in a) (conns_in world.attempt 52 0 s.disconnected)))
              silent,
    )
