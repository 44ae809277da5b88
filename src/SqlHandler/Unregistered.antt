-- ===== src/SqlHandler/Unregistered.antt =====
-- What becomes of a plan that SPI_prepare refuses, in src/sqlhandler.c.
use plcontainer.Common.{
  ℕ, ◌≡◌, ◌≢◌, refl, inl, inr, none, some, List, length, All, ◌==◌, ==_iff, Bool-cases,
  Option-cases,
}
use plcontainer.Message.Datatype.{Cstring}
use plcontainer.Message.Struct.{Argument, Sql, prepare, unprepare}
use plcontainer.PplanSlots.{PplanSlots, search_pplan, delete_pplan}
use plcontainer.SqlHandler.Heap.{Cell, filled, find_cell, find_cell_first}
use plcontainer.SqlHandler.Results.{create_prepare_result, create_unprepare_result}
use plcontainer.SqlHandler.State.{Spi, SqlState, answered}
use plcontainer.SqlHandler.Prepare.{
  prepare_oids, prepare_with, prepared, datatypes, free_plc_plan, unprepared, minus_one,
}
use plcontainer.SqlHandler.{handle_body, handle_sql_message}
use plcontainer.SqlHandler.Sound.{IsSound}
use plcontainer.SqlHandler.Validity.{search_pplan-IsLive}
use plcontainer.SqlHandler.Leaked.{
  Unlisted-search_slots, search_pplan-Unlisted, Leaked, after_messages, messages-Leaked,
}

-- A block that is not in use is in no slot.
fresh_unregistered :
    (a : ℕ) (heap : List (ℕ × Cell)) (c : PplanSlots)
    → IsSound heap c.pplans
    → find_cell a heap ≡ none
    → search_pplan a c ≡ none
fresh_unregistered a heap c sound fresh = elim (Option-cases (search_pplan a c)) [
  | inl e ↦ e
  | inr (i, e) ↦
      let (s, there, same, (p, found, fits)) = search_pplan-IsLive heap c a i sound e in cc
]

-- The refused PREPARE.
refused_prepare :
    (spi : Spi) (args : List Argument) (stmt : Cstring) (oids : List ℕ) (st : SqlState)
    → prepare_oids spi args ≡ some oids
    → spi.prepare stmt oids ≡ 0
    → spi.address ≢ 0
    → find_cell spi.address st.heap ≡ none
    → IsSound st.heap st.slots.pplans
    → Leaked spi.address
        (filled (record { arg_oids = oids; plan = 0; nargs = length oids }))
        (handle_sql_message spi (prepare args stmt) st).1
unfolding handle_sql_message handle_body prepare_with prepared search_pplan
refused_prepare spi args stmt oids st parsed refuses given fresh sound =
    rw (parsed, refuses)
      (record {
        there = find_cell_first spi.address _ st.heap;
        unlisted = elim (Bool-cases (spi.address == 0)) [
          | inl e ↦ absurd (given ((==_iff spi.address 0).0 e))
          | inr e ↦ Unlisted-search_slots spi.address st.slots.pplans (
              let absent = fresh_unregistered spi.address st.heap st.slots sound fresh in
              rw e at absent)
        ];
      })

prepare_answer :
    (spi : Spi) (args : List Argument) (stmt : Cstring) (oids : List ℕ) (st : SqlState)
    → prepare_oids spi args ≡ some oids
    → spi.prepare stmt oids ≡ 0
    → (handle_sql_message spi (prepare args stmt) st).0
      ≡ answered (create_prepare_result spi.address 0 (datatypes spi oids))
unfolding handle_sql_message handle_body prepare_with prepared
prepare_answer spi args stmt oids st parsed refuses = rw (parsed, refuses) refl

unprepare_answer :
    (spi : Spi) (a : ℕ) (st : SqlState)
    → search_pplan a st.slots ≡ none
    → (handle_sql_message spi (unprepare a) st).0 ≡ answered (create_unprepare_result minus_one)
unfolding handle_sql_message handle_body free_plc_plan unprepared delete_pplan
unprepare_answer spi a st absent = rw absent refl

-- When SPI_prepare returns NULL, the answer to the client names the block of the plan all the same.
-- Whatever messages follow, as long as no other block is at its address: the block is still there,
-- it is in no slot, and an UNPREPARE of it is answered with -1.
pub handle_sql_message_leaks :
    (spi later : Spi) (args : List Argument) (stmt : Cstring) (oids : List ℕ)
    (msgs : List (Spi × Sql)) (st : SqlState)
    → prepare_oids spi args ≡ some oids
    → spi.prepare stmt oids ≡ 0
    → spi.address ≢ 0
    → find_cell spi.address st.heap ≡ none
    → IsSound st.heap st.slots.pplans
    → All (λ m. m.0.address ≢ spi.address) msgs
    → ((handle_sql_message spi (prepare args stmt) st).0
        ≡ answered (create_prepare_result spi.address 0 (datatypes spi oids)))
      × (find_cell spi.address
            (after_messages msgs (handle_sql_message spi (prepare args stmt) st).1).heap
          ≡ some (filled (record { arg_oids = oids; plan = 0; nargs = length oids })))
      × (search_pplan spi.address
            (after_messages msgs (handle_sql_message spi (prepare args stmt) st).1).slots
          ≡ none)
      × ((handle_sql_message later
            (unprepare spi.address)
            (after_messages msgs (handle_sql_message spi (prepare args stmt) st).1)).0
          ≡ answered (create_unprepare_result minus_one))
handle_sql_message_leaks spi later args stmt oids msgs st parsed refuses given fresh sound apart =
    let a = spi.address in
    let cell = filled (record { arg_oids = oids; plan = 0; nargs = length oids }) in
    let start = (handle_sql_message spi (prepare args stmt) st).1 in
    let leak =
      messages-Leaked a given cell msgs apart start
        (refused_prepare spi args stmt oids st parsed refuses given fresh sound) in
    let gone = search_pplan-Unlisted a given (after_messages msgs start).slots leak.unlisted in
    (
      prepare_answer spi args stmt oids st parsed refuses,
      leak.there,
      gone,
      unprepare_answer later a (after_messages msgs start) gone,
    )
