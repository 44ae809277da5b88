-- ===== src/SqlHandler/Whole.antt =====
-- What `handle_sql_message` of src/sqlhandler.c does to the plans and the subtransactions, whatever
-- the client sends.
use plcontainer.Common.{
  ℕ, ◌≡◌, ◌≢◌, refl, sym, ap, subst, ◌∙◌, inl, inr, Option, none, some, List, ◌∷◌, length, ◌==◌,
  Bool-cases, Option-cases,
}
use plcontainer.Message.Datatype.{Cstring}
use plcontainer.Message.Struct.{Argument, Sql, statement, prepare, unprepare, pexecute}
use plcontainer.PplanSlots.{
  PplanSlots, slot_at, search_pplan, insert_at, insert_pplan, delete_pplan,
}
use plcontainer.SqlHandler.Heap.{
  PlcPlan, Cell, filled, unfilled, find_cell, remove_cell, find_cell-remove_cell, find_cell_first,
}
use plcontainer.SqlHandler.State.{
  Spi, SqlState, Handled, answered, raised, invalid, SubEvent, begun, released, rolled_back,
}
use plcontainer.SqlHandler.Execute.{handle_pexecute}
use plcontainer.SqlHandler.Prepare.{
  with_cell, inserted, prepared, prepare_with, free_cell, free_deleted, free_plc_plan, unprepared,
  prepare_oids,
}
use plcontainer.SqlHandler.{handle_body, handle_sql_message, event, finish}
use plcontainer.SqlHandler.Sound.{IsSound, IsSound-set, IsLive-cons, IsSound-cons}
use plcontainer.SqlHandler.Validity.{executed_valid, execute_cell_valid, search_pplan-IsLive}

module _ (spi : Spi) (st : SqlState) (sound : IsSound st.heap st.slots.pplans) where
  handle_pexecute_valid :
      (args : List Argument) (limit pplan : ℕ)
      → ((handle_pexecute spi args limit pplan st).0 ≢ invalid)
        × ((handle_pexecute spi args limit pplan st).1 ≡ st)
  unfolding handle_pexecute
  handle_pexecute_valid args limit pplan = elim (Option-cases (search_pplan pplan st.slots)) [
    | inl e ↦ rw e (λ bad. cc, refl)
    | inr (i, e) ↦
        let (s, there, same, (p, found, fits)) =
          search_pplan-IsLive st.heap st.slots pplan i sound e in
        rw (e, found) (execute_cell_valid spi args limit p fits, refl)
  ]

  -- What a handler leaves.
  abbrev pub Keeps : Handled × SqlState → Type 0
  Keeps r = (r.0 ≢ invalid) × IsSound r.1.heap r.1.slots.pplans

  pub free_plc_plan-IsSound : (pplan : ℕ) → Keeps (unprepared (free_plc_plan spi pplan st))
  unfolding free_plc_plan unprepared delete_pplan
  free_plc_plan-IsSound pplan = elim (Option-cases (search_pplan pplan st.slots)) [
    | inl e ↦ rw e (λ bad. cc, sound)
    | inr (i, e) ↦
        let (s, there, same, (p, found, fits)) =
          search_pplan-IsLive st.heap st.slots pplan i sound e in
        rw (e, found)
          (
            λ bad. cc,
            IsSound-set st.heap (remove_cell pplan st.heap) st.slots.pplans i
                (record { pplan = 0; next = st.slots.head_free_pplan_slot }) sound
                (λ nz. absurd (nz refl))
                (λ j t other at nz. (
                  (let (q, found_t, fits_t) = sound.live j t at nz in
                      (
                        q,
                        find_cell-remove_cell t.pplan pplan st.heap
                              (λ e. other (sound.unique j i t s at there nz (e ∙ sym same)))
                            ∙ found_t,
                        fits_t,
                      )),
                  nz,
                )),
          )
  ]

  module _ (fresh : find_cell spi.address st.heap ≡ none) where
    abbrev block : List ℕ → ℕ → PlcPlan
    block oids plan = record { arg_oids = oids; plan = plan; nargs = length oids }

    kept_cons : (c : Cell) → IsSound ((spi.address, c) ∷ st.heap) st.slots.pplans
    kept_cons c = IsSound-cons st.heap st.slots.pplans spi.address c fresh sound

    inserted-IsSound :
        (oids : List ℕ) (plan : ℕ) (head : Option ℕ)
        → Keeps (
            inserted spi oids plan
              (with_cell spi (filled (block oids plan)) st)
              (insert_at spi.address st.slots head))
    unfolding inserted insert_at
    inserted-IsSound oids plan none = (λ bad. cc, kept_cons (filled (block oids plan)))
    inserted-IsSound oids plan (some slot) =
        let heap : List (ℕ × Cell) = (spi.address, filled (block oids plan)) ∷ st.heap in
        (
          λ bad. cc,
          IsSound-set heap heap st.slots.pplans slot
              (record { pplan = spi.address; next = (slot_at st.slots.pplans slot).next })
              (kept_cons (filled (block oids plan)))
              (λ nz. (
                block oids plan,
                find_cell_first spi.address (filled (block oids plan)) st.heap,
                refl,
              ))
              (λ j t other at nz.
                IsLive-cons st.heap spi.address t.pplan (filled (block oids plan)) fresh
                  (sound.live j t at nz)),
        )

    insert_pplan-IsSound :
        (oids : List ℕ) (plan : ℕ)
        → Keeps (
            inserted spi oids plan
              (with_cell spi (filled (block oids plan)) st)
              (insert_pplan spi.address st.slots))
    unfolding insert_pplan inserted
    insert_pplan-IsSound oids plan = elim (Bool-cases (spi.address == 0)) [
      | inl e ↦ rw e (λ bad. cc, kept_cons (filled (block oids plan)))
      | inr e ↦ rw e (inserted-IsSound oids plan st.slots.head_free_pplan_slot)
    ]

    prepare-IsSound : (stmt : Cstring) (o : Option (List ℕ)) → Keeps (prepare_with spi stmt st o)
    unfolding prepare_with prepared
    prepare-IsSound stmt none = (λ bad. cc, kept_cons unfilled)
    prepare-IsSound stmt (some oids) = elim (Bool-cases (spi.prepare stmt oids == 0)) [
      | inl e ↦ rw e (λ bad. cc, kept_cons (filled (block oids 0)))
      | inr e ↦ rw e (insert_pplan-IsSound oids (spi.saveplan (spi.prepare stmt oids)))
    ]

    handle_body-IsSound : (msg : Sql) → Keeps (handle_body spi msg st)
    unfolding handle_body
    handle_body-IsSound (statement limit stmt) =
        (executed_valid spi (spi.execute stmt limit), sound)
    handle_body-IsSound (pexecute args limit pplan) =
        let (valid, same) = handle_pexecute_valid args limit pplan in
        (valid, subst (λ t. IsSound t.heap t.slots.pplans) (sym same) sound)
    handle_body-IsSound (prepare args stmt) = prepare-IsSound stmt (prepare_oids spi args)
    handle_body-IsSound (unprepare pplan) = free_plc_plan-IsSound pplan
    handle_body-IsSound (Sql.unhandled sqltype) = (λ bad. cc, sound)

-- How the subtransaction of a message ends.
abbrev pub Ended : List SubEvent → Handled × SqlState → Type 0
Ended events (answered m, st) = st.events ≡ released ∷ begun ∷ events
Ended events (raised, st) = st.events ≡ rolled_back ∷ begun ∷ events
Ended events (invalid, st) = ⊥

-- The handlers leave the calls on subtransactions to `finish`.
abbrev Quiet : SqlState → Handled × SqlState → Type 0
Quiet st r = r.1.events ≡ st.events

module _ (spi : Spi) where
  inserted-Quiet :
      (oids : List ℕ) (plan : ℕ) (st : SqlState) (r : Option ℕ × PplanSlots)
      → Quiet st (inserted spi oids plan st r)
  unfolding inserted
  inserted-Quiet oids plan st (none, slots) = refl
  inserted-Quiet oids plan st (some slot, slots) = refl

  prepare-Quiet :
      (stmt : Cstring) (st : SqlState) (o : Option (List ℕ)) → Quiet st (prepare_with spi stmt st o)
  unfolding prepare_with prepared
  prepare-Quiet stmt st none = refl
  prepare-Quiet stmt st (some oids) = elim (Bool-cases (spi.prepare stmt oids == 0)) [
    | inl e ↦ rw e refl
    | inr e ↦ rw e (inserted-Quiet oids (spi.saveplan (spi.prepare stmt oids)) _ _)
  ]

  free_cell-events :
      (slot pplan : ℕ) (st : SqlState) (o : Option Cell)
      → (free_cell spi slot pplan st o).1.events ≡ st.events
  unfolding free_cell
  free_cell-events slot pplan st none = refl
  free_cell-events slot pplan st (some unfilled) = refl
  free_cell-events slot pplan st (some (filled p)) = refl

  free_deleted-events :
      (pplan : ℕ) (st : SqlState) (r : Option ℕ × PplanSlots)
      → (free_deleted spi pplan st r).1.events ≡ st.events
  unfolding free_deleted
  free_deleted-events pplan st (none, slots) = refl
  free_deleted-events pplan st (some slot, slots) =
      free_cell-events slot pplan (record st { slots = slots }) (find_cell pplan st.heap)

  unprepared-Quiet :
      (st : SqlState) (r : Option ℕ × SqlState) → r.1.events ≡ st.events → Quiet st (unprepared r)
  unfolding unprepared
  unprepared-Quiet st (none, t) e = e
  unprepared-Quiet st (some retval, t) e = e

  handle_pexecute-Quiet :
      (args : List Argument) (limit pplan : ℕ) (st : SqlState)
      → Quiet st (handle_pexecute spi args limit pplan st)
  unfolding handle_pexecute
  handle_pexecute-Quiet args limit pplan st = elim (Option-cases (search_pplan pplan st.slots)) [
    | inl e ↦ rw e refl
    | inr (i, e) ↦ rw e refl
  ]

  handle_body-Quiet : (msg : Sql) (st : SqlState) → Quiet st (handle_body spi msg st)
  unfolding handle_body free_plc_plan
  handle_body-Quiet (statement limit stmt) st = refl
  handle_body-Quiet (pexecute args limit pplan) st = handle_pexecute-Quiet args limit pplan st
  handle_body-Quiet (prepare args stmt) st = prepare-Quiet stmt st (prepare_oids spi args)
  handle_body-Quiet (unprepare pplan) st =
      unprepared-Quiet st _ (free_deleted-events pplan st (delete_pplan pplan st.slots))
  handle_body-Quiet (Sql.unhandled sqltype) st = refl

finish-Ended :
    (events : List SubEvent) (r : Handled × SqlState)
    → r.0 ≢ invalid
    → r.1.events ≡ begun ∷ events
    → Ended events (finish r) × ((finish r).1.heap ≡ r.1.heap) × ((finish r).1.slots ≡ r.1.slots)
unfolding finish
finish-Ended events (answered m, st) v e = (ap (λ l. released ∷ l) e, refl, refl)
finish-Ended events (raised, st) v e = (ap (λ l. rolled_back ∷ l) e, refl, refl)
finish-Ended events (invalid, st) v e = absurd (v refl)

-- Whatever message the client sends, and whatever SPI answers, `handle_sql_message` uses no block of
-- a plan that is freed or unfilled and no parameter that the plan does not have; each plan in a slot
-- is live and in no other slot afterwards, as before; and the subtransaction that it begins is
-- released when there is an answer and rolled back when an error is raised. The block that is
-- allocated for a new plan must not be in use.
pub handle_sql_message-IsSound :
    (spi : Spi) (msg : Sql) (st : SqlState)
    → find_cell spi.address st.heap ≡ none
    → IsSound st.heap st.slots.pplans
    → Ended st.events (handle_sql_message spi msg st)
      × IsSound
          (handle_sql_message spi msg st).1.heap
          (handle_sql_message spi msg st).1.slots.pplans
unfolding handle_sql_message
handle_sql_message-IsSound spi msg st fresh sound =
    let start : SqlState = event begun st in
    let (valid, kept) = handle_body-IsSound spi start sound fresh msg in
    let (ended, heap, slots) =
      finish-Ended st.events (handle_body spi msg start) valid (handle_body-Quiet spi msg start) in
    (
      ended,
      subst (λ h. IsSound h (finish (handle_body spi msg start)).1.slots.pplans) (sym heap)
          (subst (λ c. IsSound (handle_body spi msg start).1.heap c.pplans) (sym slots) kept),
    )
