-- ===== src/SqlHandler/Leaked.antt =====
-- A block of a plan of src/sqlhandler.c that is in no slot, whatever messages follow.
use plcontainer.Common.{
  ℕ, zero, suc, ◌≡◌, ◌≢◌, refl, ap, sym, ◌∙◌, inl, inr, true, false, Option, none, some, List, [],
  ◌∷◌, set, All, ◌==◌, ==_iff, Bool-cases, Option-cases,
}
use plcontainer.Message.Datatype.{Cstring}
use plcontainer.Message.Struct.{Argument, Sql, statement, prepare, unprepare, pexecute}
use plcontainer.PplanSlots.{
  PplanSlot, PplanSlots, search_slots, search_pplan, insert_at, insert_pplan, delete_pplan,
}
use plcontainer.SqlHandler.Heap.{Cell, unfilled, filled, find_cell, find_cell-remove_cell}
use plcontainer.SqlHandler.State.{Spi, SqlState, Handled, begun, answered, raised, invalid}
use plcontainer.SqlHandler.Execute.{handle_pexecute}
use plcontainer.SqlHandler.Prepare.{
  prepare_oids, with_cell, inserted, prepare_with, prepared, free_cell, free_deleted, free_plc_plan,
  unprepared,
}
use plcontainer.SqlHandler.{handle_body, handle_sql_message, event, finish}

-- No slot has the address.
abbrev pub Unlisted : ℕ → List PplanSlot → Type 0
Unlisted a pplans = All (λ s. s.pplan ≢ a) pplans

Unlisted-set :
    (a : ℕ) (pplans : List PplanSlot) (i : ℕ) (s : PplanSlot)
    → Unlisted a pplans
    → s.pplan ≢ a
    → Unlisted a (set pplans i s)
Unlisted-set a [] i s h ne = tt
Unlisted-set a (t ∷ pplans) zero s h ne = (ne, h.1)
Unlisted-set a (t ∷ pplans) (suc i) s h ne = (h.0, Unlisted-set a pplans i s h.1 ne)

search_slots-Unlisted :
    (a : ℕ) (pplans : List PplanSlot) → Unlisted a pplans → search_slots a pplans ≡ none
unfolding search_slots
search_slots-Unlisted a [] h = refl
search_slots-Unlisted a (s ∷ pplans) h = elim (Bool-cases (s.pplan == a)) [
  | inl e ↦ absurd (h.0 ((==_iff s.pplan a).0 e))
  | inr e ↦ rw (e, search_slots-Unlisted a pplans h.1) refl
]

pub search_pplan-Unlisted :
    (a : ℕ) → a ≢ 0 → (c : PplanSlots) → Unlisted a c.pplans → search_pplan a c ≡ none
unfolding search_pplan
search_pplan-Unlisted a given c h = elim (Bool-cases (a == 0)) [
  | inl e ↦ absurd (given ((==_iff a 0).0 e))
  | inr e ↦ rw e (search_slots-Unlisted a c.pplans h)
]

true_not_false : ¬ (true ≡ false)
true_not_false e = cc

pub Unlisted-search_slots :
    (a : ℕ) (pplans : List PplanSlot) → search_slots a pplans ≡ none → Unlisted a pplans
unfolding search_slots
Unlisted-search_slots a [] h = tt
Unlisted-search_slots a (s ∷ pplans) h = elim (Bool-cases (s.pplan == a)) [
  | inl e ↦ absurd (let bad : some 0 ≡ none = rw e at h in cc)
  | inr e ↦ elim (Option-cases (search_slots a pplans)) [
    | inl f ↦
        ((λ g. true_not_false (sym ((==_iff s.pplan a).1 g) ∙ e)), Unlisted-search_slots a pplans f)
    | inr (i, f) ↦ absurd (let bad : some (suc i) ≡ none = rw (e, f) at h in cc)
  ]
]

-- The block is there, and no slot has it.
pub record Leaked (a : ℕ) (cell : Cell) (st : SqlState) : Type 0 where
  pub there : find_cell a st.heap ≡ some cell
  pub unlisted : Unlisted a st.slots.pplans

module _ (a : ℕ) (given : a ≢ 0) (cell : Cell) (spi : Spi) (apart : spi.address ≢ a) (st : SqlState)
    (leak : Leaked a cell st) where
  cell_kept : (c : Cell) → find_cell a ((spi.address, c) ∷ st.heap) ≡ some cell
  unfolding find_cell
  cell_kept c = elim (Bool-cases (spi.address == a)) [
    | inl e ↦ absurd (apart ((==_iff spi.address a).0 e))
    | inr e ↦ rw e leak.there
  ]

  with_cell-Leaked : (c : Cell) → Leaked a cell (with_cell spi c st)
  with_cell-Leaked c = record { there = cell_kept c; unlisted = leak.unlisted }

  inserted-Leaked :
      (oids : List ℕ) (plan : ℕ) (c : Cell) (head : Option ℕ)
      → Leaked a cell
          (inserted spi oids plan (with_cell spi c st) (insert_at spi.address st.slots head)).1
  unfolding inserted insert_at
  inserted-Leaked oids plan c none = with_cell-Leaked c
  inserted-Leaked oids plan c (some slot) = record {
    there = cell_kept c;
    unlisted = Unlisted-set a st.slots.pplans slot _ leak.unlisted apart;
  }

  prepare-Leaked :
      (stmt : Cstring) (o : Option (List ℕ)) → Leaked a cell (prepare_with spi stmt st o).1
  unfolding prepare_with prepared insert_pplan inserted
  prepare-Leaked stmt none = with_cell-Leaked unfilled
  prepare-Leaked stmt (some oids) = elim (Bool-cases (spi.prepare stmt oids == 0)) [
    | inl e ↦ rw e (with_cell-Leaked _)
    | inr e ↦ elim (Bool-cases (spi.address == 0)) [
      | inl f ↦ rw (e, f) (with_cell-Leaked _)
      | inr f ↦
          rw (e, f)
            (inserted-Leaked oids (spi.saveplan (spi.prepare stmt oids)) _
              st.slots.head_free_pplan_slot)
    ]
  ]

  deleted :
      (slot : ℕ)
      → Unlisted a
          (set st.slots.pplans slot (record { pplan = 0; next = st.slots.head_free_pplan_slot }))
  deleted slot = Unlisted-set a st.slots.pplans slot _ leak.unlisted (λ e. given (sym e))

  not_leaked : (pplan i : ℕ) → search_pplan pplan st.slots ≡ some i → pplan ≢ a
  not_leaked pplan i e same =
      let gone : search_pplan pplan st.slots ≡ none =
        ap (λ p. search_pplan p st.slots) same
        ∙ search_pplan-Unlisted a given st.slots leak.unlisted in
      cc

  free_cell-Leaked :
      (slot pplan : ℕ) (o : Option Cell)
      → pplan ≢ a
      → Leaked a cell
          (unprepared (
            free_cell spi slot pplan
              (record st {
                slots = record {
                  pplans =
                      set st.slots.pplans slot
                        (record { pplan = 0; next = st.slots.head_free_pplan_slot });
                  head_free_pplan_slot = some slot;
                };
              })
              o)).1
  unfolding free_cell unprepared
  free_cell-Leaked slot pplan none ne = record { there = leak.there; unlisted = deleted slot }
  free_cell-Leaked slot pplan (some unfilled) ne = record {
    there = leak.there;
    unlisted = deleted slot;
  }
  free_cell-Leaked slot pplan (some (filled p)) ne = record {
    there = find_cell-remove_cell a pplan st.heap (λ e. ne (sym e)) ∙ leak.there;
    unlisted = deleted slot;
  }

  unprepare-Leaked : (pplan : ℕ) → Leaked a cell (unprepared (free_plc_plan spi pplan st)).1
  unfolding free_plc_plan free_deleted unprepared delete_pplan
  unprepare-Leaked pplan = elim (Option-cases (search_pplan pplan st.slots)) [
    | inl e ↦ rw e leak
    | inr (i, e) ↦ rw e (free_cell-Leaked i pplan (find_cell pplan st.heap) (not_leaked pplan i e))
  ]

  pexecute-Leaked :
      (args : List Argument) (limit pplan : ℕ)
      → Leaked a cell (handle_pexecute spi args limit pplan st).1
  unfolding handle_pexecute
  pexecute-Leaked args limit pplan = elim (Option-cases (search_pplan pplan st.slots)) [
    | inl e ↦ rw e leak
    | inr (i, e) ↦ rw e leak
  ]

  handle_body-Leaked : (msg : Sql) → Leaked a cell (handle_body spi msg st).1
  unfolding handle_body
  handle_body-Leaked (statement limit stmt) = leak
  handle_body-Leaked (pexecute args limit pplan) = pexecute-Leaked args limit pplan
  handle_body-Leaked (prepare args stmt) = prepare-Leaked stmt (prepare_oids spi args)
  handle_body-Leaked (unprepare pplan) = unprepare-Leaked pplan
  handle_body-Leaked (Sql.unhandled sqltype) = leak

finish-Leaked :
    (a : ℕ) (cell : Cell) (r : Handled × SqlState) → Leaked a cell r.1 → Leaked a cell (finish r).1
unfolding finish
finish-Leaked a cell (answered m, st) h = record { there = h.there; unlisted = h.unlisted }
finish-Leaked a cell (raised, st) h = record { there = h.there; unlisted = h.unlisted }
finish-Leaked a cell (invalid, st) h = h

handle-Leaked :
    (a : ℕ)
    → a ≢ 0
    → (cell : Cell) (spi : Spi) → spi.address ≢ a
    → (msg : Sql) (st : SqlState) → Leaked a cell st
    → Leaked a cell (handle_sql_message spi msg st).1
unfolding handle_sql_message
handle-Leaked a given cell spi apart msg st h =
    finish-Leaked a cell (handle_body spi msg (event begun st)) (
      handle_body-Leaked a given cell spi apart (event begun st)
        (record { there = h.there; unlisted = h.unlisted }) msg)

-- The state after messages, each with the answers of SPI to it.
abbrev pub after_messages : List (Spi × Sql) → SqlState → SqlState
after_messages [] st = st
after_messages ((spi, msg) ∷ msgs) st = after_messages msgs (handle_sql_message spi msg st).1

pub messages-Leaked :
    (a : ℕ)
    → a ≢ 0
    → (cell : Cell) (msgs : List (Spi × Sql)) → All (λ m. m.0.address ≢ a) msgs
    → (st : SqlState) → Leaked a cell st
    → Leaked a cell (after_messages msgs st)
messages-Leaked a given cell [] apart st h = h
messages-Leaked a given cell ((spi, msg) ∷ msgs) apart st h =
    messages-Leaked a given cell msgs apart.1 (handle_sql_message spi msg st).1
      (handle-Leaked a given cell spi apart.0 msg st h)
