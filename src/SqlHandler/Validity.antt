-- ===== src/SqlHandler/Validity.antt =====
-- That the executions of src/sqlhandler.c read only live plans and parameters that they have.
use plcontainer.Common.{
  ℕ, ◌≡◌, ◌≢◌, sym, ap, subst, ◌∙◌, inl, inr, true, false, Option, none, some, List, [], ◌∷◌,
  length, get_elem?, ◌==◌, ==_iff, Bool-cases, Option-cases, arith,
}
use plcontainer.Message.Value.{Value, Raw, null, datum}
use plcontainer.Message.Struct.{Argument, result, QueryResult}
use plcontainer.SqlHandler.Results.{create_sql_result}
use plcontainer.PplanSlots.{PplanSlot, PplanSlots, search_pplan}
use plcontainer.PplanSlots.Laws.{search_slots-some}
use plcontainer.SqlHandler.Heap.{PlcPlan, Cell, filled}
use plcontainer.SqlHandler.State.{
  Spi, answered, raised, invalid, Executed, rows_returned, rows_counted, not_handled,
}
use plcontainer.SqlHandler.Execute.{
  Values, values, no_values, cons_value, bind_value, bind_raw, bind_values, is_composite, executed,
  run_plan, execute_cell,
}
use plcontainer.SqlHandler.Sound.{IsLive, IsSound}

cons_value_valid :
    (v : Option ℕ) (rest : Values)
    → rest ≢ no_values invalid
    → cons_value v rest ≢ no_values invalid
cons_value_valid v (values vs) h e = cc
cons_value_valid v (no_values r) h e = h e

-- The values of an execution never name a parameter that the plan does not have.
bind_value_valid :
    (spi : Spi) (oid : ℕ) (v : Value) (rest : Values)
    → rest ≢ no_values invalid
    → bind_value spi (some oid) v rest ≢ no_values invalid
unfolding bind_value
bind_value_valid spi oid v rest h e = elim (Bool-cases (is_composite (spi.datatype_from_oid oid))) [
  | inl f ↦ cc (let bad : no_values raised ≡ no_values invalid = rw f at e in bad)
  | inr f ↦ elim (Option-cases (spi.in_func oid v)) [
    | inl g ↦ cc (let bad : no_values raised ≡ no_values invalid = rw (f, g) at e in bad)
    | inr (d, g) ↦ cons_value_valid (some d) rest h (rw (f, g) at e)
  ]
]

bind_raw_valid :
    (spi : Spi) (oid : ℕ) (r : Raw) (rest : Values)
    → rest ≢ no_values invalid
    → bind_raw spi (some oid) r rest ≢ no_values invalid
unfolding bind_raw
bind_raw_valid spi oid null rest h = cons_value_valid none rest h
bind_raw_valid spi oid (datum v) rest h = bind_value_valid spi oid v rest h

bind_values_valid :
    (spi : Spi) (args : List Argument) (oids : List ℕ)
    → length oids ≡ length args
    → bind_values spi args oids ≢ no_values invalid
unfolding bind_values
bind_values_valid spi [] oids h e = cc
bind_values_valid spi (a ∷ args) [] h e = absurd (omega arith)
bind_values_valid spi (a ∷ args) (oid ∷ oids) h e =
    bind_raw_valid spi oid a.value (bind_values spi args oids)
      (bind_values_valid spi args oids (omega arith)) e

sql_result_valid :
    (o : Option QueryResult) → elim o [ none ↦ raised | some r ↦ answered (result r) ] ≢ invalid
sql_result_valid none e = cc
sql_result_valid (some r) e = cc

pub executed_valid : (spi : Spi) (x : Executed) → executed spi x ≢ invalid
unfolding executed
executed_valid spi rows_returned e =
    sql_result_valid (create_sql_result true spi.processed spi.tuptable) e
executed_valid spi rows_counted e =
    sql_result_valid (create_sql_result false spi.processed spi.tuptable) e
executed_valid spi not_handled e = cc

run_plan_valid :
    (spi : Spi) (p : PlcPlan) (limit : ℕ) (vs : Values)
    → vs ≢ no_values invalid
    → run_plan spi p limit vs ≢ invalid
unfolding run_plan
run_plan_valid spi p limit (values vs) h e = executed_valid spi (spi.execute_plan p.plan vs limit) e
run_plan_valid spi p limit (no_values r) h e = h (ap no_values e)

pub execute_cell_valid :
    (spi : Spi) (args : List Argument) (limit : ℕ) (p : PlcPlan)
    → length p.arg_oids ≡ p.nargs
    → execute_cell spi args limit (some (filled p)) ≢ invalid
unfolding execute_cell
execute_cell_valid spi args limit p fits = elim (Bool-cases (p.nargs == length args)) [
  | inl e ↦ rw e (
      run_plan_valid spi p limit (bind_values spi args p.arg_oids)
        (bind_values_valid spi args p.arg_oids (fits ∙ (==_iff p.nargs (length args)).0 e)))
  | inr e ↦ rw e (λ bad. cc)
]

-- A plan that the search finds is live.
pub search_pplan-IsLive :
    (heap : List (ℕ × Cell)) (c : PplanSlots) (pplan i : ℕ)
    → IsSound heap c.pplans
    → search_pplan pplan c ≡ some i
    → (s : PplanSlot) × (get_elem? c.pplans i ≡ some s) × (s.pplan ≡ pplan) × IsLive heap pplan
unfolding search_pplan
search_pplan-IsLive heap c pplan i sound found = elim (Bool-cases (pplan == 0)) [
  | inl e ↦ absurd (let bad : none ≡ some i = rw e at found in cc)
  | inr e ↦
      let (s, there, same) = search_slots-some pplan c.pplans i (rw e at found) in
      let nz : pplan ≢ 0 = ground arith in
      (
        s,
        there,
        same,
        subst (λ n. IsLive heap n) same
            (sound.live i s there (subst (λ (n : ℕ). n ≢ 0) (sym same) nz)),
      )
]
