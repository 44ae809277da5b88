-- ===== src/Tests/Queries.antt =====
-- Examples for `handle_sql_message` of src/sqlhandler.c.
use plcontainer.Common.{ℕ, suc, ◌<◌, ◌≡◌, ◌≢◌, refl, none, some, List, [], ◌∷◌, All, arith}
use plcontainer.Message.Datatype.{int4}
use plcontainer.Message.Struct.{Sql, prepare, unprepare}
use plcontainer.PplanSlots.{search_pplan, init_pplan_slots, delete_pplan}
use plcontainer.SqlHandler.Heap.{find_cell, filled}
use plcontainer.SqlHandler.Results.{create_prepare_result, create_unprepare_result}
use plcontainer.SqlHandler.State.{Spi, SqlState, answered, rows_counted}
use plcontainer.SqlHandler.Prepare.{minus_one, prepare_oids}
use plcontainer.SqlHandler.{handle_sql_message, deinit_pplan_slots}
use plcontainer.SqlHandler.Sound.{IsSound, init_pplan_slots-IsSound}
use plcontainer.SqlHandler.Whole.{Ended, handle_sql_message-IsSound}
use plcontainer.SqlHandler.Deinit.{IsEmpty, deinit_pplan_slots-IsEmpty}
use plcontainer.SqlHandler.Leaked.{after_messages}
use plcontainer.SqlHandler.Unregistered.{handle_sql_message_leaks}

-- SPI prepares the plan 70, which it saves as 71.
abbrev spi : Spi
spi = record {
  address = 9000;
  parse_type_string = λ name. some 23;
  parse_oid = λ name. some 23;
  datatype_from_oid = λ oid. int4;
  in_func = λ oid v. some 5;
  execute = λ stmt limit. rows_counted;
  execute_plan = λ plan vs limit. rows_counted;
  tuptable = none;
  processed = 2;
  prepare = λ stmt oids. 70;
  saveplan = λ plan. suc plan;
  freeplan = λ plan. 0;
}

abbrev no_plans : SqlState
no_plans = record { slots = init_pplan_slots; heap = []; events = [] }

handle_sql_message-IsSound_example :
    Ended [] (handle_sql_message spi (prepare [] none) no_plans)
    × IsSound
        (handle_sql_message spi (prepare [] none) no_plans).1.heap
        (handle_sql_message spi (prepare [] none) no_plans).1.slots.pplans
unfolding find_cell
handle_sql_message-IsSound_example =
    handle_sql_message-IsSound spi (prepare [] none) no_plans refl (init_pplan_slots-IsSound [])

-- Once there is a plan.
abbrev one_plan : SqlState
one_plan = (handle_sql_message spi (prepare [] none) no_plans).1

one_plan_answer :
    (handle_sql_message spi (unprepare 9000) one_plan).0 ≡ answered (create_unprepare_result 0)
unfolding handle_sql_message init_pplan_slots delete_pplan
one_plan_answer = refl

deinit_pplan_slots-IsEmpty_example :
    (st' : SqlState) × (deinit_pplan_slots spi one_plan ≡ some st')
    × ((k : ℕ) → k < 32 → IsEmpty st'.slots.pplans k)
deinit_pplan_slots-IsEmpty_example =
    deinit_pplan_slots-IsEmpty spi one_plan handle_sql_message-IsSound_example.1

-- SPI refuses the statement.
abbrev refusing : Spi
refusing = record spi { prepare = λ stmt oids. 0 }

no_oids : prepare_oids refusing [] ≡ some []
unfolding prepare_oids
no_oids = refl

-- The next block is elsewhere.
abbrev next_spi : Spi
next_spi = record spi { address = 9500 }

abbrev later_messages : List (Spi × Sql)
later_messages =
    (next_spi, prepare [] none) ∷ (next_spi, unprepare 9500) ∷ (next_spi, unprepare 9000) ∷ []

later_apart : All (λ m. m.0.address ≢ 9000) later_messages
later_apart =
    ((λ e. absurd (omega arith)), ((λ e. absurd (omega arith)), ((λ e. absurd (omega arith)), tt)))

handle_sql_message_leaks_example :
    ((handle_sql_message refusing (prepare [] none) no_plans).0
      ≡ answered (create_prepare_result 9000 0 []))
    × (find_cell 9000
          (after_messages later_messages
            (handle_sql_message refusing (prepare [] none) no_plans).1).heap
        ≡ some (filled (record { arg_oids = []; plan = 0; nargs = 0 })))
    × (search_pplan 9000
          (after_messages later_messages
            (handle_sql_message refusing (prepare [] none) no_plans).1).slots
        ≡ none)
    × ((handle_sql_message spi (unprepare 9000) (
          after_messages later_messages
            (handle_sql_message refusing (prepare [] none) no_plans).1)).0
        ≡ answered (create_unprepare_result minus_one))
unfolding find_cell
handle_sql_message_leaks_example =
    handle_sql_message_leaks refusing spi [] none [] later_messages no_plans no_oids refl
      (λ e. absurd (omega arith)) refl (init_pplan_slots-IsSound []) later_apart
