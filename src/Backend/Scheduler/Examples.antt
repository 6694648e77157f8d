-- ===== src/Backend/Scheduler/Examples.antt =====
-- Runs of the scheduler, and its theorems at concrete inputs.
use test_orch.Base.{◌≡◌, refl, true, [], ◌∷◌, Option, none, some, arith, All, Mem}
use test_orch.Base.Int.{pos, ◌+ℤ◌, ◌*ℤ◌, ◌-ℤ◌}
use test_orch.Base.Float.{Float, fin, zero_float, leb_float, ltb_float, eqb_float}
use test_orch.Base.Text.{Text, text, text_eq, is_space, strip, lstrip, comma_list, split}
use test_orch.Base.Result.{ok, err, external_error}
use test_orch.Shared.Validation.{require_non_empty_str}
use test_orch.Shared.Schemas.{to_dict}
use test_orch.Backend.Models.Hosts.{NodupIds}
use test_orch.Backend.Scheduler.Filter.{Qualifies}
use test_orch.Backend.Scheduler.Ranking.{IsScorable}
use test_orch.Backend.Scheduler.Selection.{IsBest}
use test_orch.Backend.Scheduler.Dispatch.{sent, dispatch-IsBest}
use test_orch.Backend.Scheduler.Completion.{dispatch_total}
use test_orch.Backend.Scheduler.Reservation.{dispatch-restores, reserve_and_send-loses}
use test_orch.Backend.Scheduler.Order.{SameRows, select_host-SameRows}
use test_orch.Backend.Models.{WorkerHost, Database, tag_set, get_host, set_active}
use test_orch.Backend.Effects.{Environment, commit, send_task}
use test_orch.Backend.Samples.{
  exact_add, exact, host, bundle, inventory, database, world, calm, no_broker,
}
use test_orch.Backend.Scheduler.{
  IsLawful, Candidate, passes_filter, workload_score, queue_name_for, select_host, write_active,
  reserve_and_send, dispatch,
}

-- What a run computes with.
program : Unit {0}
unfolding dispatch select_host passes_filter workload_score queue_name_for require_non_empty_str
    tag_set comma_list split strip lstrip is_space text_eq get_host set_active leb_float ltb_float
    eqb_float exact_add no_broker ◌+ℤ◌ ◌*ℤ◌ ◌-ℤ◌
program = tt

-- The scores are equal, so the lesser name wins.
select_host_run :
    select_host exact database bundle
    ≡ ok (some (record { host_id = text "a"; score = fin (pos 30) }))
unfolding program
select_host_run = refl

dispatch_run : (dispatch exact calm bundle world).0 ≡ ok (some (text "a"))
unfolding program
dispatch_run = refl

dispatch-no_broker : dispatch exact no_broker bundle world ≡ (
  err external_error,
  record {
    db = database;
    calls =
        commit
        ∷ send_task (text "worker.run_test_bundle") (text "queue_a") (to_dict bundle)
        ∷ commit
        ∷ [];
  },
)
unfolding program
dispatch-no_broker = refl

exact-IsLawful : IsLawful exact
unfolding exact_add leb_float ◌+ℤ◌
exact-IsLawful = record {
  of_int_nonneg = λ n h. h;
  add_nonneg = λ a b h k. exact_add-nonneg a b h k;
}
  where
    exact_add-nonneg :
        (a b : Float)
        → leb_float zero_float a ≡ true
        → leb_float zero_float b ≡ true
        → leb_float zero_float (exact_add a b) ≡ true
    exact_add-nonneg (fin a) (fin b) h k = ground arith
    exact_add-nonneg a b h k = refl

inventory-IsScorable : All IsScorable inventory
unfolding leb_float
inventory-IsScorable = (
  record { active = refl; cpu = refl },
  (record { active = refl; cpu = refl }, (record { active = refl; cpu = refl }, tt)),
)

inventory-NodupIds : NodupIds inventory
inventory-NodupIds = omega arith

dispatch-restores_example : (dispatch exact no_broker bundle world).1.db ≡ database
dispatch-restores_example =
    dispatch-restores exact no_broker bundle world external_error
      (λ calls. unfold no_broker in refl) inventory-NodupIds (unfold program in refl)

dispatch-IsBest_example :
    ((name : Text)
      → (dispatch exact calm bundle world).0 ≡ ok (some name)
      → (c : Candidate) × IsBest exact bundle inventory c
        × (c.0.host_id ≡ name)
        × ((dispatch exact calm bundle world).1 ≡ sent calm bundle c.0 world))
    × ((dispatch exact calm bundle world).0 ≡ ok none
        → ((h : WorkerHost) → Mem h inventory → ¬ Qualifies bundle h)
          × ((dispatch exact calm bundle world).1 ≡ world))
dispatch-IsBest_example = dispatch-IsBest exact calm bundle world

-- The first commit fails.
abbrev one_failure : Environment
one_failure [] event = some external_error
one_failure (call ∷ calls) event = none

reserve_and_send-loses_example :
    reserve_and_send one_failure (host 2 (text "a") (pos 1) 10) (text "queue_a") bundle world ≡ (
      err external_error,
      record { db = write_active 2 (pos 1 -ℤ pos 1) database; calls = commit ∷ commit ∷ [] },
    )
reserve_and_send-loses_example =
    reserve_and_send-loses one_failure (host 2 (text "a") (pos 1) 10) (text "queue_a") bundle world
      external_error refl refl (unfold get_host in refl) refl

dispatch_total_example : (r : Option Text) × ((dispatch exact calm bundle world).0 ≡ ok r)
dispatch_total_example =
    dispatch_total exact calm bundle world exact-IsLawful inventory-IsScorable
      (unfold program in (refl, (refl, (refl, tt)))) (λ calls event. refl)

-- The same rows in another order.
abbrev shuffled : Database
shuffled = record database {
  hosts =
      host 2 (text "a") (pos 1) 10
      ∷ host 1 (text "b") (pos 0) 30
      ∷ host 3 (text "c") (pos 2) 0
      ∷ [];
}

shuffled-SameRows : SameRows inventory shuffled.hosts
shuffled-SameRows row = ground arith

shuffled-IsScorable : All IsScorable shuffled.hosts
unfolding leb_float
shuffled-IsScorable = (
  record { active = refl; cpu = refl },
  (record { active = refl; cpu = refl }, (record { active = refl; cpu = refl }, tt)),
)

select_host-SameRows_example : select_host exact database bundle ≡ select_host exact shuffled bundle
select_host-SameRows_example =
    select_host-SameRows exact database shuffled bundle exact-IsLawful inventory-IsScorable
      shuffled-IsScorable shuffled-SameRows
