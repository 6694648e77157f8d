-- ===== src/Worker/Tasks/Examples.antt =====
-- The tasks at concrete inputs.
use test_orch.Base.{◌≡◌, refl, false, [], ◌∷◌, map, none, some, arith, nat_eq, if◌then◌else◌}
use test_orch.Base.Int.{pos, ◌+ℤ◌, ◌-ℤ◌, ◌*ℤ◌}
use test_orch.Base.Float.{leb_float, ltb_float, eqb_float}
use test_orch.Base.Text.{Text, text, text_eq, is_space, strip, lstrip, comma_list, split}
use test_orch.Base.Keys.{NodupKeys}
use test_orch.Base.Result.{ok}
use test_orch.Shared.Validation.{require_non_empty_str}
use test_orch.Shared.Schemas.{TestStatus, running, dispatched, failed}
use test_orch.Backend.Models.{
  WorkerHost, TestExecution, tag_set, get_host, set_active, host_by_name,
}
use test_orch.Backend.Models.Hosts.{NodupIds}
use test_orch.Backend.Effects.{World}
use test_orch.Backend.Samples.{host, exact, exact_add, bundle, inventory, database, world, at, calm}
use test_orch.Backend.Scheduler.{queue_name_for, passes_filter, workload_score, dispatch}
use test_orch.Worker.Tasks.{write_back, is_stuck, decrement_active_containers, reap_stale}
use test_orch.Worker.Tasks.Race.{dispatch-write_back}
use test_orch.Worker.Tasks.Reaper.{is_overdue, reap_stale-eq}

program : Unit {0}
unfolding dispatch passes_filter workload_score queue_name_for require_non_empty_str tag_set
    comma_list split strip lstrip is_space text_eq get_host set_active leb_float ltb_float eqb_float
    exact_add ◌+ℤ◌ ◌*ℤ◌ ◌-ℤ◌ host_by_name is_stuck
program = tt

inventory-NodupIds : NodupIds inventory
inventory-NodupIds = omega arith

inventory-names : NodupKeys (λ (h : WorkerHost). h.host_id) inventory
unfolding text_eq
inventory-names = ground arith

inventory-NodupKeys : NodupKeys (λ (h : WorkerHost). h.id) inventory
inventory-NodupKeys = ground arith

abbrev run : Text → TestStatus → TestExecution
run key status = record {
  test_id = key;
  user_id = 7;
  target_host_id = some (text "a");
  runner_type = text "pytest";
  framework_image = text "img";
  status = status;
  quali_reservation_id = none;
  artifact_url = none;
  created_at = at (pos 0);
  updated_at = at (pos 0);
}

abbrev busy : World
busy = record {
  db = record database { executions = run (text "t1") running ∷ run (text "t2") dispatched ∷ [] };
  calls = [];
}

busy-NodupKeys : NodupKeys (λ (r : TestExecution). r.test_id) busy.db.executions
unfolding text_eq
busy-NodupKeys = ground arith

-- A run that was dispatched and has not started is not stuck.
stuck_run : is_stuck (text "a") (pos 5) (run (text "t2") dispatched) ≡ false
unfolding program
stuck_run = refl

reap_stale-eq_example :
    ((reap_stale calm (text "a") (at (pos 9000000000)) (at (pos 9000000001)) busy).0 ≡ ok tt)
    × ((reap_stale calm (text "a") (at (pos 9000000000)) (at (pos 9000000001)) busy).1.db
        ≡ record busy.db {
          executions =
              map
                (λ r.
                  if is_overdue (text "a") (at (pos 9000000000)) r
                  then record r { status = failed; updated_at = at (pos 9000000001) }
                  else r)
                busy.db.executions;
        })
reap_stale-eq_example =
    reap_stale-eq calm (text "a") (at (pos 9000000000)) (at (pos 9000000001)) busy refl
      (λ calls. refl) busy-NodupKeys

-- The slot of `a` that a dispatch reserves after the worker's read is lost.
dispatch-write_back_example :
    (write_back calm (host 2 (text "a") (pos 1) 10) (dispatch exact calm bundle world).1).1.db.hosts
    ≡ (decrement_active_containers calm (text "a") world).1.db.hosts
dispatch-write_back_example =
    dispatch-write_back calm calm exact bundle (text "a") (host 2 (text "a") (pos 1) 10) world
      (λ calls. refl) inventory-names (unfold program in refl) refl (unfold program in refl)
