-- ===== src/Worker/Bundle/Examples.antt =====
-- Runs of the task at concrete inputs.
use test_orch.Base.{◌≡◌, ◌≢◌, refl, inl, inr, [], ◌∷◌, none, some, arith, nat_eq}
use test_orch.Base.Int.{pos, ◌+ℤ◌, ◌-ℤ◌, ◌*ℤ◌}
use test_orch.Base.Float.{leb_float, ltb_float, eqb_float}
use test_orch.Base.Text.{text, text_eq, is_space, strip, lstrip, comma_list, split, join}
use test_orch.Base.ParseInt.{parse_int}
use test_orch.Base.Keys.{NodupKeys}
use test_orch.Base.Result.{ok, err, external_error, not_found}
use test_orch.Shared.Value.{dict}
use test_orch.Shared.Validation.{
  require_non_empty_str, require_positive_int, require_mapping, require_keys, missing_keys,
}
use test_orch.Shared.Schemas.{value, pending, to_dict, from_dict, post_init}
use test_orch.Shared.Schemas.RoundTrip.{IsValid}
use test_orch.Backend.Models.{
  WorkerHost, TestExecution, tag_set, get_host, set_active, host_by_name, execution_by_id,
}
use test_orch.Backend.Models.Hosts.{NodupIds}
use test_orch.Backend.Effects.{World, Environment, next_line, docker_remove}
use test_orch.Backend.Influx.{write_line}
use test_orch.Backend.Maintenance.{release, release_if_any}
use test_orch.Backend.Samples.{exact_add, bundle, inventory, database, at, calm}
use test_orch.Backend.Scheduler.{queue_name_for, passes_filter, workload_score, dispatch}
use test_orch.Worker.Machine.{Machine}
use test_orch.Worker.Samples.{worker, show}
use test_orch.Worker.Broker.{publish_log_line}
use test_orch.Worker.Docker.{
  container_name, check_output, start_test_container, ignore_missing, cleanup,
}
use test_orch.Worker.Runners.{get_runner, write_config, timeout_of, robot_lines}
use test_orch.Worker.Artifacts.{upload_artifact, upload_all, basename}
use test_orch.Worker.Tasks.{set_status, decrement_active_containers}
use test_orch.Worker.Bundle.{run_started, run_test_bundle}
use test_orch.Worker.Bundle.Status.{Connects}
use test_orch.Worker.Bundle.Slot.{Removes, RefusesRemoval, run_test_bundle-leaks}

-- The host `a`, whose services answer as `env` says.
abbrev machine : Environment → Machine
machine env = record (worker env) {
  artifactory_url = text "https://store";
  artifactory_repo = text "repo";
  lines = text "collected 1 item\n" ∷ text "1 passed\n" ∷ [];
  files = text "out.log" ∷ text "notes.txt" ∷ [];
}

abbrev submitted : TestExecution
submitted = record {
  test_id = text "t1";
  user_id = 7;
  target_host_id = none;
  runner_type = text "pytest";
  framework_image = text "img";
  status = pending;
  quali_reservation_id = none;
  artifact_url = none;
  created_at = at (pos 1);
  updated_at = at (pos 1);
}

abbrev start : World
start = record { db = record database { executions = submitted ∷ [] }; calls = [] }

-- The container's log stream breaks.
unfoldable broken_stream : Environment
broken_stream calls next_line = some external_error
broken_stream calls event = none

unfoldable no_docker : Environment
no_docker calls (docker_remove name) = some external_error
no_docker calls event = none

program : Unit {0}
unfolding run_test_bundle run_started get_runner write_config timeout_of robot_lines parse_int
    publish_log_line write_line container_name check_output start_test_container ignore_missing
    cleanup upload_artifact upload_all basename set_status decrement_active_containers release
    release_if_any value to_dict from_dict post_init require_keys missing_keys require_mapping
    require_non_empty_str require_positive_int strip lstrip is_space text_eq host_by_name
    execution_by_id set_active get_host split join ◌-ℤ◌ ◌+ℤ◌ ◌*ℤ◌ broken_stream no_docker dispatch
    passes_filter workload_score queue_name_for tag_set comma_list leb_float ltb_float eqb_float
    exact_add
program = tt

bundle-parsed : from_dict (dict (to_dict bundle)) ≡ ok bundle
unfolding program
bundle-parsed = refl

passing_run :
    (run_test_bundle show (machine calm) (dict (to_dict bundle)) start).0 ≡ ok (text "PASSED")
unfolding program
passing_run = refl

broken_run :
    (run_test_bundle show (machine broken_stream) (dict (to_dict bundle)) start).0
    ≡ err external_error
unfolding program
broken_run = refl

calm-Connects : Connects calm
calm-Connects = record { tables = λ calls. refl; docker = λ calls. refl; influx = λ calls. refl }

broken_stream-Removes : Removes broken_stream
unfolding broken_stream
broken_stream-Removes = record { get = λ calls name. inl refl; remove = λ calls name. inl refl }

calm-Removes : Removes calm
calm-Removes = record { get = λ calls name. inl refl; remove = λ calls name. inl refl }

bundle-IsValid : IsValid bundle
unfolding program
bundle-IsValid = record {
  test_id = refl;
  user_id = omega arith;
  runner_type = refl;
  framework_image = refl;
  reservation = tt;
}

inventory-NodupIds : NodupIds inventory
inventory-NodupIds = omega arith

inventory-names : NodupKeys (λ (h : WorkerHost). h.host_id) inventory
unfolding text_eq
inventory-names = ground arith

external-ne-not_found : external_error ≢ not_found
external-ne-not_found h = cc

no_docker-Connects : Connects no_docker
unfolding no_docker
no_docker-Connects = record {
  tables = λ calls. refl;
  docker = λ calls. refl;
  influx = λ calls. refl;
}

no_docker-RefusesRemoval : RefusesRemoval no_docker
unfolding no_docker
no_docker-RefusesRemoval = record {
  refuses = λ calls name. (external_error, external-ne-not_found, inr (refl, refl));
}

run_test_bundle-leaks_example :
    (run_test_bundle show (machine no_docker) (dict (to_dict bundle)) start).1.db.hosts ≡ inventory
run_test_bundle-leaks_example =
    run_test_bundle-leaks show (machine no_docker) (dict (to_dict bundle)) bundle start submitted
      (λ calls. unfold no_docker in refl) no_docker-Connects no_docker-RefusesRemoval bundle-parsed
      (unfold program in refl)
