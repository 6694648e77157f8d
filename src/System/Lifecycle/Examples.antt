-- ===== src/System/Lifecycle/Examples.antt =====
-- A form whose run goes to host `a`, and the worker there.
use test_orch.Base.{◌≡◌, refl, false, inl, none, some, arith, nat_eq}
use test_orch.Base.Int.{pos, ◌+ℤ◌, ◌-ℤ◌, ◌*ℤ◌}
use test_orch.Base.Float.{leb_float, ltb_float, eqb_float}
use test_orch.Base.Text.{text, text_eq, is_space, strip, lstrip, comma_list, split}
use test_orch.Base.Keys.{NodupKeys}
use test_orch.Base.Result.{ok}
use test_orch.Shared.Value.{dict}
use test_orch.Shared.Validation.{require_non_empty_str, require_positive_int, require_mapping}
use test_orch.Shared.Schemas.{to_dict, post_init, dispatched}
use test_orch.Shared.Schemas.RoundTrip.{IsValid}
use test_orch.Backend.Models.{
  User, WorkerHost, TestExecution, tag_set, get_host, set_active, execution_by_id,
}
use test_orch.Backend.Models.Hosts.{NodupIds}
use test_orch.Backend.Scheduler.{queue_name_for, passes_filter, workload_score, dispatch}
use test_orch.Backend.Routes.{bundle_args, pending_row, settle_row, submit_test}
use test_orch.Backend.Routes.Submit.{chosen_of, recorded}
use test_orch.Backend.Samples.{exact, exact_add, at, bundle, inventory, world, calm}
use test_orch.Worker.Machine.{Machine}
use test_orch.Worker.Samples.{worker, show}
use test_orch.Worker.Bundle.{run_test_bundle}
use test_orch.Worker.Bundle.Status.{Connects, Settled}
use test_orch.Worker.Bundle.Slot.{Removes}
use test_orch.System.Lifecycle.{submit_test-run, settle_row-overwrites}

program : Unit {0}
unfolding dispatch passes_filter workload_score queue_name_for require_non_empty_str
    require_positive_int require_mapping tag_set comma_list split strip lstrip is_space text_eq
    get_host set_active leb_float ltb_float eqb_float exact_add ◌+ℤ◌ ◌*ℤ◌ ◌-ℤ◌ post_init
    execution_by_id
program = tt

abbrev machine : Machine
machine = worker calm

abbrev ann : User
ann = record { id = 7; username = text "ann"; display_name = none; email = none }

abbrev row : TestExecution
row = pending_row (text "t1") ann (text "pytest") (text "img") (at (pos 1))

calm-Connects : Connects calm
calm-Connects = record { tables = λ calls. refl; docker = λ calls. refl; influx = λ calls. refl }

calm-Removes : Removes calm
calm-Removes = record { get = λ calls name. inl refl; remove = λ calls name. inl refl }

inventory-NodupIds : NodupIds inventory
inventory-NodupIds = omega arith

inventory-names : NodupKeys (λ (h : WorkerHost). h.host_id) inventory
unfolding text_eq
inventory-names = ground arith

form-accepted :
    post_init
      (bundle_args (text "t1") ann (text "pytest") (text "img") (text "") (text "usb") false)
    ≡ ok bundle
unfolding program
form-accepted = refl

goes_to_a : (dispatch exact calm bundle (recorded calm exact row world)).0 ≡ ok (some (text "a"))
unfolding program
goes_to_a = refl

submit_test-run_example :
    let submitted =
      submit_test calm exact
        (text "t1")
        (at (pos 1))
        (at (pos 2))
        (text "pytest")
        (text "img")
        (text "")
        (text "usb")
        false
        (some ann)
        world in
    let ran = run_test_bundle show machine (dict (to_dict bundle)) submitted.1 in
    Settled machine bundle ran × (ran.1.db.hosts ≡ inventory)
submit_test-run_example =
    submit_test-run show machine exact calm (text "t1") (at (pos 1)) (at (pos 2)) (text "pytest")
      (text "img") (text "") (text "usb") false ann world bundle (λ calls. refl) (λ calls. refl)
      calm-Connects calm-Removes inventory-NodupIds inventory-names (unfold program in refl)
      form-accepted goes_to_a

bundle-IsValid : IsValid bundle
unfolding program
bundle-IsValid = record {
  test_id = refl;
  user_id = omega arith;
  runner_type = refl;
  framework_image = refl;
  reservation = tt;
}

settle_row-overwrites_example :
    let sent = dispatch exact calm bundle (recorded calm exact row world) in
    let ran = run_test_bundle show machine (dict (to_dict bundle)) sent.1 in
    let end = settle_row calm exact row (at (pos 2)) (chosen_of calm exact sent.0) ran.1 in
    Settled machine bundle ran
    × (run : TestExecution) × (execution_by_id (text "t1") end.1.db.executions ≡ some run)
    × (run.status ≡ dispatched)
settle_row-overwrites_example =
    settle_row-overwrites show machine exact calm row (at (pos 2)) bundle world (λ calls. refl)
      (λ calls. refl) calm-Connects bundle-IsValid refl (unfold program in refl) goes_to_a
