-- ===== src/Backend/Routes/Examples.antt =====
-- The routes at concrete inputs.
use test_orch.Base.{◌≡◌, refl, false, [], ◌∷◌, none, some, nat_eq}
use test_orch.Base.Int.{pos, ◌+ℤ◌, ◌-ℤ◌, ◌*ℤ◌}
use test_orch.Base.Float.{leb_float, ltb_float, eqb_float}
use test_orch.Base.Text.{text, text_eq, is_space, strip, lstrip, comma_list, split, join}
use test_orch.Base.Result.{ok}
use test_orch.Shared.Value.{end}
use test_orch.Shared.Validation.{require_non_empty_str, require_positive_int, require_mapping}
use test_orch.Shared.Schemas.{TestBundleRequest, post_init, failed}
use test_orch.Backend.Models.{
  User, TestExecution, Database, tag_set, host_by_name, execution_by_id, get_host, set_active,
}
use test_orch.Backend.Samples.{exact, exact_add, database, world, at, no_broker}
use test_orch.Backend.Scheduler.{queue_name_for, passes_filter, workload_score, dispatch}
use test_orch.Backend.Routes.{
  redirect, bundle_args, pending_row, update_host, submit_test, test_logs_page,
}
use test_orch.Backend.Routes.Submit.{IsOutcome, run_of, recorded, submit_test-settles}

abbrev ann : User
ann = record { id = 7; username = text "ann"; display_name = none; email = none }

abbrev form_bundle : TestBundleRequest
form_bundle = record {
  test_id = text "t9";
  user_id = pos 7;
  runner_type = text "pytest";
  framework_image = text "img";
  required_hw_tags = text "usb" ∷ [];
  requires_emulation = false;
  quali_reservation_id = none;
  runner_variables = end;
}

program : Unit {0}
unfolding dispatch passes_filter workload_score queue_name_for require_non_empty_str
    require_positive_int require_mapping tag_set comma_list split strip lstrip is_space text_eq
    get_host set_active leb_float ltb_float eqb_float exact_add no_broker ◌+ℤ◌ ◌*ℤ◌ ◌-ℤ◌ post_init
    submit_test update_host host_by_name execution_by_id join test_logs_page
program = tt

form-accepted :
    post_init
      (bundle_args (text "t9") ann (text "pytest") (text "img") (text "") (text " usb,,") false)
    ≡ ok form_bundle
unfolding program
form-accepted = refl

row : TestExecution
row = pending_row (text "t9") ann (text "pytest") (text "img") (at (pos 1))

-- The broker is down, so the run is settled as failed.
broker_run :
    execution_by_id
      (text "t9")
      (submit_test no_broker exact
        (text "t9")
        (at (pos 1))
        (at (pos 2))
        (text "pytest")
        (text "img")
        (text "")
        (text " usb,,")
        false
        (some ann)
        world).1.db.executions
    ≡ some (record row { status = failed; updated_at = at (pos 2) })
unfolding program row
broker_run = refl

submit_test-settles_example :
    let run =
      submit_test no_broker exact
        (text "t9")
        (at (pos 1))
        (at (pos 2))
        (text "pytest")
        (text "img")
        (text "")
        (text " usb,,")
        false
        (some ann)
        world in
    let new = pending_row (text "t9") ann (text "pytest") (text "img") (at (pos 1)) in
    (run.0 ≡ ok (redirect (text "/")))
    × IsOutcome
        (dispatch exact no_broker form_bundle (recorded no_broker exact new world)).0
        (λ status target.
          run_of
            (text "t9")
            ann
            (text "pytest")
            (text "img")
            (at (pos 1))
            status
            target
            (at (pos 2)))
        (execution_by_id (text "t9") run.1.db.executions)
submit_test-settles_example =
    submit_test-settles no_broker exact (text "t9") (at (pos 1)) (at (pos 2)) (text "pytest")
      (text "img") (text "") (text " usb,,") false ann world form_bundle
      (λ calls. unfold no_broker in refl) (unfold program in refl) form-accepted

abbrev listed : Database
listed = record database {
  executions = pending_row (text "t9") ann (text "pytest") (text "img") (at (pos 1)) ∷ [];
}
