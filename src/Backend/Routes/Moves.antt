-- ===== src/Backend/Routes/Moves.antt =====
-- A submit takes at most one slot, by the ledger.
use test_orch.Base.{refl, Bool, [], ◌∷◌, ◌++◌, Option, none, some, nat_eq}
use test_orch.Base.Text.{Text, text_eq}
use test_orch.Base.Keys.{update_where}
use test_orch.Base.Result.{Result, ok, err, type_error, value_error}
use test_orch.Shared.Schemas.{TestBundleRequest}
use test_orch.Backend.Models.{Datetime, User, TestExecution}
use test_orch.Backend.Effects.{Environment, commit_writes}
use test_orch.Backend.Ledger.Moves.{Moves, moves, Moves-commit}
use test_orch.Backend.Scheduler.{FloatOps, dispatch}
use test_orch.Backend.Scheduler.Capacity.{dispatch-Follows}
use test_orch.Backend.Routes.{record_and_dispatch, settle, submit_checked, submit_test}

module _ (env : Environment) (ops : FloatOps) where
  dispatch-Moves : (bundle : TestBundleRequest) → Moves (dispatch ops env bundle)
  dispatch-Moves bundle = record { moved = λ w u. dispatch-Follows env ops bundle w u }

  append-Moves :
      (row : TestExecution)
      → Moves (commit_writes env (λ d. record d { executions = d.executions ++ (row ∷ []) }))
  append-Moves row = Moves-commit env _ (λ d. refl)

  settle-Moves :
      (row : TestExecution) (now : Datetime) (chosen : Option Text)
      → Moves (
          commit_writes env (λ d. record d {
            executions =
                update_where
                  (λ (r : TestExecution). r.test_id)
                  (row.test_id ∷ [])
                  (settle now chosen)
                  d.executions;
          }))
  settle-Moves row now chosen = Moves-commit env _ (λ d. refl)

  record_and_dispatch-Moves :
      (row : TestExecution) (now : Datetime) (bundle : TestBundleRequest)
      → Moves (record_and_dispatch env ops row now bundle)
  unfolding record_and_dispatch
  record_and_dispatch-Moves row now bundle =
      search (moves, append-Moves, dispatch-Moves, settle-Moves)

  submit_checked-Moves :
      (row : TestExecution) (now : Datetime) (r : Result TestBundleRequest)
      → Moves (submit_checked env ops row now r)
  unfolding submit_checked
  submit_checked-Moves row now (ok bundle) = record_and_dispatch-Moves row now bundle
  submit_checked-Moves row now (err type_error) = search moves
  submit_checked-Moves row now (err value_error) = search moves
  submit_checked-Moves row now (err e) = search moves

  pub submit_test-Moves :
      (test_id : Text) (created now : Datetime) (runner_type framework_image target_dut tags : Text)
      (emulation : Bool) (user : Option User)
      → Moves (
          submit_test env ops test_id created now runner_type framework_image target_dut tags
            emulation user)
  unfolding submit_test
  submit_test-Moves test_id created now runner_type framework_image target_dut tags emulation none =
      search moves
  submit_test-Moves test_id created now runner_type framework_image target_dut tags emulation
        (some user) =
      submit_checked-Moves _ now _
