-- ===== src/Worker/Bundle/Moves.antt =====
-- A run gives at most its slot back, whatever raises in it.
use test_orch.Base.{Option, arith, nat_eq}
use test_orch.Base.Text.{Text, text_eq}
use test_orch.Base.Result.{Exception}
use test_orch.Shared.Value.{Value}
use test_orch.Shared.Schemas.{TestBundleRequest, TestStatus}
use test_orch.Backend.Ledger.Moves.{Moves, moves, Moves-same}
use test_orch.Worker.Machine.{Machine}
use test_orch.Worker.Docker.{cleanup}
use test_orch.Worker.Tasks.{set_status}
use test_orch.Worker.Bundle.{
  record_status, execute, attempt, on_crash, wind_up, run_started, run_test_bundle,
}
use test_orch.Worker.Bundle.Tables.{Keeps-execute, Keeps-cleanup}
use test_orch.Worker.Tasks.Moves.{decrement-Moves}
use test_orch.Backend.Maintenance.Moves.{release_if_any-Moves}

module _ (show : Value → Text) (m : Machine) where
  record_status-Moves :
      (test_id : Text) (status : TestStatus) (target artifact : Option Text)
      → Moves (record_status show m test_id status target artifact)
  unfolding set_status
  record_status-Moves test_id status target artifact = Moves-same _ (λ w. ground arith)

  execute-Moves : (req : TestBundleRequest) → Moves (execute show m req)
  execute-Moves req = Moves-same (execute show m req) (λ w. ((Keeps-execute show m req).same w).1)

  cleanup-Moves : (test_id : Text) → Moves (cleanup m test_id)
  cleanup-Moves test_id = Moves-same (cleanup m test_id) (λ w. ((Keeps-cleanup m test_id).same w).1)

  attempt-Moves : (req : TestBundleRequest) → Moves (attempt show m req)
  unfolding attempt
  attempt-Moves req = search (moves, execute-Moves, record_status-Moves)

  on_crash-Moves : (req : TestBundleRequest) (e : Exception) → Moves (on_crash show m req e)
  unfolding on_crash
  on_crash-Moves req e = search (moves, record_status-Moves, release_if_any-Moves)

  wind_up-Moves : (req : TestBundleRequest) → Moves (wind_up show m req)
  unfolding wind_up
  wind_up-Moves req = search (moves, cleanup-Moves, decrement-Moves)

  run_started-Moves : (req : TestBundleRequest) → Moves (run_started show m req)
  unfolding run_started
  run_started-Moves req = search (moves, attempt-Moves, on_crash-Moves, wind_up-Moves)

  pub run_test_bundle-Moves : (bundle : Value) → Moves (run_test_bundle show m bundle)
  unfolding run_test_bundle
  run_test_bundle-Moves bundle = search (moves, record_status-Moves, run_started-Moves) depth 12
