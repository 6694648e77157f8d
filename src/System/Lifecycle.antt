-- ===== src/System/Lifecycle.antt =====
-- The life of one run: the form of backend/main.py, the dispatch, and the task of worker/tasks.py.
mod Examples
use test_orch.Base.{
  ℕ, ◌≡◌, refl, sym, subst, ap, ◌∙◌, Bool, ◌⊎◌, Option, none, some, ◌++◌, [], ◌∷◌, arith, find-snoc,
  ◌==◌, ==_refl, nat_eq,
}
use test_orch.Base.Keys.{NodupKeys}
use test_orch.Base.Text.{Text, text, text_eq}
use test_orch.Base.Result.{Result, ok}
use test_orch.Shared.Value.{Value, dict}
use test_orch.Shared.Schemas.{
  TestBundleRequest, TestStatus, to_dict, from_dict, post_init, passed, failed, dispatched,
}
use test_orch.Shared.Schemas.RoundTrip.{
  IsValid, post_init-IsValid, post_init-test_id, from_dict-to_dict,
}
use test_orch.Backend.Models.{Datetime, User, WorkerHost, TestExecution, execution_by_id}
use test_orch.Backend.Models.Hosts.{NodupIds}
use test_orch.Backend.Effects.{World, Environment, CommitsWork}
use test_orch.Backend.Scheduler.{FloatOps, dispatch}
use test_orch.Backend.Scheduler.Runs.{dispatch-SameRuns}
use test_orch.Backend.Routes.{
  bundle_args, pending_row, settle, settle_row, record_and_dispatch, submit_test,
}
use test_orch.Backend.Routes.Submit.{
  chosen_of, recorded, submit_test-row, submit_test-accepted, record_and_dispatch-hosts,
  settle_row-writes,
}
use test_orch.Worker.Machine.{Machine}
use test_orch.Worker.Tasks.{decrement_active_containers}
use test_orch.Worker.Tasks.Capacity.{decrement-dispatch}
use test_orch.Worker.Bundle.{run_test_bundle}
use test_orch.Worker.Bundle.Status.{Connects, Settled, run_test_bundle-Settled}
use test_orch.Worker.Bundle.Slot.{Removes, decrement-hosts, run_test_bundle-frees}

module _ (show : Value → Text) (m : Machine) (ops : FloatOps) (env : Environment) where
  -- From the form to the end of the run: an accepted form with a new identifier, whose dispatch
  -- chooses the worker's host, followed by the worker's task for the bundle that was sent, leaves
  -- the run's row at `PASSED` or `FAILED` with this host, and the table of hosts as it was before
  -- the form. Commits work, the worker has its connections, a container is removed or gone, and
  -- keys and names of hosts are distinct; anything else may fail.
  pub submit_test-run :
      (test_id : Text) (created now : Datetime) (runner_type image target_dut tags : Text)
      (emulation : Bool) (user : User) (w : World) (bundle : TestBundleRequest)
      → CommitsWork env
      → CommitsWork m.env
      → Connects m.env
      → Removes m.env
      → NodupIds w.db.hosts
      → NodupKeys (λ (h : WorkerHost). h.host_id) w.db.hosts
      → execution_by_id test_id w.db.executions ≡ none
      → post_init (bundle_args test_id user runner_type image target_dut tags emulation) ≡ ok bundle
      → (dispatch ops env bundle
          (recorded env ops (pending_row test_id user runner_type image created) w)).0
        ≡ ok (some m.worker_host_id)
      → let submitted =
          submit_test env ops test_id created now runner_type image target_dut tags emulation
            (some user)
            w in
        let ran = run_test_bundle show m (dict (to_dict bundle)) submitted.1 in
        Settled m bundle ran × (ran.1.db.hosts ≡ w.db.hosts)
  submit_test-run test_id created now runner_type image target_dut tags emulation user w bundle
        works works' c r u v absent accepted chosen =
      let row = pending_row test_id user runner_type image created in
      let valid = post_init-IsValid _ bundle accepted in
      let same = post_init-test_id _ bundle test_id accepted refl in
      let submitted =
        (submit_test env ops test_id created now runner_type image target_dut tags emulation
          (some user) w).1 in
      let sent = (dispatch ops env bundle (recorded env ops row w)).1 in
      let hosts : submitted.db.hosts ≡ sent.db.hosts =
        ap (λ p. p.1.db.hosts)
          (submit_test-accepted env ops test_id created now runner_type image target_dut tags
            emulation user w bundle accepted)
        ∙ record_and_dispatch-hosts env ops row now bundle w works in
      let found =
        ap (λ t. execution_by_id t submitted.db.executions) same
        ∙ (submit_test-row env ops test_id created now runner_type image target_dut tags emulation
            user w bundle works absent accepted).1 in
      let received = from_dict-to_dict bundle valid in
      (
        run_test_bundle-Settled show m (dict (to_dict bundle)) bundle submitted _ works' c received
            found,
        run_test_bundle-frees show m (dict (to_dict bundle)) bundle submitted _ works' c r received
              found
            ∙ decrement-hosts m.env env m.worker_host_id submitted sent works' works hosts
            ∙ ap (λ d. d.hosts)
                (decrement-dispatch env ops bundle (recorded env ops row w) m.worker_host_id works u
                  v chosen).1,
      )

  -- A worker that is done before the route's second commit is overwritten: after the first commit,
  -- the dispatch, the worker's whole task, which leaves the row at `PASSED` or `FAILED`, and then
  -- the second commit, the row stands at `DISPATCHED`. Commits work, the worker has its
  -- connections, the identifier is new, and the dispatch chose the worker's host.
  pub settle_row-overwrites :
      (row : TestExecution) (now : Datetime) (bundle : TestBundleRequest) (w : World)
      → CommitsWork env
      → CommitsWork m.env
      → Connects m.env
      → IsValid bundle
      → bundle.test_id ≡ row.test_id
      → execution_by_id row.test_id w.db.executions ≡ none
      → (dispatch ops env bundle (recorded env ops row w)).0 ≡ ok (some m.worker_host_id)
      → let sent = dispatch ops env bundle (recorded env ops row w) in
        let ran = run_test_bundle show m (dict (to_dict bundle)) sent.1 in
        let end = settle_row env ops row now (chosen_of env ops sent.0) ran.1 in
        Settled m bundle ran
        × (run : TestExecution) × (execution_by_id row.test_id end.1.db.executions ≡ some run)
        × (run.status ≡ dispatched)
  settle_row-overwrites row now bundle w works works' c valid same absent chosen =
      let start = recorded env ops row w in
      let sent = dispatch ops env bundle start in
      let ran = run_test_bundle show m (dict (to_dict bundle)) sent.1 in
      let added : execution_by_id row.test_id start.db.executions ≡ some row =
        unfold execution_by_id in
        find-snoc (λ (r : TestExecution). r.test_id == row.test_id) w.db.executions row
          (unfold execution_by_id in absent) (==_refl row.test_id) in
      let found =
        ap (λ t. execution_by_id t sent.1.db.executions) same
        ∙ ap (execution_by_id row.test_id) (dispatch-SameRuns env ops bundle start)
        ∙ added in
      let settled =
        run_test_bundle-Settled show m (dict (to_dict bundle)) bundle sent.1 row works' c
          (from_dict-to_dict bundle valid) found in
      let ended = ap (λ t. execution_by_id t ran.1.db.executions) (sym same) ∙ settled.run.found in
      (
        settled,
        settle now (some m.worker_host_id) settled.run.row,
        subst
            (λ o.
              execution_by_id row.test_id
                (settle_row env ops row now (chosen_of env ops o) ran.1).1.db.executions
              ≡ some (settle now (some m.worker_host_id) settled.run.row))
            (sym chosen)
            (settle_row-writes env ops row settled.run.row now (some m.worker_host_id) ran.1 works
              ended),
        refl,
      )
