-- ===== src/Backend/Routes/Submit.antt =====
-- No submitted run stays pending.
use test_orch.Base.{
  sym, subst, inl, inr, ◌⊎◌, ap, ◌≡◌, refl, Bool, [], ◌∷◌, ◌++◌, Option, none, some, ◌==◌, nat_eq,
  arith, find-snoc, ==_refl,
}
use test_orch.Base.Text.{Text, text, text_eq}
use test_orch.Base.Keys.{find-update_where_key}
use test_orch.Base.Result.{Result, ok, err, Exception}
use test_orch.Shared.Schemas.{TestBundleRequest, TestStatus, dispatched, failed, post_init}
use test_orch.Backend.Models.{Datetime, User, TestExecution, execution_by_id}
use test_orch.Backend.Effects.{World, Environment, CommitsWork, commit}
use test_orch.Backend.Scheduler.{FloatOps, dispatch}
use test_orch.Backend.Scheduler.Runs.{dispatch-SameRuns}
use test_orch.Backend.Routes.{
  settle_row, redirect, bundle_args, pending_row, settle, record_and_dispatch, submit_checked,
  submit_test,
}

-- The run as the form and its user say, with the outcome of its dispatch.
abbrev pub run_of :
    Text → User → Text → Text → Datetime → TestStatus → Option Text → Datetime → TestExecution
run_of test_id user runner_type image created status target now = record {
  test_id = test_id;
  user_id = user.id;
  target_host_id = target;
  runner_type = runner_type;
  framework_image = image;
  status = status;
  quali_reservation_id = none;
  artifact_url = none;
  created_at = created;
  updated_at = now;
}

-- What the route answers and leaves, by the outcome of the dispatch: dispatched to the chosen
-- host, or failed.
abbrev pub IsOutcome :
    Result (Option Text)
    → (TestStatus → Option Text → TestExecution)
    → Option TestExecution
    → Type 0
IsOutcome sent run found =
    ((name : Text) × (sent ≡ ok (some name)) × (found ≡ some (run dispatched (some name))))
    ⊎ (((sent ≡ ok none) ⊎ ((e : Exception) × (sent ≡ err e))) × (found ≡ some (run failed none)))

module _ (env : Environment) (ops : FloatOps) where
  -- The host that the route works with: none if the dispatch raised.
  abbrev pub chosen_of : Result (Option Text) → Option Text
  chosen_of (ok name) = name
  chosen_of (err e) = none

  -- The world after the commit of the audit row.
  abbrev pub recorded : TestExecution → World → World
  recorded row w = record {
    db = record w.db { executions = w.db.executions ++ (row ∷ []) };
    calls = commit ∷ w.calls;
  }

  settle-test_id :
      (now : Datetime) (chosen : Option Text) (row : TestExecution)
      → (settle now chosen row).test_id ≡ row.test_id
  settle-test_id now none row = refl
  settle-test_id now (some name) row = refl

  pub record_and_dispatch-settles :
      (row : TestExecution) (now : Datetime) (bundle : TestBundleRequest) (w : World)
      → CommitsWork env
      → execution_by_id row.test_id w.db.executions ≡ none
      → ((record_and_dispatch env ops row now bundle w).0 ≡ ok (redirect (text "/")))
        × (execution_by_id row.test_id
              (record_and_dispatch env ops row now bundle w).1.db.executions
            ≡ some (settle now (chosen_of (dispatch ops env bundle (recorded row w)).0) row))
  unfolding record_and_dispatch execution_by_id
  record_and_dispatch-settles row now bundle w works absent =
      let start = recorded row w in
      let sent = dispatch ops env bundle start in
      let chosen = chosen_of sent.0 in
      let added =
        find-snoc (λ (r : TestExecution). r.test_id == row.test_id) w.db.executions row absent
          (==_refl row.test_id) in
      let written =
        find-update_where_key (λ (r : TestExecution). r.test_id) (settle now chosen) row.test_id row
          start.db.executions (settle-test_id now chosen) added in
      ground
        (arith, works w.calls, works sent.1.calls, dispatch-SameRuns env ops bundle start, written)

  pub record_and_dispatch-hosts :
      (row : TestExecution) (now : Datetime) (bundle : TestBundleRequest) (w : World)
      → CommitsWork env
      → (record_and_dispatch env ops row now bundle w).1.db.hosts
        ≡ (dispatch ops env bundle (recorded row w)).1.db.hosts
  unfolding record_and_dispatch
  record_and_dispatch-hosts row now bundle w works =
      let sent = dispatch ops env bundle (recorded row w) in
      ground (arith, works w.calls, works sent.1.calls)

  -- The second commit writes over whatever the row has become.
  pub settle_row-writes :
      (row run : TestExecution) (now : Datetime) (chosen : Option Text) (w : World)
      → CommitsWork env
      → execution_by_id row.test_id w.db.executions ≡ some run
      → execution_by_id row.test_id (settle_row env ops row now chosen w).1.db.executions
        ≡ some (settle now chosen run)
  unfolding execution_by_id
  settle_row-writes row run now chosen w works found = ground (
    arith,
    works w.calls,
    find-update_where_key (λ (r : TestExecution). r.test_id) (settle now chosen) row.test_id run
        w.db.executions (settle-test_id now chosen) found,
  )

  pub submit_test-accepted :
      (test_id : Text) (created now : Datetime) (runner_type image target_dut tags : Text)
      (emulation : Bool) (user : User) (w : World) (bundle : TestBundleRequest)
      → post_init (bundle_args test_id user runner_type image target_dut tags emulation) ≡ ok bundle
      → submit_test env ops test_id created now runner_type image target_dut tags emulation
          (some user)
          w
        ≡ record_and_dispatch env ops
            (pending_row test_id user runner_type image created)
            now
            bundle
            w
  unfolding submit_test submit_checked
  submit_test-accepted test_id created now runner_type image target_dut tags emulation user w bundle
        valid =
      ap
        (λ checked.
          submit_checked env ops (pending_row test_id user runner_type image created) now checked w)
        valid

  -- The row that an accepted form leaves, in the terms of the route.
  pub submit_test-row :
      (test_id : Text) (created now : Datetime) (runner_type image target_dut tags : Text)
      (emulation : Bool) (user : User) (w : World) (bundle : TestBundleRequest)
      → CommitsWork env
      → execution_by_id test_id w.db.executions ≡ none
      → post_init (bundle_args test_id user runner_type image target_dut tags emulation) ≡ ok bundle
      → let row = pending_row test_id user runner_type image created in
        let route =
          submit_test env ops test_id created now runner_type image target_dut tags emulation
            (some user)
            w in
        (route.0 ≡ ok (redirect (text "/")))
        × (execution_by_id test_id route.1.db.executions
            ≡ some (settle now (chosen_of (dispatch ops env bundle (recorded row w)).0) row))
  submit_test-row test_id created now runner_type image target_dut tags emulation user w bundle
        works absent valid =
      let row = pending_row test_id user runner_type image created in
      rw
        (submit_test-accepted test_id created now runner_type image target_dut tags emulation user w
          bundle valid)
        (record_and_dispatch-settles row now bundle w works absent)

  settle-IsOutcome :
      (test_id : Text) (user : User) (runner_type image : Text) (created now : Datetime)
      (sent : Result (Option Text))
      → IsOutcome sent
          (λ status target. run_of test_id user runner_type image created status target now)
          (some (settle now (chosen_of sent) (pending_row test_id user runner_type image created)))
  settle-IsOutcome test_id user runner_type image created now (ok (some name)) =
      inl (name, refl, refl)
  settle-IsOutcome test_id user runner_type image created now (ok none) = inr (inl refl, refl)
  settle-IsOutcome test_id user runner_type image created now (err e) = inr (inr (e, refl), refl)

  -- While commits work, an accepted form answers with the dashboard, and its run is settled: it is
  -- dispatched to the host that the dispatch chose, or failed if no host qualified or the dispatch
  -- raised, whatever it raised, with every other column as the form and its user say. The identifier
  -- of the run is new, and the form passes the checks of
  -- the bundle.
  pub submit_test-settles :
      (test_id : Text) (created now : Datetime) (runner_type image target_dut tags : Text)
      (emulation : Bool) (user : User) (w : World) (bundle : TestBundleRequest)
      → CommitsWork env
      → execution_by_id test_id w.db.executions ≡ none
      → post_init (bundle_args test_id user runner_type image target_dut tags emulation) ≡ ok bundle
      → let row = pending_row test_id user runner_type image created in
        let route =
          submit_test env ops test_id created now runner_type image target_dut tags emulation
            (some user)
            w in
        (route.0 ≡ ok (redirect (text "/")))
        × IsOutcome
            (dispatch ops env bundle (recorded row w)).0
            (λ status target. run_of test_id user runner_type image created status target now)
            (execution_by_id test_id route.1.db.executions)
  submit_test-settles test_id created now runner_type image target_dut tags emulation user w bundle
        works absent valid =
      let row = pending_row test_id user runner_type image created in
      let sent = (dispatch ops env bundle (recorded row w)).0 in
      let (answered, found) =
        submit_test-row test_id created now runner_type image target_dut tags emulation user w
          bundle works absent valid in
      (
        answered,
        subst
            (IsOutcome sent
              (λ status target. run_of test_id user runner_type image created status target now))
            (sym found) (settle-IsOutcome test_id user runner_type image created now sent),
      )
