-- ===== src/Worker/Bundle/Status.antt =====
-- The status of the run's row, through all branches of the task.
use test_orch.Base.{◌≡◌, refl, sym, subst, ap, ◌∙◌, ◌⊎◌, inr, List, ◌∷◌, Option, none, some, arith}
use test_orch.Base.Text.{Text, text_eq}
use test_orch.Base.Result.{Result, ok, err, Exception}
use test_orch.Shared.Value.{Value}
use test_orch.Shared.Validation.Laws.{IsNonBlank}
use test_orch.Shared.Schemas.{
  TestBundleRequest, TestStatus, value, running, passed, failed, from_dict,
}
use test_orch.Shared.Schemas.RoundTrip.{from_dict-IsValid}
use test_orch.Base.Int.{ℤ}
use test_orch.Backend.Models.{TestExecution, execution_by_id}
use test_orch.Backend.Effects.{
  World, Environment, CommitsWork, and_then, rescue, closing, Event, create_tables, docker_connect,
  influx_connect, pure, lift, try_except, ◌>>◌,
}
use test_orch.Backend.Maintenance.{release_if_any}
use test_orch.Backend.Maintenance.Sweep.{release_if_any-keeps}
use test_orch.Worker.Machine.{Machine}
use test_orch.Worker.Tasks.{decrement_active_containers}
use test_orch.Worker.Bundle.{
  verdict, record_status, execute, attempt, on_crash, wind_up, run_started, run_test_bundle,
}
use test_orch.Worker.Bundle.Tables.{Keeps-execute, Keeps-cleanup}
use test_orch.Worker.Bundle.Rows.{IsRun, Wrote, IsRun-same, first_status, next_status}

module _ (m : Machine) (req : TestBundleRequest) where
  -- What holds at the end of the task, whether it returns or raises: the row stands at `PASSED` or
  -- `FAILED`, with the host, and what the task returns is the status, which is the exit code's.
  pub record Settled (p : Result Text × World) : Type 0 where
    pub status : TestStatus
    pub run : IsRun req.test_id m.worker_host_id status p.1.db
    pub ended : (status ≡ passed) ⊎ (status ≡ failed)
    pub answer : (t : Text) → p.0 ≡ ok t → (t ≡ value status) × (status ≡ verdict m.exit_code)

module _ (show : Value → Text) (m : Machine) (works : CommitsWork m.env) (req : TestBundleRequest)
    (solid : IsNonBlank req.test_id) where
  -- What the body of the `try` comes to: the verdict's status, or an exception with the run's row
  -- as it was.
  data Attempted (before : World) : Result Text × World → Type 0 where
    passed_through :
        (w : World)
        → Wrote m req (verdict m.exit_code) before w
        → Attempted before (ok (value (verdict m.exit_code)), w)
    crashed :
        (e : Exception) (w : World) → Wrote m req running before w → Attempted before (err e, w)

  attempt_rest :
      (before : World) (r : Result (Option Text)) (w : World)
      → Wrote m req running before w
      → Attempted before (
          and_then r
            (λ artifact.
              record_status show m req.test_id (verdict m.exit_code) none artifact
              >> pure (value (verdict m.exit_code)))
            w)
  attempt_rest before (err e) w wrote = crashed e w wrote
  attempt_rest before (ok artifact) w wrote =
      let (done, (run, hosts)) =
        next_status show m works req solid running (verdict m.exit_code) artifact w wrote.0 in
      let after = record_status show m req.test_id (verdict m.exit_code) none artifact w in
      subst (λ r. Attempted before (and_then r (λ _. pure (value (verdict m.exit_code))) after.1))
        (sym done) (passed_through after.1 (run, hosts ∙ wrote.1))

  attempt-Attempted :
      (w : World)
      → IsRun req.test_id m.worker_host_id running w.db
      → Attempted w (attempt show m req w)
  unfolding attempt
  attempt-Attempted w run =
      let same = (Keeps-execute show m req).same w in
      attempt_rest w (execute show m req w).0 (execute show m req w).1
        (IsRun-same m req running w (execute show m req w).1 same.0 run, same.1)

  -- After the `except` branch: an exception has set the status to `FAILED`.
  data Handled (before : World) : Result Text × World → Type 0 where
    returned :
        (w : World)
        → Wrote m req (verdict m.exit_code) before w
        → Handled before (ok (value (verdict m.exit_code)), w)
    raised : (e : Exception) (w : World) → Wrote m req failed before w → Handled before (err e, w)

  on_crash-Handled :
      (before : World) (e : Exception) (w : World)
      → Wrote m req running before w
      → Handled before (on_crash show m req e w)
  unfolding on_crash
  on_crash-Handled before e w wrote =
      let (done, (run, hosts)) = next_status show m works req solid running failed none w wrote.0 in
      let after = (record_status show m req.test_id failed none none w).1 in
      let (quiet, kept) = release_if_any-keeps m.env req.quali_reservation_id after in
      let end = (release_if_any m.env req.quali_reservation_id after).1 in
      let handled : Handled before (err e, end) = raised e end (
        IsRun-same m req failed after end (ap (λ d. d.executions) kept) run,
        ap (λ d. d.hosts) kept ∙ hosts ∙ wrote.1,
      ) in
      subst
        (λ r.
          Handled before
            (and_then r (λ _. release_if_any m.env req.quali_reservation_id >> lift (err e)) after))
        (sym done)
        (subst (λ r. Handled before (and_then r (λ _. lift (err e)) end)) (sym quiet) handled)

  rescue-Handled :
      (before : World) {p : Result Text × World}
      → Attempted before p
      → Handled before (rescue p.0 (on_crash show m req) p.1)
  rescue-Handled before (passed_through w wrote) = returned w wrote
  rescue-Handled before (crashed e w wrote) = on_crash-Handled before e w wrote

  wind_up-SameRuns : (w : World) → (wind_up show m req w).1.db.executions ≡ w.db.executions
  unfolding wind_up decrement_active_containers
  wind_up-SameRuns w = let cleaned = (Keeps-cleanup m req.test_id).same w in ground (arith, cleaned)

  verdict-ended : (code : Option ℤ) → (verdict code ≡ passed) ⊎ (verdict code ≡ failed)
  verdict-ended none = inr refl
  verdict-ended (some n) = ground arith

  closing-ok :
      (closed : Result (Unit {0})) (r : Result Text) (t : Text) → closing closed r ≡ ok t → r ≡ ok t
  closing-ok (ok u) r t h = h
  closing-ok (err e) r t h = cc

  wind_up-Settled :
      (before : World) {q : Result Text × World}
      → Handled before q
      → Settled m req (closing (wind_up show m req q.1).0 q.0, (wind_up show m req q.1).1)
  wind_up-Settled before (returned w wrote) = record {
    status = verdict m.exit_code;
    run =
        IsRun-same m req (verdict m.exit_code) w (wind_up show m req w).1 (wind_up-SameRuns w)
          wrote.0;
    ended = verdict-ended m.exit_code;
    answer = λ t h.
        let same = closing-ok (wind_up show m req w).0 (ok (value (verdict m.exit_code))) t h in
        (cc, refl);
  }
  wind_up-Settled before (raised e w wrote) = record {
    status = failed;
    run = IsRun-same m req failed w (wind_up show m req w).1 (wind_up-SameRuns w) wrote.0;
    ended = inr refl;
    answer = λ t h. let same = closing-ok (wind_up show m req w).0 (err e) t h in cc;
  }

  run_started-Handled :
      (w : World)
      → IsRun req.test_id m.worker_host_id running w.db
      → Handled w (try_except (attempt show m req) (on_crash show m req) w)
  run_started-Handled w run = rescue-Handled w (attempt-Attempted w run)

  Handled-hosts :
      (before : World) {q : Result Text × World} → Handled before q → q.1.db.hosts ≡ before.db.hosts
  Handled-hosts before (returned w wrote) = wrote.1
  Handled-hosts before (raised e w wrote) = wrote.1

  -- Nothing before the `finally` branch writes the hosts.
  pub run_started-hosts :
      (w : World)
      → IsRun req.test_id m.worker_host_id running w.db
      → (try_except (attempt show m req) (on_crash show m req) w).1.db.hosts ≡ w.db.hosts
  run_started-hosts w run = Handled-hosts w (run_started-Handled w run)

  run_started-Settled :
      (w : World)
      → IsRun req.test_id m.worker_host_id running w.db
      → Settled m req (run_started show m req w)
  unfolding run_started
  run_started-Settled w run = wind_up-Settled w (run_started-Handled w run)

-- The connections that come before the first write succeed.
pub record Connects (env : Environment) : Type 0 where
  pub tables : (calls : List Event) → env calls create_tables ≡ none
  pub docker : (calls : List Event) → env calls docker_connect ≡ none
  pub influx : (calls : List Event) → env calls influx_connect ≡ none

-- The world after these.
abbrev pub connected : World → World
connected w = record w { calls = influx_connect ∷ docker_connect ∷ create_tables ∷ w.calls }

module _ (show : Value → Text) (m : Machine) where
  abbrev pub started : TestBundleRequest → World → World
  started req w =
      (record_status show m req.test_id running (some m.worker_host_id) none (connected w)).1

  -- After the first write the task is what follows it.
  pub run_test_bundle_lem :
      (bundle : Value) (req : TestBundleRequest) (w : World)
      → Connects m.env
      → from_dict bundle ≡ ok req
      → (record_status show m req.test_id running (some m.worker_host_id) none (connected w)).0
        ≡ ok tt
      → run_test_bundle show m bundle w ≡ run_started show m req (started req w)
  unfolding run_test_bundle
  run_test_bundle_lem bundle req w c parsed done = ground (
    arith,
    parsed,
    c.tables w.calls,
    c.docker (create_tables ∷ w.calls),
    c.influx (docker_connect ∷ create_tables ∷ w.calls),
    done,
  )

  pub run_test_bundle-Settled :
      (bundle : Value) (req : TestBundleRequest) (w : World) (row : TestExecution)
      → CommitsWork m.env
      → Connects m.env
      → from_dict bundle ≡ ok req
      → execution_by_id req.test_id w.db.executions ≡ some row
      → Settled m req (run_test_bundle show m bundle w)
  run_test_bundle-Settled bundle req w row works c parsed found =
      let solid = (from_dict-IsValid bundle req parsed).test_id in
      let (done, (run, hosts)) = first_status show m works req solid (connected w) row found in
      subst (Settled m req) (sym (run_test_bundle_lem bundle req w c parsed done))
        (run_started-Settled show m works req solid (started req w) run)
