-- ===== src/Worker/Bundle/Rows.antt =====
-- The run's row and the writes of its status.
use test_orch.Base.{◌≡◌, refl, ap, ◌∙◌, Option, none, some, arith}
use test_orch.Base.Text.{Text, text_eq}
use test_orch.Base.Keys.{find-update_where_key}
use test_orch.Base.Result.{ok}
use test_orch.Shared.Value.{Value, str}
use test_orch.Shared.Validation.Laws.{IsNonBlank, require_non_empty_str-ok}
use test_orch.Shared.Schemas.{TestBundleRequest, TestStatus, running}
use test_orch.Backend.Models.{Datetime, TestExecution, Database, execution_by_id}
use test_orch.Backend.Effects.{World, Environment, CommitsWork}
use test_orch.Worker.Machine.{Machine}
use test_orch.Worker.Tasks.{with_status, set_status}
use test_orch.Worker.Bundle.{record_status}

-- The run's row, with its status and the host that it ran on.
pub record IsRun (test_id host : Text) (status : TestStatus) (db : Database) : Type 0 where
  pub row : TestExecution
  pub found : execution_by_id test_id db.executions ≡ some row
  pub stands : row.status ≡ status
  pub target : row.target_host_id ≡ some host

module _ (m : Machine) (req : TestBundleRequest) where
  -- The row that the run has after a write, and the hosts as they were.
  abbrev pub Wrote : TestStatus → World → World → Type 0
  Wrote status before after =
      IsRun req.test_id m.worker_host_id status after.db × (after.db.hosts ≡ before.db.hosts)

  pub IsRun-same :
      (st : TestStatus) (before after : World)
      → after.db.executions ≡ before.db.executions
      → IsRun req.test_id m.worker_host_id st before.db
      → IsRun req.test_id m.worker_host_id st after.db
  IsRun-same st before after same run = record {
    row = run.row;
    found = ap (execution_by_id req.test_id) same ∙ run.found;
    stands = run.stands;
    target = run.target;
  }

with_status-test_id :
    (t : Datetime) (status : TestStatus) (target artifact : Option Text) (row : TestExecution)
    → (with_status t status target artifact row).test_id ≡ row.test_id
with_status-test_id t status target artifact row = refl

-- A status is written, the commit permitting, and the hosts stay.
pub set_status_lem :
    (env : Environment) (t : Datetime) (test_id : Text) (status : TestStatus)
    (target artifact : Option Text) (w : World) (row : TestExecution)
    → CommitsWork env
    → IsNonBlank test_id
    → execution_by_id test_id w.db.executions ≡ some row
    → let after = set_status env t test_id status target artifact w in
      (after.0 ≡ ok tt)
      × (execution_by_id test_id after.1.db.executions
          ≡ some (with_status t status target artifact row))
      × (after.1.db.hosts ≡ w.db.hosts)
unfolding set_status execution_by_id
set_status_lem env t test_id status target artifact w row works solid found =
    let named = (require_non_empty_str-ok (str test_id) test_id).1 (refl, solid) in
    let written =
      find-update_where_key (λ (r : TestExecution). r.test_id)
        (with_status t status target artifact) test_id row w.db.executions
        (with_status-test_id t status target artifact) found in
    (
      ground (arith, named, works w.calls),
      ground (arith, named, works w.calls, written),
      ground (arith, named, works w.calls),
    )

module _ (show : Value → Text) (m : Machine) (works : CommitsWork m.env) (req : TestBundleRequest)
    (solid : IsNonBlank req.test_id) where
  pub first_status :
      (w : World) (row : TestExecution)
      → execution_by_id req.test_id w.db.executions ≡ some row
      → let after = record_status show m req.test_id running (some m.worker_host_id) none w in
        (after.0 ≡ ok tt) × Wrote m req running w after.1
  first_status w row found =
      let (done, read, hosts) =
        set_status_lem m.env (m.clock w.calls) req.test_id running (some m.worker_host_id) none w
          row works solid found in
      (done, (record { row = _; found = read; stands = refl; target = refl }, hosts))

  pub next_status :
      (st status : TestStatus) (artifact : Option Text) (w : World)
      → IsRun req.test_id m.worker_host_id st w.db
      → let after = record_status show m req.test_id status none artifact w in
        (after.0 ≡ ok tt) × Wrote m req status w after.1
  next_status st status artifact w run =
      let (done, read, hosts) =
        set_status_lem m.env (m.clock w.calls) req.test_id status none artifact w run.row works
          solid run.found in
      (done, (record { row = _; found = read; stands = refl; target = run.target }, hosts))
