-- ===== src/Worker/Tasks.antt =====
-- worker/tasks.py: the tasks that keep the database in step with the host.
pub mod Capacity
pub mod Reaper
pub mod Moves
pub mod Race
mod Examples
use test_orch.Base.{
  ℕ, Bool, true, false, not, ◌&&◌, ◌||◌, List, [], ◌∷◌, ◌++◌, map, Option, none, some, ◌==◌, nat_eq,
  keep, if◌then◌else◌,
}
use test_orch.Base.Int.{ℤ, pos, ◌-ℤ◌, ltb_ℤ}
use test_orch.Base.Float.{Float, zero_float}
use test_orch.Base.Text.{Text, text, text_eq}
use test_orch.Base.Keys.{update_where}
use test_orch.Base.Result.{Result, ok, err, Exception}
use test_orch.Shared.Value.{str}
use test_orch.Shared.Validation.{require_non_empty_str}
use test_orch.Shared.Schemas.{TestStatus, running, failed, value}
use test_orch.Backend.Models.{
  Datetime, WorkerHost, TestExecution, Database, host_by_name, execution_by_id, set_active,
}
use test_orch.Backend.Clock.{minus}
use test_orch.Backend.Maintenance.{release_all, fail}
use test_orch.Backend.Effects.{
  Environment, Action, pure, lift, get_db, call, commit_writes, create_tables, ◌>>=◌, ◌>>◌,
}

-- `old` unless a new value is given.
abbrev pub given_or {ℓ} : {A : Type ℓ} → Option A → Option A → Option A
given_or none old = old
given_or (some a) old = some a

-- A new value that is not the old one.
abbrev differs : Option Text → Option Text → Bool
differs none old = false
differs (some a) none = true
differs (some a) (some b) = not (a == b)

-- Whether a write of `_set_status` changes a column: only then is the row updated at all.
abbrev changes : TestStatus → Option Text → Option Text → TestExecution → Bool
changes status target_host_id artifact_url row =
    not (value status == value row.status)
    || differs target_host_id row.target_host_id
    || differs artifact_url row.artifact_url

-- The columns that `_set_status` writes; `updated_at` is the database's own, with each update.
abbrev pub with_status :
    Datetime → TestStatus → Option Text → Option Text → TestExecution → TestExecution
with_status now status target_host_id artifact_url row = record row {
  status = status;
  target_host_id = given_or target_host_id row.target_host_id;
  artifact_url = given_or artifact_url row.artifact_url;
  updated_at = if changes status target_host_id artifact_url row then now else row.updated_at;
}

-- What a heartbeat writes into the host's row.
abbrev pub beat : Datetime → ℤ → Float → WorkerHost → WorkerHost
beat now live_count cpu host = record host {
  is_online = true;
  active_containers = live_count;
  cpu_utilization = cpu;
  last_heartbeat = some now;
}

-- `WorkerHost(host_id=…, max_containers=10)`, with the columns' defaults.
abbrev pub new_host : ℕ → Text → WorkerHost
new_host fresh_id name = record {
  id = fresh_id;
  host_id = name;
  is_online = false;
  active_containers = pos 0;
  max_containers = pos 10;
  cpu_utilization = zero_float;
  hardware_tags = text "";
  supports_emulation = false;
  last_heartbeat = none;
}

-- The count that a heartbeat reports: Docker's, or the last known one if Docker does not answer.
abbrev pub live_count_of : Text → List WorkerHost → Result ℤ → ℤ
live_count_of name hosts (ok n) = n
live_count_of name hosts (err e) = elim (host_by_name name hosts) [
  | none ↦ pos 0
  | some cached ↦ cached.active_containers
]

abbrev is_on : Text → Option Text → Bool
is_on name none = false
is_on name (some other) = other == name

abbrev is_running : TestStatus → Bool
is_running running = true
is_running _ = false

-- The filter of the query for stuck runs, on the host `name`.
unfoldable pub is_stuck : Text → ℤ → TestExecution → Bool
is_stuck name cutoff run =
    is_on name run.target_host_id && is_running run.status && ltb_ℤ run.updated_at.micros cutoff

module _ (env : Environment) where
  unfoldable pub set_status :
      Datetime → Text → TestStatus → Option Text → Option Text → Action (Unit {0})
  unfolding update_where
  set_status now test_id status target_host_id artifact_url = do
    name ← lift (require_non_empty_str (str test_id))
    db ← get_db
    elim (execution_by_id test_id db.executions) [
      | none ↦ pure tt
      | some row ↦ commit_writes env (λ d. record d {
        executions =
            update_where (λ (r : TestExecution). r.test_id) (test_id ∷ [])
              (with_status now status target_host_id artifact_url) d.executions;
      })
    ]

  -- The row is read without a lock, and the count written as a value.
  unfoldable pub decrement_active_containers : Text → Action (Unit {0})
  decrement_active_containers name = do
    db ← get_db
    elim (host_by_name name db.hosts) [
      | none ↦ pure tt
      | some host ↦
          if ltb_ℤ (pos 0) host.active_containers
          then commit_writes env (λ d. record d {
            hosts = set_active host.id (host.active_containers -ℤ pos 1) d.hosts;
          })
          else pure tt
    ]

  -- What the decrement does with the row that it has read, at whatever time.
  unfoldable pub write_back : WorkerHost → Action (Unit {0})
  write_back host =
      if ltb_ℤ (pos 0) host.active_containers
      then commit_writes env
          (λ d. record d { hosts = set_active host.id (host.active_containers -ℤ pos 1) d.hosts })
      else pure tt

  -- What a heartbeat writes. `docker` is what the engine answers, `cpu` the measured load; `fresh_id`
  -- is the key that the database gives to a new row.
  unfoldable pub save_heartbeat : ℕ → Text → Datetime → Float → Result ℤ → Action (Unit {0})
  unfolding update_where host_by_name
  save_heartbeat fresh_id name now cpu docker = do
    db ← get_db
    let update = beat now (live_count_of name db.hosts docker) cpu
    elim (host_by_name name db.hosts) [
      | none ↦
          commit_writes env
            (λ d. record d { hosts = d.hosts ++ (update (new_host fresh_id name) ∷ []) })
      | some host ↦ commit_writes env (λ d. record d {
        hosts = update_where (λ (h : WorkerHost). h.id) (host.id ∷ []) update d.hosts;
      })
    ]

  -- Two hours, in microseconds, are the deadline; `later` is the clock when the rows are flushed.
  unfoldable pub reap_stale : Text → Datetime → Datetime → Action (Unit {0})
  unfolding is_stuck update_where
  reap_stale name now later = do
    call env create_tables
    db ← get_db
    let stuck = keep (is_stuck name (minus now (pos 7200000000)).micros) db.executions
    let keys = map (λ (r : TestExecution). r.test_id) stuck
    release_all env stuck
    commit_writes env (λ d. record d {
      executions = update_where (λ (r : TestExecution). r.test_id) keys (fail later) d.executions;
    })
