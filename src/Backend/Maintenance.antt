-- ===== src/Backend/Maintenance.antt =====
-- backend/services/maintenance.py: the sweep that finds dead hosts and fails their runs.
pub mod Sweep
pub mod Moves
pub mod Loop
mod Examples
use test_orch.Base.{
  ℕ, Bool, true, false, not, ◌&&◌, ◌||◌, List, [], ◌∷◌, map, length, Option, none, some, ◌==◌,
  nat_eq, contains, keep, is_nil, if◌then◌else◌,
}
use test_orch.Base.Int.{ℤ, ◌-ℤ◌, ltb_ℤ}
use test_orch.Base.Text.{Text, text_eq, is_empty}
use test_orch.Base.Keys.{update_where}
use test_orch.Base.Result.{Result, ok, err, type_error}
use test_orch.Base.Result as Result
use test_orch.Shared.Value.{str}
use test_orch.Shared.Validation.{require_non_empty_str}
use test_orch.Shared.Schemas.{TestStatus, pending, dispatched, running, passed, failed, cancelled}
use test_orch.Backend.Clock.{lt_datetime, as_utc, minus}
use test_orch.Backend.Models.{Datetime, WorkerHost, TestExecution, Database}
use test_orch.Backend.Effects.{
  Environment, Action, pure, lift, try_except, get_db, call, commit_writes, release_reservation,
  ◌>>=◌, ◌>>◌,
}

unfoldable pub is_stale : Datetime → WorkerHost → Result Bool
unfolding lt_datetime
is_stale cutoff host = elim host.last_heartbeat [
  | none ↦ ok true
  | some hb ↦ lt_datetime (as_utc hb) cutoff
]

-- The loop over the online hosts: those to mark offline, in order.
unfoldable pub stale_hosts : Datetime → List WorkerHost → Result (List WorkerHost)
unfolding is_stale
stale_hosts cutoff [] = ok []
stale_hosts cutoff (host ∷ hosts) = Result.◌>>=◌ (is_stale cutoff host) λ stale.
    Result.◌>>=◌ (stale_hosts cutoff hosts) λ rest. ok (if stale then host ∷ rest else rest)

abbrev online_hosts : Database → List WorkerHost
online_hosts db = keep (λ host. host.is_online) db.hosts

abbrev pub offline : WorkerHost → WorkerHost
offline host = record host { is_online = false }

-- `_ACTIVE_STATES`
unfoldable pub is_active : TestStatus → Bool
is_active dispatched = true
is_active running = true
is_active _ = false

-- `target_host_id IN host_ids`; a missing host is in no list.
abbrev on_hosts : List Text → Option Text → Bool
on_hosts host_ids none = false
on_hosts host_ids (some name) = contains host_ids name

-- The filter of the query for orphans.
unfoldable pub is_orphan : List Text → TestExecution → Bool
unfolding is_active
is_orphan host_ids run = on_hosts host_ids run.target_host_id && is_active run.status

-- `status = FAILED`, with the time stamp that an update sets.
abbrev pub fail : Datetime → TestExecution → TestExecution
fail now run = record run { status = failed; updated_at = now }

module _ (env : Environment) where
  -- `QualiClient().release_reservation(id)`
  unfoldable pub release : Text → Action (Unit {0})
  release reservation = do
    name ← lift (require_non_empty_str (str reservation))
    call env (release_reservation name)

  -- Best effort: whatever it raises is logged.
  unfoldable pub release_if_any : Option Text → Action (Unit {0})
  release_if_any none = pure tt
  release_if_any (some reservation) =
      if is_empty reservation then pure tt else try_except (release reservation) (λ e. pure tt)

  unfoldable pub release_all : List TestExecution → Action (Unit {0})
  unfolding release release_if_any
  release_all [] = pure tt
  release_all (run ∷ runs) = release_if_any run.quali_reservation_id >> release_all runs

  unfoldable pub sweep_stale_hosts : Datetime → ℤ → Action (List Text)
  unfolding stale_hosts update_where
  sweep_stale_hosts now max_age = do
    db ← get_db
    affected ← lift (stale_hosts (minus now max_age) (online_hosts db))
    let keys = map (λ (h : WorkerHost). h.id) affected
    if not (is_nil affected)
        then commit_writes env
            (λ d. record d { hosts = update_where (λ (h : WorkerHost). h.id) keys offline d.hosts })
        else pure tt
    pure (map (λ (h : WorkerHost). h.host_id) affected)

  -- `now` is the clock when the changes are flushed.
  unfoldable pub fail_orphaned_runs : Datetime → List Text → Action ℕ
  unfolding release_all update_where
  fail_orphaned_runs now [] = pure 0
  fail_orphaned_runs now (name ∷ names) = do
    db ← get_db
    let orphaned = keep (is_orphan (name ∷ names)) db.executions
    let keys = map (λ (r : TestExecution). r.test_id) orphaned
    release_all orphaned
    if not (is_nil orphaned)
        then commit_writes env (λ d. record d {
          executions = update_where (λ (r : TestExecution). r.test_id) keys (fail now) d.executions;
        })
        else pure tt
    pure (length orphaned)

  unfoldable pub run_maintenance_sweep : Datetime → ℤ → Action (Unit {0})
  run_maintenance_sweep now max_age = do
    offline_hosts ← sweep_stale_hosts now max_age
    if not (is_nil offline_hosts)
        then (do count ← fail_orphaned_runs now offline_hosts; pure tt)
        else pure tt
