-- ===== src/Backend/Scheduler.antt =====
-- backend/services/scheduler.py: filter and rank, and the authoritative `dispatch`.
pub mod Filter
pub mod Ranking
pub mod Selection
pub mod Dispatch
pub mod Reservation
pub mod Runs
pub mod Completion
pub mod Order
pub mod Capacity
mod Examples
use test_orch.Base.{
  ℕ, ◌≡◌, refl, Bool, true, false, not, ◌&&◌, ◌||◌, List, [], ◌∷◌, ◌++◌, map, Option, none, some,
  ◌==◌, if◌then◌else◌, all, contains, keep, is_nil,
}
use test_orch.Base.Int.{ℤ, pos, ◌+ℤ◌, ◌-ℤ◌, ◌*ℤ◌, leb_ℤ, ltb_ℤ}
use test_orch.Base.Float.{Float, leb_float, ltb_float, eqb_float, zero_float}
use test_orch.Base.Text.{Text, text, text_eq, ltb_text, starts_with, is_empty}
use test_orch.Base.Result.{Result, ok, err, assertion_error, guard}
use test_orch.Base.Result as Result
use test_orch.Shared.Value.{str}
use test_orch.Shared.Validation.{require_non_empty_str}
use test_orch.Shared.Schemas.{TestBundleRequest, to_dict}
use test_orch.Backend.Models.{WorkerHost, Database, tag_set, set_active, get_host}
use test_orch.Backend.Effects.{
  Environment, Action, pure, lift, try_except, get_db, call, commit_writes, send_task, ◌>>=◌, ◌>>◌,
}

unfoldable pub queue_name_for : Text → Result Text
queue_name_for host_id = Result.◌>>=◌ (require_non_empty_str (str host_id)) λ name.
    let queue = text "queue_" ++ name in
    Result.◌>>◌ (guard (starts_with queue (text "queue_")) assertion_error) (ok queue)

pub record RankedHost : Type 0 where
  pub host_id : Text
  pub score : Float

unfoldable pub passes_filter : WorkerHost → TestBundleRequest → Bool
passes_filter host bundle =
    if not host.is_online
    then false
    else if leb_ℤ host.max_containers host.active_containers
    then false
    else if bundle.requires_emulation && not host.supports_emulation
    then false
    else if not (is_nil bundle.required_hw_tags)
        && not (all (contains (tag_set host)) bundle.required_hw_tags)
    then false
    else true

-- The survivors of the filter, in the order of the rows.
abbrev pub survivors_of : TestBundleRequest → List WorkerHost → List WorkerHost
survivors_of bundle hosts = keep (λ host. passes_filter host bundle) hosts

-- `(a, s) < (b, t)` on tuples of a score and a host name: the first items that differ decide.
abbrev pub ltb_key : Float → Text → Float → Text → Bool
ltb_key a s b t = if eqb_float a b then ltb_text s t else ltb_float a b

-- Floating-point arithmetic rounds, and is a parameter.
pub record FloatOps : Type 0 where
  pub of_int : ℤ → Float
  pub add : Float → Float → Float

-- What the ranking needs of it: the operations keep floats that are at least zero so.
pub record IsLawful (ops : FloatOps) : Type 0 where
  pub of_int_nonneg : (n : ℤ) → leb_ℤ (pos 0) n ≡ true → leb_float zero_float (ops.of_int n) ≡ true
  pub add_nonneg :
      (a b : Float)
      → leb_float zero_float a ≡ true
      → leb_float zero_float b ≡ true
      → leb_float zero_float (ops.add a b) ≡ true

-- A host with its score.
abbrev pub Candidate : Type 0
Candidate = WorkerHost × Float

abbrev pub lighter : Candidate → Candidate → Candidate
lighter (host, score) (best, least) =
    if ltb_key score host.host_id least best.host_id then (host, score) else (best, least)

-- The write of `chosen.active_containers = n`, by the row's key.
abbrev pub write_active : ℕ → ℤ → Database → Database
write_active key n db = record db { hosts = set_active key n db.hosts }

module _ (env : Environment) where
  -- The `except` branch: after the rollback the row is read again.
  undo : ℕ → Action (Unit {0})
  undo key = do
    db ← get_db
    elim (get_host key db.hosts) [
      | none ↦ pure tt
      | some fresh ↦
          if ltb_ℤ (pos 0) fresh.active_containers
          then commit_writes env (write_active key (fresh.active_containers -ℤ pos 1))
          else pure tt
    ]

  -- The reservation, committed before the task is sent, and undone if either raises.
  pub reserve_and_send : WorkerHost → Text → TestBundleRequest → Action (Unit {0})
  reserve_and_send chosen queue bundle =
      try_except
        (commit_writes env (write_active chosen.id (chosen.active_containers +ℤ pos 1))
          >> call env (send_task (text "worker.run_test_bundle") queue (to_dict bundle)))
        (λ e. undo chosen.id >> lift (err e))

  -- What `dispatch` does with the chosen host.
  place_on : TestBundleRequest → WorkerHost → Action (Option Text)
  place_on bundle chosen = do
    queue ← lift (queue_name_for chosen.host_id)
    reserve_and_send chosen queue bundle
    lift (guard (not (is_empty chosen.host_id)) assertion_error)
    pure (some chosen.host_id)

module _ (ops : FloatOps) where
  unfoldable pub workload_score : WorkerHost → Result Float
  workload_score host = Result.◌>>◌ (guard (leb_ℤ (pos 0) host.active_containers) assertion_error) (
      Result.◌>>◌ (guard (leb_float zero_float host.cpu_utilization) assertion_error) (
        let score = ops.add (ops.of_int (host.active_containers *ℤ pos 20)) host.cpu_utilization in
        Result.◌>>◌ (guard (leb_float zero_float score) assertion_error) (ok score)))

  -- The loop of `min(survivors, key=…)`. A later host replaces the best only if its key is less.
  unfoldable pub min_from : Candidate → List WorkerHost → Result Candidate
  min_from best [] = ok best
  min_from best (host ∷ hosts) =
      Result.◌>>=◌ (workload_score host) λ score. min_from (lighter (host, score) best) hosts

  -- `min` of a list that is not empty.
  unfoldable pub min_by_key : WorkerHost → List WorkerHost → Result Candidate
  unfolding min_from
  min_by_key host hosts = Result.◌>>=◌ (workload_score host) λ score. min_from (host, score) hosts

  -- What `select_host` does with the survivors.
  best_of : List WorkerHost → Result (Option RankedHost)
  unfolding min_by_key
  best_of [] = ok none
  best_of (host ∷ hosts) = Result.◌>>=◌ (min_by_key host hosts) λ (best, _).
      Result.◌>>=◌ (workload_score best) λ score.
        Result.◌>>◌
          (guard (contains (map (λ h. h.host_id) (host ∷ hosts)) best.host_id) assertion_error)
          (ok (some (record { host_id = best.host_id; score = score })))

  unfoldable pub select_host : Database → TestBundleRequest → Result (Option RankedHost)
  unfolding best_of
  select_host db bundle = best_of (survivors_of bundle db.hosts)

  module _ (env : Environment) where
    -- What `dispatch` does with the survivors.
    place : TestBundleRequest → List WorkerHost → Action (Option Text)
    place bundle [] = pure none
    place bundle (host ∷ hosts) = do
      (chosen, score) ← lift (min_by_key host hosts)
      place_on env bundle chosen

    unfoldable pub dispatch : TestBundleRequest → Action (Option Text)
    unfolding place place_on reserve_and_send undo min_by_key
    dispatch bundle = do db ← get_db; place bundle (survivors_of bundle db.hosts)
