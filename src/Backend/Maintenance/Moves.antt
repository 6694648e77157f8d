-- ===== src/Backend/Maintenance/Moves.antt =====
-- A sweep takes no slot and gives none back.
use test_orch.Base.{
  ℕ, refl, subst, List, [], ◌∷◌, Option, none, some, arith, inl, inr, Option-cases, if◌then◌else◌,
  nat_eq, contains,
}
use test_orch.Base.Int.{ℤ}
use test_orch.Base.Text.{Text, text_eq}
use test_orch.Base.Keys.{update_where}
use test_orch.Backend.Models.{Datetime, WorkerHost, TestExecution}
use test_orch.Backend.Effects.{Environment, commit, commit_writes}
use test_orch.Backend.Ledger.Moves.{
  Moves, moves, Moves-commit, Moves->>=, Follows, Follows-start, Follows-map,
}
use test_orch.Backend.Maintenance.{
  offline, fail, release, release_if_any, release_all, sweep_stale_hosts, fail_orphaned_runs,
  run_maintenance_sweep,
}

module _ (env : Environment) where
  release-Moves : (reservation : Text) → Moves (release env reservation)
  unfolding release
  release-Moves reservation = search moves

  pub release_if_any-Moves : (reservation : Option Text) → Moves (release_if_any env reservation)
  unfolding release_if_any
  release_if_any-Moves none = search moves
  release_if_any-Moves (some reservation) = search (moves, release-Moves)

  pub release_all-Moves : (runs : List TestExecution) → Moves (release_all env runs)
  unfolding release_all
  release_all-Moves [] = search moves
  release_all-Moves (run ∷ runs) =
      Moves->>= (release_if_any env run.quali_reservation_id) _
        (release_if_any-Moves run.quali_reservation_id) (λ _. release_all-Moves runs)

  offline-Moves :
      (keys : List ℕ)
      → Moves (
          commit_writes env (λ d. record d {
            hosts = update_where (λ (h : WorkerHost). h.id) keys offline d.hosts;
          }))
  unfolding update_where
  offline-Moves keys =
      let f : WorkerHost → WorkerHost = λ h. if contains keys h.id then offline h else h in
      record {
        moved = λ w u. elim (Option-cases (env w.calls commit)) [
          | inl works ↦
              subst (Follows w.db.hosts) (ground (arith, works))
                (Follows-map f w.db.hosts (λ h. ground arith) u)
          | inr (e, fails) ↦
              subst (Follows w.db.hosts) (ground (arith, fails)) (Follows-start w.db.hosts u)
        ];
      }

  sweep_stale_hosts-Moves :
      (now : Datetime) (max_age : ℤ) → Moves (sweep_stale_hosts env now max_age)
  unfolding sweep_stale_hosts
  sweep_stale_hosts-Moves now max_age = search (moves, offline-Moves)

  pub fail-Moves :
      (now : Datetime) (keys : List Text)
      → Moves (
          commit_writes env (λ d. record d {
            executions =
                update_where (λ (r : TestExecution). r.test_id) keys (fail now) d.executions;
          }))
  fail-Moves now keys = Moves-commit env _ (λ d. refl)

  fail_orphaned_runs-Moves :
      (now : Datetime) (names : List Text) → Moves (fail_orphaned_runs env now names)
  unfolding fail_orphaned_runs
  fail_orphaned_runs-Moves now [] = search moves
  fail_orphaned_runs-Moves now (name ∷ names) = search (moves, release_all-Moves, fail-Moves)

  pub run_maintenance_sweep-Moves :
      (now : Datetime) (max_age : ℤ) → Moves (run_maintenance_sweep env now max_age)
  unfolding run_maintenance_sweep
  run_maintenance_sweep-Moves now max_age =
      Moves->>= (sweep_stale_hosts env now max_age) _ (sweep_stale_hosts-Moves now max_age)
        (λ names. search (moves, fail_orphaned_runs-Moves))
