-- ===== src/Worker/Tasks/Moves.antt =====
-- The worker's tasks move slots by the ledger.
use test_orch.Base.{subst, arith, inl, inr, Bool-cases, Option-cases, nat_eq}
use test_orch.Base.Int.{pos, ◌-ℤ◌, ltb_ℤ}
use test_orch.Base.Text.{Text, text_eq}
use test_orch.Backend.Models.{Datetime, host_by_name}
use test_orch.Backend.Models.Hosts.{host_by_name-Mem}
use test_orch.Backend.Effects.{Environment, commit}
use test_orch.Backend.Ledger.{give}
use test_orch.Backend.Ledger.Moves.{Moves, moves, Follows, Follows-start, Follows-write}
use test_orch.Worker.Tasks.{decrement_active_containers, reap_stale}
use test_orch.Backend.Maintenance.Moves.{release_all-Moves, fail-Moves}

module _ (env : Environment) where
  pub decrement-Moves : (name : Text) → Moves (decrement_active_containers env name)
  unfolding decrement_active_containers
  decrement-Moves name = record {
    moved = λ w u. elim (Option-cases (host_by_name name w.db.hosts)) [
      | inl absent ↦
          subst (Follows w.db.hosts) (ground (arith, absent)) (Follows-start w.db.hosts u)
      | inr (host, found) ↦ elim (Bool-cases (ltb_ℤ (pos 0) host.active_containers)) [
        | inr idle ↦
            subst (Follows w.db.hosts) (ground (arith, found, idle)) (Follows-start w.db.hosts u)
        | inl positive ↦ elim (Option-cases (env w.calls commit)) [
          | inr (e, fails) ↦
              subst (Follows w.db.hosts) (ground (arith, found, positive, fails))
                (Follows-start w.db.hosts u)
          | inl works ↦ subst (Follows w.db.hosts) (ground (arith, found, positive, works)) (
              Follows-write w.db.hosts host (host.active_containers -ℤ pos 1) w.db.hosts
                (Follows-start w.db.hosts u) (host_by_name-Mem name host w.db.hosts found)
                (give _ (ground arith)))
        ]
      ]
    ];
  }

  pub reap_stale-Moves :
      (name : Text) (now later : Datetime) → Moves (reap_stale env name now later)
  unfolding reap_stale
  reap_stale-Moves name now later = search (moves, release_all-Moves, fail-Moves)
