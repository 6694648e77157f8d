-- ===== src/Worker/Heartbeat.antt =====
-- worker/tasks.py: `publish_heartbeat`, a host's periodic report.
use test_orch.Base.{ℕ, ◌≡◌, List, ◌∷◌, Option-cases, none, some, arith, ◌⊎◌, inl, inr}
use test_orch.Base.Int.{ℤ, pos}
use test_orch.Base.Text.{Text}
use test_orch.Base.Result.{Result, ok, err, Exception}
use test_orch.Shared.HostStats.{HostStats, StatsOps, Readings, collect_host_stats}
use test_orch.Backend.Effects.{
  World, Event, Action, pure, lift, call, try_except, create_tables, docker_connect, docker_list,
  ◌>>=◌, ◌>>◌,
}
use test_orch.Worker.Machine.{Machine, now}
use test_orch.Worker.Docker.{active_test_container_count}
use test_orch.Worker.Tasks.{save_heartbeat}

-- `running` are the names of the running containers, `r` the readings of the host.
module _ (m : Machine) (running : List Text) where
  -- What Docker answers; where it fails, the exception is logged.
  unfoldable pub ask_docker : Action (Result ℤ)
  ask_docker =
      try_except
        (call m.env docker_connect
          >> (call m.env docker_list >> pure (ok (pos (active_test_container_count running)))))
        (λ e. pure (err e))

  unfoldable pub publish_heartbeat : StatsOps → Readings → ℕ → Action (Unit {0})
  publish_heartbeat ops r fresh_id = do
    call m.env create_tables
    stats ← lift (collect_host_stats ops m.worker_host_id m.test_runs_dir r)
    docker ← ask_docker
    t ← now m
    save_heartbeat m.env fresh_id m.worker_host_id t stats.cpu_percent docker

  -- One of the two calls of Docker fails.
  abbrev pub DockerFails : List Event → Exception → Type 0
  DockerFails calls e =
      (m.env calls docker_connect ≡ some e)
      ⊎ ((m.env calls docker_connect ≡ none)
          × (m.env (docker_connect ∷ calls) docker_list ≡ some e))

  -- Both of them are answered.
  abbrev pub DockerAnswers : List Event → Type 0
  DockerAnswers calls =
      (m.env calls docker_connect ≡ none) × (m.env (docker_connect ∷ calls) docker_list ≡ none)

  -- Docker's answer never ends the task: it is the count of the owned containers if both calls are
  -- answered, and the exception of the call that fails otherwise.
  pub ask_docker-answers :
      (w : World)
      → (docker : Result ℤ) × ((ask_docker w).0 ≡ ok docker)
        × ((ask_docker w).1.db ≡ w.db)
        × ((DockerAnswers w.calls × (docker ≡ ok (pos (active_test_container_count running))))
            ⊎ ((e : Exception) × DockerFails w.calls e × (docker ≡ err e)))
  unfolding ask_docker
  ask_docker-answers w =
      let asked = docker_connect ∷ w.calls in
      let n = pos (active_test_container_count running) in
      elim (Option-cases (m.env w.calls docker_connect)) [
        | inr (e, fails) ↦ (
          err e,
          ground (arith, fails),
          ground (arith, fails),
          inr (e, inl fails, ground (arith, fails)),
        )
        | inl connects ↦ elim (Option-cases (m.env asked docker_list)) [
          | inr (e, fails) ↦ (
            err e,
            ground (arith, connects, fails),
            ground (arith, connects, fails),
            inr (e, inr (connects, fails), ground (arith, connects, fails)),
          )
          | inl lists ↦ (
            ok n,
            ground (arith, connects, lists),
            ground (arith, connects, lists),
            inl ((connects, lists), ground (arith, connects, lists)),
          )
        ]
      ]

  -- The task is what it writes, once the tables are there and the snapshot is taken.
  pub publish_heartbeat-saves :
      (ops : StatsOps) (r : Readings) (fresh_id : ℕ) (w : World) (stats : HostStats)
      (docker : Result ℤ)
      → m.env w.calls create_tables ≡ none
      → collect_host_stats ops m.worker_host_id m.test_runs_dir r ≡ ok stats
      → let asked = ask_docker (record w { calls = create_tables ∷ w.calls }) in
        asked.0 ≡ ok docker
        → publish_heartbeat ops r fresh_id w
          ≡ save_heartbeat m.env fresh_id m.worker_host_id
              (m.clock asked.1.calls)
              stats.cpu_percent
              docker
              asked.1
  unfolding publish_heartbeat
  publish_heartbeat-saves ops r fresh_id w stats docker made taken answered =
      ground (arith, made, taken, answered)
