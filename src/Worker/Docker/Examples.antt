-- ===== src/Worker/Docker/Examples.antt =====
-- The start of one container.
use test_orch.Base.{suc, ◌≡◌, ◌≢◌, refl, true, [], ◌∷◌, some}
use test_orch.Base.Text.{Text, text, text_eq, strip, lstrip, is_space, rstrip}
use test_orch.Shared.Validation.{require_non_empty_str}
use test_orch.Backend.Effects.{docker_run}
use test_orch.Backend.Samples.{calm, world}
use test_orch.Worker.Machine.{Machine}
use test_orch.Worker.Samples.{worker}
use test_orch.Worker.Docker.{
  container_name, check_output, volumes_of, stream_logs, start_test_container,
  active_test_container_count,
}
use test_orch.Worker.Docker.Mounts.{two_mounts, start_test_container-mounts}

abbrev machine : Machine
machine = record (worker calm) { lines = text "1 passed\n" ∷ [] }

stream_logs-run : stream_logs machine ≡ text "1 passed" ∷ []
unfolding rstrip
stream_logs-run = refl

program : Unit {0}
unfolding start_test_container check_output container_name volumes_of require_non_empty_str strip
    lstrip is_space text_eq
program = tt

other_dir : (let dir : Text = text "/runs/t1/artifacts" in dir ≢ text "/runs/t1")
other_dir h = cc

start_test_container-mounts_example :
    ((start_test_container machine
        (text "img")
        (text "/runs/t1")
        (text "t1")
        (some (text "/runs/t1/artifacts"))
        world).1.calls
      ≡ docker_run
          (text "img")
          (text "test_t1")
          (text "host")
          (two_mounts (text "/runs/t1") (text "/runs/t1/artifacts"))
          ((text "managed-by", text "test_orch") ∷ (text "test-id", text "t1") ∷ [])
        ∷ [])
    × (true ≡ true)
    × (true ≡ true)
    × (active_test_container_count (text "test_t1" ∷ text "db" ∷ [])
        ≡ suc (active_test_container_count (text "db" ∷ [])))
start_test_container-mounts_example =
    start_test_container-mounts machine (text "img") (text "/runs/t1") (text "t1")
      (text "/runs/t1/artifacts") world (text "db" ∷ []) refl other_dir (unfold program in refl)
