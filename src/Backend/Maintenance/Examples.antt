-- ===== src/Backend/Maintenance/Examples.antt =====
-- A sweep over two silent hosts, one of them offline already.
use test_orch.Base.{nat_eq, All, ◌++◌, ◌≡◌, refl, false, [], ◌∷◌, none, some, arith}
use test_orch.Base.Int.{pos, ◌-ℤ◌}
use test_orch.Base.Text.{Text, text, text_eq}
use test_orch.Base.Keys.{NodupKeys}
use test_orch.Base.Result.{ok, external_error}
use test_orch.Shared.Schemas.{TestStatus, running, failed, passed}
use test_orch.Backend.Models.{WorkerHost, TestExecution, Database}
use test_orch.Backend.Effects.{World, Environment, commit, release_reservation}
use test_orch.Backend.Samples.{host, at, calm}
use test_orch.Backend.Maintenance.{run_maintenance_sweep, is_orphan, is_active}
use test_orch.Backend.Maintenance.Loop.{Round, lifespan, lifespan-Marks}
use test_orch.Backend.Maintenance.Sweep.{newly_dead, swept, run_maintenance_sweep_idle}

abbrev run : Text → Text → TestStatus → TestExecution
run key name status = record {
  test_id = key;
  user_id = 7;
  target_host_id = some name;
  runner_type = text "pytest";
  framework_image = text "img";
  status = status;
  quali_reservation_id = some (text "r");
  artifact_url = none;
  created_at = at (pos 0);
  updated_at = at (pos 0);
}

abbrev silent : Database
silent = record {
  users = [];
  sessions = [];
  hosts =
      host 1 (text "a") (pos 1) 0 ∷ record (host 2 (text "b") (pos 1) 0) { is_online = false } ∷ [];
  executions =
      run (text "t1") (text "a") running
      ∷ run (text "t2") (text "a") passed
      ∷ run (text "t3") (text "b") running
      ∷ [];
  log_lines = [];
}

abbrev start : World
start = record { db = silent; calls = [] }

-- The reservation service is down.
unfoldable no_quali : Environment
no_quali calls (release_reservation r) = some external_error
no_quali calls event = none

silent-hosts : NodupKeys (λ (h : WorkerHost). h.id) silent.hosts
silent-hosts = ground arith

swept-run :
    (swept no_quali (at (pos 500)) (pos 120) silent).executions
    ≡ record (run (text "t1") (text "a") failed) { updated_at = at (pos 500) }
      ∷ run (text "t2") (text "a") passed
      ∷ run (text "t3") (text "b") running
      ∷ []
unfolding is_orphan is_active text_eq ◌-ℤ◌
swept-run = refl

run_maintenance_sweep_idle_example :
    run_maintenance_sweep calm (at (pos 150)) (pos 120) start ≡ (ok tt, start)
run_maintenance_sweep_idle_example =
    run_maintenance_sweep_idle calm (at (pos 150)) (pos 120) start refl (unfold ◌-ℤ◌ in refl)

-- The database is down.
unfoldable no_commits : Environment
no_commits calls commit = some external_error
no_commits calls event = none

abbrev broken : Round
broken = record { env = no_commits; now = at (pos 300) }

abbrev healed : Round
healed = record { env = calm; now = at (pos 500) }

-- Two turns without a database, and one with it.
lifespan-Marks_example :
    let after = lifespan (pos 120) calm ((broken ∷ broken ∷ []) ++ (healed ∷ [])) start in
    (after.0 ≡ ok tt) × All (λ h. newly_dead (pos 500 -ℤ pos 120) h ≡ false) after.1.db.hosts
lifespan-Marks_example =
    lifespan-Marks (pos 120) calm (broken ∷ broken ∷ []) healed start refl refl (λ calls. refl)
      silent-hosts
