-- ===== src/Backend/Samples.antt =====
-- Small rows, bundles and environments for the tests.
use test_orch.Base.{ℕ, true, false, List, [], ◌∷◌, none, some}
use test_orch.Base.Int.{ℤ, pos, ◌+ℤ◌}
use test_orch.Base.Float.{Float, fin, pinf}
use test_orch.Base.Text.{Text, text}
use test_orch.Base.Result.{external_error}
use test_orch.Shared.Value.{end}
use test_orch.Shared.Schemas.{TestBundleRequest}
use test_orch.Backend.Models.{WorkerHost, Database, Datetime}
use test_orch.Backend.Effects.{World, Environment, send_task}
use test_orch.Backend.Scheduler.{FloatOps}

-- Whole numbers added exactly; every other sum is infinite.
unfoldable pub exact_add : Float → Float → Float
exact_add (fin a) (fin b) = fin (a +ℤ b)
exact_add a b = pinf

abbrev pub exact : FloatOps
exact = record { of_int = fin; add = exact_add }

abbrev pub at : ℤ → Datetime
at t = record { micros = t; aware = true }

abbrev pub host : ℕ → Text → ℤ → ℕ → WorkerHost
host key name active cpu = record {
  id = key;
  host_id = name;
  is_online = true;
  active_containers = active;
  max_containers = pos 2;
  cpu_utilization = fin (pos cpu);
  hardware_tags = text "dut, usb ,";
  supports_emulation = false;
  last_heartbeat = some (at (pos 100));
}

abbrev pub bundle : TestBundleRequest
bundle = record {
  test_id = text "t1";
  user_id = pos 7;
  runner_type = text "pytest";
  framework_image = text "img";
  required_hw_tags = text "usb" ∷ [];
  requires_emulation = false;
  quali_reservation_id = none;
  runner_variables = end;
}

-- A tie in the scores, and a full host.
abbrev pub inventory : List WorkerHost
inventory =
    host 1 (text "b") (pos 0) 30 ∷ host 2 (text "a") (pos 1) 10 ∷ host 3 (text "c") (pos 2) 0 ∷ []

abbrev pub database : Database
database = record { users = []; sessions = []; hosts = inventory; executions = []; log_lines = [] }

abbrev pub world : World
world = record { db = database; calls = [] }

abbrev pub calm : Environment
calm calls event = none

-- The broker is down.
unfoldable pub no_broker : Environment
no_broker calls (send_task name queue fields) = some external_error
no_broker calls event = none
