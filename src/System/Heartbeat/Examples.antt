-- ===== src/System/Heartbeat/Examples.antt =====
-- A heartbeat of `a`, and a sweep a little later.
use test_orch.Base.{true, List, [], ◌∷◌, nat_eq}
use test_orch.Base.Int.{pos}
use test_orch.Base.Float.{fin, zero_float}
use test_orch.Base.Text.{Text, text}
use test_orch.Base.Result.{ok}
use test_orch.Shared.HostStats.{StatsOps, Readings}
use test_orch.Backend.Effects.{World}
use test_orch.Backend.Samples.{at, calm, world}
use test_orch.Worker.Machine.{Machine}
use test_orch.Worker.Heartbeat.{publish_heartbeat}
use test_orch.Worker.Samples.{worker}

-- Nothing is measured but zeros.
abbrev ops : StatsOps
ops = record {
  mb = λ n. zero_float;
  gb = λ n. zero_float;
  round1 = λ x. x;
  round2 = λ x. x;
  above = λ x. x;
}

abbrev readings : Readings
readings = record {
  cpu = fin (pos 1);
  available = pos 3;
  total = pos 8;
  users = ok (pos 2);
  path_exists = true;
  make_dirs = ok tt;
  disk_usage = λ path. ok (pos 5, pos 9);
}

abbrev machine : Machine
machine = record (worker calm) { clock = λ calls. at (pos 900) }

-- The names of the running containers: one is the service's.
abbrev running : List Text
running = text "test_t1" ∷ text "db" ∷ []

abbrev beaten : World
beaten = (publish_heartbeat machine running ops readings 9 world).1
