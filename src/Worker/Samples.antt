-- ===== src/Worker/Samples.antt =====
-- The worker's host `a` for the tests.
use test_orch.Base.{true, [], some}
use test_orch.Base.Int.{pos}
use test_orch.Base.Text.{Text, text}
use test_orch.Shared.Value.{Value}
use test_orch.Backend.Effects.{Environment}
use test_orch.Backend.Samples.{at}
use test_orch.Worker.Machine.{Machine}

-- `str` of what is no text.
abbrev pub show : Value → Text
show v = text "?"

-- Every directory and file is there, and a container ends with the exit code 0 and leaves nothing.
abbrev pub worker : Environment → Machine
worker env = record {
  env = env;
  worker_host_id = text "a";
  test_runs_dir = text "/runs";
  docker_network_mode = text "host";
  artifactory_url = text "";
  artifactory_repo = text "";
  clock = λ calls. at (pos 50);
  is_dir = λ calls path. true;
  is_file = λ calls path. true;
  lines = [];
  exit_code = some (pos 0);
  files = [];
}
