-- ===== src/Worker/Machine.antt =====
-- The worker's host, as far as its tasks see it: a parameter of their models.
use test_orch.Base.{Bool, List, ◌++◌, Option, if◌then◌else◌, ◌||◌}
use test_orch.Base.Int.{ℤ}
use test_orch.Base.Text.{Text, text, is_empty, starts_with, ends_with}
use test_orch.Base.Result.{ok}
use test_orch.Backend.Models.{Datetime}
use test_orch.Backend.Effects.{Environment, Event, Action}

-- What the host, its Docker daemon, its file system and its clock answer. An answer that changes
-- over time is a function of the calls made so far.
pub record Machine : Type 0 where
  pub env : Environment
  pub worker_host_id : Text
  pub test_runs_dir : Text
  pub docker_network_mode : Text
  pub artifactory_url : Text
  pub artifactory_repo : Text
  pub clock : List Event → Datetime
  pub is_dir : List Event → Text → Bool
  pub is_file : List Event → Text → Bool
  -- The container's log lines, decoded, with what ends them, and the status that it ended with, if
  -- Docker names one.
  pub lines : List Text
  pub exit_code : Option ℤ
  -- `os.listdir` of the run's output.
  pub files : List Text

-- `os.path.join(a, b)`
abbrev pub path_join : Text → Text → Text
path_join a b =
    if starts_with b (text "/")
    then b
    else if is_empty a || ends_with a (text "/")
    then a ++ b
    else a ++ (text "/" ++ b)

-- Reads the clock.
abbrev pub now : Machine → Action Datetime
now m w = (ok (m.clock w.calls), w)
