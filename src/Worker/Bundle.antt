-- ===== src/Worker/Bundle.antt =====
-- worker/tasks.py: `run_test_bundle`, one run of a bundle on the worker's host.
pub mod Tables
pub mod Lines
pub mod Rows
pub mod Status
pub mod Slot
pub mod Moves
mod Examples
use test_orch.Base.{
  ℕ, suc, ◌%◌, Bool, true, false, List, [], ◌∷◌, ◌++◌, Option, none, some, eqb, if◌then◌else◌,
}
use test_orch.Base.Int.{ℤ, pos, eqb_ℤ}
use test_orch.Base.Text.{Text, text}
use test_orch.Base.Result.{Result, ok, err, Exception}
use test_orch.Shared.Value.{Value, str, int, dict}
use test_orch.Shared.Schemas.{
  TestBundleRequest, TestStatus, value, running, passed, failed, from_dict,
}
use test_orch.Backend.Models.{Database, LogLine}
use test_orch.Backend.Effects.{
  World, Action, pure, lift, try_except, try_finally, call, commit_writes, create_tables,
  docker_connect, influx_connect, next_line, docker_wait, make_dirs, list_dir, publish, ◌>>=◌, ◌>>◌,
}
use test_orch.Backend.Influx.{close, write_line}
use test_orch.Backend.Maintenance.{release_if_any}
use test_orch.Worker.Machine.{Machine, path_join, now}
use test_orch.Worker.Docker.{stream_logs, start_test_container, cleanup}
use test_orch.Worker.Broker.{publish_log_line}
use test_orch.Worker.Runners.{get_runner, write_config}
use test_orch.Worker.Artifacts.{upload_all}
use test_orch.Worker.Tasks.{set_status, decrement_active_containers}

abbrev pub log_checkpoint_every : ℕ
log_checkpoint_every = 25

-- `PASSED` exactly for the exit code 0; a missing one counts as 1.
abbrev pub verdict : Option ℤ → TestStatus
verdict none = failed
verdict (some n) = if eqb_ℤ n (pos 0) then passed else failed

abbrev first_of : List Text → Option Text
first_of [] = none
first_of (url ∷ urls) = some url

module _ (show : Value → Text) (m : Machine) where
  -- Every 25th line is a row of the database.
  checkpoint : Text → ℕ → Text → Action (Unit {0})
  checkpoint test_id line_no line =
      if eqb (line_no % log_checkpoint_every) 0
      then commit_writes m.env (λ d. record d {
        log_lines =
            d.log_lines ++ (record { test_id = test_id; line_no = line_no; content = line } ∷ []);
      })
      else pure tt

  -- One turn of the loop over the container's lines.
  handle_line : Text → ℕ → Text → Action (Unit {0})
  unfolding checkpoint
  handle_line test_id line_no line = do
    write_line m.env (str test_id) (int (pos line_no)) (str line)
    publish_log_line m.env test_id line
    checkpoint test_id line_no line

  -- The loop: the stream is asked for each line, and for the end.
  pub stream : Text → ℕ → List Text → Action (Unit {0})
  unfolding handle_line
  stream test_id line_no [] = call m.env next_line
  stream test_id line_no (line ∷ lines) =
      call m.env next_line
      >> (handle_line test_id line_no line >> stream test_id (suc line_no) lines)

  -- The body of the `try`, up to the last write: the URL of the first artifact, if there is one.
  pub execute : TestBundleRequest → Action (Option Text)
  unfolding stream
  execute req = do
    runner ← lift (get_runner req.runner_type req.test_id (dict req.runner_variables))
    config_dir ← write_config show m runner
    let output_dir = path_join (path_join m.test_runs_dir req.test_id) (text "artifacts")
    call m.env (make_dirs output_dir)
    start_test_container m req.framework_image config_dir req.test_id (some output_dir)
    stream req.test_id 0 (stream_logs m)
    call m.env docker_wait
    call m.env (list_dir output_dir)
    urls ← upload_all m req.test_id output_dir m.files
    pure (first_of urls)

  abbrev pub record_status : Text → TestStatus → Option Text → Option Text → Action (Unit {0})
  record_status test_id status target artifact =
      now m >>= λ t. set_status m.env t test_id status target artifact

  -- The body of the `try`.
  pub attempt : TestBundleRequest → Action Text
  unfolding execute
  attempt req = do
    artifact ← execute req
    record_status req.test_id (verdict m.exit_code) none artifact
    pure (value (verdict m.exit_code))

  -- The `except` branch.
  pub on_crash : TestBundleRequest → Exception → Action Text
  on_crash req e =
      record_status req.test_id failed none none
      >> (release_if_any m.env req.quali_reservation_id >> lift (err e))

  -- The `finally` branch.
  pub wind_up : TestBundleRequest → Action (Unit {0})
  wind_up req =
      cleanup m req.test_id >> (decrement_active_containers m.env m.worker_host_id >> close m.env)

  -- What follows the first write.
  pub run_started : TestBundleRequest → Action Text
  unfolding attempt on_crash wind_up
  run_started req = try_finally (try_except (attempt req) (on_crash req)) (wind_up req)

  unfoldable pub run_test_bundle : Value → Action Text
  run_test_bundle bundle = do
    req ← lift (from_dict bundle)
    call m.env create_tables
    call m.env docker_connect
    call m.env influx_connect
    record_status req.test_id running (some m.worker_host_id) none
    run_started req
