-- ===== src/Backend/Routes.antt =====
-- backend/main.py: the HTTP routes that read and change the database.
pub mod Hosts
pub mod Submit
pub mod Moves
pub mod Pages
mod Examples
use test_orch.Base.{
  ℕ, Bool, true, false, List, [], ◌∷◌, ◌++◌, map, Option, none, some, ◌==◌, nat_eq, if◌then◌else◌,
}
use test_orch.Base.Int.{ℤ, pos, ltb_ℤ}
use test_orch.Base.Text.{Text, text, text_eq, is_empty, comma_list, join}
use test_orch.Base.Keys.{update_where}
use test_orch.Base.Result.{Result, ok, err, Exception, type_error, value_error}
use test_orch.Shared.Value.{Value, null, bool, int, str, list, dict, of_texts, Fields, end, field}
use test_orch.Shared.Schemas.{TestBundleRequest, Args, post_init, pending, dispatched, failed}
use test_orch.Backend.Models.{
  Datetime, User, WorkerHost, TestExecution, Database, host_by_name, execution_by_id,
}
use test_orch.Backend.Effects.{
  Environment, Action, pure, lift, try_except, get_db, commit_writes, ◌>>=◌, ◌>>◌,
}
use test_orch.Backend.Scheduler.{FloatOps, dispatch}

pub data Response : Type 0 where
  redirect : Text → Response
  log_page : User → TestExecution → Response
  runs_page : User → List TestExecution → Response
  hosts_page : User → List WorkerHost → Response
  login_page : Response
  -- The login page again, with an error and the status 401.
  login_failed : Response
  -- A redirect to the dashboard with the cookie `session_token` and its lifetime in seconds.
  signed_in : (token : Text) → (max_age : ℤ) → Response

-- `max(1, n)`
abbrev pub at_least_one : ℤ → ℤ
at_least_one n = if ltb_ℤ (pos 1) n then n else pos 1

-- What the form writes into the host's row.
abbrev pub capabilities : Text → Bool → ℤ → WorkerHost → WorkerHost
capabilities hardware_tags supports_emulation max_containers host = record host {
  hardware_tags = join (text ",") (comma_list hardware_tags);
  supports_emulation = supports_emulation;
  max_containers = at_least_one max_containers;
}

-- `{"target_dut": target_dut} if target_dut else {}`
abbrev runner_variables : Text → Fields
runner_variables target_dut =
    if is_empty target_dut then end else field (text "target_dut") (str target_dut) end

-- The arguments of the bundle, from the form.
abbrev pub bundle_args : Text → User → Text → Text → Text → Text → Bool → Args
bundle_args test_id user runner_type framework_image target_dut required_hw_tags
      requires_emulation =
    record {
      test_id = str test_id;
      user_id = int (pos user.id);
      runner_type = str runner_type;
      framework_image = str framework_image;
      required_hw_tags = list (of_texts (comma_list required_hw_tags));
      requires_emulation = bool requires_emulation;
      quali_reservation_id = null;
      runner_variables = dict (runner_variables target_dut);
    }

-- The row of a run that was just submitted.
abbrev pub pending_row : Text → User → Text → Text → Datetime → TestExecution
pending_row test_id user runner_type framework_image now = record {
  test_id = test_id;
  user_id = user.id;
  target_host_id = none;
  runner_type = runner_type;
  framework_image = framework_image;
  status = pending;
  quali_reservation_id = none;
  artifact_url = none;
  created_at = now;
  updated_at = now;
}

-- The row after the dispatch.
abbrev pub settle : Datetime → Option Text → TestExecution → TestExecution
settle now none row = record row { status = failed; updated_at = now }
settle now (some name) row = record row {
  status = dispatched;
  target_host_id = some name;
  updated_at = now;
}

-- `except (TypeError, ValueError)`
abbrev bounce : Exception → Action Response
bounce type_error = pure (redirect (text "/"))
bounce value_error = pure (redirect (text "/"))
bounce e = lift (err e)

unfoldable pub test_logs_page : Database → Text → Option User → Response
test_logs_page db test_id none = redirect (text "/login")
test_logs_page db test_id (some user) = elim (execution_by_id test_id db.executions) [
  | none ↦ redirect (text "/")
  | some run ↦ if run.user_id == user.id then log_page user run else redirect (text "/")
]

module _ (env : Environment) where
  unfoldable pub update_host : Text → Text → Bool → ℤ → Option User → Action Response
  unfolding update_where
  update_host host_id hardware_tags supports_emulation max_containers none =
      pure (redirect (text "/login"))
  update_host host_id hardware_tags supports_emulation max_containers (some user) = do
    db ← get_db
    elim (host_by_name host_id db.hosts) [
      | none ↦ pure tt
      | some host ↦ commit_writes env (λ d. record d {
        hosts =
            update_where (λ (h : WorkerHost). h.id) (host.id ∷ [])
              (capabilities hardware_tags supports_emulation max_containers) d.hosts;
      })
    ]
    pure (redirect (text "/admin"))

  module _ (ops : FloatOps) where
    -- The second commit, and the answer.
    abbrev pub settle_row : TestExecution → Datetime → Option Text → Action Response
    settle_row row now chosen =
        commit_writes env (λ d. record d {
          executions =
              update_where (λ (r : TestExecution). r.test_id) (row.test_id ∷ []) (settle now chosen)
                d.executions;
        })
        >> pure (redirect (text "/"))

    -- The audit row is committed, the bundle dispatched, and the row settled.
    pub record_and_dispatch : TestExecution → Datetime → TestBundleRequest → Action Response
    unfolding update_where
    record_and_dispatch row now bundle = do
      commit_writes env (λ d. record d { executions = d.executions ++ (row ∷ []) })
      chosen ← try_except (dispatch ops env bundle) (λ e. pure none)
      settle_row row now chosen

    -- What the route does with the outcome of the bundle's checks.
    submit_checked : TestExecution → Datetime → Result TestBundleRequest → Action Response
    submit_checked row now (err e) = bounce e
    submit_checked row now (ok bundle) = record_and_dispatch row now bundle

    -- `test_id` is the fresh random identifier, `created` and `now` the clock at the two commits.
    unfoldable pub submit_test :
        Text
        → Datetime
        → Datetime
        → Text
        → Text
        → Text
        → Text
        → Bool
        → Option User
        → Action Response
    unfolding submit_checked record_and_dispatch
    submit_test test_id created now runner_type framework_image target_dut tags emulation none =
        pure (redirect (text "/login"))
    submit_test test_id created now runner_type framework_image target_dut tags emulation
          (some user) =
        submit_checked (pending_row test_id user runner_type framework_image created) now (
          post_init
            (bundle_args test_id user runner_type framework_image target_dut tags emulation))
