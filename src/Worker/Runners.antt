-- ===== src/Worker/Runners.antt =====
-- worker/translation_layer.py: from the form's variables to a framework's configuration.
pub mod Written
mod Examples
use test_orch.Base.{
  suc, ◌/◌, ◌^◌, true, false, List, [], ◌∷◌, ◌++◌, Option, none, some, ◌==◌, if◌then◌else◌,
}
use test_orch.Base.Int.{ℤ, pos, negsuc, negate, leb_ℤ}
use test_orch.Base.Float.{nan, fin}
use test_orch.Base.Text.{Text, text, text_eq, join}
use test_orch.Base.ParseInt.{parse_int}
use test_orch.Base.Result.{
  Result, ok, err, Exception, type_error, value_error, key_error, runtime_error, overflow_error,
  os_error, file_not_found, guard,
}
use test_orch.Base.Result as Result
use test_orch.Shared.Value.{
  Value, bool, int, float, str, list, Items, nil, cons, Fields, end, field, get_or, to_list, str_of,
}
use test_orch.Shared.Validation.{require_non_empty_str, require_mapping}
use test_orch.Backend.Effects.{
  Event, Action, pure, lift, try_except, call, make_dirs, write_json, write_text, ◌>>=◌, ◌>>◌,
}
use test_orch.Worker.Machine.{Machine, path_join}

pub data Framework : Type 0 where
  pytest robot : Framework

pub record Runner : Type 0 where
  pub framework : Framework
  pub test_id : Text
  pub variables : Fields

-- `int(x)` of a finite float cuts towards zero.
abbrev truncate : ℤ → ℤ
truncate (pos n) = pos (n / 2 ^ 1074)
truncate (negsuc n) = negate (suc n / 2 ^ 1074)

-- `int(value)`
unfoldable pub int_of : Value → Result ℤ
int_of (int n) = ok n
int_of (bool true) = ok (pos 1)
int_of (bool false) = ok (pos 0)
int_of (float (fin k)) = ok (truncate k)
int_of (float nan) = err value_error
int_of (float x) = err overflow_error
int_of (str s) = elim (parse_int s) [ none ↦ err value_error | some n ↦ ok n ]
int_of v = err type_error

-- `except (ValueError, TypeError) as e: raise ValueError(…)`
abbrev as_value_error : Exception → Exception
as_value_error type_error = value_error
as_value_error e = e

unfoldable pub timeout_of : Fields → Result ℤ
unfolding int_of
timeout_of variables =
    elim (int_of (get_or variables (text "timeout_seconds") (str (text "600")))) [
      | err e ↦ err (as_value_error e)
      | ok n ↦ if leb_ℤ n (pos 0) then err value_error else ok n
    ]

abbrev pub pytest_config : Fields → ℤ → Fields
pytest_config variables timeout_seconds =
    field (text "markers") (get_or variables (text "markers") (list nil)) (
      field (text "target_dut") (get_or variables (text "target_dut") (str [])) (
        field (text "timeout_seconds") (int timeout_seconds)
          (field (text "extra_args") (get_or variables (text "extra_args") (list nil)) end)))

abbrev include_lines : (Value → Text) → Items → List Text
include_lines show nil = []
include_lines show (cons v vs) = (text "--include " ++ str_of show v) ∷ include_lines show vs

unfoldable pub robot_lines : (Value → Text) → Fields → Result (List Text)
robot_lines show variables =
    Result.◌>>=◌ (to_list (get_or variables (text "include_tags") (list nil))) λ tags. ok (
      (text "--variable DUT:" ++ str_of show (get_or variables (text "target_dut") (str [])))
      ∷ include_lines show tags)

-- `_RUNNERS`
abbrev registered : Text → Option Framework
registered name =
    if name == text "pytest" then some pytest else if name == text "robot" then some robot else none

-- `Runner.__init__`
abbrev new_runner : Framework → Text → Value → Result Runner
new_runner framework test_id variables = Result.◌>>=◌ (require_non_empty_str (str test_id)) λ id.
    Result.◌>>=◌ (require_mapping variables)
      λ vars. ok (record { framework = framework; test_id = id; variables = vars })

unfoldable pub get_runner : Text → Text → Value → Result Runner
get_runner runner_type test_id variables =
    Result.◌>>=◌ (require_non_empty_str (str runner_type)) λ name.
      Result.◌>>=◌ (require_non_empty_str (str test_id)) λ id. elim (registered runner_type) [
        | none ↦ err key_error
        | some framework ↦ new_runner framework test_id variables
      ]

-- `except IOError`, which a missing file is one of.
abbrev as_runtime_error : Exception → Exception
as_runtime_error os_error = runtime_error
as_runtime_error file_not_found = runtime_error
as_runtime_error e = e

module _ (show : Value → Text) (m : Machine) where
  -- The property `config_dir` makes the directory whenever it is read.
  unfoldable pub config_dir : Runner → Action Text
  config_dir r =
      let path = path_join m.test_runs_dir r.test_id in call m.env (make_dirs path) >> pure path

  unfoldable pub write_file : Event → Action (Unit {0})
  write_file event = try_except (call m.env event) (λ e. lift (err (as_runtime_error e)))

  unfoldable pub write_pytest : Runner → Action Text
  unfolding config_dir write_file
  write_pytest r = do
    timeout_seconds ← lift (timeout_of r.variables)
    dir ← config_dir r
    write_file (
        write_json (path_join dir (text "pytest_config.json"))
          (pytest_config r.variables timeout_seconds))
    config_dir r

  unfoldable pub write_robot : Runner → Action Text
  unfolding config_dir write_file
  write_robot r = do
    lines ← lift (robot_lines show r.variables)
    dir ← config_dir r
    write_file (write_text (path_join dir (text "robot.args")) (join (text "\n") lines))
    config_dir r

  unfoldable pub write_with : Framework → Runner → Action Text
  write_with pytest r = write_pytest r
  write_with robot r = write_robot r

  -- The subclass's method.
  unfoldable pub write_config : Runner → Action Text
  unfolding write_with write_pytest write_robot
  write_config r = write_with r.framework r
