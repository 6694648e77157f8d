-- ===== src/Worker/Runners/Examples.antt =====
-- Configurations of concrete runs.
use test_orch.Base.{◌≡◌, refl, [], ◌∷◌}
use test_orch.Base.Int.{pos}
use test_orch.Base.Text.{text, text_eq, is_space, strip, lstrip}
use test_orch.Base.ParseInt.{parse_int}
use test_orch.Base.Result.{ok, err, value_error}
use test_orch.Shared.Value.{str, list, of_texts, field, end}
use test_orch.Backend.Samples.{calm}
use test_orch.Worker.Machine.{Machine}
use test_orch.Worker.Samples.{worker, show}
use test_orch.Worker.Runners.{pytest, robot, Runner, timeout_of, robot_lines}

abbrev machine : Machine
machine = worker calm

abbrev pytest_run : Runner
pytest_run = record {
  framework = pytest;
  test_id = text "t1";
  variables = field (text "timeout_seconds") (str (text " 30 ")) end;
}

abbrev robot_run : Runner
robot_run = record {
  framework = robot;
  test_id = text "t2";
  variables =
      field (text "target_dut") (str (text "dut7"))
        (field (text "include_tags") (list (of_texts (text "smoke" ∷ text "usb" ∷ []))) end);
}

-- White space round the digits is cut.
timeout_run : timeout_of pytest_run.variables ≡ ok (pos 30)
unfolding timeout_of parse_int text_eq strip lstrip is_space
timeout_run = refl

zero_run : timeout_of (field (text "timeout_seconds") (str (text "0")) end) ≡ err value_error
unfolding timeout_of parse_int text_eq strip lstrip is_space
zero_run = refl

robot_args :
    robot_lines show robot_run.variables
    ≡ ok (text "--variable DUT:dut7" ∷ text "--include smoke" ∷ text "--include usb" ∷ [])
unfolding robot_lines text_eq
robot_args = refl
