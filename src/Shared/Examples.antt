-- ===== src/Shared/Examples.antt =====
-- A bundle and its payload.
use test_orch.Base.{◌≡◌, refl, true, [], ◌∷◌, some, arith}
use test_orch.Base.Int.{pos}
use test_orch.Base.Text.{text, text_eq, strip, lstrip, is_space}
use test_orch.Base.Result.{ok, err, value_error}
use test_orch.Shared.Value.{bool, list, null, nil, str, dict, end, field}
use test_orch.Shared.Validation.{
  require_non_empty_str, require_positive_int, require_keys, missing_keys, require_mapping,
}
use test_orch.Shared.Schemas.{Args, TestBundleRequest, to_dict, from_dict, post_init}
use test_orch.Shared.Schemas.Types.{has_types, Refuses, post_init-Refuses}
use test_orch.Shared.Schemas.RoundTrip.{IsValid, from_dict-to_dict}

program : Unit {0}
unfolding to_dict from_dict post_init require_keys missing_keys require_mapping
    require_non_empty_str require_positive_int strip lstrip is_space text_eq
program = tt

abbrev request : TestBundleRequest
request = record {
  test_id = text "t1";
  user_id = pos 7;
  runner_type = text "robot";
  framework_image = text "img";
  required_hw_tags = text "usb" ∷ [];
  requires_emulation = true;
  quali_reservation_id = some (text "r1");
  runner_variables = field (text "suite") (str (text "smoke")) end;
}

accepted : from_dict (dict (to_dict request)) ≡ ok request
unfolding program
accepted = refl

blank_refused : require_non_empty_str (str (text "  ")) ≡ err value_error
unfolding program
blank_refused = refl

request-IsValid : IsValid request
unfolding program
request-IsValid = record {
  test_id = refl;
  user_id = omega arith;
  runner_type = refl;
  framework_image = refl;
  reservation = refl;
}

from_dict-to_dict_example : from_dict (dict (to_dict request)) ≡ ok request
from_dict-to_dict_example = from_dict-to_dict request request-IsValid

-- A flag where a number belongs.
abbrev flagged : Args
flagged = record {
  test_id = str (text "t1");
  user_id = bool true;
  runner_type = str (text "robot");
  framework_image = str (text "img");
  required_hw_tags = list nil;
  requires_emulation = bool true;
  quali_reservation_id = null;
  runner_variables = dict end;
}

post_init-Refuses_example : Refuses (has_types flagged) (post_init flagged)
post_init-Refuses_example = post_init-Refuses flagged
