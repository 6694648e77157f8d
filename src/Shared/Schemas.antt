-- ===== src/Shared/Schemas.antt =====
-- shared/schemas.py: the job contract that crosses the broker.
pub mod RoundTrip
pub mod Types
use test_orch.Base.{Bool, true, false, List, [], ◌∷◌, Option, none, some}
use test_orch.Base.Int.{ℤ}
use test_orch.Base.Text.{Text, text}
use test_orch.Base.Result.{Result, ok, err, type_error, ◌>>=◌, ◌>>◌}
use test_orch.Shared.Value.{
  Value, null, bool, int, str, list, dict, Items, nil, Fields, end, field, get, get_or, truth,
  texts, of_texts,
}
use test_orch.Shared.Value as Value
use test_orch.Shared.Validation.{
  require_non_empty_str, require_positive_int, require_mapping, require_keys,
}

pub data TestStatus : Type 0 where
  pending dispatched running passed failed cancelled : TestStatus

-- `status.value`, the text that the database and the results carry.
unfoldable pub value : TestStatus → Text
value pending = text "PENDING"
value dispatched = text "DISPATCHED"
value running = text "RUNNING"
value passed = text "PASSED"
value failed = text "FAILED"
value cancelled = text "CANCELLED"

-- A bundle whose fields have been checked. Only `post_init` makes one from values.
pub record TestBundleRequest : Type 0 where
  pub test_id : Text
  pub user_id : ℤ
  pub runner_type : Text
  pub framework_image : Text
  pub required_hw_tags : List Text
  pub requires_emulation : Bool
  pub quali_reservation_id : Option Text
  pub runner_variables : Fields

-- The arguments of the constructor, before `__post_init__`.
pub record Args : Type 0 where
  pub test_id : Value
  pub user_id : Value
  pub runner_type : Value
  pub framework_image : Value
  pub required_hw_tags : Value
  pub requires_emulation : Value
  pub quali_reservation_id : Value
  pub runner_variables : Value

-- `isinstance(v, list) and all(isinstance(t, str) for t in v)`
check_tags : Value → Result (List Text)
check_tags (list vs) = elim (texts vs) [ none ↦ err type_error | some ts ↦ ok ts ]
check_tags v = err type_error

check_bool : Value → Result Bool
check_bool (bool b) = ok b
check_bool v = err type_error

check_reservation : Value → Result (Option Text)
check_reservation null = ok none
check_reservation v = do s ← require_non_empty_str v; ok (some s)

unfoldable pub post_init : Args → Result TestBundleRequest
unfolding check_tags check_bool check_reservation
post_init a = do
  test_id ← require_non_empty_str a.test_id
  user_id ← require_positive_int a.user_id
  runner_type ← require_non_empty_str a.runner_type
  framework_image ← require_non_empty_str a.framework_image
  tags ← check_tags a.required_hw_tags
  requires_emulation ← check_bool a.requires_emulation
  reservation ← check_reservation a.quali_reservation_id
  runner_variables ← require_mapping a.runner_variables
  ok (record {
    test_id = test_id;
    user_id = user_id;
    runner_type = runner_type;
    framework_image = framework_image;
    required_hw_tags = tags;
    requires_emulation = requires_emulation;
    quali_reservation_id = reservation;
    runner_variables = runner_variables;
  })

abbrev of_option : Option Text → Value
of_option none = null
of_option (some s) = str s

-- `asdict(self)`
unfoldable pub to_dict : TestBundleRequest → Fields
to_dict b = field (text "test_id") (str b.test_id) (
    field (text "user_id") (int b.user_id) (
      field (text "runner_type") (str b.runner_type) (
        field (text "framework_image") (str b.framework_image) (
          field (text "required_hw_tags") (list (of_texts b.required_hw_tags)) (
            field (text "requires_emulation") (bool b.requires_emulation) (
              field (text "quali_reservation_id") (of_option b.quali_reservation_id)
                (field (text "runner_variables") (dict b.runner_variables) end)))))))

-- The keys that a payload must have.
abbrev pub required_keys : List Text
required_keys = text "test_id" ∷ text "user_id" ∷ text "runner_type" ∷ text "framework_image" ∷ []

-- `data[key]`, for a key that `require_keys` has found.
abbrev item : Fields → Text → Value
item fs k = get_or fs k null

-- The constructor's arguments, from the payload.
args_of : Fields → Result Args
args_of fs = do
  tags ← Value.to_list (get_or fs (text "required_hw_tags") (list nil))
  let emulation = truth (get_or fs (text "requires_emulation") (bool false))
  variables ← Value.to_dict (get_or fs (text "runner_variables") (dict end))
  ok (record {
    test_id = item fs (text "test_id");
    user_id = item fs (text "user_id");
    runner_type = item fs (text "runner_type");
    framework_image = item fs (text "framework_image");
    required_hw_tags = list tags;
    requires_emulation = bool emulation;
    quali_reservation_id = get_or fs (text "quali_reservation_id") null;
    runner_variables = dict variables;
  })

unfoldable pub from_dict : Value → Result TestBundleRequest
unfolding args_of
from_dict v = do
  fs ← require_mapping v
  require_keys fs required_keys
  args ← args_of fs
  post_init args
