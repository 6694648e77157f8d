-- ===== src/Shared/Validation.antt =====
-- shared/validation.py: the guards at the trust boundaries.
pub mod Laws
use test_orch.Base.{Bool, true, false, not, ◌||◌, List, [], ◌∷◌, if◌then◌else◌, keep}
use test_orch.Base.Int.{ℤ, pos, leb_ℤ}
use test_orch.Base.Float.{Float, ltb_float, zero_float}
use test_orch.Base.Text.{Text, strip, is_empty}
use test_orch.Base.Result.{Result, ok, err, type_error, value_error, guard, ◌>>◌}
use test_orch.Shared.Value.{Value, int, float, str, dict, Fields, has_key}

-- The source's `require`.
unfoldable pub require : Bool → Result (Unit {0})
require condition = guard condition value_error

unfoldable pub require_non_empty_str : Value → Result Text
require_non_empty_str (str s) = do guard (not (is_empty (strip s))) value_error; ok s
require_non_empty_str value = err type_error

-- A `bool` is a value of its own here, so the source's first test is the clauses' order.
unfoldable pub require_positive_int : Value → Result ℤ
require_positive_int (int n) = do guard (not (leb_ℤ n (pos 0))) value_error; ok n
require_positive_int value = err type_error

-- `float(n)` for an `int` rounds, and is a parameter. A `nan` is not below zero, and passes.
unfoldable pub require_non_negative_number : (ℤ → Float) → Value → Result Float
require_non_negative_number of_int (int n) = do guard (leb_ℤ (pos 0) n) value_error; ok (of_int n)
require_non_negative_number of_int (float x) = do
  guard (not (ltb_float x zero_float)) value_error
  ok x
require_non_negative_number of_int value = err type_error

unfoldable pub require_mapping : Value → Result Fields
require_mapping (dict fs) = ok fs
require_mapping value = err type_error

-- The comprehension `missing`.
unfoldable pub missing_keys : Fields → List Text → List Text
missing_keys mapping keys = keep (λ k. not (has_key mapping k)) keys

unfoldable pub require_keys : Fields → List Text → Result (Unit {0})
unfolding missing_keys
require_keys mapping keys = elim (missing_keys mapping keys) [
  | [] ↦ ok tt
  | k ∷ ks ↦ err value_error
]
