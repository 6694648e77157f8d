-- ===== src/Shared/Validation/Laws.antt =====
-- What passes each guard.
use test_orch.Base.{true, false, List, [], ◌∷◌, ◌≡◌, refl, ◌↔◌, arith, All}
use test_orch.Base.Int.{ℤ, pos, ◌<ℤ◌}
use test_orch.Base.Text.{Text, strip, is_empty}
use test_orch.Base.Result.{ok}
use test_orch.Shared.Value.{Value, int, str, Fields, has_key}
use test_orch.Shared.Validation.{require_non_empty_str, require_positive_int, require_keys}

-- Not blank: `strip` leaves something.
abbrev pub IsNonBlank : Text → Type 0
IsNonBlank s = is_empty (strip s) ≡ false

pub is_empty_of_IsNonBlank : (s : Text) → IsNonBlank s → is_empty s ≡ false
is_empty_of_IsNonBlank [] h = unfold strip in h
is_empty_of_IsNonBlank (c ∷ s) h = refl

pub require_non_empty_str-ok :
    (v : Value) (s : Text) → (require_non_empty_str v ≡ ok s) ↔ ((v ≡ str s) × IsNonBlank s)
unfolding require_non_empty_str
require_non_empty_str-ok (str t) s = ground arith
require_non_empty_str-ok v s = ground arith

pub require_positive_int-ok :
    (v : Value) (n : ℤ) → (require_positive_int v ≡ ok n) ↔ ((v ≡ int n) × (pos 0 <ℤ n))
unfolding require_positive_int
require_positive_int-ok (int m) n = ground arith
require_positive_int-ok v n = ground arith

pub require_keys-ok :
    (mapping : Fields) (keys : List Text)
    → (require_keys mapping keys ≡ ok tt) ↔ All (λ k. has_key mapping k ≡ true) keys
unfolding require_keys
require_keys-ok mapping [] = (λ _. tt, λ _. refl)
require_keys-ok mapping (k ∷ keys) = ground (arith, require_keys-ok mapping keys)
