-- ===== src/Shared/Schemas/Types.antt =====
-- The types of a bundle's fields, as `__post_init__` checks them.
use test_orch.Base.{
  List, Bool-cases, ◌≡◌, refl, Bool, true, false, ◌&&◌, ◌⊎◌, inl, inr, Option, none, some, arith,
}
use test_orch.Base.Int.{pos, leb_ℤ}
use test_orch.Base.Text.{Text, strip, is_empty}
use test_orch.Base.Result.{Result, ok, err, type_error, value_error, ◌>>=◌}
use test_orch.Shared.Value.{Value, null, bool, int, str, list, dict, texts}
use test_orch.Shared.Validation.{require_non_empty_str, require_positive_int, require_mapping}
use test_orch.Shared.Schemas.{Args, check_tags, check_bool, check_reservation, post_init}

-- `isinstance`, with `bool` apart from `int`.
abbrev is_str : Value → Bool
is_str (str s) = true
is_str v = false

abbrev is_int : Value → Bool
is_int (int n) = true
is_int v = false

abbrev is_bool : Value → Bool
is_bool (bool b) = true
is_bool v = false

abbrev is_mapping : Value → Bool
is_mapping (dict fs) = true
is_mapping v = false

abbrev is_some : Option (List Text) → Bool
is_some none = false
is_some (some ts) = true

abbrev is_texts : Value → Bool
is_texts (list vs) = is_some (texts vs)
is_texts v = false

abbrev is_optional_str : Value → Bool
is_optional_str null = true
is_optional_str v = is_str v

-- The annotations of the class.
abbrev pub has_types : Args → Bool
has_types a =
    is_str a.test_id
    && (is_int a.user_id
        && (is_str a.runner_type
            && (is_str a.framework_image
                && (is_texts a.required_hw_tags
                    && (is_bool a.requires_emulation
                        && (is_optional_str a.quali_reservation_id
                            && is_mapping a.runner_variables))))))

-- What a check does with arguments that are typed as they should be, or not.
abbrev pub Refuses {ℓ} : {A : Type ℓ} → Bool → Result A → Type 0
Refuses typed (ok a) = typed ≡ true
Refuses typed (err e) = (e ≡ value_error) ⊎ ((e ≡ type_error) × (typed ≡ false))

>>=-Refuses {ℓ κ} :
    {A : Type ℓ} {B : Type κ} (t u : Bool) (m : Result A) (f : A → Result B)
    → Refuses t m
    → ((a : A) → Refuses u (f a))
    → Refuses (t && u) (m >>= f)
>>=-Refuses true u (ok a) f h k = k a
>>=-Refuses false u (ok a) f h k = ground (arith, h)
>>=-Refuses true u (err e) f (inl value) k = inl value
>>=-Refuses true u (err e) f (inr (same, untyped)) k = ground (arith, untyped)
>>=-Refuses false u (err e) f h k = h

str-Refuses : (v : Value) → Refuses (is_str v) (require_non_empty_str v)
unfolding require_non_empty_str
str-Refuses (str s) = elim (Bool-cases (is_empty (strip s))) [
  | inl blank ↦ rw blank (inl refl)
  | inr more ↦ rw more refl
]
str-Refuses v = inr (refl, refl)

int-Refuses : (v : Value) → Refuses (is_int v) (require_positive_int v)
unfolding require_positive_int
int-Refuses (int n) = elim (Bool-cases (leb_ℤ n (pos 0))) [
  | inl low ↦ rw low (inl refl)
  | inr high ↦ rw high refl
]
int-Refuses v = inr (refl, refl)

tags-Refuses : (v : Value) → Refuses (is_texts v) (check_tags v)
unfolding check_tags
tags-Refuses (list vs) =
    elim (texts vs)
      as (λ o. Refuses (is_some o) (elim o [ none ↦ err type_error | some ts ↦ ok ts ])) [
        | none ↦ inr (refl, refl)
        | some ts ↦ refl
      ]
tags-Refuses v = inr (refl, refl)

bool-Refuses : (v : Value) → Refuses (is_bool v) (check_bool v)
unfolding check_bool
bool-Refuses (bool b) = refl
bool-Refuses v = inr (refl, refl)

mapping-Refuses : (v : Value) → Refuses (is_mapping v) (require_mapping v)
unfolding require_mapping
mapping-Refuses (dict fs) = refl
mapping-Refuses v = inr (refl, refl)

map-Refuses {ℓ κ} :
    {A : Type ℓ} {B : Type κ} (t : Bool) (m : Result A) (f : A → B)
    → Refuses t m
    → Refuses t (m >>= λ a. ok (f a))
map-Refuses t (ok a) f h = h
map-Refuses t (err e) f h = h

reservation-Refuses : (v : Value) → Refuses (is_optional_str v) (check_reservation v)
unfolding check_reservation
reservation-Refuses null = refl
reservation-Refuses v = map-Refuses (is_str v) (require_non_empty_str v) some (str-Refuses v)

-- Arguments that are accepted have the types that the class declares, arguments that have them are
-- refused with a `ValueError` at most, and those that do not are refused with a `TypeError` or,
-- where a check of a value comes first, a `ValueError`; nothing else is ever raised.
pub post_init-Refuses : (a : Args) → Refuses (has_types a) (post_init a)
unfolding post_init
post_init-Refuses a = >>=-Refuses (is_str a.test_id) _ _ _ (str-Refuses a.test_id) λ test_id.
    >>=-Refuses (is_int a.user_id) _ _ _ (int-Refuses a.user_id) λ user_id.
      >>=-Refuses (is_str a.runner_type) _ _ _ (str-Refuses a.runner_type) λ runner.
        >>=-Refuses (is_str a.framework_image) _ _ _ (str-Refuses a.framework_image) λ image.
          >>=-Refuses (is_texts a.required_hw_tags) _ _ _ (tags-Refuses a.required_hw_tags) λ tags.
            >>=-Refuses (is_bool a.requires_emulation) _ _ _ (bool-Refuses a.requires_emulation)
              λ emulation.
                >>=-Refuses (is_optional_str a.quali_reservation_id) _ _ _
                  (reservation-Refuses a.quali_reservation_id)
                  λ reservation.
                    map-Refuses (is_mapping a.runner_variables) _ _
                      (mapping-Refuses a.runner_variables)
