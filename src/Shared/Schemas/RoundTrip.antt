-- ===== src/Shared/Schemas/RoundTrip.antt =====
-- A bundle survives the broker, and nothing malformed gets through.
use test_orch.Base.{List, [], ◌∷◌, Option, none, some, ◌≡◌, refl, arith}
use test_orch.Base.Int.{pos, ◌<ℤ◌}
use test_orch.Base.Text.{Text, text_eq}
use test_orch.Base.Result.{ok, Ensures, >>=-Ensures, Ensures-ok}
use test_orch.Shared.Value.{Value, null, str, int, dict, texts, of_texts}
use test_orch.Shared.Validation.{
  require_keys, require_mapping, require_non_empty_str, require_positive_int,
}
use test_orch.Shared.Validation.Laws.{IsNonBlank, require_non_empty_str-ok, require_positive_int-ok}
use test_orch.Shared.Schemas.{
  TestBundleRequest, Args, check_tags, check_bool, check_reservation, post_init, to_dict, args_of,
  from_dict, of_option, required_keys,
}

abbrev IsReservation : Option Text → Type 0
IsReservation none = Unit
IsReservation (some s) = IsNonBlank s

-- What `__post_init__` promises of a bundle.
pub record IsValid (b : TestBundleRequest) : Type 0 where
  pub test_id : IsNonBlank b.test_id
  pub user_id : pos 0 <ℤ b.user_id
  pub runner_type : IsNonBlank b.runner_type
  pub framework_image : IsNonBlank b.framework_image
  pub reservation : IsReservation b.quali_reservation_id

check_reservation-Ensures : (v : Value) → Ensures IsReservation (check_reservation v)
unfolding check_reservation
check_reservation-Ensures null = tt
check_reservation-Ensures v =
    >>=-Ensures IsReservation (require_non_empty_str v) _
      λ s e. ((require_non_empty_str-ok v s).0 e).1

check_reservation-of_option :
    (o : Option Text) → IsReservation o → check_reservation (of_option o) ≡ ok o
unfolding check_reservation
check_reservation-of_option none h = refl
check_reservation-of_option (some s) h = rw ((require_non_empty_str-ok _ _).1 (refl, h))

post_init-Ensures : (a : Args) → Ensures IsValid (post_init a)
unfolding post_init
post_init-Ensures a = >>=-Ensures IsValid (require_non_empty_str a.test_id) _ λ t et.
    >>=-Ensures IsValid (require_positive_int a.user_id) _ λ u eu.
      >>=-Ensures IsValid (require_non_empty_str a.runner_type) _ λ r er.
        >>=-Ensures IsValid (require_non_empty_str a.framework_image) _ λ i ei.
          >>=-Ensures IsValid (check_tags a.required_hw_tags) _ λ ts _.
            >>=-Ensures IsValid (check_bool a.requires_emulation) _ λ b _.
              >>=-Ensures IsValid (check_reservation a.quali_reservation_id) _ λ q eq.
                >>=-Ensures IsValid (require_mapping a.runner_variables) _ λ m _. record {
                  test_id = ((require_non_empty_str-ok a.test_id t).0 et).1;
                  user_id = ((require_positive_int-ok a.user_id u).0 eu).1;
                  runner_type = ((require_non_empty_str-ok a.runner_type r).0 er).1;
                  framework_image = ((require_non_empty_str-ok a.framework_image i).0 ei).1;
                  reservation =
                      Ensures-ok IsReservation _ q
                        (check_reservation-Ensures a.quali_reservation_id) eq;
                }

pub post_init-IsValid : (a : Args) (b : TestBundleRequest) → post_init a ≡ ok b → IsValid b
post_init-IsValid a b = Ensures-ok IsValid (post_init a) b (post_init-Ensures a)

-- The identifier is kept as it came.
pub post_init-test_id :
    (a : Args) (b : TestBundleRequest) (test_id : Text)
    → post_init a ≡ ok b
    → a.test_id ≡ str test_id
    → b.test_id ≡ test_id
unfolding post_init
post_init-test_id a b test_id h same =
    let P : TestBundleRequest → Type 0 = λ b. b.test_id ≡ test_id in
    let kept : Ensures P (post_init a) = >>=-Ensures P (require_non_empty_str a.test_id) _ λ t et.
      let same_id : t ≡ test_id =
        let (given, solid) = (require_non_empty_str-ok a.test_id t).0 et in ground arith in
      >>=-Ensures P (require_positive_int a.user_id) _ λ u _.
        >>=-Ensures P (require_non_empty_str a.runner_type) _ λ r _.
          >>=-Ensures P (require_non_empty_str a.framework_image) _ λ i _.
            >>=-Ensures P (check_tags a.required_hw_tags) _ λ ts _.
              >>=-Ensures P (check_bool a.requires_emulation) _ λ e _.
                >>=-Ensures P (check_reservation a.quali_reservation_id) _
                  λ q _. >>=-Ensures P (require_mapping a.runner_variables) _ λ m _. same_id in
    Ensures-ok P (post_init a) b kept h

-- Every bundle that a payload is accepted as is valid.
pub from_dict-IsValid : (v : Value) (b : TestBundleRequest) → from_dict v ≡ ok b → IsValid b
unfolding from_dict
from_dict-IsValid v b = Ensures-ok IsValid (from_dict v) b (
    >>=-Ensures IsValid (require_mapping v) _ λ fs _.
      >>=-Ensures IsValid (require_keys fs required_keys) _
        λ _ _. >>=-Ensures IsValid (args_of fs) _ λ a _. post_init-Ensures a)

texts-of_texts : (ts : List Text) → texts (of_texts ts) ≡ some ts
texts-of_texts [] = refl
texts-of_texts (t ∷ ts) = ground (arith, texts-of_texts ts)

-- A checked bundle that is sent as a dictionary is received as it was sent.
pub from_dict-to_dict : (b : TestBundleRequest) → IsValid b → from_dict (dict (to_dict b)) ≡ ok b
unfolding from_dict to_dict text_eq require_keys require_mapping post_init
from_dict-to_dict b v = ground (
  arith,
  (require_non_empty_str-ok (str b.test_id) b.test_id).1 (refl, v.test_id),
  (require_positive_int-ok (int b.user_id) b.user_id).1 (refl, v.user_id),
  (require_non_empty_str-ok (str b.runner_type) b.runner_type).1 (refl, v.runner_type),
  (require_non_empty_str-ok (str b.framework_image) b.framework_image).1 (refl, v.framework_image),
  texts-of_texts b.required_hw_tags,
  check_reservation-of_option b.quali_reservation_id v.reservation,
)
