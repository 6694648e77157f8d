-- ===== src/Base/Result.antt =====
-- Exceptions as values. Messages are left out.
use mathlib.Core.Path.{◌≡◌, refl, subst}
use mathlib.Core.Logic.{◌⊎◌, inl, inr}
use mathlib.Core.Bool.{Bool, true, false}

pub data Exception : Type 0 where
  type_error value_error key_error assertion_error runtime_error attribute_error : Exception
  file_not_found os_error overflow_error not_found ldap_error ldap_auth_error external_error :
      Exception

pub data Result {ℓ} (A : Type ℓ) : Type ℓ where
  err : Exception → Result A
  ok : A → Result A

module _ {ℓ κ} {A : Type ℓ} {B : Type κ} where
  infixl 5 ◌>>=◌
  -- The next computation runs on the value; an exception goes through.
  abbrev pub ◌>>=◌ : Result A → (A → Result B) → Result B
  err e >>= next = err e
  ok a >>= next = next a

  pub >>=-eq-ok :
      (m : Result A) (next : A → Result B) {b : B}
      → (m >>= next) ≡ ok b
      → (a : A) × (m ≡ ok a) × (next a ≡ ok b)
  >>=-eq-ok (err e) next h = cc
  >>=-eq-ok (ok a) next h = (a, refl, h)

-- `if not condition: raise e`
abbrev pub guard : Bool → Exception → Result (Unit {0})
guard condition e = elim condition [ true ↦ ok tt | false ↦ err e ]

module _ {ℓ} {B : Type ℓ} where
  infixl 5 ◌>>◌
  abbrev pub ◌>>◌ : Result (Unit {0}) → Result B → Result B
  first >> second = first >>= λ done. second

pub Result-cases {ℓ} :
    {A : Type ℓ} (r : Result A) → ((a : A) × (r ≡ ok a)) ⊎ ((e : Exception) × (r ≡ err e))
Result-cases (ok a) = inl (a, refl)
Result-cases (err e) = inr (e, refl)

-- Whatever the computation returns meets `P`.
abbrev pub Ensures {ℓ} : {A : Type ℓ} → (A → Type 0) → Result A → Type 0
Ensures P (ok a) = P a
Ensures P (err e) = Unit

pub >>=-Ensures {ℓ κ} :
    {A : Type ℓ} {B : Type κ} (P : B → Type 0) (m : Result A) (f : A → Result B)
    → ((a : A) → m ≡ ok a → Ensures P (f a))
    → Ensures P (m >>= f)
>>=-Ensures P (ok a) f h = h a refl
>>=-Ensures P (err e) f h = tt

pub Ensures-ok {ℓ} :
    {A : Type ℓ} (P : A → Type 0) (m : Result A) (a : A) → Ensures P m → m ≡ ok a → P a
Ensures-ok P m a h e = subst (Ensures P) e h
