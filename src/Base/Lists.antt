-- ===== src/Base/Lists.antt =====
-- Lists measured by native numbers, predicates by recursion, and Python's `in`, `all` and `[… if …]`.
use Prim.Native.Nat.{ℕ, zero, suc, ◌+◌, ◌≤◌}
use mathlib.Core.Path.{◌≡◌, refl, sym, ap, subst}
use mathlib.Core.Logic.{◌↔◌, ◌⊎◌, inl, inr}
use mathlib.Core.Bool.{Bool, true, false, ◌&&◌, ◌||◌}
use mathlib.Core.Option.{Option, none, some}
use mathlib.Core.List.{List, [], ◌∷◌, ◌++◌, map}
use native.Mathlib.Omega.{arith}
use test_orch.Base.Tests.{Eq, ◌==◌, if◌then◌else◌, Bool-cases}

module _ {ℓ} {A : Type ℓ} where
  abbrev pub length : List A → ℕ
  length [] = 0
  length (x ∷ xs) = suc (length xs)

  pub length-append : (xs ys : List A) → length (xs ++ ys) ≡ length xs + length ys
  length-append [] ys = omega arith
  length-append (x ∷ xs) ys = omega (arith, length-append xs ys)

  -- `not xs`
  abbrev pub is_nil : List A → Bool
  is_nil [] = true
  is_nil (x ∷ xs) = false

  -- `all(p(x) for x in xs)`
  abbrev pub all : (A → Bool) → List A → Bool
  all p [] = true
  all p (x ∷ xs) = p x && all p xs

  -- `[x for x in xs if p(x)]`
  abbrev pub keep : (A → Bool) → List A → List A
  keep p [] = []
  keep p (x ∷ xs) = let rest = keep p xs in if p x then x ∷ rest else rest

  -- `xs[:n]`
  abbrev pub take : ℕ → List A → List A
  take zero xs = []
  take (suc n) [] = []
  take (suc n) (x ∷ xs) = x ∷ take n xs

  pub length-take-le : (n : ℕ) (xs : List A) → length (take n xs) ≤ n
  length-take-le zero xs = omega arith
  length-take-le (suc n) [] = omega arith
  length-take-le (suc n) (x ∷ xs) = omega (arith, length-take-le n xs)

  -- The first that passes, or `None`.
  abbrev pub find : (A → Bool) → List A → Option A
  find p [] = none
  find p (x ∷ xs) = let rest = find p xs in if p x then some x else rest

module _ {A : Type 0} where
  -- `x` is an entry of the list, with its place kept.
  abbrev pub Mem : A → List A → Type 0
  Mem x [] = ⊥
  Mem x (y ∷ ys) = (x ≡ y) ⊎ Mem x ys

  abbrev pub All : (A → Type 0) → List A → Type 0
  All P [] = Unit
  All P (x ∷ xs) = P x × All P xs

  pub All-at : (P : A → Type 0) (x : A) (xs : List A) → All P xs → Mem x xs → P x
  All-at P x [] h m = absurd m
  All-at P x (y ∷ ys) h (inl e) = subst P (sym e) h.0
  All-at P x (y ∷ ys) h (inr m) = All-at P x ys h.1 m

  pub All-of : (P : A → Type 0) (xs : List A) → ((x : A) → Mem x xs → P x) → All P xs
  All-of P [] h = tt
  All-of P (x ∷ xs) h = (h x (inl refl), All-of P xs (λ y m. h y (inr m)))

  pub All-imp : (P Q : A → Type 0) (xs : List A) → ((x : A) → P x → Q x) → All P xs → All Q xs
  All-imp P Q [] f h = tt
  All-imp P Q (x ∷ xs) f h = (f x h.0, All-imp P Q xs f h.1)

  pub keep-keep : (p q : A → Bool) (xs : List A) → keep p (keep q xs) ≡ keep (λ x. q x && p x) xs
  keep-keep p q [] = refl
  keep-keep p q (x ∷ xs) = elim (Bool-cases (q x)) [
    | inl kept ↦ rw (kept, keep-keep p q xs)
    | inr gone ↦ rw (gone, keep-keep p q xs)
  ]

  -- If nothing passes a test, then writing what passes it changes nothing.
  pub map_if_of_keep :
      (p : A → Bool) (f : A → A) (xs : List A)
      → keep p xs ≡ []
      → map (λ x. if p x then f x else x) xs ≡ xs
  map_if_of_keep p f [] h = refl
  map_if_of_keep p f (x ∷ xs) h = ground (arith, map_if_of_keep p f xs)

  pub All-take : (P : A → Type 0) (n : ℕ) (xs : List A) → All P xs → All P (take n xs)
  All-take P zero xs h = tt
  All-take P (suc n) [] h = tt
  All-take P (suc n) (x ∷ xs) h = (h.0, All-take P n xs h.1)

  pub All-zip : (P Q : A → Type 0) (xs : List A) → All P xs → All Q xs → All (λ x. P x × Q x) xs
  All-zip P Q [] h k = tt
  All-zip P Q (x ∷ xs) h k = ((h.0, k.0), All-zip P Q xs h.1 k.1)

  pub All-keep : (P : A → Type 0) (p : A → Bool) (xs : List A) → All P xs → All P (keep p xs)
  All-keep P p [] h = tt
  All-keep P p (x ∷ xs) h = elim (Bool-cases (p x)) [
    | inl kept ↦ rw kept (h.0, All-keep P p xs h.1)
    | inr gone ↦ rw gone (All-keep P p xs h.1)
  ]

  pub all_iff : (p : A → Bool) (xs : List A) → (all p xs ≡ true) ↔ All (λ x. p x ≡ true) xs
  all_iff p [] = (λ _. tt, λ _. refl)
  all_iff p (x ∷ xs) = ground (arith, all_iff p xs)

  pub find-passes : (p : A → Bool) (x : A) (xs : List A) → find p xs ≡ some x → p x ≡ true
  find-passes p x [] h = cc
  find-passes p x (y ∷ ys) h = ground (arith, find-passes p x ys)

  pub mem-keep :
      (p : A → Bool) (x : A) (xs : List A) → Mem x (keep p xs) ↔ (Mem x xs × (p x ≡ true))
  mem-keep p x [] = (λ m. absurd m, λ h. h.0)
  mem-keep p x (y ∷ ys) = ground (arith, mem-keep p x ys)

pub All-map :
    {A B : Type 0} (P : B → Type 0) (f : A → B) (xs : List A)
    → All (λ x. P (f x)) xs
    → All P (map f xs)
All-map P f [] h = tt
All-map P f (x ∷ xs) h = (h.0, All-map P f xs h.1)

pub All-unmap :
    {A B : Type 0} (P : B → Type 0) (f : A → B) (xs : List A)
    → All P (map f xs)
    → All (λ x. P (f x)) xs
All-unmap P f [] h = tt
All-unmap P f (x ∷ xs) h = (h.0, All-unmap P f xs h.1)

pub length-map : {A B : Type 0} (f : A → B) (xs : List A) → length (map f xs) ≡ length xs
length-map f [] = refl
length-map f (x ∷ xs) = omega (arith, length-map f xs)

pub Mem-map : {A B : Type 0} (f : A → B) (x : A) (xs : List A) → Mem x xs → Mem (f x) (map f xs)
Mem-map f x [] m = absurd m
Mem-map f x (y ∷ ys) (inl e) = inl (ap f e)
Mem-map f x (y ∷ ys) (inr m) = inr (Mem-map f x ys m)

module _ {A : Type 0} ⦃e : Eq A⦄ where
  -- `x in xs`
  abbrev pub contains : List A → A → Bool
  contains [] a = false
  contains (x ∷ xs) a = (a == x) || contains xs a

  pub contains_iff : (xs : List A) (a : A) → (contains xs a ≡ true) ↔ Mem a xs
  contains_iff [] a = (λ h. cc, λ m. absurd m)
  contains_iff (x ∷ xs) a = ground (arith, e.test_iff a x, contains_iff xs a)

module _ {A : Type 0} where
  -- What is appended is found, if nothing before it is.
  pub find-snoc :
      (p : A → Bool) (xs : List A) (x : A)
      → find p xs ≡ none
      → p x ≡ true
      → find p (xs ++ (x ∷ [])) ≡ some x
  find-snoc p [] x absent hit = ground arith
  find-snoc p (y ∷ ys) x absent hit = ground (arith, find-snoc p ys x)
