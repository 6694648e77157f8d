-- ===== src/Base/Keys.antt =====
-- Tables whose rows have a key: rows picked by a test and written by their keys.
use mathlib.Core.Path.{◌≡◌, refl, sym, ap, ap₂, ◌∙◌}
use mathlib.Core.Logic.{◌≢◌, inl, inr}
use mathlib.Core.Bool.{Bool, false}
use mathlib.Core.List.{List, [], ◌∷◌, map}
use mathlib.Core.Option.{some}
use native.Mathlib.Omega.{arith}
use test_orch.Base.Lists.{keep, find, Mem, All, All-at, contains, All-imp, All-zip}
use test_orch.Base.Tests.{Eq, ◌==◌, ==_refl, ==_ne, Bool-cases, if◌then◌else◌}

module _ {A K : Type 0} ⦃e : Eq K⦄ (key : A → K) where
  -- No two rows have the same key.
  abbrev pub NodupKeys : List A → Type 0
  NodupKeys [] = Unit
  NodupKeys (x ∷ xs) = All (λ y. key y ≢ key x) xs × NodupKeys xs

  -- `UPDATE … WHERE key IN keys`
  unfoldable pub update_where : List K → (A → A) → List A → List A
  update_where keys f xs = map (λ x. if contains keys (key x) then f x else x) xs

  abbrev picked : (A → Bool) → List A → List K
  picked p xs = map key (keep p xs)

  -- The key belongs to no row.
  contains-picked_of_absent :
      (p : A → Bool) (x : A) (xs : List A)
      → All (λ y. key y ≢ key x) xs
      → contains (picked p xs) (key x) ≡ false
  contains-picked_of_absent p x [] h = refl
  contains-picked_of_absent p x (y ∷ ys) h = elim (Bool-cases (p y)) [
    | inl kept ↦
        rw (kept, ==_ne (key x) (key y) (λ same. h.0 (sym same)))
          (contains-picked_of_absent p x ys h.1)
    | inr gone ↦ rw gone (contains-picked_of_absent p x ys h.1)
  ]

  contains-picked-cons :
      (p : A → Bool) (x y : A) (xs : List A)
      → key y ≢ key x
      → contains (picked p (x ∷ xs)) (key y) ≡ contains (picked p xs) (key y)
  contains-picked-cons p x y xs differ = elim (Bool-cases (p x)) [
    | inl kept ↦ rw (kept, ==_ne (key y) (key x) differ)
    | inr gone ↦ rw gone
  ]

  contains-picked :
      (p : A → Bool) (xs : List A)
      → NodupKeys xs
      → All (λ x. contains (picked p xs) (key x) ≡ p x) xs
  contains-picked p [] u = tt
  contains-picked p (x ∷ xs) u = (
    elim (Bool-cases (p x)) [
      | inl kept ↦ rw (kept, ==_refl (key x))
      | inr gone ↦ rw gone (contains-picked_of_absent p x xs u.0)
    ],
    All-imp (λ y. (key y ≢ key x) × (contains (picked p xs) (key y) ≡ p y))
        (λ y. contains (picked p (x ∷ xs)) (key y) ≡ p y) xs
        (λ y h. contains-picked-cons p x y xs h.0 ∙ h.1)
        (All-zip (λ y. key y ≢ key x) (λ y. contains (picked p xs) (key y) ≡ p y) xs u.0
          (contains-picked p xs u.1)),
  )

  map_if_congr :
      (p q : A → Bool) (f : A → A) (xs : List A)
      → All (λ x. p x ≡ q x) xs
      → map (λ x. if p x then f x else x) xs ≡ map (λ x. if q x then f x else x) xs
  map_if_congr p q f [] h = refl
  map_if_congr p q f (x ∷ xs) h = rw h.0 (ap₂ ◌∷◌ refl (map_if_congr p q f xs h.1))

  -- Writing the rows that a test picked, by their keys, writes the rows that pass the test.
  pub update_where-keep :
      (p : A → Bool) (f : A → A) (xs : List A)
      → NodupKeys xs
      → update_where (picked p xs) f xs ≡ map (λ x. if p x then f x else x) xs
  unfolding update_where
  update_where-keep p f xs u =
      map_if_congr (λ x. contains (picked p xs) (key x)) p f xs (contains-picked p xs u)

  find-Mem : (p : A → Bool) (x : A) (xs : List A) → find p xs ≡ some x → Mem x xs
  find-Mem p x [] h = ground arith
  find-Mem p x (y ∷ ys) h = ground (arith, find-Mem p x ys)

  pub eq_of_key :
      (x y : A) (xs : List A) → NodupKeys xs → Mem x xs → Mem y xs → key x ≡ key y → x ≡ y
  eq_of_key x y [] u m k same = absurd m
  eq_of_key x y (z ∷ zs) u (inl p) (inl q) same = p ∙ sym q
  eq_of_key x y (z ∷ zs) u (inl p) (inr k) same =
      absurd (All-at (λ v. key v ≢ key z) y zs u.0 k (sym same ∙ ap key p))
  eq_of_key x y (z ∷ zs) u (inr m) (inl q) same =
      absurd (All-at (λ v. key v ≢ key z) x zs u.0 m (same ∙ ap key q))
  eq_of_key x y (z ∷ zs) u (inr m) (inr k) same = eq_of_key x y zs u.1 m k same

  -- The row that some test finds first is the row that its own key finds.
  pub find-key :
      (p : A → Bool) (x : A) (xs : List A)
      → NodupKeys xs
      → find p xs ≡ some x
      → find (λ y. key y == key x) xs ≡ some x
  find-key p x [] u h = ground arith
  find-key p x (y ∷ ys) u h = elim (Bool-cases (p y)) [
    | inl hit ↦ ground (arith, ==_refl (key x))
    | inr miss ↦
        let later : find p ys ≡ some x = ground arith in
        let differ = All-at (λ z. key z ≢ key y) x ys u.0 (find-Mem p x ys later) in
        rw (==_ne (key y) (key x) (λ e. differ (sym e))) (find-key p x ys u.1 later)
  ]

  -- After a write of the row that a test finds, the test finds the new row. The write does not
  -- change what the test says.
  pub find-update_where :
      (p : A → Bool) (f : A → A) (x : A) (xs : List A)
      → NodupKeys xs
      → ((y : A) → p (f y) ≡ p y)
      → find p xs ≡ some x
      → find p (update_where (key x ∷ []) f xs) ≡ some (f x)
  unfolding update_where
  find-update_where p f x [] u same h = ground arith
  find-update_where p f x (y ∷ ys) u same h = elim (Bool-cases (p y)) [
    | inl hit ↦ ground (arith, ==_refl (key x), same y)
    | inr miss ↦
        let later : find p ys ≡ some x = ground arith in
        let differ = All-at (λ z. key z ≢ key y) x ys u.0 (find-Mem p x ys later) in
        rw (==_ne (key y) (key x) (λ e. differ (sym e)), miss)
          (find-update_where p f x ys u.1 same later)
  ]

  -- The same for the test on the key that is written.
  pub find-update_where_key :
      (f : A → A) (k : K) (x : A) (xs : List A)
      → ((y : A) → key (f y) ≡ key y)
      → find (λ y. key y == k) xs ≡ some x
      → find (λ y. key y == k) (update_where (k ∷ []) f xs) ≡ some (f x)
  unfolding update_where
  find-update_where_key f k x [] same h = ground arith
  find-update_where_key f k x (y ∷ ys) same h = elim (Bool-cases (key y == k)) [
    | inl hit ↦ ground (arith, ==_refl k, same y, (e.test_iff (key y) k).0 hit)
    | inr miss ↦
        let later : find (λ z. key z == k) ys ≡ some x = ground arith in
        ground (arith, miss, find-update_where_key f k x ys same later)
  ]
