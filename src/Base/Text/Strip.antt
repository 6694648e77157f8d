-- ===== src/Base/Text/Strip.antt =====
-- `str.strip`: what it leaves, and when nothing.
use Prim.Native.Nat.{ℕ}
use mathlib.Core.Path.{◌≡◌, refl, sym, ap, ◌∙◌}
use mathlib.Core.Logic.{inl, inr}
use mathlib.Core.Bool.{Bool, true, false, ◌&&◌}
use mathlib.Core.List.{[], ◌∷◌, ◌++◌, reverse, reverse-append, reverse-reverse}
use native.Mathlib.Omega.{arith}
use test_orch.Base.Lists.{all}
use test_orch.Base.Tests.{Bool-cases, if◌then◌else◌}
use test_orch.Base.Text.{Text, is_space, lstrip, strip, is_empty}

-- Empty, or does not begin with white space.
abbrev IsSolid : Text → Type 0
IsSolid [] = Unit
IsSolid (c ∷ s) = is_space c ≡ false

lstrip-IsSolid : (s : Text) → IsSolid (lstrip s)
unfolding lstrip
lstrip-IsSolid [] = tt
lstrip-IsSolid (c ∷ s) = elim (Bool-cases (is_space c)) [
  | inl blank ↦ rw blank (lstrip-IsSolid s)
  | inr solid ↦ rw solid solid
]

lstrip_of_IsSolid : (s : Text) → IsSolid s → lstrip s ≡ s
unfolding lstrip
lstrip_of_IsSolid [] h = refl
lstrip_of_IsSolid (c ∷ s) h = rw h

IsSolid-of_append : (s t : Text) → IsSolid (s ++ t) → IsSolid s
IsSolid-of_append [] t h = tt
IsSolid-of_append (c ∷ s) t h = h

-- The white space that `lstrip` takes away.
blanks : Text → Text
blanks [] = []
blanks (c ∷ s) = let rest = blanks s in if is_space c then c ∷ rest else []

blanks-append-lstrip : (s : Text) → blanks s ++ lstrip s ≡ s
unfolding blanks lstrip
blanks-append-lstrip [] = refl
blanks-append-lstrip (c ∷ s) = ground (arith, blanks-append-lstrip s)

-- What `strip` leaves is a beginning of what `lstrip` leaves.
strip-append : (s : Text) → strip s ++ reverse (blanks (reverse (lstrip s))) ≡ lstrip s
unfolding strip
strip-append s =
    let t = reverse (lstrip s) in
    sym (reverse-append (blanks t) (lstrip t))
    ∙ ap reverse (blanks-append-lstrip t)
    ∙ reverse-reverse (lstrip s)

strip-IsSolid : (s : Text) → IsSolid (strip s)
strip-IsSolid s =
    IsSolid-of_append (strip s) (reverse (blanks (reverse (lstrip s))))
      (rw (strip-append s) (lstrip-IsSolid s))

reverse-strip : (s : Text) → reverse (strip s) ≡ lstrip (reverse (lstrip s))
unfolding strip
reverse-strip s = reverse-reverse (lstrip (reverse (lstrip s)))

-- Stripping twice is stripping once.
pub strip-strip : (s : Text) → strip (strip s) ≡ strip s
strip-strip s =
    unfold strip in
    rw
      (
        lstrip_of_IsSolid (strip s) (strip-IsSolid s),
        reverse-strip s,
        lstrip_of_IsSolid (lstrip (reverse (lstrip s))) (lstrip-IsSolid (reverse (lstrip s))),
      )
      refl

pub all-append : (p : ℕ → Bool) (s t : Text) → all p (s ++ t) ≡ (all p s && all p t)
all-append p [] t = refl
all-append p (c ∷ s) t = ground (arith, all-append p s t)

all-reverse : (p : ℕ → Bool) (s : Text) → all p (reverse s) ≡ all p s
all-reverse p [] = refl
all-reverse p (c ∷ s) = rw (reverse-append (c ∷ []) s, all-append) (ground (arith, all-reverse p s))

all-lstrip : (p : ℕ → Bool) (s : Text) → all p s ≡ true → all p (lstrip s) ≡ true
unfolding lstrip
all-lstrip p [] h = refl
all-lstrip p (c ∷ s) h = ground (arith, all-lstrip p s)

is_empty-lstrip : (s : Text) → is_empty (lstrip s) ≡ all is_space s
unfolding lstrip
is_empty-lstrip [] = refl
is_empty-lstrip (c ∷ s) = ground (arith, is_empty-lstrip s)

all_space-lstrip : (s : Text) → all is_space (lstrip s) ≡ all is_space s
unfolding lstrip
all_space-lstrip [] = refl
all_space-lstrip (c ∷ s) = ground (arith, all_space-lstrip s)

is_empty_snoc : (s : Text) (c : ℕ) → is_empty (s ++ c ∷ []) ≡ false
is_empty_snoc [] c = refl
is_empty_snoc (d ∷ s) c = refl

is_empty-reverse : (s : Text) → is_empty (reverse s) ≡ is_empty s
is_empty-reverse [] = refl
is_empty-reverse (c ∷ s) = rw (reverse-append (c ∷ []) s) (is_empty_snoc (reverse s) c)

-- `strip` removes characters only, so whatever every character meets stays.
pub all-strip : (p : ℕ → Bool) (s : Text) → all p s ≡ true → all p (strip s) ≡ true
unfolding strip
all-strip p s h =
    rw (all-reverse p)
      (all-lstrip p (reverse (lstrip s)) (all-reverse p (lstrip s) ∙ all-lstrip p s h))

-- Nothing is left exactly of a text that is all white space.
pub is_empty-strip : (s : Text) → is_empty (strip s) ≡ all is_space s
unfolding strip
is_empty-strip s =
    is_empty-reverse (lstrip (reverse (lstrip s)))
    ∙ is_empty-lstrip (reverse (lstrip s))
    ∙ all-reverse is_space (lstrip s)
    ∙ all_space-lstrip s
