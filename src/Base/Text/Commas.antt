-- ===== src/Base/Text/Commas.antt =====
-- Comma-separated lists: what the entries look like, and that joined entries are read back.
use Prim.Native.Nat.{ℕ}
use mathlib.Core.Path.{◌≡◌, refl, ap, ap₂, ◌∙◌}
use mathlib.Core.Logic.{inl, inr}
use mathlib.Core.Bool.{true, false, not}
use mathlib.Core.List.{List, [], ◌∷◌, ◌++◌, map}
use native.Mathlib.Omega.{arith}
use test_orch.Base.Lists.{all, All, keep}
use test_orch.Base.Tests.{eqb, Bool-cases}
use test_orch.Base.Text.{Text, text, strip, is_empty, join, onto_first, split, comma_list}
use test_orch.Base.Text.Strip.{strip-strip, all-strip}

-- The separator does not occur.
abbrev Lacks : ℕ → Text → Type 0
Lacks sep s = all (λ c. not (eqb c sep)) s ≡ true

-- What every entry of a comma-separated list is: stripped, not empty, and without a comma.
pub record IsEntry (t : Text) : Type 0 where
  pub lacks : all (λ c. not (eqb c b',')) t ≡ true
  pub some_left : is_empty t ≡ false
  pub stripped : strip t ≡ t

split-Lacks : (sep : ℕ) (t : Text) → Lacks sep t → split sep t ≡ t ∷ []
unfolding split
split-Lacks sep [] h = refl
split-Lacks sep (c ∷ t) h = ground (arith, split-Lacks sep t)

split-append :
    (sep : ℕ) (t rest : Text) → Lacks sep t → split sep (t ++ sep ∷ rest) ≡ t ∷ split sep rest
unfolding split
split-append sep [] rest h = ground arith
split-append sep (c ∷ t) rest h = ground (arith, split-append sep t rest)

-- Splitting undoes joining.
pub split-join :
    (sep : ℕ) (t : Text) (ts : List Text)
    → All (Lacks sep) (t ∷ ts)
    → split sep (join (sep ∷ []) (t ∷ ts)) ≡ t ∷ ts
unfolding join
split-join sep t [] h = split-Lacks sep t h.0
split-join sep t (u ∷ ts) h =
    split-append sep t (join (sep ∷ []) (u ∷ ts)) h.0 ∙ ap (λ us. t ∷ us) (split-join sep u ts h.1)

onto_first-Lacks :
    (sep c : ℕ) (ts : List Text)
    → eqb c sep ≡ false
    → All (Lacks sep) ts
    → All (Lacks sep) (onto_first c ts)
onto_first-Lacks sep c [] e h = (ground arith, tt)
onto_first-Lacks sep c (t ∷ ts) e h = (ground arith, h.1)

split-All : (sep : ℕ) (s : Text) → All (Lacks sep) (split sep s)
unfolding split
split-All sep [] = (refl, tt)
split-All sep (c ∷ s) = elim (Bool-cases (eqb c sep)) [
  | inl same ↦ rw same (refl, split-All sep s)
  | inr other ↦ rw other (onto_first-Lacks sep c (split sep s) other (split-All sep s))
]

-- The comprehension over the pieces.
abbrev entries : List Text → List Text
entries ts = map strip (keep (λ t. not (is_empty (strip t))) ts)

entries-All : (ts : List Text) → All (Lacks b',') ts → All IsEntry (entries ts)
entries-All [] h = tt
entries-All (t ∷ ts) h = elim (Bool-cases (is_empty (strip t))) [
  | inl blank ↦ rw blank (entries-All ts h.1)
  | inr more ↦ rw more (
    record {
      lacks = all-strip (λ c. not (eqb c b',')) t h.0;
      some_left = more;
      stripped = strip-strip t;
    },
    entries-All ts h.1,
  )
]

entries_of_IsEntry : (ts : List Text) → All IsEntry ts → entries ts ≡ ts
entries_of_IsEntry [] h = refl
entries_of_IsEntry (t ∷ ts) h =
    rw (h.0.stripped, h.0.some_left) (ap₂ ◌∷◌ h.0.stripped (entries_of_IsEntry ts h.1))

All-Lacks : (ts : List Text) → All IsEntry ts → All (Lacks b',') ts
All-Lacks [] h = tt
All-Lacks (t ∷ ts) h = (h.0.lacks, All-Lacks ts h.1)

-- Every entry is stripped, is not empty and has no comma.
pub comma_list-IsEntry : (s : Text) → All IsEntry (comma_list s)
unfolding comma_list
comma_list-IsEntry s = entries-All (split b',' s) (split-All b',' s)

-- Entries that are joined by commas are read back as they were.
pub comma_list-join : (ts : List Text) → All IsEntry ts → comma_list (join (text ",") ts) ≡ ts
unfolding comma_list
comma_list-join [] h = unfold split join strip in refl
comma_list-join (t ∷ ts) h =
    ap entries (split-join b',' t ts (All-Lacks (t ∷ ts) h)) ∙ entries_of_IsEntry (t ∷ ts) h
