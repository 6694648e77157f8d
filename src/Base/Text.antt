-- ===== src/Base/Text.antt =====
-- Python's `str`, as the list of its code points, with the methods that the program calls.
pub mod Strip
pub mod Commas
pub mod Order
use Prim.Native.Nat.{ℕ}
use Prim.Native.Char.{code}
use Prim.Native.String.{String}
use mathlib.Core.Path.{◌≡◌, refl}
use mathlib.Core.Logic.{◌↔◌}
use mathlib.Core.Bool.{Bool, true, false, not, ◌&&◌, ◌||◌}
use mathlib.Core.List.{List, [], ◌∷◌, ◌++◌, map, reverse}
use native.Mathlib.Omega.{arith}
use test_orch.Base.Lists.{keep}
use test_orch.Base.Tests.{ltb, leb, eqb, eqb_iff, Eq, if◌then◌else◌}

abbrev pub Text : Type 0
Text = List ℕ

-- A literal. `String` has its own `[]` and `∷`.
abbrev pub text : String → Text
text String.[] = []
text (String.◌∷◌ c s) = code c ∷ text s

abbrev text_beq : Text → Text → Bool
text_beq [] [] = true
text_beq (a ∷ s) (b ∷ t) = eqb a b && text_beq s t
text_beq _ _ = false

pub text_beq_iff : (s t : Text) → (text_beq s t ≡ true) ↔ (s ≡ t)
text_beq_iff [] [] = (λ _. refl, λ _. refl)
text_beq_iff [] (b ∷ t) = ground arith
text_beq_iff (a ∷ s) [] = ground arith
text_beq_iff (a ∷ s) (b ∷ t) = ground (arith, text_beq_iff s t, eqb_iff a b)

instance unfoldable pub text_eq : Eq Text
text_eq = record { test = text_beq; test_iff = text_beq_iff }

-- `s < t`, by code points.
abbrev pub ltb_text : Text → Text → Bool
ltb_text [] [] = false
ltb_text [] (b ∷ t) = true
ltb_text (a ∷ s) [] = false
ltb_text (a ∷ s) (b ∷ t) = if eqb a b then ltb_text s t else ltb a b

-- The code points for which `str.isspace` holds.
unfoldable pub is_space : ℕ → Bool
is_space c =
    (leb 9 c && leb c 13)
    || (leb 28 c && leb c 32)
    || eqb c 133
    || eqb c 160
    || eqb c 5760
    || (leb 8192 c && leb c 8202)
    || eqb c 8232
    || eqb c 8233
    || eqb c 8239
    || eqb c 8287
    || eqb c 12288

unfoldable pub lstrip : Text → Text
lstrip [] = []
lstrip (c ∷ s) = let rest = lstrip s in if is_space c then rest else c ∷ s

unfoldable pub strip : Text → Text
unfolding lstrip
strip s = reverse (lstrip (reverse (lstrip s)))

-- `not s`
abbrev pub is_empty : Text → Bool
is_empty [] = true
is_empty (c ∷ s) = false

-- `s.rstrip(c)` for one character.
unfoldable pub rstrip : ℕ → Text → Text
rstrip c [] = []
rstrip c (d ∷ s) =
    let rest = rstrip c s in if eqb d c then (if is_empty rest then [] else d ∷ rest) else d ∷ rest

-- `s.startswith(prefix)`
abbrev pub starts_with : Text → Text → Bool
starts_with s [] = true
starts_with [] (p ∷ ps) = false
starts_with (c ∷ s) (p ∷ ps) = eqb c p && starts_with s ps

-- `s.endswith(suffix)`
abbrev pub ends_with : Text → Text → Bool
ends_with s suffix = starts_with (reverse s) (reverse suffix)

-- `sep.join(parts)`
unfoldable pub join : Text → List Text → Text
join sep [] = []
join sep (t ∷ []) = t
join sep (t ∷ u ∷ ts) = t ++ (sep ++ join sep (u ∷ ts))

abbrev pub onto_first : ℕ → List Text → List Text
onto_first c [] = (c ∷ []) ∷ []
onto_first c (t ∷ ts) = (c ∷ t) ∷ ts

-- `s.split(sep)` for a separator of one character.
unfoldable pub split : ℕ → Text → List Text
split sep [] = [] ∷ []
split sep (c ∷ s) = let rest = split sep s in if eqb c sep then [] ∷ rest else onto_first c rest

-- `[t.strip() for t in s.split(",") if t.strip()]`
unfoldable pub comma_list : Text → List Text
comma_list s = map strip (keep (λ t. not (is_empty (strip t))) (split b',' s))

-- `s.replace(old, new)` for an `old` of one character.
unfoldable pub replace : ℕ → Text → Text → Text
replace old new [] = []
replace old new (c ∷ s) =
    let rest = replace old new s in if eqb c old then new ++ rest else c ∷ rest
