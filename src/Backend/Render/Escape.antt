-- ===== src/Backend/Render/Escape.antt =====
-- Escaped text carries no tag, and stands for the text that it was made from.
use test_orch.Base.{
  ℕ, ◌≡◌, refl, Bool, true, not, ◌&&◌, [], ◌∷◌, ◌++◌, eqb, if◌then◌else◌, arith, all,
}
use test_orch.Base.Text.{Text, text}
use test_orch.Backend.Render.{escape}

-- What one character becomes.
abbrev escape_char : ℕ → Text
escape_char c =
    if eqb c b'&'
    then text "&amp;"
    else if eqb c b'<'
    then text "&lt;"
    else if eqb c b'>'
    then text "&gt;"
    else c ∷ []

escape-cons : (c : ℕ) (s : Text) → escape (c ∷ s) ≡ escape_char c ++ escape s
unfolding escape
escape-cons c s = ground arith

abbrev pub is_markup : ℕ → Bool
is_markup c = not (eqb c b'<') && not (eqb c b'>')

-- Neither `<` nor `>` is left.
pub escape_no_markup : (s : Text) → all is_markup (escape s) ≡ true
escape_no_markup [] = unfold escape in refl
escape_no_markup (c ∷ s) = rw (escape-cons c s) (ground (arith, escape_no_markup s))

-- A reader of entities: outside of one, at its first letter, and behind that.
pub data Mode : Type 0 where
  plain entity skip : Mode

abbrev entity_char : ℕ → ℕ
entity_char c = if eqb c b'a' then b'&' else if eqb c b'l' then b'<' else b'>'

pub unescape : Mode → Text → Text
unescape m [] = []
unescape plain (c ∷ s) =
    let rest = unescape plain s in
    let inside = unescape entity s in if eqb c b'&' then inside else c ∷ rest
unescape entity (c ∷ s) = entity_char c ∷ unescape skip s
unescape skip (c ∷ s) = unescape (if eqb c b';' then plain else skip) s

-- Reading the entities of an escaped text gives the text back.
pub unescape-escape : (s : Text) → unescape plain (escape s) ≡ s
unfolding unescape
unescape-escape [] = unfold escape in refl
unescape-escape (c ∷ s) = rw (escape-cons c s) (ground (arith, unescape-escape s))
