-- ===== src/Base/ParseInt.antt =====
-- Python's `int` of a text: optional sign, ASCII digits with single underscores between, white space
-- around. Digits of other scripts and texts of more than 4,300 digits are outside of the model.
use Prim.Native.Nat.{ℕ, ◌+◌, ◌-◌, ◌*◌}
use mathlib.Core.Bool.{Bool, true, false, ◌&&◌}
use mathlib.Core.List.{[], ◌∷◌}
use mathlib.Core.Option.{Option, none, some}
use test_orch.Base.Tests.{leb, eqb, if◌then◌else◌}
use test_orch.Base.Int.{ℤ, pos, negate}
use test_orch.Base.Text.{Text, strip}

abbrev pub is_digit : ℕ → Bool
is_digit c = leb b'0' c && leb c b'9'

-- The digits behind those that stand for `n`; `after` says whether a digit stands just before.
unfoldable pub digits_value : Bool → ℕ → Text → Option ℕ
digits_value after n [] = if after then some n else none
digits_value after n (c ∷ s) =
    let digit = digits_value true (n * 10 + (c - b'0')) s in
    let joint = digits_value false n s in
    if is_digit c then digit else if after && eqb c b'_' then joint else none

abbrev positive : Option ℕ → Option ℤ
positive none = none
positive (some n) = some (pos n)

abbrev negative : Option ℕ → Option ℤ
negative none = none
negative (some n) = some (negate n)

abbrev signed : Text → Option ℤ
signed [] = none
signed (c ∷ s) =
    if eqb c b'-'
    then negative (digits_value false 0 s)
    else if eqb c b'+'
    then positive (digits_value false 0 s)
    else positive (digits_value false 0 (c ∷ s))

unfoldable pub parse_int : Text → Option ℤ
unfolding digits_value
parse_int s = signed (strip s)
