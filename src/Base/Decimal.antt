-- ===== src/Base/Decimal.antt =====
-- `str(n)`: decimal digits.
use Prim.Native.Nat.{ℕ, zero, suc, ◌+◌, ◌-◌, ◌*◌, ◌/◌, ◌%◌, ◌<◌}
use mathlib.Core.Path.{◌≡◌, refl}
use mathlib.Core.Bool.{Bool, true}
use mathlib.Core.List.{[], ◌∷◌}
use native.Mathlib.Omega.{arith}
use test_orch.Base.Tests.{ltb, if◌then◌else◌}
use test_orch.Base.Lists.{all}
use test_orch.Base.Text.{Text}

-- The digits of `n` in front of those that are there, with fuel.
digits_onto : ℕ → ℕ → Text → Text
digits_onto zero n acc = acc
digits_onto (suc fuel) n acc =
    let rest = digits_onto fuel (n / 10) ((b'0' + n % 10) ∷ acc) in
    if ltb n 10 then (b'0' + n) ∷ acc else rest

unfoldable pub decimal : ℕ → Text
unfolding digits_onto
decimal n = digits_onto (suc n) n []

-- The number that a row of digits stands for, after `k`.
abbrev pub read_onto : ℕ → Text → ℕ
read_onto k [] = k
read_onto k (c ∷ s) = read_onto (k * 10 + (c - b'0')) s

read_onto-digits_onto :
    (fuel n : ℕ) (acc : Text) → n < fuel → read_onto 0 (digits_onto fuel n acc) ≡ read_onto n acc
unfolding digits_onto
read_onto-digits_onto zero n acc h = elim h [ ]
read_onto-digits_onto (suc fuel) n acc h =
    ground (arith, read_onto-digits_onto fuel (n / 10) ((b'0' + n % 10) ∷ acc))

-- The digits are read back as the number.
pub read_onto-decimal : (n : ℕ) → read_onto 0 (decimal n) ≡ n
unfolding decimal
read_onto-decimal n = read_onto-digits_onto (suc n) n [] (omega arith)

all-digits_onto :
    (p : ℕ → Bool) (fuel n : ℕ) (acc : Text)
    → ((d : ℕ) → d < 10 → p (b'0' + d) ≡ true)
    → all p acc ≡ true
    → all p (digits_onto fuel n acc) ≡ true
unfolding digits_onto
all-digits_onto p zero n acc digit h = h
all-digits_onto p (suc fuel) n acc digit h =
    let last : p (b'0' + n % 10) ≡ true = digit (n % 10) (omega arith) in
    ground (arith, digit n, last, all-digits_onto p fuel (n / 10) ((b'0' + n % 10) ∷ acc) digit)

-- What holds of the ten digits holds of every character of a number.
pub all-decimal :
    (p : ℕ → Bool) (n : ℕ) → ((d : ℕ) → d < 10 → p (b'0' + d) ≡ true) → all p (decimal n) ≡ true
unfolding decimal
all-decimal p n digit = all-digits_onto p (suc n) n [] digit refl
