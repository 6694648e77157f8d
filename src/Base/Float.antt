-- ===== src/Base/Float.antt =====
-- Python's `float`. Every finite double is a whole multiple of 2^-1074, so `fin k` stands for
-- k * 2^-1074 and comparisons are exact. Arithmetic, which rounds, is a parameter where it is used.
use mathlib.Core.Bool.{Bool, true, false}
use mathlib.Core.Path.{◌≡◌, refl, ap}
use native.Mathlib.Omega.{arith}
use test_orch.Base.Int.{ℤ, pos, ltb_ℤ, leb_ℤ, eqb_ℤ, eqb_ℤ_iff}

pub data Float : Type 0 where
  nan : Float
  ninf : Float
  fin : ℤ → Float
  pinf : Float

-- `a < b`; false whenever one side is not a number.
unfoldable pub ltb_float : Float → Float → Bool
ltb_float nan b = false
ltb_float ninf ninf = false
ltb_float ninf nan = false
ltb_float ninf b = true
ltb_float (fin a) pinf = true
ltb_float (fin a) (fin b) = ltb_ℤ a b
ltb_float (fin a) _ = false
ltb_float pinf b = false

-- `a <= b`
unfoldable pub leb_float : Float → Float → Bool
leb_float nan b = false
leb_float ninf nan = false
leb_float ninf b = true
leb_float (fin a) pinf = true
leb_float (fin a) (fin b) = leb_ℤ a b
leb_float (fin a) _ = false
leb_float pinf pinf = true
leb_float pinf _ = false

abbrev pub zero_float : Float
zero_float = fin (pos 0)

-- `a == b`
unfoldable pub eqb_float : Float → Float → Bool
eqb_float ninf ninf = true
eqb_float (fin a) (fin b) = eqb_ℤ a b
eqb_float pinf pinf = true
eqb_float _ _ = false

pub eqb_float-eq : (a b : Float) → eqb_float a b ≡ true → a ≡ b
unfolding eqb_float
eqb_float-eq ninf ninf h = refl
eqb_float-eq (fin a) (fin b) h = ap fin ((eqb_ℤ_iff a b).0 h)
eqb_float-eq pinf pinf h = refl
eqb_float-eq a b h = ground arith

pub ltb_float_trans :
    (a b c : Float) → ltb_float a b ≡ true → ltb_float b c ≡ true → ltb_float a c ≡ true
unfolding ltb_float
ltb_float_trans (fin a) (fin b) (fin c) h k = ground arith
ltb_float_trans a b c h k = ground arith

pub ltb_float_irrefl : (a : Float) → ltb_float a a ≡ false
unfolding ltb_float
ltb_float_irrefl (fin a) = ground arith
ltb_float_irrefl a = ground arith

-- Floats that are at least zero are numbers, so two of them are ordered.
pub ltb_float_total :
    (a b : Float)
    → leb_float zero_float a ≡ true
    → leb_float zero_float b ≡ true
    → ltb_float a b ≡ false
    → ltb_float b a ≡ false
    → a ≡ b
unfolding ltb_float leb_float
ltb_float_total (fin (pos a)) (fin (pos b)) h k p q = ground arith
ltb_float_total a b h k p q = ground arith
