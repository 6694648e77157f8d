-- ===== src/Base/Text/Order.antt =====
-- The order of texts by code points is strict and total.
use mathlib.Core.Path.{◌≡◌, refl}
use mathlib.Core.Bool.{true, false}
use mathlib.Core.List.{[], ◌∷◌}
use native.Mathlib.Omega.{arith}
use test_orch.Base.Text.{Text, ltb_text}

pub ltb_text_irrefl : (s : Text) → ltb_text s s ≡ false
ltb_text_irrefl [] = refl
ltb_text_irrefl (a ∷ s) = ground (arith, ltb_text_irrefl s)

pub ltb_text_trans :
    (s t u : Text) → ltb_text s t ≡ true → ltb_text t u ≡ true → ltb_text s u ≡ true
ltb_text_trans [] [] u h k = ground arith
ltb_text_trans [] (b ∷ t) [] h k = ground arith
ltb_text_trans [] (b ∷ t) (c ∷ u) h k = refl
ltb_text_trans (a ∷ s) [] u h k = ground arith
ltb_text_trans (a ∷ s) (b ∷ t) [] h k = ground arith
ltb_text_trans (a ∷ s) (b ∷ t) (c ∷ u) h k = ground (arith, ltb_text_trans s t u)

pub ltb_text_total : (s t : Text) → ltb_text s t ≡ false → ltb_text t s ≡ false → s ≡ t
ltb_text_total [] [] h k = refl
ltb_text_total [] (b ∷ t) h k = ground arith
ltb_text_total (a ∷ s) [] h k = ground arith
ltb_text_total (a ∷ s) (b ∷ t) h k = ground (arith, ltb_text_total s t)
