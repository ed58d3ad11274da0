-- ===== src/Prelude/Order.antt =====
-- The order of texts by their code units.
use mathlib.Core.Path.{◌≡◌, refl, ap₂}
use mathlib.Core.Logic.{inl, inr}
use mathlib.Core.Bool.{true, false}
use mathlib.Core.List.{[], ◌∷◌}
use native.Mathlib.Omega.{arith}
use web_comunidad_solar.Prelude.Tests.{Bool-cases}
use web_comunidad_solar.Prelude.Strings.{Text, text_lt}

pub text_lt_irrefl : (s : Text) → text_lt s s ≡ false
text_lt_irrefl [] = refl
text_lt_irrefl (a ∷ s) = ground (arith, text_lt_irrefl s)

pub text_lt_asymm : (s t : Text) → text_lt s t ≡ true → text_lt t s ≡ false
text_lt_asymm [] (b ∷ t) h = refl
text_lt_asymm (a ∷ s) [] h = ground (arith, h)
text_lt_asymm [] [] h = refl
text_lt_asymm (a ∷ s) (b ∷ t) h = elim (Bool-cases (text_lt s t)) [
  | inl lt ↦ ground (arith, h, text_lt_asymm s t lt)
  | inr ge ↦ ground (arith, h, ge)
]

pub text_lt_connex : (s t : Text) → text_lt s t ≡ false → text_lt t s ≡ false → s ≡ t
text_lt_connex [] [] h k = refl
text_lt_connex [] (b ∷ t) h k = absurd (ground (arith, h))
text_lt_connex (a ∷ s) [] h k = absurd (ground (arith, k))
text_lt_connex (a ∷ s) (b ∷ t) h k =
    ap₂ ◌∷◌ (ground (arith, h, k))
      (text_lt_connex s t (ground (arith, h, k)) (ground (arith, h, k)))

-- A text below `t` and not below `s` puts `s` below `t`.
pub text_lt_trans : (z s t : Text) → text_lt z s ≡ false → text_lt z t ≡ true → text_lt s t ≡ true
text_lt_trans [] [] t h k = k
text_lt_trans [] (a ∷ s) t h k = absurd (ground (arith, h))
text_lt_trans (c ∷ z) s [] h k = absurd (ground (arith, k))
text_lt_trans (c ∷ z) [] (b ∷ t) h k = refl
text_lt_trans (c ∷ z) (a ∷ s) (b ∷ t) h k = elim (Bool-cases (text_lt z s)) [
  | inl lt ↦ ground (arith, h, k, lt)
  | inr ge ↦ elim (Bool-cases (text_lt z t)) [
    | inl lt ↦ ground (arith, h, k, text_lt_trans z s t ge lt)
    | inr no_lt ↦ ground (arith, h, k, no_lt)
  ]
]
