-- ===== src/Prelude/Numbers.antt =====
-- JavaScript numbers as far as the program tells them apart, the decimal digits of a natural number
-- (`${n}`), and `split` at a separator. `Number(text)` is an argument where the program calls it.
use Prim.Native.Nat.{ℕ, zero, suc, ◌+◌, ◌-◌, ◌*◌, ◌/◌, ◌%◌, ◌≤◌, ◌<◌}
use mathlib.Core.Path.{◌≡◌, refl, ap, ◌∙◌}
use mathlib.Core.Logic.{◌≢◌, inl, inr}
use mathlib.Core.List.{List, [], ◌∷◌, ◌++◌}
use native.Mathlib.Omega.{arith}
use pollycasso_back.Prelude.Tests.{◌==◌, if◌then◌else◌, Bool-cases}
use pollycasso_back.Prelude.Lists.{All}
use pollycasso_back.Prelude.Texts.{Text}

-- A natural number, another finite number, or NaN and the infinities.
pub data JsNumber : Type 0 where
  whole : ℕ → JsNumber
  other_finite : JsNumber
  not_finite : JsNumber

-- One digit a round, the last one first: n + 1 rounds are enough.
show_from : ℕ → ℕ → Text → Text
show_from zero n s = s
show_from (suc f) n s =
    let digit = 48 + n % 10 in
    let rest = show_from f (n / 10) (digit ∷ s) in if n / 10 == 0 then digit ∷ s else rest

-- The decimal digits.
unfoldable pub show : ℕ → Text
unfolding show_from
show n = show_from (suc n) n []

value_from : ℕ → Text → ℕ
value_from acc [] = acc
value_from acc (c ∷ s) = value_from (acc * 10 + (c - 48)) s

-- The number that digits stand for.
unfoldable pub value : Text → ℕ
unfolding value_from
value s = value_from 0 s

value_from-show_from :
    (f n : ℕ) (s : Text) → n < f → value_from 0 (show_from f n s) ≡ value_from n s
unfolding show_from value_from
value_from-show_from zero n s h = absurd (omega arith)
value_from-show_from (suc f) n s h = elim (Bool-cases (n / 10 == 0)) [
  | inl e ↦ rw e (ap (λ k. value_from k s) (ground arith))
  | inr e ↦ rw e (
      value_from-show_from f (n / 10) ((48 + n % 10) ∷ s) (ground arith)
      ∙ ap (λ k. value_from k s) (omega arith))
]

-- Different numbers have different digits.
pub value-show : (n : ℕ) → value (show n) ≡ n
unfolding value show
value-show n = value_from-show_from (suc n) n [] (omega arith)

abbrev pub IsDigit : ℕ → Type 0
IsDigit c = (48 ≤ c) × (c ≤ 57)

show_from-digits : (f n : ℕ) (s : Text) → All IsDigit s → All IsDigit (show_from f n s)
unfolding show_from
show_from-digits zero n s h = h
show_from-digits (suc f) n s h = elim (Bool-cases (n / 10 == 0)) [
  | inl e ↦ rw e ((omega arith, omega arith), h)
  | inr e ↦ rw e (show_from-digits f (n / 10) ((48 + n % 10) ∷ s) ((omega arith, omega arith), h))
]

pub show-digits : (n : ℕ) → All IsDigit (show n)
unfolding show
show-digits n = show_from-digits (suc n) n [] tt

abbrev prepend : ℕ → List Text → List Text
prepend c [] = (c ∷ []) ∷ []
prepend c (s ∷ ss) = (c ∷ s) ∷ ss

-- `text.split(separator)`
pub split : ℕ → Text → List Text
split sep [] = [] ∷ []
split sep (c ∷ s) = let rest = split sep s in if c == sep then [] ∷ rest else prepend c rest

pub split_last : (sep : ℕ) (s : Text) → All (λ c. c ≢ sep) s → split sep s ≡ s ∷ []
unfolding split
split_last sep [] h = refl
split_last sep (c ∷ s) h = ground (arith, split_last sep s h.1)

pub split-append :
    (sep : ℕ) (s t : Text) → All (λ c. c ≢ sep) s → split sep (s ++ sep ∷ t) ≡ s ∷ split sep t
unfolding split
split-append sep [] t h = ground arith
split-append sep (c ∷ s) t h = ground (arith, split-append sep s t h.1)

IsDigit-ne : (s : Text) → All IsDigit s → All (λ c. c ≢ 58) s
IsDigit-ne [] h = tt
IsDigit-ne (c ∷ s) h = (omega arith, IsDigit-ne s h.1)

pub show-ne_colon : (n : ℕ) → All (λ c. c ≢ 58) (show n)
show-ne_colon n = IsDigit-ne (show n) (show-digits n)
