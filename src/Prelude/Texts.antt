-- ===== src/Prelude/Texts.antt =====
-- JavaScript strings as lists of UTF-16 code units: equality, `includes` and `trim`.
use Prim.Native.Nat.{ℕ}
use mathlib.Core.Path.{◌≡◌, refl}
use mathlib.Core.Logic.{◌↔◌}
use mathlib.Core.Bool.{Bool, true, false, ◌&&◌, ◌||◌}
use mathlib.Core.Option.{Option, none, some}
use mathlib.Core.List.{List, [], ◌∷◌, reverse}
use native.Mathlib.Omega.{arith}
use pollycasso_back.Prelude.Tests.{leb, ◌==◌, if◌then◌else◌}

abbrev pub Text : Type 0
Text = List ℕ

abbrev pub text_eq : Text → Text → Bool
text_eq [] [] = true
text_eq (a ∷ s) (b ∷ t) = a == b && text_eq s t
text_eq _ _ = false

pub text_eq_iff : (s t : Text) → (text_eq s t ≡ true) ↔ (s ≡ t)
text_eq_iff [] [] = ground arith
text_eq_iff [] (b ∷ t) = ground arith
text_eq_iff (a ∷ s) [] = ground arith
text_eq_iff (a ∷ s) (b ∷ t) = ground (arith, text_eq_iff s t)

-- `includes` on an array of strings
abbrev pub text_includes : List Text → Text → Bool
text_includes [] a = false
text_includes (x ∷ xs) a = text_eq x a || text_includes xs a

-- The truth value of a string: only "" is false.
abbrev pub truthy : Text → Bool
truthy [] = false
truthy (c ∷ s) = true

-- The truth value of a string that may be null or undefined.
abbrev pub truthy? : Option Text → Bool
truthy? none = false
truthy? (some s) = truthy s

-- The code units that `trim` removes: white space and line terminators.
pub is_space : ℕ → Bool
is_space c =
    leb 9 c && leb c 13
    || c == 32
    || c == 0xa0
    || c == 0x1680
    || leb 0x2000 c && leb c 0x200a
    || c == 0x2028
    || c == 0x2029
    || c == 0x202f
    || c == 0x205f
    || c == 0x3000
    || c == 0xfeff

unfoldable pub trim_start : Text → Text
trim_start [] = []
trim_start (c ∷ s) = let rest = trim_start s in if is_space c then rest else c ∷ s

unfoldable pub trim : Text → Text
unfolding trim_start is_space
trim s = reverse (trim_start (reverse (trim_start s)))

-- Objects with string keys, in insertion order: `m[k]`, and `m[k] = v`, which keeps the place of a
-- key that is there.
module _ {ℓ} {V : Type ℓ} where
  abbrev pub text_lookup : Text → List (Text × V) → Option V
  text_lookup k [] = none
  text_lookup k ((j, v) ∷ m) = if text_eq j k then some v else text_lookup k m

  abbrev pub text_insert : Text → V → List (Text × V) → List (Text × V)
  text_insert k v [] = (k, v) ∷ []
  text_insert k v ((j, w) ∷ m) = if text_eq j k then (j, v) ∷ m else (j, w) ∷ text_insert k v m

  pub text_lookup-text_insert :
      (k j : Text) (v : V) (m : List (Text × V))
      → text_lookup j (text_insert k v m) ≡ (if text_eq k j then some v else text_lookup j m)
  text_lookup-text_insert k j v [] = refl
  text_lookup-text_insert k j v ((i, w) ∷ m) =
      ground
        (arith, text_eq_iff k j, text_eq_iff i k, text_eq_iff i j, text_lookup-text_insert k j v m)
