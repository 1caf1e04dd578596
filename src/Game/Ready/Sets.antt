-- ===== src/Game/Ready/Sets.antt =====
-- Duplicate-free id lists, one within the other, and their lengths: for the counts of ready users.
use mathlib.Core.Path.{subst}
use native.Mathlib.Decide.{ℕ_discrete}
use pollycasso_back.Prelude.{
  Bool-cases, List, [], all, arith, false, includes, includes-without, inl, inr, length, refl, true,
  without, ℕ, ◌+◌, ◌∷◌, ◌≡◌, ◌≤◌,
}

-- No number stands twice.
abbrev pub IsDistinct : List ℕ → Type 0
IsDistinct [] = Unit {0}
IsDistinct (x ∷ xs) = (includes xs x ≡ false) × IsDistinct xs

-- Every number of the first list stands in the second.
abbrev pub IsWithin : List ℕ → List ℕ → Type 0
IsWithin xs ys = all (includes ys) xs ≡ true

-- The ready users of a phase: each once, and among the active ones, each of whom is listed once.
pub record IsReadySet (ready active : List ℕ) : Type 0 where
  pub ready_once : IsDistinct ready
  pub active_once : IsDistinct active
  pub within : IsWithin ready active

pub without-IsDistinct : (a : ℕ) (xs : List ℕ) → IsDistinct xs → IsDistinct (without a xs)
without-IsDistinct a [] h = tt
without-IsDistinct a (x ∷ xs) h =
    ground (arith, without-IsDistinct a xs h.1, includes-without a x xs)

length-without-le : (a : ℕ) (xs : List ℕ) → length (without a xs) ≤ length xs
length-without-le a [] = omega arith
length-without-le a (x ∷ xs) = ground (arith, length-without-le a xs)

length-without-lt :
    (a : ℕ) (xs : List ℕ) → includes xs a ≡ true → length (without a xs) + 1 ≤ length xs
length-without-lt a [] h = ground arith
length-without-lt a (x ∷ xs) h = ground (arith, length-without-lt a xs, length-without-le a xs)

pub IsWithin-includes :
    (xs ys : List ℕ) (a : ℕ) → IsWithin xs ys → includes xs a ≡ true → includes ys a ≡ true
IsWithin-includes [] ys a h m = ground arith
IsWithin-includes (x ∷ xs) ys a h m = elim (ℕ_discrete x a) [
  | yes e ↦ subst (λ k. includes ys k ≡ true) e (ground arith)
  | no n ↦ IsWithin-includes xs ys a (ground arith) (ground arith)
]

pub includes-IsWithin :
    (xs ys : List ℕ) → ((a : ℕ) → includes xs a ≡ true → includes ys a ≡ true) → IsWithin xs ys
includes-IsWithin [] ys f = refl
includes-IsWithin (x ∷ xs) ys f =
    let here = f x (ground arith) in
    let rest = includes-IsWithin xs ys (λ a m. f a (ground arith)) in ground arith

-- A duplicate-free list within another is not longer.
pub IsWithin-length : (xs ys : List ℕ) → IsDistinct xs → IsWithin xs ys → length xs ≤ length ys
IsWithin-length [] ys d h = omega arith
IsWithin-length (x ∷ xs) ys d h =
    let fewer = length-without-lt x ys (ground arith) in
    let rest = IsWithin-length xs (without x ys) d.1 (
      includes-IsWithin xs (without x ys)
        λ a m. kept a m (IsWithin-includes xs ys a (ground arith) m)) in
    omega arith
  where
    kept : (a : ℕ) → includes xs a ≡ true → includes ys a ≡ true → includes (without x ys) a ≡ true
    kept a m k = elim (ℕ_discrete x a) [
      | yes e ↦ absurd (clash (subst (λ b. includes xs b ≡ false) e d.0) m)
      | no n ↦ ground (arith, includes-without x a ys)
    ]
      where
        clash : includes xs a ≡ false → includes xs a ≡ true → ⊥
        clash p q = cc

-- A duplicate-free list within another that is not longer holds all of it.
pub length-IsWithin :
    (xs ys : List ℕ) → IsDistinct xs → IsWithin xs ys → length ys ≤ length xs → IsWithin ys xs
length-IsWithin xs ys d h le = includes-IsWithin ys xs λ a m. elim (Bool-cases (includes xs a)) [
  | inl e ↦ e
  | inr e ↦ absurd (
      let fewer = length-without-lt a ys m in
      let bound =
        IsWithin-length xs (without a ys) d (
          includes-IsWithin xs (without a ys)
            λ b k. kept a e b k (IsWithin-includes xs ys b h k)) in
      omega arith)
]
  where
    kept :
        (a : ℕ)
        → includes xs a ≡ false
        → (b : ℕ) → includes xs b ≡ true
        → includes ys b ≡ true
        → includes (without a ys) b ≡ true
    kept a e b k m = elim (ℕ_discrete a b) [
      | yes p ↦ absurd (clash (subst (λ c. includes xs c ≡ false) p e) k)
      | no n ↦ ground (arith, includes-without a b ys)
    ]
      where
        clash : includes xs b ≡ false → includes xs b ≡ true → ⊥
        clash p q = cc
