-- ===== src/Prelude/Lists.antt =====
-- JavaScript arrays as lists: the methods that the program calls, with Boolean predicates, and
-- objects with number keys (whose keys JavaScript lists in ascending order) as sorted pair lists.
use Prim.Native.Nat.{ℕ, zero, suc, ◌+◌, ◌≤◌, ◌<◌}
use mathlib.Core.Path.{◌≡◌, refl, ap}
use mathlib.Core.Logic.{◌⊎◌, inl, inr}
use mathlib.Core.Bool.{Bool, true, false, not, ◌&&◌, ◌||◌}
use mathlib.Core.Option.{Option, none, some}
use mathlib.Core.List.{List, [], ◌∷◌, ◌++◌, map}
use native.Mathlib.Omega.{arith}
use pollycasso_back.Prelude.Tests.{Bool-cases, ltb, ◌==◌, if◌then◌else◌}

module _ {ℓ} {A : Type ℓ} where
  abbrev pub length : List A → ℕ
  length [] = 0
  length (x ∷ xs) = suc (length xs)

  -- `slice(0, n)`
  abbrev pub take : ℕ → List A → List A
  take zero xs = []
  take (suc n) [] = []
  take (suc n) (x ∷ xs) = x ∷ take n xs

  abbrev pub filter : (A → Bool) → List A → List A
  filter p [] = []
  filter p (x ∷ xs) = if p x then x ∷ filter p xs else filter p xs

  abbrev pub any : (A → Bool) → List A → Bool
  any p [] = false
  any p (x ∷ xs) = p x || any p xs

  abbrev pub all : (A → Bool) → List A → Bool
  all p [] = true
  all p (x ∷ xs) = p x && all p xs

  abbrev pub find : (A → Bool) → List A → Option A
  find p [] = none
  find p (x ∷ xs) = if p x then some x else find p xs

  abbrev pub get_elem? : List A → ℕ → Option A
  get_elem? [] i = none
  get_elem? (x ∷ xs) zero = some x
  get_elem? (x ∷ xs) (suc i) = get_elem? xs i

  -- The number of elements that pass: `filter(p).length`.
  abbrev pub count : (A → Bool) → List A → ℕ
  count p xs = length (filter p xs)

  pub length-take-le : (n : ℕ) (xs : List A) → length (take n xs) ≤ n
  length-take-le zero xs = omega arith
  length-take-le (suc n) [] = omega arith
  length-take-le (suc n) (x ∷ xs) = omega (arith, length-take-le n xs)

  pub length-append : (xs ys : List A) → length (xs ++ ys) ≡ length xs + length ys
  length-append [] ys = omega arith
  length-append (x ∷ xs) ys = omega (arith, length-append xs ys)

  pub length-filter-le : (p : A → Bool) (xs : List A) → length (filter p xs) ≤ length xs
  length-filter-le p [] = omega arith
  length-filter-le p (x ∷ xs) = ground (arith, length-filter-le p xs)

module _ {ℓ κ} {A : Type ℓ} (P : A → Type κ) where
  abbrev pub All : List A → Type κ
  All [] = Unit
  All (x ∷ xs) = P x × All xs

module _ {ℓ} {A : Type ℓ} (P : A → Type 0) where
  abbrev pub Any : List A → Type 0
  Any [] = ⊥
  Any (x ∷ xs) = P x ⊎ Any xs

module _ {ℓ κ} {A : Type ℓ} {B : Type κ} where
  pub length-map : (f : A → B) (xs : List A) → length (map f xs) ≡ length xs
  length-map f [] = refl
  length-map f (x ∷ xs) = ap suc (length-map f xs)

module _ {A : Type 0} where
  -- The library's membership, as a sum that tactics take apart.
  abbrev pub IsIn : A → List A → Type 0
  IsIn a = Any (λ x. x ≡ a)

  pub get_elem?-IsIn :
      (xs : List A) (i : ℕ) → i < length xs → (a : A) × (get_elem? xs i ≡ some a) × IsIn a xs
  get_elem?-IsIn [] i h = elim h [ ]
  get_elem?-IsIn (x ∷ xs) zero h = (x, refl, inl refl)
  get_elem?-IsIn (x ∷ xs) (suc i) h =
      let (a, e, m) = get_elem?-IsIn xs i (omega arith) in (a, e, inr m)

  pub IsIn-filter :
      (p : A → Bool) (a : A) (xs : List A) → IsIn a (filter p xs) → IsIn a xs × (p a ≡ true)
  IsIn-filter p a [] h = elim h [ ]
  IsIn-filter p a (x ∷ xs) h = elim (Bool-cases (p x)) [
    | inl e ↦ elim (rw e at h) [
      | inl here ↦ (inl here, rw here at e)
      | inr there ↦ let (m, q) = IsIn-filter p a xs there in (inr m, q)
    ]
    | inr e ↦ let (m, q) = IsIn-filter p a xs (rw e at h) in (inr m, q)
  ]

-- `includes` on an array of numbers
abbrev pub includes : List ℕ → ℕ → Bool
includes [] a = false
includes (x ∷ xs) a = x == a || includes xs a

-- `filter((id) => id !== a)`
abbrev pub without : ℕ → List ℕ → List ℕ
without a xs = filter (λ x. not (x == a)) xs

pub includes-without :
    (a b : ℕ) (xs : List ℕ) → includes (without a xs) b ≡ (includes xs b && not (a == b))
includes-without a b [] = refl
includes-without a b (x ∷ xs) = ground (arith, includes-without a b xs)

-- `Array.from(new Set(xs))`: each number once, in the order of its first occurrence.
abbrev pub unique_from : List ℕ → List ℕ → List ℕ
unique_from seen [] = seen
unique_from seen (x ∷ xs) = unique_from (if includes seen x then seen else seen ++ x ∷ []) xs

abbrev pub unique : List ℕ → List ℕ
unique xs = unique_from [] xs

pub includes-append :
    (xs : List ℕ) (a b : ℕ) → includes (xs ++ a ∷ []) b ≡ (includes xs b || a == b)
includes-append [] a b = ground arith
includes-append (x ∷ xs) a b = ground (arith, includes-append xs a b)

includes-cong : (xs : List ℕ) (a b : ℕ) → a ≡ b → includes xs a ≡ includes xs b
includes-cong xs a b e = ap (includes xs) e

includes-unique_from :
    (seen xs : List ℕ) (b : ℕ)
    → includes (unique_from seen xs) b ≡ (includes seen b || includes xs b)
includes-unique_from seen [] b = ground arith
includes-unique_from seen (x ∷ xs) b = ground (
  arith,
  includes-unique_from seen xs b,
  includes-unique_from (seen ++ x ∷ []) xs b,
  includes-append seen x b,
  includes-cong seen x b,
)

pub includes-unique : (xs : List ℕ) (b : ℕ) → includes (unique xs) b ≡ includes xs b
includes-unique xs b = includes-unique_from [] xs b

module _ {ℓ} {V : Type ℓ} where
  abbrev pub keys : List (ℕ × V) → List ℕ
  keys [] = []
  keys ((k, v) ∷ m) = k ∷ keys m

  -- `Object.values(m)`
  abbrev pub values : List (ℕ × V) → List V
  values [] = []
  values ((k, v) ∷ m) = v ∷ values m

  abbrev pub lookup : ℕ → List (ℕ × V) → Option V
  lookup k [] = none
  lookup k ((j, v) ∷ m) = if j == k then some v else lookup k m

  -- `m[k] = v`
  abbrev pub insert : ℕ → V → List (ℕ × V) → List (ℕ × V)
  insert k v [] = (k, v) ∷ []
  insert k v ((j, w) ∷ m) =
      if j == k then (k, v) ∷ m else if ltb k j then (k, v) ∷ (j, w) ∷ m else (j, w) ∷ insert k v m

  -- `const { [k]: _, ...rest } = m`
  abbrev pub erase : ℕ → List (ℕ × V) → List (ℕ × V)
  erase k [] = []
  erase k ((j, v) ∷ m) = if j == k then erase k m else (j, v) ∷ erase k m

  pub lookup-insert :
      (k j : ℕ) (v : V) (m : List (ℕ × V))
      → lookup j (insert k v m) ≡ (if k == j then some v else lookup j m)
  lookup-insert k j v [] = refl
  lookup-insert k j v ((i, w) ∷ m) = ground (arith, lookup-insert k j v m)

  pub lookup-erase :
      (k j : ℕ) (m : List (ℕ × V)) → lookup j (erase k m) ≡ (if k == j then none else lookup j m)
  lookup-erase k j [] = ground arith
  lookup-erase k j ((i, w) ∷ m) = ground (arith, lookup-erase k j m)

  pub keys-erase : (k : ℕ) (m : List (ℕ × V)) → keys (erase k m) ≡ without k (keys m)
  keys-erase k [] = refl
  keys-erase k ((j, w) ∷ m) = ground (arith, keys-erase k m)

-- The values that are there.
abbrev pub or_cons {ℓ} : {A : Type ℓ} → Option A → List A → List A
or_cons none xs = xs
or_cons (some a) xs = a ∷ xs
