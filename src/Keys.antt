-- ===== src/Keys.antt =====
-- The kinds of keys that the stores keep in Redis (src/redis): values and sets of numbers under keys.
-- Redis is a parameter: the documented effects of its commands are named by laws. Keys of different
-- patterns never name the same entry, so that each pattern is a space of its own. Expiry is not
-- modelled.
use pollycasso_back.Prelude.{
  Bool, Bool-cases, List, Option, [], arith, if◌then◌else◌, includes, includes-append,
  includes-without, inl, inr, none, not, refl, some, sym, without, ℕ, ◌&&◌, ◌++◌, ◌==◌, ◌||◌, ◌∷◌,
  ◌≡◌,
}
use native.Mathlib.Decide.{ℕ_discrete}

pub record KeySpace (K V : Type 0) (same : K → K → Bool) : Type 1 where
  pub State : Type 0
  pub get : K → State → Option V
  pub set : K → V → State → State
  pub del : K → State → State
  pub get_set :
      (k j : K) (v : V) (s : State) → get j (set k v s) ≡ (if same k j then some v else get j s)
  pub get_del : (k j : K) (s : State) → get j (del k s) ≡ (if same k j then none else get j s)

-- `SADD`, `SREM`, `DEL` and `SMEMBERS`, which lists the numbers of a set in some order.
pub record SetSpace : Type 1 where
  pub State : Type 0
  pub smembers : ℕ → State → List ℕ
  pub sadd : ℕ → ℕ → State → State
  pub srem : ℕ → ℕ → State → State
  pub del_set : ℕ → State → State
  pub smembers_sadd :
      (k u j v : ℕ) (s : State)
      → includes (smembers j (sadd k u s)) v ≡ (includes (smembers j s) v || (k == j && u == v))
  pub smembers_srem :
      (k u j v : ℕ) (s : State)
      → includes (smembers j (srem k u s)) v ≡ (includes (smembers j s) v && not (k == j && u == v))
  pub smembers_del :
      (k j v : ℕ) (s : State)
      → includes (smembers j (del_set k s)) v ≡ (includes (smembers j s) v && not (k == j))

-- Functions from keys: the laws can hold.
abbrev pub map_keys : (K V : Type 0) (same : K → K → Bool) → KeySpace K V same
map_keys K V same = record {
  State = K → Option V;
  get = λ k s. s k;
  set = λ k v s j. if same k j then some v else s j;
  del = λ k s j. if same k j then none else s j;
  get_set = λ k j v s. refl;
  get_del = λ k j s. refl;
}

-- Functions to lists without repetition.
abbrev with_member : ℕ → List ℕ → List ℕ
with_member u xs = if includes xs u then xs else xs ++ u ∷ []

includes-with_member :
    (u v : ℕ) (xs : List ℕ) → includes (with_member u xs) v ≡ (includes xs v || u == v)
includes-with_member u v xs = elim (Bool-cases (includes xs u)) [
  | inl e ↦ elim (ℕ_discrete u v) [
    | yes p ↦ rw (sym p, e) (ground (arith, e))
    | no n ↦ rw e (ground (arith, n))
  ]
  | inr e ↦ rw e (includes-append xs u v)
]

abbrev pub add_at : ℕ → ℕ → (ℕ → List ℕ) → ℕ → List ℕ
add_at k u s j = if k == j then with_member u (s j) else s j

abbrev pub remove_at : ℕ → ℕ → (ℕ → List ℕ) → ℕ → List ℕ
remove_at k u s j = if k == j then without u (s j) else s j

abbrev pub clear_at : ℕ → (ℕ → List ℕ) → ℕ → List ℕ
clear_at k s j = if k == j then [] else s j

pub add_at_lem :
    (k u j v : ℕ) (s : ℕ → List ℕ)
    → includes (add_at k u s j) v ≡ (includes (s j) v || (k == j && u == v))
add_at_lem k u j v s = elim (Bool-cases (k == j)) [
  | inl e ↦ rw e (includes-with_member u v (s j))
  | inr e ↦ rw e (ground arith)
]

pub remove_at_lem :
    (k u j v : ℕ) (s : ℕ → List ℕ)
    → includes (remove_at k u s j) v ≡ (includes (s j) v && not (k == j && u == v))
remove_at_lem k u j v s = elim (Bool-cases (k == j)) [
  | inl e ↦ rw e (includes-without u v (s j))
  | inr e ↦ rw e (ground arith)
]

pub clear_at_lem :
    (k j v : ℕ) (s : ℕ → List ℕ) → includes (clear_at k s j) v ≡ (includes (s j) v && not (k == j))
clear_at_lem k j v s = elim (Bool-cases (k == j)) [
  | inl e ↦ rw e (ground arith)
  | inr e ↦ rw e (ground arith)
]

abbrev pub map_sets : SetSpace
map_sets = record {
  State = ℕ → List ℕ;
  smembers = λ k s. s k;
  sadd = add_at;
  srem = remove_at;
  del_set = clear_at;
  smembers_sadd = add_at_lem;
  smembers_srem = remove_at_lem;
  smembers_del = clear_at_lem;
}
