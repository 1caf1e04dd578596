-- ===== src/Database.antt =====
-- A table of the database behind Prisma, which the repositories call (prisma/schema.prisma has the
-- columns). Prisma is a parameter: a state with queries and updates, whose documented effect on the
-- rows is named by laws. A `where` clause is a predicate on rows; two rows that clash break a
-- unique index; the id of a new row is one that no row has.
use pollycasso_back.Prelude.{
  Bool, Bool-cases, List, Option, Result, [], any, arith, err, false, filter, find, if◌then◌else◌,
  inl, inr, map, not, ok, or_throw, plain_error, record_missing, refl, unique_violation, ℕ, ◌++◌,
  ◌+◌, ◌==◌, ◌∷◌, ◌≡◌, ◌≤◌,
}

module _ {Row : Type 0} where
  -- The rows after `update` of the one with an id.
  abbrev pub updated : (Row → ℕ) → ℕ → (Row → Row) → List Row → List Row
  updated id_of id change rows = map (λ r. if id_of r == id then change r else r) rows

  abbrev pub without_id : (Row → ℕ) → ℕ → List Row → List Row
  without_id id_of id rows = filter (λ r. not (id_of r == id)) rows

pub record Table (Row : Type 0) (id_of : Row → ℕ) (clash : Row → Row → Bool) : Type 1 where
  pub State : Type 0
  pub rows : State → List Row
  pub next_id : State → ℕ
  pub find_first : (Row → Bool) → State → Option Row
  pub create : (ℕ → Row) → State → Result Row × State
  pub update : ℕ → (Row → Row) → State → Result Row × State
  pub delete : ℕ → State → Result (Unit {0}) × State
  pub delete_many : (Row → Bool) → State → State
  pub find_first_rows : (p : Row → Bool) (s : State) → find_first p s ≡ find p (rows s)
  pub next_id_fresh : (s : State) → any (λ r. id_of r == next_id s) (rows s) ≡ false
  pub create_result :
      (make : ℕ → Row) (s : State)
      → (create make s).0 ≡ (
          if any (clash (make (next_id s))) (rows s)
          then err (plain_error unique_violation)
          else ok (make (next_id s)))
  pub create_rows :
      (make : ℕ → Row) (s : State)
      → rows (create make s).1 ≡ (
          if any (clash (make (next_id s))) (rows s)
          then rows s
          else rows s ++ make (next_id s) ∷ [])
  pub update_result :
      (id : ℕ) (change : Row → Row) (s : State)
      → (update id change s).0
        ≡ or_throw
            (find (λ r. id_of r == id) (updated id_of id change (rows s)))
            (plain_error record_missing)
  pub update_rows :
      (id : ℕ) (change : Row → Row) (s : State)
      → rows (update id change s).1 ≡ updated id_of id change (rows s)
  pub delete_result :
      (id : ℕ) (s : State)
      → (delete id s).0
        ≡ (if any (λ r. id_of r == id) (rows s) then ok tt else err (plain_error record_missing))
  pub delete_rows : (id : ℕ) (s : State) → rows (delete id s).1 ≡ without_id id_of id (rows s)
  pub delete_many_rows :
      (p : Row → Bool) (s : State) → rows (delete_many p s) ≡ filter (λ r. not (p r)) (rows s)

-- A table that is the list of its rows, whose next id is above all others: the laws can hold.
module _ {Row : Type 0} where
  abbrev pub above : (Row → ℕ) → List Row → ℕ
  above id_of [] = 0
  above id_of (r ∷ rows) = id_of r + above id_of rows + 1

  pub above-fresh :
      (id_of : Row → ℕ) (n : ℕ) (rows : List Row)
      → above id_of rows ≤ n
      → any (λ r. id_of r == n) rows ≡ false
  above-fresh id_of n [] h = refl
  above-fresh id_of n (r ∷ rows) h = ground (arith, above-fresh id_of n rows)

  abbrev pub created : (Row → Row → Bool) → Row → List Row → Result Row × List Row
  created clash row rows =
      if any (clash row) rows
      then (err (plain_error unique_violation), rows)
      else (ok row, rows ++ row ∷ [])

  pub created_result :
      (clash : Row → Row → Bool) (row : Row) (rows : List Row)
      → (created clash row rows).0
        ≡ (if any (clash row) rows then err (plain_error unique_violation) else ok row)
  created_result clash row rows = elim (Bool-cases (any (clash row) rows)) [
    | inl e ↦ rw e refl
    | inr e ↦ rw e refl
  ]

  pub created_rows :
      (clash : Row → Row → Bool) (row : Row) (rows : List Row)
      → (created clash row rows).1 ≡ (if any (clash row) rows then rows else rows ++ row ∷ [])
  created_rows clash row rows = elim (Bool-cases (any (clash row) rows)) [
    | inl e ↦ rw e refl
    | inr e ↦ rw e refl
  ]

  abbrev pub list_table : (id_of : Row → ℕ) (clash : Row → Row → Bool) → Table Row id_of clash
  list_table id_of clash = record {
    State = List Row;
    rows = λ s. s;
    next_id = λ s. above id_of s;
    find_first = λ p s. find p s;
    create = λ make s. created clash (make (above id_of s)) s;
    update = λ id change s. (
      or_throw (find (λ r. id_of r == id) (updated id_of id change s)) (plain_error record_missing),
      updated id_of id change s,
    );
    delete = λ id s. (
      if any (λ r. id_of r == id) s then ok tt else err (plain_error record_missing),
      without_id id_of id s,
    );
    delete_many = λ p s. filter (λ r. not (p r)) s;
    find_first_rows = λ p s. refl;
    next_id_fresh = λ s. above-fresh id_of (above id_of s) s (omega arith);
    create_result = λ make s. created_result clash (make (above id_of s)) s;
    create_rows = λ make s. created_rows clash (make (above id_of s)) s;
    update_result = λ id change s. refl;
    update_rows = λ id change s. refl;
    delete_result = λ id s. refl;
    delete_rows = λ id s. refl;
    delete_many_rows = λ p s. refl;
  }
