-- ===== src/Social/Rows.antt =====
-- Rows with an id and two users: what queries by the two users answer after the updates by id that
-- the repositories of src/friend and src/block make. `same` says when two pairs of users name the
-- same row, in either order for friendships and in the same order for blocks.
use pollycasso_back.Database.{without_id, updated}
use mathlib.Core.Path.{subst}
use pollycasso_back.Prelude.{
  ==_flip, ==_refl, All, Bool, Bool-cases, List, [], any, ap, arith, false, filter, find, if_either,
  if_same, if◌then◌else◌, inl, inr, map, none, not, or_find, refl, some, some-injective, true, ℕ,
  ◌++◌, ◌==◌, ◌∷◌, ◌≡◌,
}

module _ {Row : Type 0} (id_of first second : Row → ℕ) (same : ℕ → ℕ → ℕ → ℕ → Bool)
    (left : (x y a b c d : ℕ) → same x y a b ≡ true → same x y c d ≡ same a b c d)
    (symm : (x y a b : ℕ) → same x y a b ≡ same a b x y) where
  abbrev at : ℕ → ℕ → Row → Bool
  at a b r = same (first r) (second r) a b

  abbrev pub Apart : Row → Row → Type 0
  Apart r x = ((id_of x == id_of r) ≡ false) × (at (first x) (second x) r ≡ false)

  -- No two rows have the same id or name the same users.
  abbrev pub Distinct : List Row → Type 0
  Distinct [] = Unit {0}
  Distinct (r ∷ rows) = All (Apart r) rows × Distinct rows

  pub find-filter :
      (a b c d : ℕ) (rows : List Row)
      → find (at c d) (filter (λ r. not (at a b r)) rows)
        ≡ (if same a b c d then none else find (at c d) rows)
  find-filter a b c d [] = ground arith
  find-filter a b c d (r ∷ rows) = ground (
    arith,
    find-filter a b c d rows,
    left (first r) (second r) a b c d,
    left (first r) (second r) c d a b,
    symm a b c d,
  )

  -- The row that is found is one of the rows, and passes.
  found-at : (p : Row → Bool) (rows : List Row) (f : Row) → find p rows ≡ some f → p f ≡ true
  found-at p [] f h = cc
  found-at p (r ∷ rows) f h = elim (Bool-cases (p r)) [
    | inl e ↦ subst (λ x. p x ≡ true) (some-injective (rw e at h)) e
    | inr e ↦ found-at p rows f (rw e at h)
  ]

  found-All :
      (P : Row → Type 0) (p : Row → Bool) (rows : List Row) (f : Row)
      → All P rows
      → find p rows ≡ some f
      → P f
  found-All P p [] f a h = cc
  found-All P p (r ∷ rows) f a h = elim (Bool-cases (p r)) [
    | inl e ↦ subst P (some-injective (rw e at h)) a.0
    | inr e ↦ found-All P p rows f a.1 (rw e at h)
  ]

  -- Among rows that are apart from one that passes, the id and the users name the same rows.
  same_rows :
      (a b : ℕ) (f : Row) (rows : List Row)
      → at a b f ≡ true
      → All (Apart f) rows
      → filter (λ r. not (id_of r == id_of f)) rows ≡ filter (λ r. not (at a b r)) rows
  same_rows a b f [] h d = refl
  same_rows a b f (r ∷ rows) h d = ground (
    arith,
    same_rows a b f rows h d.1,
    d.0,
    left (first f) (second f) a b (first r) (second r),
    symm (first r) (second r) a b,
    symm (first r) (second r) (first f) (second f),
  )

  -- Deleting the found row by its id deletes what its users name.
  pub delete_found :
      (a b : ℕ) (f : Row) (rows : List Row)
      → Distinct rows
      → find (at a b) rows ≡ some f
      → filter (λ r. not (id_of r == id_of f)) rows ≡ filter (λ r. not (at a b r)) rows
  delete_found a b f [] d h = refl
  delete_found a b f (r ∷ rows) d h = elim (Bool-cases (at a b r)) [
    | inl e ↦
        subst (λ g. without_id id_of (id_of g) (r ∷ rows) ≡ filter (λ x. not (at a b x)) (r ∷ rows))
          (some-injective (rw e at h)) (ground (arith, same_rows a b r rows e d.0, e))
    | inr e ↦
        let ne = (found-All (Apart r) (at a b) rows f d.0 (rw e at h)).0 in
        ground (arith, delete_found a b f rows d.1 (rw e at h), ne, e)
  ]

  -- There is a row with the id of a found row.
  pub found_id :
      (p : Row → Bool) (f : Row) (rows : List Row)
      → find p rows ≡ some f
      → any (λ r. id_of r == id_of f) rows ≡ true
  found_id p f [] h = cc
  found_id p f (r ∷ rows) h = elim (Bool-cases (p r)) [
    | inl e ↦
        subst (λ g. any (λ x. id_of x == id_of g) (r ∷ rows) ≡ true) (some-injective (rw e at h))
          (ground arith)
    | inr e ↦ ground (arith, found_id p f rows (rw e at h))
  ]

  -- The rows with one column changed: the id and the users stay.
  module _ (change : Row → Row) (keeps_id : (r : Row) → id_of (change r) ≡ id_of r)
      (keeps_first : (r : Row) → first (change r) ≡ first r)
      (keeps_second : (r : Row) → second (change r) ≡ second r) where
    at-change : (a b : ℕ) (r : Row) → at a b (change r) ≡ at a b r
    at-change a b r = rw (keeps_first r, keeps_second r) refl

    updated-Apart :
        (f : Row) (rows : List Row)
        → All (Apart f) rows
        → updated id_of (id_of f) change rows ≡ rows
    updated-Apart f [] d = refl
    updated-Apart f (r ∷ rows) d = rw (d.0.0) (ap (◌∷◌ r) (updated-Apart f rows d.1))

    update_head :
        (a b c d : ℕ) (r : Row) (rows : List Row)
        → Distinct (r ∷ rows)
        → at a b r ≡ true
        → find (at c d) (updated id_of (id_of r) change (r ∷ rows))
          ≡ (if same a b c d then some (change r) else find (at c d) (r ∷ rows))
    update_head a b c d r rows ds e =
        rw
          (
            ==_refl (id_of r),
            at-change c d r,
            left (first r) (second r) a b c d e,
            updated-Apart r rows ds.0,
          )
          (if_same _ _ _ (same a b c d))

    pub update_found :
        (a b c d : ℕ) (f : Row) (rows : List Row)
        → Distinct rows
        → find (at a b) rows ≡ some f
        → find (at c d) (updated id_of (id_of f) change rows)
          ≡ (if same a b c d then some (change f) else find (at c d) rows)
    update_found a b c d f [] ds h = cc
    update_found a b c d f (r ∷ rows) ds h = elim (Bool-cases (at a b r)) [
      | inl e ↦
          subst
            (λ g.
              find (at c d) (updated id_of (id_of g) change (r ∷ rows))
              ≡ (if same a b c d then some (change g) else find (at c d) (r ∷ rows)))
            (some-injective (rw e at h)) (update_head a b c d r rows ds e)
      | inr e ↦
          let ne = (found-All (Apart r) (at a b) rows f ds.0 (rw e at h)).0 in
          rw (==_flip (id_of f) (id_of r) ne) (
            ground (
              arith,
              update_found a b c d f rows ds.1 (rw e at h),
              left (first r) (second r) c d a b,
              symm a b c d,
              e,
            ))
    ]

    -- What `update` answers: the changed row.
    pub updated_row :
        (p : Row → Bool) (f : Row) (rows : List Row)
        → Distinct rows
        → find p rows ≡ some f
        → find (λ r. id_of r == id_of f) (updated id_of (id_of f) change rows) ≡ some (change f)
    updated_row p f [] ds h = cc
    updated_row p f (r ∷ rows) ds h = elim (Bool-cases (p r)) [
      | inl e ↦
          subst
            (λ g.
              find (λ x. id_of x == id_of g) (updated id_of (id_of g) change (r ∷ rows))
              ≡ some (change g))
            (some-injective (rw e at h))
            (rw (==_refl (id_of r), keeps_id r, ==_refl (id_of r)) refl)
      | inr e ↦
          let ne = (found-All (Apart r) p rows f ds.0 (rw e at h)).0 in
          rw (==_flip (id_of f) (id_of r) ne)
            (rw (==_flip (id_of f) (id_of r) ne) (updated_row p f rows ds.1 (rw e at h)))
    ]

    map-Apart :
        (r : Row) (rows : List Row) → All (Apart r) rows → All (Apart (change r)) (map change rows)
    map-Apart r [] d = tt
    map-Apart r (x ∷ rows) d = (
      (
        rw (keeps_id r, keeps_id x) d.0.0,
        rw (keeps_first r, keeps_second r, keeps_first x, keeps_second x) d.0.1,
      ),
      map-Apart r rows d.1,
    )

    pub map-Distinct : (rows : List Row) → Distinct rows → Distinct (map change rows)
    map-Distinct [] d = tt
    map-Distinct (r ∷ rows) d = (map-Apart r rows d.0, map-Distinct rows d.1)

  pub updated-Distinct :
      (change : Row → Row)
      → ((r : Row) → id_of (change r) ≡ id_of r)
      → ((r : Row) → first (change r) ≡ first r)
      → ((r : Row) → second (change r) ≡ second r)
      → (id : ℕ) (rows : List Row) → Distinct rows
      → Distinct (updated id_of id change rows)
  updated-Distinct change ki kf ks id rows d =
      map-Distinct (λ r. if id_of r == id then change r else r)
        (λ r. if_either id_of (id_of r == id) (ki r)) (λ r. if_either first (id_of r == id) (kf r))
        (λ r. if_either second (id_of r == id) (ks r)) rows d

  filter-Apart :
      (p : Row → Bool) (r : Row) (rows : List Row)
      → All (Apart r) rows
      → All (Apart r) (filter p rows)
  filter-Apart p r [] d = tt
  filter-Apart p r (x ∷ rows) d = elim (Bool-cases (p x)) [
    | inl e ↦ rw e (d.0, filter-Apart p r rows d.1)
    | inr e ↦ rw e (filter-Apart p r rows d.1)
  ]

  pub filter-Distinct :
      (p : Row → Bool) (rows : List Row) → Distinct rows → Distinct (filter p rows)
  filter-Distinct p [] d = tt
  filter-Distinct p (r ∷ rows) d = elim (Bool-cases (p r)) [
    | inl e ↦ rw e (filter-Apart p r rows d.0, filter-Distinct p rows d.1)
    | inr e ↦ rw e (filter-Distinct p rows d.1)
  ]

  append-Apart :
      (r new : Row) (rows : List Row)
      → All (Apart r) rows
      → Apart r new
      → All (Apart r) (rows ++ new ∷ [])
  append-Apart r new [] d e = (e, tt)
  append-Apart r new (x ∷ rows) d e = (d.0, append-Apart r new rows d.1 e)

  -- A new row with a fresh id, of users that no row names.
  pub append-Distinct :
      (new : Row) (rows : List Row)
      → Distinct rows
      → any (λ r. id_of r == id_of new) rows ≡ false
      → find (at (first new) (second new)) rows ≡ none
      → Distinct (rows ++ new ∷ [])
  append-Distinct new [] d i h = (tt, tt)
  append-Distinct new (r ∷ rows) d i h = (
    append-Apart r new rows d.0 (ground (arith, i), ground (arith, h)),
    append-Distinct new rows d.1 (ground (arith, i)) (ground (arith, h)),
  )

  pub find-append :
      (p : Row → Bool) (rows : List Row) (r : Row)
      → find p (rows ++ r ∷ []) ≡ or_find (find p rows) (if p r then some r else none)
  find-append p [] r = refl
  find-append p (x ∷ rows) r = ground (arith, find-append p rows r)
