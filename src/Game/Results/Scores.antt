-- ===== src/Game/Results/Scores.antt =====
-- The final scores: `computeFinalScoresByUserId` of src/game/session/game-session.service.ts.
use mathlib.Core.Path.{subst}
use native.Mathlib.Decide.{ℕ_discrete}
use pollycasso_back.Prelude.{
  ==_ne, JsNumber, List, Option, Text, [], ap, arith, false, if◌then◌else◌, includes, inl, inr,
  insert, is_some_eq, keys, lookup, lookup-insert, map, none, or_else, refl, show, some, split, sym,
  true, values, whole, ℕ, ◌+◌, ◌==◌, ◌∙◌, ◌∷◌, ◌≡◌, ◌≢◌, ◌⊎◌,
}
use pollycasso_back.Game.Ready.Sets.{IsDistinct}
use pollycasso_back.Game.Evaluation.{make_drawing_id, colon}
use pollycasso_back.Game.Evaluation.Votes.{three_parts, three_parts-make_drawing_id}
use pollycasso_back.Game.Results.{
  member_users, user_of_key, credit, add_scores, compute_final_scores_by_user_id,
}

-- The score of one drawing.
pub record RoundScore : Type 0 where
  pub room_member_id : ℕ
  pub round : ℕ
  pub score : ℕ

-- The totals as `mergeTotals` keeps them: by the id of the drawing.
abbrev pub totals_of : ℕ → List RoundScore → List (Text × ℕ)
totals_of match_id = map (λ r. (make_drawing_id match_id r.room_member_id r.round, r.score))

-- The sum of a member's scores.
abbrev pub earned : ℕ → List RoundScore → ℕ
earned m [] = 0
earned m (r ∷ rs) = (if r.room_member_id == m then r.score else 0) + earned m rs

member_users-absent :
    (users es : List (ℕ × ℕ)) (m : ℕ)
    → includes (values es) m ≡ false
    → lookup m (member_users users es) ≡ lookup m users
unfolding member_users
member_users-absent users [] m h = refl
member_users-absent users ((j, k) ∷ es) m h =
    ground (arith, member_users-absent (insert k j users) es m, lookup-insert k m j users)

member_users-found :
    (users es : List (ℕ × ℕ)) (u m : ℕ)
    → IsDistinct (values es)
    → lookup u es ≡ some m
    → lookup m (member_users users es) ≡ some u
unfolding member_users
member_users-found users [] u m d h = cc
member_users-found users ((j, k) ∷ es) u m d h = elim (ℕ_discrete j u) [
  | yes e ↦
      let same : k ≡ m = ground arith in
      let absent : includes (values es) m ≡ false =
        subst (λ n. includes (values es) n ≡ false) same d.0 in
      ground (arith, member_users-absent (insert k j users) es m, lookup-insert k m j users)
  | no ne ↦ member_users-found (insert k j users) es u m d.1 (ground arith)
]

lookup-includes : (u n : ℕ) (es : List (ℕ × ℕ)) → lookup u es ≡ some n → includes (keys es) u ≡ true
lookup-includes u n [] h = cc
lookup-includes u n ((j, k) ∷ es) h = ground (arith, lookup-includes u n es)

member_users-only :
    (users es : List (ℕ × ℕ)) (u n : ℕ)
    → IsDistinct (keys es)
    → lookup n (member_users users es) ≡ some u
    → (lookup n users ≡ some u) ⊎ (lookup u es ≡ some n)
unfolding member_users
member_users-only users [] u n d h = inl h
member_users-only users ((j, k) ∷ es) u n d h =
    elim (member_users-only (insert k j users) es u n d.1 h) [
      | inl e ↦ first k n j users e
      | inr e ↦ inr (rw (==_ne j u (other e)) e)
    ]
  where
    first :
        (k n j : ℕ) (users : List (ℕ × ℕ))
        → lookup n (insert k j users) ≡ some u
        → (lookup n users ≡ some u) ⊎ ((if j == u then some k else lookup u es) ≡ some n)
    first k n j users e = ground (arith, lookup-insert k n j users)

    other : lookup u es ≡ some n → j ≢ u
    other e same =
        clash (lookup-includes u n es e) (subst (λ v. includes (keys es) v ≡ false) same d.0)
      where
        clash : includes (keys es) u ≡ true → includes (keys es) u ≡ false → ⊥
        clash p q = cc

module _ (to_number : Text → JsNumber) (reads : (n : ℕ) → to_number (show n) ≡ whole n) where
  user_of_key-make_drawing_id :
      (users : List (ℕ × ℕ)) (a b c : ℕ)
      → user_of_key to_number users (three_parts (split colon (make_drawing_id a b c)))
        ≡ lookup b users
  user_of_key-make_drawing_id users a b c =
      rw (three_parts-make_drawing_id a b c) (rw (reads b) refl)

  credit-lookup :
      (o : Option ℕ) (n u : ℕ) (out : List (ℕ × ℕ))
      → or_else (lookup u (credit o n out)) 0
        ≡ or_else (lookup u out) 0 + (if is_some_eq o u then n else 0)
  credit-lookup none n u out = omega arith
  credit-lookup (some v) n u out = ground (
    arith,
    lookup-insert v u (or_else (lookup v out) 0 + n) out,
    λ (e : v ≡ u). ap (λ k. or_else (lookup k out) 0) e,
  )

  add_scores-lookup :
      (match_id m u : ℕ) (users out : List (ℕ × ℕ)) (rs : List RoundScore)
      → ((n : ℕ) → is_some_eq (lookup n users) u ≡ (n == m))
      → or_else (lookup u (add_scores to_number users out (totals_of match_id rs))) 0
        ≡ or_else (lookup u out) 0 + earned m rs
  unfolding add_scores
  add_scores-lookup match_id m u users out [] owner = omega arith
  add_scores-lookup match_id m u users out (r ∷ rs) owner =
      let key = user_of_key-make_drawing_id users match_id r.room_member_id r.round in
      let out' = credit (lookup r.room_member_id users) r.score out in
      ap
        (λ o.
          or_else
            (lookup u (add_scores to_number users (credit o r.score out) (totals_of match_id rs)))
            0)
        key
      ∙ ground (
        arith,
        add_scores-lookup match_id m u users out' rs owner,
        credit-lookup (lookup r.room_member_id users) r.score u out,
        owner r.room_member_id,
      )

  -- The final score of a player is the sum of the scores of the player's drawings over all rounds,
  -- given that `Number` reads decimal digits back, that the totals are kept by the ids that the
  -- server makes, and that the room's object of member ids has every user and every member once.
  pub compute_final_scores_by_user_id_lem :
      (match_id user_id member_id : ℕ) (members : List (ℕ × ℕ)) (rs : List RoundScore)
      → IsDistinct (keys members)
      → IsDistinct (values members)
      → lookup user_id members ≡ some member_id
      → or_else
          (lookup user_id
            (compute_final_scores_by_user_id to_number members (totals_of match_id rs)))
          0
        ≡ earned member_id rs
  unfolding compute_final_scores_by_user_id
  compute_final_scores_by_user_id_lem match_id u m members rs dk dv h =
      omega (arith, add_scores-lookup match_id m u (member_users [] members) [] rs owner)
    where
      found : lookup m (member_users [] members) ≡ some u
      found = member_users-found [] members u m dv h

      owner : (n : ℕ) → is_some_eq (lookup n (member_users [] members)) u ≡ (n == m)
      owner n = elim (ℕ_discrete n m) [
        | yes e ↦
            subst (λ k. is_some_eq (lookup k (member_users [] members)) u ≡ (k == m)) (sym e)
              (rw found (ground arith))
        | no ne ↦ go ne (lookup n (member_users [] members)) refl
      ]
        where
          go :
              n ≢ m
              → (o : Option ℕ) → lookup n (member_users [] members) ≡ o
              → is_some_eq (lookup n (member_users [] members)) u ≡ (n == m)
          go ne none e = rw e (ground arith)
          go ne (some v) e = elim (ℕ_discrete v u) [
            | yes same ↦ elim (member_users-only [] members u n dk (rw same at e)) [
              | inl p ↦ cc
              | inr p ↦ absurd (ne (cc))
            ]
            | no differ ↦ rw e (ground arith)
          ]
