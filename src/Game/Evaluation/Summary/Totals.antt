-- ===== src/Game/Evaluation/Summary/Totals.antt =====
-- The merged totals and the rankings made of them: `mergeTotals` and `buildRankings` of
-- src/game/evaluation/evaluation.service.ts.
use pollycasso_back.Game.Evaluation.{make_drawing_id}
use pollycasso_back.Prelude.{
  All, All-sort, List, Option-cases, Text, [], ap, arith, if◌then◌else◌, inl, inr, lookup, none,
  or_else, refl, text_eq, text_eq_iff, text_insert, text_lookup, text_lookup-text_insert, ℕ, ◌+◌,
  ◌∷◌, ◌≡◌,
}
use pollycasso_back.GameState.{GameState, RoundRankItem, EvaluatingContext}
use pollycasso_back.Game.Evaluation.Summary.{rank_le, build_rankings, rank_items, merge_totals}

-- The sum of the entries under a key.
abbrev pub sum_at : Text → List (Text × ℕ) → ℕ
sum_at k [] = 0
sum_at k ((j, n) ∷ m) = (if text_eq j k then n else 0) + sum_at k m

-- The merged totals hold for each drawing what was there and what is added, and nothing is lost.
pub merge_totals_lem :
    (base delta : List (Text × ℕ)) (k : Text)
    → or_else (text_lookup k (merge_totals base delta)) 0
      ≡ or_else (text_lookup k base) 0 + sum_at k delta
unfolding merge_totals
merge_totals_lem base [] k = omega arith
merge_totals_lem base ((id, n) ∷ delta) k =
    let v = or_else (text_lookup id base) 0 + n in
    ground (
      arith,
      merge_totals_lem (text_insert id v base) delta k,
      text_lookup-text_insert id k v base,
      text_eq_iff id k,
    )

abbrev pub HasDistinctKeys : List (Text × ℕ) → Type 0
HasDistinctKeys [] = Unit {0}
HasDistinctKeys ((k, n) ∷ m) = (text_lookup k m ≡ none) × HasDistinctKeys m

sum_at-absent : (k : Text) (m : List (Text × ℕ)) → text_lookup k m ≡ none → sum_at k m ≡ 0
sum_at-absent k [] h = refl
sum_at-absent k ((j, n) ∷ m) h = ground (arith, sum_at-absent k m)

sum_at-lookup :
    (k : Text) (m : List (Text × ℕ)) → HasDistinctKeys m → sum_at k m ≡ or_else (text_lookup k m) 0
sum_at-lookup k [] h = refl
sum_at-lookup k ((j, n) ∷ m) h =
    ground (arith, sum_at-lookup k m h.1, sum_at-absent k m, text_eq_iff j k)

abbrev IsRoundOnly : RoundRankItem → Type 0
IsRoundOnly i = i.total_score ≡ i.score

rank_items-IsRoundOnly :
    (s : GameState) (round : ℕ) (nicknames : List (ℕ × Text)) (scores : List (Text × ℕ))
    (us : List ℕ)
    → HasDistinctKeys scores
    → ((m : ℕ) → text_lookup (make_drawing_id s.match_id m round) s.total_scores ≡ none)
    → All IsRoundOnly (rank_items s round nicknames scores (merge_totals s.total_scores scores) us)
unfolding rank_items
rank_items-IsRoundOnly s round nicknames scores [] d fresh = tt
rank_items-IsRoundOnly s round nicknames scores (u ∷ us) d fresh =
    let rest = rank_items-IsRoundOnly s round nicknames scores us d fresh in
    elim (Option-cases (lookup u s.room_member_id_by_user_id)) [
      | inl e ↦ rw (e, rank_items) rest
      | inr (m, e) ↦
          rw (e, rank_items)
            (
              let id = make_drawing_id s.match_id m round in
                  omega (
                    arith,
                    merge_totals_lem s.total_scores scores id,
                    sum_at-lookup id scores d,
                    ap (λ o. or_else o 0) (fresh m),
                  ),
              rest,
            )
    ]

-- Totals are kept by drawing, and a drawing belongs to one round. So where the totals hold nothing
-- yet for the drawings of the round, the total score of every ranked player is the score of this
-- round alone, whatever was earned in earlier rounds.
pub build_rankings-IsRoundOnly :
    (s : GameState) (round : ℕ) (c : EvaluatingContext) (nicknames : List (ℕ × Text))
    (scores : List (Text × ℕ))
    → HasDistinctKeys scores
    → ((m : ℕ) → text_lookup (make_drawing_id s.match_id m round) s.total_scores ≡ none)
    → All
        (λ i. i.total_score ≡ i.score)
        (build_rankings s round c nicknames scores (merge_totals s.total_scores scores))
unfolding build_rankings
build_rankings-IsRoundOnly s round c nicknames scores d fresh =
    All-sort rank_le IsRoundOnly _
      (rank_items-IsRoundOnly s round nicknames scores c.active_user_ids d fresh)
