-- ===== src/Tests/Scores.antt =====
-- Votes, rankings, totals and final results.
use pollycasso_back.Prelude.{
  All, Bool, IsSorted, JsNumber, List, Result, Text, [], ap, arith, count, lookup, ltb, map, ok,
  or_else, refl, show, some, text_lookup, value, value-show, whole, ℕ, ◌+◌, ◌<◌, ◌==◌, ◌∷◌, ◌≡◌,
  ◌≤◌,
}
use pollycasso_back.Game.Evaluation.{make_drawing_id}
use pollycasso_back.Game.Evaluation.Votes.{
  EvaluationSubmitPayload, Vote, IsAdmissible, submit_evaluation, submit_evaluation-IsAdmissible,
  submit_evaluation-make_drawing_id,
}
use pollycasso_back.Game.Evaluation.Summary.{build_rankings, merge_totals}
use pollycasso_back.Game.Evaluation.Summary.Ranking.{
  IsRanked, is_member, IsFaithful, build_rankings_lem,
}
use pollycasso_back.Game.Evaluation.Summary.Totals.{
  sum_at, HasDistinctKeys, merge_totals_lem, build_rankings-IsRoundOnly,
}
use pollycasso_back.Game.Results.{
  score_le, compute_final_scores_by_user_id, build_final_results, reward_by_placement,
}
use pollycasso_back.Game.Results.Placements.{build_final_results_lem, reward_by_placement-le}
use pollycasso_back.Game.Results.Scores.{RoundScore, totals_of, compute_final_scores_by_user_id_lem}
use pollycasso_back.Tests.Fixtures.{moon, star, members, evaluating_context, evaluating_game}

abbrev number_of : Text → JsNumber
number_of s = whole (value s)

-- User 1 gives the drawing of member 12 nine points.
abbrev vote : Vote
vote = record { match_id = 7; round = 2; room_member_id = 12; voter_id = 1; rating = 9 }

abbrev payload : EvaluationSubmitPayload
payload = record { drawing_id = make_drawing_id 7 12 2; score = whole 9 }

abbrev cast : Vote → List Vote → Result (List Vote)
cast v vs = ok (v ∷ vs)

vote-IsAdmissible : IsAdmissible evaluating_game 1 vote
vote-IsAdmissible = record {
  evaluates = refl;
  match_of_room = refl;
  round_of_room = refl;
  voter = refl;
  in_range = omega arith;
  member = refl;
  own = (11, refl, omega arith);
}

vote_written_example :
    submit_evaluation number_of cast evaluating_game 1 payload [] ≡ ok (vote ∷ [])
vote_written_example =
    submit_evaluation-make_drawing_id number_of cast evaluating_game 1 vote []
      (λ n. ap whole (value-show n)) vote-IsAdmissible

vote_admitted_example : (v : Vote) × IsAdmissible evaluating_game 1 v × (cast v [] ≡ ok (vote ∷ []))
vote_admitted_example =
    submit_evaluation-IsAdmissible number_of cast evaluating_game 1 payload [] (vote ∷ [])
      vote_written_example

abbrev nicknames : List (ℕ × Text)
nicknames = (1, moon) ∷ (2, star) ∷ []

-- The scores of the second round.
abbrev round_scores : List (Text × ℕ)
round_scores = (make_drawing_id 7 11 2, 6) ∷ (make_drawing_id 7 12 2, 9) ∷ []

rankings_example :
    IsRanked
      (build_rankings evaluating_game 2 evaluating_context nicknames round_scores round_scores)
    × ((m : ℕ)
        → count
            (λ i. i.room_member_id == m)
            (build_rankings evaluating_game 2 evaluating_context nicknames round_scores
              round_scores)
          ≡ count (is_member evaluating_game m) evaluating_context.active_user_ids)
    × All
        (IsFaithful evaluating_game 2 nicknames round_scores round_scores
          evaluating_context.active_user_ids)
        (build_rankings evaluating_game 2 evaluating_context nicknames round_scores round_scores)
rankings_example =
    build_rankings_lem evaluating_game 2 evaluating_context nicknames round_scores round_scores

merge_totals_example :
    or_else (text_lookup (make_drawing_id 7 12 2) (merge_totals round_scores round_scores)) 0
    ≡ or_else (text_lookup (make_drawing_id 7 12 2) round_scores) 0
      + sum_at (make_drawing_id 7 12 2) round_scores
merge_totals_example = merge_totals_lem round_scores round_scores (make_drawing_id 7 12 2)

round_scores-HasDistinctKeys : HasDistinctKeys round_scores
unfolding make_drawing_id show
round_scores-HasDistinctKeys = (refl, (refl, tt))

round_only_example :
    All
      (λ i. i.total_score ≡ i.score)
      (build_rankings evaluating_game 2 evaluating_context nicknames round_scores
        (merge_totals evaluating_game.total_scores round_scores))
round_only_example =
    build_rankings-IsRoundOnly evaluating_game 2 evaluating_context nicknames round_scores
      round_scores-HasDistinctKeys (λ m. refl)

-- Member 12 scored in two rounds, member 11 in one.
abbrev scores : List RoundScore
scores =
    record { room_member_id = 12; round = 1; score = 4 }
    ∷ record { room_member_id = 11; round = 2; score = 6 }
    ∷ record { room_member_id = 12; round = 2; score = 9 }
    ∷ []

final_scores_example :
    or_else (lookup 2 (compute_final_scores_by_user_id number_of members (totals_of 7 scores))) 0
    ≡ 13
final_scores_example =
    compute_final_scores_by_user_id_lem number_of (λ n. ap whole (value-show n)) 7 2 12 members
      scores (refl, (refl, (refl, tt))) (refl, (refl, (refl, tt))) refl

-- Users 1 and 3 tie for the first place.
abbrev finals : List (ℕ × ℕ)
finals = (1, 20) ∷ (2, 5) ∷ (3, 20) ∷ []

final_results_example :
    All (λ r. r.placement ≡ 1 + count (λ e. ltb r.score e.1) finals) (build_final_results finals)
    × IsSorted score_le (map (λ r. (r.user_id, r.score)) (build_final_results finals))
    × ((p : ℕ × ℕ → Bool)
        → count p (map (λ r. (r.user_id, r.score)) (build_final_results finals)) ≡ count p finals)
final_results_example = build_final_results_lem finals

rewards_example :
    ((reward_by_placement (some 4)).exp ≤ (reward_by_placement (some 2)).exp)
    × ((reward_by_placement (some 4)).coin ≤ (reward_by_placement (some 2)).coin)
    × (0 < (reward_by_placement (some 4)).exp)
    × (0 < (reward_by_placement (some 4)).coin)
rewards_example = reward_by_placement-le 2 4 (omega arith) (omega arith)
