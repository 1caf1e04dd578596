-- ===== src/Game/Evaluation/Summary.antt =====
-- The summary of a round: `mergeTotals`, `buildRankings` and `computeRoundSummary` of
-- src/game/evaluation/evaluation.service.ts. The sums of the ratings and the stored drawings are
-- arguments, as the repositories return them; reading the drawings may throw.
pub mod Ranking
pub mod Totals
use pollycasso_back.Prelude.{
  Bool, List, Result, Text, [], evaluation_context_invalid, leb, lookup, ltb, none, ok, or_else,
  or_throw, round_missing, some, sort, text_insert, text_lookup, ws_error, ℕ, ◌&&◌, ◌+◌, ◌==◌,
  ◌>>=◌, ◌>>◌, ◌||◌, ◌∷◌,
}
use pollycasso_back.GameState.{
  GameState, EvaluatingContext, evaluating_context?, RoundRankItem, RoundSummaryPhaseContext,
  DrawData,
}
use pollycasso_back.Game.Evaluation.{make_drawing_id}

-- Each entry of the second object is added to the first.
unfoldable pub merge_totals : List (Text × ℕ) → List (Text × ℕ) → List (Text × ℕ)
merge_totals base [] = base
merge_totals base ((id, add) ∷ delta) =
    merge_totals (text_insert id (or_else (text_lookup id base) 0 + add) base) delta

-- The item of an active user who has a member id.
abbrev pub rank_item :
    GameState → ℕ → List (ℕ × Text) → List (Text × ℕ) → List (Text × ℕ) → ℕ → ℕ → RoundRankItem
rank_item s round nicknames round_scores total_scores user_id member_id =
    let id = make_drawing_id s.match_id member_id round in
    record {
      room_member_id = member_id;
      nickname = or_else (lookup user_id nicknames) [];
      drawing_id = id;
      score = or_else (text_lookup id round_scores) 0;
      total_score = or_else (text_lookup id total_scores) 0;
    }

pub rank_items :
    GameState
    → ℕ
    → List (ℕ × Text)
    → List (Text × ℕ)
    → List (Text × ℕ)
    → List ℕ
    → List RoundRankItem
rank_items s round nicknames round_scores total_scores [] = []
rank_items s round nicknames round_scores total_scores (u ∷ us) =
    let rest = rank_items s round nicknames round_scores total_scores us in
    elim (lookup u s.room_member_id_by_user_id) [
      | none ↦ rest
      | some m ↦ rank_item s round nicknames round_scores total_scores u m ∷ rest
    ]

-- Not after: the higher score first, then the higher total, then the lower member id.
abbrev pub rank_le : RoundRankItem → RoundRankItem → Bool
rank_le a b =
    ltb b.score a.score
    || a.score == b.score
      && (ltb b.total_score a.total_score
          || a.total_score == b.total_score && leb a.room_member_id b.room_member_id)

unfoldable pub build_rankings :
    GameState
    → ℕ
    → EvaluatingContext
    → List (ℕ × Text)
    → List (Text × ℕ)
    → List (Text × ℕ)
    → List RoundRankItem
unfolding rank_items
build_rankings s round c nicknames round_scores total_scores =
    sort rank_le (rank_items s round nicknames round_scores total_scores c.active_user_ids)

pub record RoundSummaryComputeResult : Type 0 where
  pub phase_context : RoundSummaryPhaseContext
  pub updated_totals : List (Text × ℕ)

unfoldable pub compute_round_summary :
    (ℕ → ℕ → List (Text × ℕ))
    → (ℕ → ℕ → Result (List (Text × DrawData)))
    → GameState
    → List (ℕ × Text)
    → Result RoundSummaryComputeResult
compute_round_summary sum_ratings drawings s nicknames = do
  c ← or_throw (evaluating_context? s.phase_context) (ws_error 400 evaluation_context_invalid)
  round ← or_throw s.current_round (ws_error 400 round_missing)
  let round_scores = sum_ratings s.match_id round
  let updated_totals = merge_totals s.total_scores round_scores
  drawings_by_id ← drawings s.match_id round
  ok (record {
    phase_context = record {
      rankings = build_rankings s round c nicknames round_scores updated_totals;
      drawings_by_id = drawings_by_id;
      ready_user_ids = [];
    };
    updated_totals = updated_totals;
  })
