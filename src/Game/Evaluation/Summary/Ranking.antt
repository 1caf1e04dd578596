-- ===== src/Game/Evaluation/Summary/Ranking.antt =====
-- The order and the content of the rankings: `buildRankings` of
-- src/game/evaluation/evaluation.service.ts.
use pollycasso_back.Game.Evaluation.{make_drawing_id}
use pollycasso_back.Prelude.{
  All, All-sort, Any, Bool, IsSorted, List, Option-cases, Text, [], arith, count, count-sort, false,
  inl, inr, is_some_eq, lookup, or_else, refl, some, sort-IsSorted, text_lookup, true, ℕ, ◌<◌, ◌==◌,
  ◌∙◌, ◌∷◌, ◌≡◌, ◌≤◌, ◌⊎◌,
}
use pollycasso_back.GameState.{EvaluatingContext, GameState, RoundRankItem}
use pollycasso_back.Game.Evaluation.Summary.{build_rankings, rank_items, rank_le}

rank_le_total : (a b : RoundRankItem) → rank_le a b ≡ false → rank_le b a ≡ true
rank_le_total a b h = ground arith

rank_le_trans :
    (a b c : RoundRankItem) → rank_le a b ≡ true → rank_le b c ≡ true → rank_le a c ≡ true
rank_le_trans a b c h k = ground arith

-- Whether a user has the given member id.
abbrev pub is_member : GameState → ℕ → ℕ → Bool
is_member s m u = is_some_eq (lookup u s.room_member_id_by_user_id) m

count-rank_items :
    (s : GameState) (round : ℕ) (nicknames : List (ℕ × Text)) (scores totals : List (Text × ℕ))
    (us : List ℕ) (m : ℕ)
    → count (λ i. i.room_member_id == m) (rank_items s round nicknames scores totals us)
      ≡ count (is_member s m) us
unfolding rank_items
count-rank_items s round nicknames scores totals [] m = refl
count-rank_items s round nicknames scores totals (u ∷ us) m =
    ground (arith, count-rank_items s round nicknames scores totals us m)

-- What an item says of its player.
pub record IsFaithful (s : GameState) (round : ℕ) (nicknames : List (ℕ × Text))
    (scores totals : List (Text × ℕ)) (us : List ℕ) (i : RoundRankItem) : Type 0 where
  pub drawing : i.drawing_id ≡ make_drawing_id s.match_id i.room_member_id round
  pub scored : i.score ≡ or_else (text_lookup i.drawing_id scores) 0
  pub totalled : i.total_score ≡ or_else (text_lookup i.drawing_id totals) 0
  pub player :
      Any
        (λ u.
          (lookup u s.room_member_id_by_user_id ≡ some i.room_member_id)
          × (i.nickname ≡ or_else (lookup u nicknames) []))
        us

module _ (s : GameState) (round : ℕ) (nicknames : List (ℕ × Text))
    (scores totals : List (Text × ℕ)) where
  weaken :
      (u : ℕ) (us : List ℕ) (is : List RoundRankItem)
      → All (IsFaithful s round nicknames scores totals us) is
      → All (IsFaithful s round nicknames scores totals (u ∷ us)) is
  weaken u us [] h = tt
  weaken u us (i ∷ is) h = (
    record {
      drawing = h.0.drawing;
      scored = h.0.scored;
      totalled = h.0.totalled;
      player = inr h.0.player;
    },
    weaken u us is h.1,
  )

  rank_items-IsFaithful :
      (us : List ℕ)
      → All
          (IsFaithful s round nicknames scores totals us)
          (rank_items s round nicknames scores totals us)
  unfolding rank_items
  rank_items-IsFaithful [] = tt
  rank_items-IsFaithful (u ∷ us) =
      let rest =
        weaken u us (rank_items s round nicknames scores totals us) (rank_items-IsFaithful us) in
      elim (Option-cases (lookup u s.room_member_id_by_user_id)) [
        | inl e ↦ rw (e, rank_items) rest
        | inr (m, e) ↦
            rw (e, rank_items)
              (
                record { drawing = refl; scored = refl; totalled = refl; player = inl (e, refl) },
                rest,
              )
      ]

-- What the order of two places means: a higher score, or an equal score and a higher total, or the same of
-- both and a member id that is not greater.
abbrev pub IsAhead : RoundRankItem → RoundRankItem → Type 0
IsAhead a b =
    (b.score < a.score)
    ⊎ ((a.score ≡ b.score)
        × ((b.total_score < a.total_score)
            ⊎ ((a.total_score ≡ b.total_score) × (a.room_member_id ≤ b.room_member_id))))

-- Each place is ahead of all that follow it.
abbrev pub IsRanked : List RoundRankItem → Type 0
IsRanked [] = Unit {0}
IsRanked (a ∷ items) = All (IsAhead a) items × IsRanked items

rank_le-IsAhead : (a b : RoundRankItem) → rank_le a b ≡ true → IsAhead a b
rank_le-IsAhead a b h = ground (arith, h)

All-IsAhead :
    (a : RoundRankItem) (items : List RoundRankItem)
    → All (λ b. rank_le a b ≡ true) items
    → All (IsAhead a) items
All-IsAhead a [] h = tt
All-IsAhead a (b ∷ items) h = (rank_le-IsAhead a b h.0, All-IsAhead a items h.1)

IsSorted-IsRanked : (items : List RoundRankItem) → IsSorted rank_le items → IsRanked items
IsSorted-IsRanked [] h = tt
IsSorted-IsRanked (a ∷ items) h = (All-IsAhead a items h.0, IsSorted-IsRanked items h.1)

-- The rankings are in order: by score, then by total, both from the highest, then by member id. Each
-- member stands in them as often as among the active users, and each item carries the id of the
-- member's drawing of the round, its score and total (0 where there is none), and the nickname of
-- the user.
pub build_rankings_lem :
    (s : GameState) (round : ℕ) (c : EvaluatingContext) (nicknames : List (ℕ × Text))
    (scores totals : List (Text × ℕ))
    → IsRanked (build_rankings s round c nicknames scores totals)
      × ((m : ℕ)
          → count (λ i. i.room_member_id == m) (build_rankings s round c nicknames scores totals)
            ≡ count (is_member s m) c.active_user_ids)
      × All
          (IsFaithful s round nicknames scores totals c.active_user_ids)
          (build_rankings s round c nicknames scores totals)
unfolding build_rankings
build_rankings_lem s round c nicknames scores totals = (
  IsSorted-IsRanked _ (sort-IsSorted rank_le rank_le_total rank_le_trans _),
  (λ m.
      count-sort rank_le _ _
      ∙ count-rank_items s round nicknames scores totals c.active_user_ids m),
  All-sort rank_le _ _ (rank_items-IsFaithful s round nicknames scores totals c.active_user_ids),
)
