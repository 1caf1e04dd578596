-- ===== src/Game/Results.antt =====
-- The final results of a match: `computeFinalScoresByUserId` and `buildFinalResults` of
-- src/game/session/game-session.service.ts, and the reward table of
-- src/game/finished/policies/reward.policy.ts. `Number(text)` is an argument. Objects keyed by user
-- are listed by ascending user id, as JavaScript lists integer keys.
pub mod Placements
pub mod Scores
use pollycasso_back.Prelude.{
  Bool, JsNumber, List, Option, Text, [], if◌then◌else◌, insert, is_some_eq, leb, lookup, none,
  or_else, some, sort, split, whole, ℕ, ◌+◌, ◌==◌, ◌∷◌,
}
use pollycasso_back.Game.Evaluation.{colon}
use pollycasso_back.Game.Evaluation.Votes.{three_parts}

-- Each member's user; a later user of the same member wins.
pub member_users : List (ℕ × ℕ) → List (ℕ × ℕ) → List (ℕ × ℕ)
member_users users [] = users
member_users users ((user_id, member_id) ∷ es) = member_users (insert member_id user_id users) es

abbrev pub user_of_number : List (ℕ × ℕ) → JsNumber → Option ℕ
user_of_number users (whole n) = lookup n users
user_of_number users _ = none

-- The user whose drawing a key of the totals names, if it has three parts.
abbrev pub user_of_key : (Text → JsNumber) → List (ℕ × ℕ) → Option (Text × Text × Text) → Option ℕ
user_of_key to_number users none = none
user_of_key to_number users (some (a, b, c)) = user_of_number users (to_number b)

abbrev pub credit : Option ℕ → ℕ → List (ℕ × ℕ) → List (ℕ × ℕ)
credit none n out = out
credit (some u) n out = insert u (or_else (lookup u out) 0 + n) out

pub add_scores : (Text → JsNumber) → List (ℕ × ℕ) → List (ℕ × ℕ) → List (Text × ℕ) → List (ℕ × ℕ)
add_scores to_number users out [] = out
add_scores to_number users out ((key, n) ∷ totals) =
    add_scores to_number users
      (credit (user_of_key to_number users (three_parts (split colon key))) n out) totals

unfoldable pub compute_final_scores_by_user_id :
    (Text → JsNumber) → List (ℕ × ℕ) → List (Text × ℕ) → List (ℕ × ℕ)
unfolding add_scores member_users
compute_final_scores_by_user_id to_number members totals =
    add_scores to_number (member_users [] members) [] totals

pub record FinalResultItem : Type 0 where
  pub user_id : ℕ
  pub score : ℕ
  pub placement : ℕ

-- The comparator `b.score - a.score`.
abbrev pub score_le : ℕ × ℕ → ℕ × ℕ → Bool
score_le a b = leb b.1 a.1

-- The `map` over the sorted entries, with the last score, the last placement and the index.
pub place : Option ℕ → ℕ → ℕ → List (ℕ × ℕ) → List FinalResultItem
place last_score last_placement index [] = []
place last_score last_placement index ((user_id, score) ∷ es) =
    let placement = if is_some_eq last_score score then last_placement else index + 1 in
    record { user_id = user_id; score = score; placement = placement }
    ∷ place (some score) placement (index + 1) es

unfoldable pub build_final_results : List (ℕ × ℕ) → List FinalResultItem
unfolding place
build_final_results scores = place none 0 0 (sort score_le scores)

pub record Reward : Type 0 where
  pub exp : ℕ
  pub coin : ℕ

-- `none` is undefined. A placement past the table earns what the last place does.
unfoldable pub reward_by_placement : Option ℕ → Reward
reward_by_placement none = record { exp = 0; coin = 0 }
reward_by_placement (some p) =
    if p == 1
    then record { exp = 120; coin = 80 }
    else if p == 2
    then record { exp = 90; coin = 60 }
    else if p == 3
    then record { exp = 70; coin = 45 }
    else if p == 4
    then record { exp = 50; coin = 30 }
    else if p == 5
    then record { exp = 40; coin = 25 }
    else record { exp = 30; coin = 20 }
