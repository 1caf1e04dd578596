-- ===== src/Game/Finalising.antt =====
-- The rewards at the end of a match: src/game/finished/match-finalize.service.ts over
-- src/game/finished/finished.repository.ts. The two tables behind Prisma are a parameter: what a query
-- does to the result that a member has in a match, and to the experience and coins of a user, is named
-- by laws. A transaction that throws leaves the tables as they were. The events that are
-- emitted are answered.
pub mod Once
pub mod Earnings
use pollycasso_back.Prelude.{
  Bool, Exception, List, Option, Result, [], err, false, if◌then◌else◌, insert, is_ok, is_some,
  lookup, none, not, ok, or_else, plain_error, record_missing, some, true, type_error, ℕ, ◌&&◌,
  ◌++◌, ◌+◌, ◌==◌, ◌∷◌, ◌≡◌,
}
use pollycasso_back.Exec.{Exec, ◌>>=◌, ◌>>◌, pure, some_or_raise}
use pollycasso_back.Game.Results.{FinalResultItem, Reward, reward_by_placement}

-- The columns of a match result that are read or written.
pub record MatchResult : Type 0 where
  pub score : ℕ
  pub placement : ℕ
  pub awarded_xp : ℕ
  pub awarded_coin : ℕ
  pub rewarded_at : Option ℕ

pub record Profile : Type 0 where
  pub experience : ℕ
  pub coin : ℕ

-- The row after `upsert`, of the row before.
abbrev pub scored : ℕ → ℕ → Option MatchResult → MatchResult
scored score placement none = record {
  score = score;
  placement = placement;
  awarded_xp = 0;
  awarded_coin = 0;
  rewarded_at = none;
}
scored score placement (some row) = record row { score = score; placement = placement }

abbrev pub is_paid : Option MatchResult → Bool
is_paid none = false
is_paid (some row) = is_some row.rewarded_at

abbrev pub is_open : Option MatchResult → Bool
is_open none = false
is_open (some row) = not (is_some row.rewarded_at)

-- The row after `updateMany` where `rewardedAt` is null.
abbrev pub confirmed : Reward → ℕ → Option MatchResult → Option MatchResult
confirmed reward now none = none
confirmed reward now (some row) =
    if is_some row.rewarded_at
    then some row
    else some
        (record row { awarded_xp = reward.exp; awarded_coin = reward.coin; rewarded_at = some now })

abbrev pub incremented : Reward → Option Profile → Option Profile
incremented reward none = none
incremented reward (some row) =
    some (record { experience = row.experience + reward.exp; coin = row.coin + reward.coin })

-- The results by member and match, which are unique together. `upsert` may throw where it makes a row, for a
-- member or a match that does not exist, and not where the row is there; `key_of` is the member and the match of
-- the row with an id.
pub record Ledger : Type 1 where
  pub State : Type 0
  pub RowId : Type 0
  pub found : ℕ → ℕ → State → Option MatchResult
  pub profile : ℕ → State → Option Profile
  pub key_of : State → RowId → ℕ × ℕ
  pub upsert : ℕ → ℕ → ℕ → ℕ → State → Result (RowId × Option ℕ) × State
  pub confirm : RowId → Reward → ℕ → State → ℕ × State
  pub increment : ℕ → Reward → State → Result (Unit {0}) × State
  pub upsert_again :
      (member match_id score placement : ℕ) (t : State)
      → is_some (found member match_id t) ≡ true
      → is_ok (upsert member match_id score placement t).0 ≡ true
  pub upsert_fails :
      (member match_id score placement : ℕ) (t : State) {thrown : Exception}
      → (upsert member match_id score placement t).0 ≡ err thrown
      → (upsert member match_id score placement t).1 ≡ t
  pub upsert_key :
      (member match_id score placement : ℕ) (t : State) {row : RowId × Option ℕ}
      → (upsert member match_id score placement t).0 ≡ ok row
      → key_of (upsert member match_id score placement t).1 row.0 ≡ (member, match_id)
  pub upsert_rewarded_at :
      (member match_id score placement : ℕ) (t : State) {row : RowId × Option ℕ}
      → (upsert member match_id score placement t).0 ≡ ok row
      → row.1 ≡ (scored score placement (found member match_id t)).rewarded_at
  pub upsert_found :
      (member match_id score placement : ℕ) (t : State) {row : RowId × Option ℕ}
      → (upsert member match_id score placement t).0 ≡ ok row
      → (m k : ℕ)
      → found m k (upsert member match_id score placement t).1 ≡ (
          if member == m && match_id == k
          then some (scored score placement (found member match_id t))
          else found m k t)
  pub upsert_profile :
      (member match_id score placement : ℕ) (t : State) (u : ℕ)
      → profile u (upsert member match_id score placement t).1 ≡ profile u t
  pub confirm_count :
      (id : RowId) (reward : Reward) (now : ℕ) (t : State)
      → (confirm id reward now t).0
        ≡ (if is_open (found (key_of t id).0 (key_of t id).1 t) then 1 else 0)
  pub confirm_found :
      (id : RowId) (reward : Reward) (now : ℕ) (t : State) (m k : ℕ)
      → found m k (confirm id reward now t).1 ≡ (
          if (key_of t id).0 == m && (key_of t id).1 == k
          then confirmed reward now (found m k t)
          else found m k t)
  pub confirm_profile :
      (id : RowId) (reward : Reward) (now : ℕ) (t : State) (u : ℕ)
      → profile u (confirm id reward now t).1 ≡ profile u t
  pub increment_found :
      (user_id : ℕ) (reward : Reward) (t : State) (m k : ℕ)
      → found m k (increment user_id reward t).1 ≡ found m k t
  pub increment_result :
      (user_id : ℕ) (reward : Reward) (t : State)
      → (increment user_id reward t).0
        ≡ (if is_some (profile user_id t) then ok tt else err (plain_error record_missing))
  pub increment_profile :
      (user_id : ℕ) (reward : Reward) (t : State) (u : ℕ)
      → profile u (increment user_id reward t).1
        ≡ (if user_id == u then incremented reward (profile u t) else profile u t)

pub record MatchFinalizeParams : Type 0 where
  pub match_id : ℕ
  pub final_results : List FinalResultItem
  pub room_member_id_by_user_id : List (ℕ × ℕ)

pub record RewardsGrantedEventPayload : Type 0 where
  pub user_id : ℕ
  pub match_id : ℕ
  pub exp : ℕ
  pub coin : ℕ
  pub placement : ℕ

-- `placement || undefined`
abbrev pub valid_placement : ℕ → Option ℕ
valid_placement n = if n == 0 then none else some n

unfoldable pub rewards_of : List FinalResultItem → List (ℕ × Reward) → List (ℕ × Reward)
rewards_of [] out = out
rewards_of (r ∷ results) out =
    rewards_of results (insert r.user_id (reward_by_placement (valid_placement r.placement)) out)

-- `if (!memberId) continue`
abbrev pub member_of : MatchFinalizeParams → ℕ → ℕ
member_of p user_id = or_else (lookup user_id p.room_member_id_by_user_id) 0

module _ (ledger : Ledger) (now : ℕ) where
  unfoldable pub confirm_reward_once : ledger.RowId → Reward → Exec ledger.State ℕ
  confirm_reward_once id reward t =
      (ok (ledger.confirm id reward now t).0, (ledger.confirm id reward now t).1)

  unfoldable pub upsert_match_result : ℕ → ℕ → ℕ → ℕ → Exec ledger.State (ledger.RowId × Option ℕ)
  upsert_match_result match_id member_id score placement t = (
    (ledger.upsert member_id match_id score placement t).0,
    (ledger.upsert member_id match_id score placement t).1,
  )

  -- The reward of a member whose result has none yet, with its event.
  unfoldable pub grant :
      MatchFinalizeParams
      → List (ℕ × Reward)
      → FinalResultItem
      → ledger.RowId
      → Exec ledger.State (List RewardsGrantedEventPayload)
  grant p rewards r id = do
    reward ← some_or_raise (lookup r.user_id rewards) (plain_error type_error)
    updated ← confirm_reward_once id reward
    if not (updated == 1) then pure [] else (do
      ledger.increment r.user_id reward
      pure (
          record {
            user_id = r.user_id;
            match_id = p.match_id;
            exp = reward.exp;
            coin = reward.coin;
            placement = r.placement;
          }
          ∷ []))

  -- One round of the loop.
  unfoldable pub settle :
      MatchFinalizeParams
      → List (ℕ × Reward)
      → FinalResultItem
      → Exec ledger.State (List RewardsGrantedEventPayload)
  settle p rewards r = if member_of p r.user_id == 0 then pure [] else (do
    upserted ← upsert_match_result p.match_id (member_of p r.user_id) r.score r.placement
    if is_some upserted.1 then pure [] else grant p rewards r upserted.0)

  unfoldable pub settle_all :
      MatchFinalizeParams
      → List (ℕ × Reward)
      → List FinalResultItem
      → Exec ledger.State (List RewardsGrantedEventPayload)
  settle_all p rewards [] = pure []
  settle_all p rewards (r ∷ results) = do
    event ← settle p rewards r
    events ← settle_all p rewards results
    pure (event ++ events)

  abbrev rolled_back :
      {A : Type 0} → ledger.State → Result A × ledger.State → Result A × ledger.State
  rolled_back before (ok a, t) = (ok a, t)
  rolled_back before (err thrown, t) = (err thrown, before)

  unfoldable pub transaction : {A : Type 0} → Exec ledger.State A → Exec ledger.State A
  transaction run t = rolled_back t (run t)

  -- The rewards, with the events that are emitted.
  unfoldable pub finalize_from_final_results :
      MatchFinalizeParams → Exec ledger.State (List (ℕ × Reward) × List RewardsGrantedEventPayload)
  unfolding rewards_of
  finalize_from_final_results p = do
    notifications ← transaction (settle_all p (rewards_of p.final_results []) p.final_results)
    pure (rewards_of p.final_results [], notifications)
