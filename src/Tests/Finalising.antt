-- ===== src/Tests/Finalising.antt =====
-- Tables of results and profiles that obey the laws, and a match of two players and a guest.
use pollycasso_back.Prelude.{
  Exception, List, Option, [], ap, err, err-ne-ok, if◌then◌else◌, is_some, none, ok, ok-injective,
  plain_error, record_missing, refl, some, sym, ℕ, ◌&&◌, ◌==◌, ◌∷◌, ◌≡◌, ◌⊎◌,
}
use pollycasso_back.Exec.{◌>>=◌, pure, some_or_raise}
use pollycasso_back.Game.Results.{Reward, reward_by_placement}
use pollycasso_back.Game.Finalising.{
  Ledger, MatchResult, Profile, MatchFinalizeParams, RewardsGrantedEventPayload, scored, confirmed,
  incremented, is_open, finalize_from_final_results, transaction, settle_all, settle, grant,
  upsert_match_result, confirm_reward_once, rewards_of,
}
use pollycasso_back.Game.Finalising.Once.{finalize-finalize}
use pollycasso_back.Game.Finalising.Earnings.{earned, finalize_from_final_results_lem}

record Tables : Type 0 where
  found : ℕ → ℕ → Option MatchResult
  profile : ℕ → Option Profile

abbrev tables : Ledger
tables = record {
  State = Tables;
  RowId = ℕ × ℕ;
  found = λ m k t. t.found m k;
  profile = λ u t. t.profile u;
  key_of = λ t id. id;
  upsert = λ member match_id score placement t.
      let row = scored score placement (t.found member match_id) in
      (
        ok ((member, match_id), row.rewarded_at),
        record t { found = λ m k. if member == m && match_id == k then some row else t.found m k },
      );
  confirm = λ id reward now t. (
    if is_open (t.found id.0 id.1) then 1 else 0,
    record t {
      found =
          λ m k. if id.0 == m && id.1 == k then confirmed reward now (t.found m k) else t.found m k;
    },
  );
  increment = λ user_id reward t. (
    if is_some (t.profile user_id) then ok tt else err (plain_error record_missing),
    record t {
      profile = λ u. if user_id == u then incremented reward (t.profile u) else t.profile u;
    },
  );
  upsert_again = λ m k s p t h. refl;
  upsert_fails = λ m k s p t h. absurd (err-ne-ok (sym h));
  upsert_key = λ m k s p t h. ap (λ q. q.0) (sym (ok-injective h));
  upsert_rewarded_at = λ m k s p t h. ap (λ q. q.1) (sym (ok-injective h));
  upsert_found = λ m k s p t h m' k'. refl;
  upsert_profile = λ m k s p t u. refl;
  confirm_count = λ id reward now t. refl;
  confirm_found = λ id reward now t m k. refl;
  confirm_profile = λ id reward now t u. refl;
  increment_found = λ user_id reward t m k. refl;
  increment_result = λ user_id reward t. refl;
  increment_profile = λ user_id reward t u. refl;
}

abbrev new_match : Tables
new_match = record {
  found = λ m k. none;
  profile = λ u. some (record { experience = 10; coin = 5 });
}

abbrev two_winners : MatchFinalizeParams
two_winners = record {
  match_id = 7;
  final_results =
      record { user_id = 1; score = 50; placement = 1 }
      ∷ record { user_id = 2; score = 30; placement = 2 }
      ∷ record { user_id = 3; score = 20; placement = 3 }
      ∷ [];
  room_member_id_by_user_id = (1, 11) ∷ (2, 12) ∷ [];
}

abbrev two_rewards : List (ℕ × Reward)
two_rewards =
    (1, record { exp = 120; coin = 80 })
    ∷ (2, record { exp = 90; coin = 60 })
    ∷ (3, record { exp = 70; coin = 45 })
    ∷ []

abbrev two_events : List RewardsGrantedEventPayload
two_events =
    record { user_id = 1; match_id = 7; exp = 120; coin = 80; placement = 1 }
    ∷ record { user_id = 2; match_id = 7; exp = 90; coin = 60; placement = 2 }
    ∷ []

-- The guest has a reward in the answer, and gets nothing.
first_run :
    (finalize_from_final_results tables 100 two_winners new_match).0 ≡ ok (two_rewards, two_events)
unfolding finalize_from_final_results transaction settle_all settle grant upsert_match_result
    confirm_reward_once rewards_of reward_by_placement some_or_raise pure ◌>>=◌
first_run = refl

finalize_example :
    ((finalize_from_final_results tables 200 two_winners
        (finalize_from_final_results tables 100 two_winners new_match).1).0
      ≡ ok (two_rewards, []))
    × ((u : ℕ)
        → tables.profile u
            (finalize_from_final_results tables 200 two_winners
              (finalize_from_final_results tables 100 two_winners new_match).1).1
          ≡ tables.profile u (finalize_from_final_results tables 100 two_winners new_match).1)
finalize_example = finalize-finalize tables 100 200 two_winners new_match first_run

earnings_example :
    ((events : List RewardsGrantedEventPayload) × ((finalize_from_final_results tables 100
          two_winners new_match).0
        ≡ ok (rewards_of two_winners.final_results [], events))
      × ((u : ℕ)
          → tables.profile u (finalize_from_final_results tables 100 two_winners new_match).1
            ≡ earned u events (tables.profile u new_match)))
    ⊎ ((thrown : Exception) × ((finalize_from_final_results tables 100 two_winners new_match).0
          ≡ err thrown)
        × ((finalize_from_final_results tables 100 two_winners new_match).1 ≡ new_match))
earnings_example = finalize_from_final_results_lem tables 100 two_winners new_match
