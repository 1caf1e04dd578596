-- ===== src/Game/Finalising/Earnings.antt =====
-- What a finalisation of a match, in src/game/finished/match-finalize.service.ts, adds to the users.
use pollycasso_back.Prelude.{
  Bool-cases, Exception, List, Option, Option-cases, Result, Result-cases, [], ap, err, err-ne-ok,
  if◌then◌else◌, inl, inr, is_some, lookup, ok, ok-injective, refl, sym, ℕ, ◌++◌, ◌==◌, ◌∙◌, ◌∷◌,
  ◌≡◌, ◌⊎◌,
}
use pollycasso_back.Exec.{◌>>=◌, pure, some_or_raise}
use pollycasso_back.Game.Results.{FinalResultItem, Reward}
use pollycasso_back.Game.Finalising.{
  Ledger, Profile, MatchFinalizeParams, RewardsGrantedEventPayload, member_of, incremented,
  rewards_of, confirm_reward_once, upsert_match_result, grant, settle, settle_all, transaction,
  finalize_from_final_results,
}

-- A profile with what the events announce for its user.
abbrev pub earned : ℕ → List RewardsGrantedEventPayload → Option Profile → Option Profile
earned u [] row = row
earned u (e ∷ events) row =
    earned u events
      (if e.user_id == u then incremented (record { exp = e.exp; coin = e.coin }) row else row)

earned-++ :
    (u : ℕ) (events more : List RewardsGrantedEventPayload) (row : Option Profile)
    → earned u (events ++ more) row ≡ earned u more (earned u events row)
earned-++ u [] more row = refl
earned-++ u (e ∷ events) more row =
    earned-++ u events more
      (if e.user_id == u then incremented (record { exp = e.exp; coin = e.coin }) row else row)

module _ (ledger : Ledger) (now : ℕ) where
  -- The events of a run account for what it did to the profiles.
  abbrev Accounts : Result (List RewardsGrantedEventPayload) × ledger.State → ledger.State → Type 0
  Accounts after t =
      (events : List RewardsGrantedEventPayload)
      → after.0 ≡ ok events
      → (u : ℕ) → ledger.profile u after.1 ≡ earned u events (ledger.profile u t)

  grant-Accounts :
      (p : MatchFinalizeParams) (rewards : List (ℕ × Reward)) (r : FinalResultItem)
      (id : ledger.RowId) (t : ledger.State)
      → Accounts (grant ledger now p rewards r id t) t
  unfolding grant some_or_raise confirm_reward_once pure ◌>>=◌
  grant-Accounts p rewards r id t events = elim (Option-cases (lookup r.user_id rewards)) [
    | inl e ↦ λ h u. absurd (err-ne-ok (rw e at h))
    | inr (reward, e) ↦
        let after = ledger.confirm id reward now t in
        elim (Bool-cases (after.0 == 1)) [
          | inr f ↦ λ h u.
              let here : [] ≡ events = ok-injective (rw (e, f) at h) in
              rw (e, f)
                (ledger.confirm_profile id reward now t u
                  ∙ ap (λ es. earned u es (ledger.profile u t)) here)
          | inl f ↦ elim (Result-cases (ledger.increment r.user_id reward after.1).0) [
            | inr (_, g) ↦ λ h u. absurd (err-ne-ok (rw (e, f, g) at h))
            | inl (_, g) ↦ λ h u.
                let here = ok-injective (rw (e, f, g) at h) in
                rw (e, f, g)
                  (ledger.increment_profile r.user_id reward after.1 u
                    ∙ rw (ledger.confirm_profile id reward now t u) refl
                    ∙ ap (λ es. earned u es (ledger.profile u t)) here)
          ]
        ]
  ]

  settle-Accounts :
      (p : MatchFinalizeParams) (rewards : List (ℕ × Reward)) (r : FinalResultItem)
      (t : ledger.State)
      → Accounts (settle ledger now p rewards r t) t
  unfolding settle upsert_match_result pure ◌>>=◌
  settle-Accounts p rewards r t events = elim (Bool-cases (member_of p r.user_id == 0)) [
    | inl e ↦ λ h u.
        let here : [] ≡ events = ok-injective (rw e at h) in
        rw e (ap (λ es. earned u es (ledger.profile u t)) here)
    | inr e ↦
        let m = member_of p r.user_id in
        let after = ledger.upsert m p.match_id r.score r.placement t in
        let same = ledger.upsert_profile m p.match_id r.score r.placement t in
        elim (Result-cases after.0) [
          | inr (_, g) ↦ λ h u. absurd (err-ne-ok (rw (e, g) at h))
          | inl (row, g) ↦ elim (Bool-cases (is_some row.1)) [
            | inl f ↦ λ h u.
                let here : [] ≡ events = ok-injective (rw (e, g, f) at h) in
                rw (e, g, f) (same u ∙ ap (λ es. earned u es (ledger.profile u t)) here)
            | inr f ↦ λ h u.
                rw (e, g, f)
                  (grant-Accounts p rewards r row.0 after.1 events (rw (e, g, f) at h) u
                    ∙ ap (earned u events) (same u))
          ]
        ]
  ]

  settle_all-Accounts :
      (p : MatchFinalizeParams) (rewards : List (ℕ × Reward)) (results : List FinalResultItem)
      (t : ledger.State)
      → Accounts (settle_all ledger now p rewards results t) t
  unfolding settle_all pure ◌>>=◌
  settle_all-Accounts p rewards [] t events = λ h u.
      let here : [] ≡ events = ok-injective h in ap (λ es. earned u es (ledger.profile u t)) here
  settle_all-Accounts p rewards (r ∷ results) t events =
      let after = settle ledger now p rewards r t in
      let ends = settle_all ledger now p rewards results after.1 in
      elim (Result-cases after.0) [
        | inr (_, e) ↦ λ h u. absurd (err-ne-ok (rw e at h))
        | inl (first, e) ↦ elim (Result-cases ends.0) [
          | inr (_, f) ↦ λ h u. absurd (err-ne-ok (rw (e, f) at h))
          | inl (rest, f) ↦ λ h u.
              let here : (first ++ rest) ≡ events = ok-injective (rw (e, f) at h) in
              rw (e, f)
                (settle_all-Accounts p rewards results after.1 rest f u
                  ∙ ap (earned u rest) (settle-Accounts p rewards r t first e u)
                  ∙ sym (earned-++ u first rest (ledger.profile u t))
                  ∙ ap (λ es. earned u es (ledger.profile u t)) here)
        ]
      ]

  -- A finalisation either succeeds, and then every user's experience and coins have grown by exactly
  -- what the emitted events announce for that user; or it throws, and the tables are as they were.
  pub finalize_from_final_results_lem :
      (p : MatchFinalizeParams) (t : ledger.State)
      → ((events : List RewardsGrantedEventPayload) × ((finalize_from_final_results ledger now p
              t).0
            ≡ ok (rewards_of p.final_results [], events))
          × ((u : ℕ)
              → ledger.profile u (finalize_from_final_results ledger now p t).1
                ≡ earned u events (ledger.profile u t)))
        ⊎ ((thrown : Exception) × ((finalize_from_final_results ledger now p t).0 ≡ err thrown)
            × ((finalize_from_final_results ledger now p t).1 ≡ t))
  unfolding finalize_from_final_results transaction pure ◌>>=◌
  finalize_from_final_results_lem p t =
      let given = rewards_of p.final_results [] in
      let ends = settle_all ledger now p given p.final_results t in
      elim (Result-cases ends.0) [
        | inr (thrown, e) ↦ inr (thrown, rw e refl, rw e refl)
        | inl (events, e) ↦ inl (
          events,
          rw e refl,
          λ u. rw e (settle_all-Accounts p given p.final_results t events e u),
        )
      ]
