-- ===== src/Game/Finalising/Once.antt =====
-- A second finalisation of the same match, in src/game/finished/match-finalize.service.ts.
use mathlib.Core.Path.{subst}
use pollycasso_back.Prelude.{
  ==_refl, Bool, Bool-cases, List, Option, Option-cases, Result-cases, [], all, ap, arith,
  err-ne-ok, inl, inr, is_some, lookup, none, ok, ok-injective, refl, some, sym, true,
  true-ne-false, ℕ, ◌&&◌, ◌==◌, ◌||◌, ◌∙◌, ◌∷◌, ◌≡◌,
}
use pollycasso_back.Exec.{◌>>=◌, pure, some_or_raise}
use pollycasso_back.Game.Results.{FinalResultItem, Reward}
use pollycasso_back.Game.Finalising.{
  Ledger, MatchResult, MatchFinalizeParams, RewardsGrantedEventPayload, scored, confirmed, is_open,
  is_paid, member_of, rewards_of, confirm_reward_once, upsert_match_result, grant, settle,
  settle_all, transaction, finalize_from_final_results,
}

is_paid-scored :
    (score placement : ℕ) (o : Option MatchResult)
    → is_some (scored score placement o).rewarded_at ≡ is_paid o
is_paid-scored score placement none = refl
is_paid-scored score placement (some row) = refl

is_paid-is_some : (o : Option MatchResult) → is_paid o ≡ true → is_some o ≡ true
is_paid-is_some none h = h
is_paid-is_some (some row) h = refl

is_paid-confirmed :
    (reward : Reward) (now : ℕ) (o : Option MatchResult)
    → is_paid o ≡ true
    → is_paid (confirmed reward now o) ≡ true
is_paid-confirmed reward now none h = h
is_paid-confirmed reward now (some row) h = rw h h

confirmed-open :
    (reward : Reward) (now : ℕ) (o : Option MatchResult)
    → is_open o ≡ true
    → is_paid (confirmed reward now o) ≡ true
confirmed-open reward now none h = ground (arith, h)
confirmed-open reward now (some row) h = elim (Bool-cases (is_some row.rewarded_at)) [
  | inl e ↦ rw e e
  | inr e ↦ rw e refl
]

module _ (ledger : Ledger) where
  -- A result that is rewarded stays so.
  abbrev Keeps : ledger.State → ledger.State → Type 0
  Keeps t t' =
      (m k : ℕ) → is_paid (ledger.found m k t) ≡ true → is_paid (ledger.found m k t') ≡ true

  upsert-Keeps :
      (m k score placement : ℕ) (t : ledger.State) → Keeps t (ledger.upsert m k score placement t).1
  upsert-Keeps m k score placement t m' k' h =
      elim (Result-cases (ledger.upsert m k score placement t).0) [
        | inr (_, f) ↦
            subst (λ s. is_paid (ledger.found m' k' s) ≡ true)
              (sym (ledger.upsert_fails m k score placement t f)) h
        | inl (row, f) ↦
            rw (ledger.upsert_found m k score placement t f m' k')
              (elim (Bool-cases (m == m' && k == k')) [
                | inr e ↦ rw e h
                | inl e ↦
                    let (a, b) : (m ≡ m') × (k ≡ k') = (ground (arith, e), ground (arith, e)) in
                    rw (e, is_paid-scored score placement (ledger.found m k t), a, b) h
              ])
      ]

  confirm-Keeps :
      (id : ledger.RowId) (reward : Reward) (now : ℕ) (t : ledger.State)
      → Keeps t (ledger.confirm id reward now t).1
  confirm-Keeps id reward now t m k h =
      rw (ledger.confirm_found id reward now t m k)
        (elim (Bool-cases ((ledger.key_of t id).0 == m && (ledger.key_of t id).1 == k)) [
          | inr e ↦ rw e h
          | inl e ↦ rw e (is_paid-confirmed reward now (ledger.found m k t) h)
        ])

  increment-Keeps :
      (u : ℕ) (reward : Reward) (t : ledger.State) → Keeps t (ledger.increment u reward t).1
  increment-Keeps u reward t m k h = rw (ledger.increment_found u reward t m k) h

  grant-Keeps :
      (now : ℕ) (p : MatchFinalizeParams) (rewards : List (ℕ × Reward)) (r : FinalResultItem)
      (id : ledger.RowId) (t : ledger.State)
      → Keeps t (grant ledger now p rewards r id t).1
  unfolding grant some_or_raise confirm_reward_once pure ◌>>=◌
  grant-Keeps now p rewards r id t m k h = elim (Option-cases (lookup r.user_id rewards)) [
    | inl e ↦ rw e h
    | inr (reward, e) ↦
        let after = ledger.confirm id reward now t in
        let kept = confirm-Keeps id reward now t m k h in
        elim (Bool-cases (after.0 == 1)) [
          | inr f ↦ rw (e, f) kept
          | inl f ↦
              let done = increment-Keeps r.user_id reward after.1 m k kept in
              elim (Result-cases (ledger.increment r.user_id reward after.1).0) [
                | inl (_, g) ↦ rw (e, f, g) done
                | inr (_, g) ↦ rw (e, f, g) done
              ]
        ]
  ]

  -- What was to be granted for the row is granted, unless the grant throws.
  grant-pays :
      (now : ℕ) (p : MatchFinalizeParams) (rewards : List (ℕ × Reward)) (r : FinalResultItem)
      (id : ledger.RowId) (t : ledger.State) {events : List RewardsGrantedEventPayload} (m k : ℕ)
      → ledger.key_of t id ≡ (m, k)
      → is_open (ledger.found m k t) ≡ true
      → (grant ledger now p rewards r id t).0 ≡ ok events
      → is_paid (ledger.found m k (grant ledger now p rewards r id t).1) ≡ true
  unfolding grant some_or_raise confirm_reward_once pure ◌>>=◌
  grant-pays now p rewards r id t m k key opened = elim (Option-cases (lookup r.user_id rewards)) [
    | inl e ↦ λ h. absurd (err-ne-ok (rw e at h))
    | inr (reward, e) ↦ λ h.
        let after = ledger.confirm id reward now t in
        let one : (after.0 == 1) ≡ true =
          rw (ledger.confirm_count id reward now t, key, opened) refl in
        let paid : is_paid (ledger.found m k after.1) ≡ true =
          rw (ledger.confirm_found id reward now t m k, key, ==_refl m, ==_refl k)
            (confirmed-open reward now (ledger.found m k t) opened) in
        let done = increment-Keeps r.user_id reward after.1 m k paid in
        elim (Result-cases (ledger.increment r.user_id reward after.1).0) [
          | inl (_, g) ↦ rw (e, one, g) done
          | inr (_, g) ↦ rw (e, one, g) done
        ]
  ]

  -- The user of the result is no member, or the reward of the member is granted.
  abbrev is_settled : MatchFinalizeParams → FinalResultItem → ledger.State → Bool
  is_settled p r t =
      member_of p r.user_id == 0 || is_paid (ledger.found (member_of p r.user_id) p.match_id t)

  settle-Keeps :
      (now : ℕ) (p : MatchFinalizeParams) (rewards : List (ℕ × Reward)) (r : FinalResultItem)
      (t : ledger.State)
      → Keeps t (settle ledger now p rewards r t).1
  unfolding settle upsert_match_result pure ◌>>=◌
  settle-Keeps now p rewards r t m k h = elim (Bool-cases (member_of p r.user_id == 0)) [
    | inl e ↦ rw e h
    | inr e ↦
        let after = ledger.upsert (member_of p r.user_id) p.match_id r.score r.placement t in
        let kept = upsert-Keeps (member_of p r.user_id) p.match_id r.score r.placement t m k h in
        elim (Result-cases after.0) [
          | inr (_, g) ↦ rw (e, g) kept
          | inl (row, g) ↦ elim (Bool-cases (is_some row.1)) [
            | inl f ↦ rw (e, g, f) kept
            | inr f ↦ rw (e, g, f) (grant-Keeps now p rewards r row.0 after.1 m k kept)
          ]
        ]
  ]

  settle-is_settled :
      (now : ℕ) (p : MatchFinalizeParams) (rewards : List (ℕ × Reward)) (r : FinalResultItem)
      (t : ledger.State) {events : List RewardsGrantedEventPayload}
      → (settle ledger now p rewards r t).0 ≡ ok events
      → is_settled p r (settle ledger now p rewards r t).1 ≡ true
  unfolding settle upsert_match_result pure ◌>>=◌
  settle-is_settled now p rewards r t = elim (Bool-cases (member_of p r.user_id == 0)) [
    | inl e ↦ λ h. rw e refl
    | inr e ↦
        let m = member_of p r.user_id in
        let after = ledger.upsert m p.match_id r.score r.placement t in
        let stored = scored r.score r.placement (ledger.found m p.match_id t) in
        elim (Result-cases after.0) [
          | inr (_, g) ↦ λ h. absurd (err-ne-ok (rw (e, g) at h))
          | inl (row, g) ↦
              let here : ledger.found m p.match_id after.1 ≡ some stored =
                rw
                  (
                    ledger.upsert_found m p.match_id r.score r.placement t g m p.match_id,
                    ==_refl m,
                    ==_refl p.match_id,
                  )
                  refl in
              let when = ledger.upsert_rewarded_at m p.match_id r.score r.placement t g in
              elim (Bool-cases (is_some stored.rewarded_at)) [
                | inl f ↦ λ h. rw (e, g, when, f, here, f) refl
                | inr f ↦ λ h.
                    let opened : is_open (ledger.found m p.match_id after.1) ≡ true =
                      rw (here, f) refl in
                    rw (e, g, when, f)
                      (grant-pays now p rewards r row.0 after.1 m p.match_id
                        (ledger.upsert_key m p.match_id r.score r.placement t g) opened
                        (rw (e, g, when, f) at h))
              ]
        ]
  ]

  -- Once settled, a result is only scored again.
  settle-again :
      (now : ℕ) (p : MatchFinalizeParams) (rewards : List (ℕ × Reward)) (r : FinalResultItem)
      (t : ledger.State)
      → is_settled p r t ≡ true
      → ((settle ledger now p rewards r t).0 ≡ ok [])
        × ((u : ℕ) → ledger.profile u (settle ledger now p rewards r t).1 ≡ ledger.profile u t)
  unfolding settle upsert_match_result pure ◌>>=◌
  settle-again now p rewards r t h = elim (Bool-cases (member_of p r.user_id == 0)) [
    | inl e ↦ (rw e refl, λ u. rw e refl)
    | inr e ↦
        let m = member_of p r.user_id in
        let after = ledger.upsert m p.match_id r.score r.placement t in
        let paid : is_paid (ledger.found m p.match_id t) ≡ true = (rw e at h) in
        let again =
          ledger.upsert_again m p.match_id r.score r.placement t
            (is_paid-is_some (ledger.found m p.match_id t) paid) in
        elim (Result-cases after.0) [
          | inr (_, g) ↦ absurd (true-ne-false (sym (rw g at again)))
          | inl (row, g) ↦
              let when : is_some row.1 ≡ true =
                rw
                  (
                    ledger.upsert_rewarded_at m p.match_id r.score r.placement t g,
                    is_paid-scored r.score r.placement (ledger.found m p.match_id t),
                  )
                  paid in
              (
                rw (e, g, when) refl,
                λ u. rw (e, g, when) (ledger.upsert_profile m p.match_id r.score r.placement t u),
              )
        ]
  ]

  is_settled-Keeps :
      (p : MatchFinalizeParams) (r : FinalResultItem) (t t' : ledger.State)
      → Keeps t t'
      → is_settled p r t ≡ true
      → is_settled p r t' ≡ true
  is_settled-Keeps p r t t' kept h = elim (Bool-cases (member_of p r.user_id == 0)) [
    | inl e ↦ rw e refl
    | inr e ↦ rw e (kept (member_of p r.user_id) p.match_id (rw e at h))
  ]

  settle_all-Keeps :
      (now : ℕ) (p : MatchFinalizeParams) (rewards : List (ℕ × Reward))
      (results : List FinalResultItem) (t : ledger.State)
      → Keeps t (settle_all ledger now p rewards results t).1
  unfolding settle_all pure ◌>>=◌
  settle_all-Keeps now p rewards [] t m k h = h
  settle_all-Keeps now p rewards (r ∷ results) t m k h =
      let after = settle ledger now p rewards r t in
      let kept = settle-Keeps now p rewards r t m k h in
      let done = settle_all-Keeps now p rewards results after.1 m k kept in
      elim (Result-cases after.0) [
        | inr (_, e) ↦ rw e kept
        | inl (_, e) ↦ elim (Result-cases (settle_all ledger now p rewards results after.1).0) [
          | inl (_, f) ↦ rw (e, f) done
          | inr (_, f) ↦ rw (e, f) done
        ]
      ]

  abbrev all_settled : MatchFinalizeParams → List FinalResultItem → ledger.State → Bool
  all_settled p results t = all (λ r. is_settled p r t) results

  all_settled-Keeps :
      (p : MatchFinalizeParams) (results : List FinalResultItem) (t t' : ledger.State)
      → Keeps t t'
      → all_settled p results t ≡ true
      → all_settled p results t' ≡ true
  all_settled-Keeps p [] t t' kept h = refl
  all_settled-Keeps p (r ∷ results) t t' kept h =
      let first = is_settled-Keeps p r t t' kept (ground (arith, h)) in
      let rest = all_settled-Keeps p results t t' kept (ground (arith, h)) in rw (first, rest) refl

  settle_all-all_settled :
      (now : ℕ) (p : MatchFinalizeParams) (rewards : List (ℕ × Reward))
      (results : List FinalResultItem) (t : ledger.State) {events : List RewardsGrantedEventPayload}
      → (settle_all ledger now p rewards results t).0 ≡ ok events
      → all_settled p results (settle_all ledger now p rewards results t).1 ≡ true
  unfolding settle_all pure ◌>>=◌
  settle_all-all_settled now p rewards [] t = λ h. refl
  settle_all-all_settled now p rewards (r ∷ results) t =
      let after = settle ledger now p rewards r t in
      let ends = settle_all ledger now p rewards results after.1 in
      elim (Result-cases after.0) [
        | inr (_, e) ↦ λ h. absurd (err-ne-ok (rw e at h))
        | inl (_, e) ↦ elim (Result-cases ends.0) [
          | inr (_, f) ↦ λ h. absurd (err-ne-ok (rw (e, f) at h))
          | inl (_, f) ↦ λ h.
              let here = settle-is_settled now p rewards r t e in
              let first =
                is_settled-Keeps p r after.1 ends.1 (settle_all-Keeps now p rewards results after.1)
                  here in
              let rest = settle_all-all_settled now p rewards results after.1 f in
              let moved : (settle_all ledger now p rewards (r ∷ results) t).1 ≡ ends.1 =
                rw (e, f) refl in
              subst (λ s. all_settled p (r ∷ results) s ≡ true) (sym moved) (rw (first, rest) refl)
        ]
      ]

  settle_all-again :
      (now : ℕ) (p : MatchFinalizeParams) (rewards : List (ℕ × Reward))
      (results : List FinalResultItem) (t : ledger.State)
      → all_settled p results t ≡ true
      → ((settle_all ledger now p rewards results t).0 ≡ ok [])
        × ((u : ℕ)
            → ledger.profile u (settle_all ledger now p rewards results t).1 ≡ ledger.profile u t)
  unfolding settle_all pure ◌>>=◌
  settle_all-again now p rewards [] t h = (refl, λ u. refl)
  settle_all-again now p rewards (r ∷ results) t h =
      let after = settle ledger now p rewards r t in
      let (none_here, same_here) = settle-again now p rewards r t (ground (arith, h)) in
      let (none_after, same_after) = settle_all-again now p rewards results after.1 (
        all_settled-Keeps p results t after.1 (settle-Keeps now p rewards r t)
          (ground (arith, h))) in
      (
        rw (none_here, none_after) refl,
        λ u. rw (none_here, none_after) (same_after u ∙ same_here u),
      )

  -- A match that was finalised may be finalised again, at any time: that succeeds with the same
  -- rewards, emits no event and changes the experience and the coins of nobody.
  pub finalize-finalize :
      (now later : ℕ) (p : MatchFinalizeParams) (t : ledger.State) {rewards : List (ℕ × Reward)}
      {events : List RewardsGrantedEventPayload}
      → (finalize_from_final_results ledger now p t).0 ≡ ok (rewards, events)
      → ((finalize_from_final_results ledger later p
            (finalize_from_final_results ledger now p t).1).0
          ≡ ok (rewards, []))
        × ((u : ℕ)
            → ledger.profile u
                (finalize_from_final_results ledger later p
                  (finalize_from_final_results ledger now p t).1).1
              ≡ ledger.profile u (finalize_from_final_results ledger now p t).1)
  unfolding finalize_from_final_results transaction pure ◌>>=◌
  finalize-finalize now later p t {rewards = rewards} =
      let given = rewards_of p.final_results [] in
      let ends = settle_all ledger now p given p.final_results t in
      elim (Result-cases ends.0) [
        | inr (_, e) ↦ λ h. absurd (err-ne-ok (rw e at h))
        | inl (_, e) ↦ λ h.
            let same : given ≡ rewards = ap (λ q. q.0) (ok-injective (rw e at h)) in
            let (no_event, kept) =
              settle_all-again later p given p.final_results ends.1
                (settle_all-all_settled now p given p.final_results t e) in
            (rw (e, no_event, same) refl, λ u. rw (e, no_event) (kept u))
      ]
