-- ===== src/Game/Results/Placements.antt =====
-- Placements and rewards: `buildFinalResults` of src/game/session/game-session.service.ts and
-- `rewardByPlacement` of src/game/finished/policies/reward.policy.ts.
use native.Mathlib.Decide.{ℕ_discrete}
use mathlib.Core.Path.{subst}
use pollycasso_back.Prelude.{
  All, Bool, IsSorted, List, Option, [], ap, arith, count, count-sort, false, if◌then◌else◌, length,
  ltb, map, none, refl, some, sort, sort-IsSorted, sym, true, ℕ, ◌+◌, ◌<◌, ◌==◌, ◌∙◌, ◌∷◌, ◌≡◌, ◌≤◌,
}
use pollycasso_back.Game.Results.{
  FinalResultItem, place, build_final_results, score_le, reward_by_placement,
}

-- The number of entries with a higher score.
abbrev higher : ℕ → List (ℕ × ℕ) → ℕ
higher n = count (λ e. ltb n e.1)

abbrev higher_scores : ℕ → List ℕ → ℕ
higher_scores n = count (λ s. ltb n s)

higher-none :
    (n : ℕ) (u : ℕ) (es : List (ℕ × ℕ)) → All (λ e. score_le (u, n) e ≡ true) es → higher n es ≡ 0
higher-none n u [] h = refl
higher-none n u (e ∷ es) h = ground (arith, higher-none n u es h.1)

higher_scores-All :
    (n s : ℕ) (ss : List ℕ) → n < s → All (λ t. s ≤ t) ss → higher_scores n ss ≡ length ss
higher_scores-All n s [] lt h = refl
higher_scores-All n s (t ∷ ss) lt h = ground (arith, higher_scores-All n s ss lt h.1)

All-le_trans : (n s : ℕ) (ss : List ℕ) → n ≤ s → All (λ t. s ≤ t) ss → All (λ t. n ≤ t) ss
All-le_trans n s [] le h = tt
All-le_trans n s (t ∷ ss) le h = (omega arith, All-le_trans n s ss le h.1)

abbrev IsPlaced : (List ℕ) → List (ℕ × ℕ) → FinalResultItem → Type 0
IsPlaced before es r = r.placement ≡ 1 + higher_scores r.score before + higher r.score es

-- `before` holds the scores that are placed already, the last one being `last`.
record IsTrail (last : ℕ) (placement index : ℕ) (before : List ℕ) : Type 0 where
  counted : index ≡ length before
  placed : placement ≡ 1 + higher_scores last before
  lowest : All (λ t. last ≤ t) before

IsPlaced-shift :
    (before : List ℕ) (u n : ℕ) (es : List (ℕ × ℕ)) (rs : List FinalResultItem)
    → All (IsPlaced (n ∷ before) es) rs
    → All (IsPlaced before ((u, n) ∷ es)) rs
IsPlaced-shift before u n es [] h = tt
IsPlaced-shift before u n es (r ∷ rs) h = (ground (arith, h.0), IsPlaced-shift before u n es rs h.1)

below-le :
    (u n : ℕ) (es : List (ℕ × ℕ)) → All (λ e. score_le (u, n) e ≡ true) es → All (λ e. e.1 ≤ n) es
below-le u n [] h = tt
below-le u n (e ∷ es) h = (ground arith, below-le u n es h.1)

abbrev next_placement : ℕ → ℕ → ℕ → ℕ → ℕ
next_placement last placement index n = if last == n then placement else index + 1

next_placement-lem :
    (last placement index n : ℕ) (before : List ℕ)
    → IsTrail last placement index before
    → n ≤ last
    → next_placement last placement index n ≡ 1 + higher_scores n before
next_placement-lem last placement index n before t le = elim (ℕ_discrete last n) [
  | yes e ↦ ground (arith, ap (λ k. higher_scores k before) e)
  | no ne ↦ ground (arith, higher_scores-All n last before (omega arith) t.lowest)
]

next-IsTrail :
    (last placement index n : ℕ) (before : List ℕ)
    → IsTrail last placement index before
    → n ≤ last
    → IsTrail n (next_placement last placement index n) (index + 1) (n ∷ before)
next-IsTrail last placement index n before t le = record {
  counted = ground arith;
  placed = ground (arith, next_placement-lem last placement index n before t le);
  lowest = (omega arith, All-le_trans n last before le t.lowest);
}

place-IsPlaced :
    (last placement index : ℕ) (before : List ℕ) (es : List (ℕ × ℕ))
    → IsTrail last placement index before
    → All (λ e. e.1 ≤ last) es
    → IsSorted score_le es
    → All (IsPlaced before es) (place (some last) placement index es)
unfolding place
place-IsPlaced last placement index before [] t le h = tt
place-IsPlaced last placement index before ((u, n) ∷ es) t le h = (
  ground (arith, next_placement-lem last placement index n before t le.0, higher-none n u es h.0),
  IsPlaced-shift before u n es _ (
      place-IsPlaced n (next_placement last placement index n) (index + 1) (n ∷ before) es
        (next-IsTrail last placement index n before t le.0) (below-le u n es h.0) h.1),
)

place_first-IsPlaced :
    (es : List (ℕ × ℕ)) → IsSorted score_le es → All (IsPlaced [] es) (place none 0 0 es)
unfolding place
place_first-IsPlaced [] h = tt
place_first-IsPlaced ((u, n) ∷ es) h = (
  ground (arith, higher-none n u es h.0),
  IsPlaced-shift [] u n es _ (
      place-IsPlaced n 1 1 (n ∷ []) es
        (record { counted = refl; placed = ground arith; lowest = (omega arith, tt) })
        (below-le u n es h.0) h.1),
)

abbrev entry : FinalResultItem → ℕ × ℕ
entry r = (r.user_id, r.score)

map-place :
    (last : Option ℕ) (placement index : ℕ) (es : List (ℕ × ℕ))
    → map entry (place last placement index es) ≡ es
unfolding place
map-place last placement index [] = refl
map-place last placement index ((u, n) ∷ es) =
    ap (λ l. (u, n) ∷ l) (map-place (some n) _ (index + 1) es)

score_le_total : (a b : ℕ × ℕ) → score_le a b ≡ false → score_le b a ≡ true
score_le_total a b h = ground arith

score_le_trans : (a b c : ℕ × ℕ) → score_le a b ≡ true → score_le b c ≡ true → score_le a c ≡ true
score_le_trans a b c h k = ground arith

All-ap :
    (es fs : List (ℕ × ℕ)) (rs : List FinalResultItem)
    → ((n : ℕ) → higher n es ≡ higher n fs)
    → All (IsPlaced [] es) rs
    → All (λ r. r.placement ≡ 1 + higher r.score fs) rs
All-ap es fs [] same h = tt
All-ap es fs (r ∷ rs) same h = (omega (arith, same r.score, h.0), All-ap es fs rs same h.1)

-- The final results list the given scores from the highest, each as often as it was given. The
-- placement of every result is one more than the number of scores that are higher: ties share a
-- placement, and the placements that they use up are skipped.
pub build_final_results_lem :
    (scores : List (ℕ × ℕ))
    → All (λ r. r.placement ≡ 1 + count (λ e. ltb r.score e.1) scores) (build_final_results scores)
      × IsSorted score_le (map (λ r. (r.user_id, r.score)) (build_final_results scores))
      × ((p : ℕ × ℕ → Bool)
          → count p (map (λ r. (r.user_id, r.score)) (build_final_results scores)) ≡ count p scores)
unfolding build_final_results
build_final_results_lem scores =
    let sorted = sort score_le scores in
    let entries : map entry (place none 0 0 sorted) ≡ sorted = map-place none 0 0 sorted in
    let order = sort-IsSorted score_le score_le_total score_le_trans scores in
    (
      All-ap sorted scores _ (λ n. count-sort score_le _ scores)
          (place_first-IsPlaced sorted order),
      subst (IsSorted score_le) (sym entries) order,
      λ p. ap (count p) entries ∙ count-sort score_le p scores,
    )

-- A better placement earns at least as much of both, and everybody who is placed earns something.
pub reward_by_placement-le :
    (p q : ℕ)
    → 1 ≤ p
    → p ≤ q
    → ((reward_by_placement (some q)).exp ≤ (reward_by_placement (some p)).exp)
      × ((reward_by_placement (some q)).coin ≤ (reward_by_placement (some p)).coin)
      × (0 < (reward_by_placement (some q)).exp)
      × (0 < (reward_by_placement (some q)).coin)
unfolding reward_by_placement
reward_by_placement-le p q h k = ground arith
