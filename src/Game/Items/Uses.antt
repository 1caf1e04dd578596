-- ===== src/Game/Items/Uses.antt =====
-- What uses of items do to the quantities and the cooldowns of all players, in
-- src/game/item/game-item.service.ts.
use pollycasso_back.Prelude.{
  ==_ne, ==_refl, Bool, Bool-cases, Exception, List, Option, Option-cases, Text, [], ap, arith,
  conflict, cooldown_remaining, err, if_ap, if◌then◌else◌, inl, inr, lookup, ltb, none, not_enough,
  ok, or_else, refl, some, spec_not_found, text_eq, text_eq_iff, text_lookup-text_insert,
  too_many_requests, true, ℕ, ◌&&◌, ◌+◌, ◌-◌, ◌<◌, ◌==◌, ◌∙◌, ◌∷◌, ◌≡◌, ◌≤◌, ◌⊎◌,
}
use native.Mathlib.Decide.{ℕ_discrete}
use pollycasso_back.Exec.{◌>>=◌, pure, lift}
use pollycasso_back.Game.Items.{
  Items, ItemState, UseParams, ItemSpec, Phases, map_set, phase_of, user_of, put_user, user,
  remaining_in, lowered, decide, use_result, get_remaining, get_ends_at, spend,
}
use pollycasso_back.Game.Items.Service.{begin_use, finish_use, use_item}

lookup-map_set :
    {V : Type 0} (k j : ℕ) (v : V) (m : List (ℕ × V))
    → lookup j (map_set k v m) ≡ (if k == j then some v else lookup j m)
lookup-map_set k j v [] = refl
lookup-map_set k j v ((i, w) ∷ m) = ground (arith, lookup-map_set k j v m)

abbrev same_user : Text → ℕ → Text → ℕ → Bool
same_user key u key' u' = text_eq key key' && u == u'

same_place :
    (key : Text) (u : ℕ) (key' : Text) (u' : ℕ)
    → same_user key u key' u' ≡ true
    → (key ≡ key') × (u ≡ u')
same_place key u key' u' h =
    let e : text_eq key key' ≡ true = ground (arith, h) in
    ((text_eq_iff key key').0 e, ground (arith, h))

module _ {V : Type 0} where
  user_of-put_user :
      (key : Text) (u : ℕ) (m : List (ℕ × V)) (key' : Text) (u' : ℕ) (s : Phases V)
      → user_of key' u' (put_user key u m s)
        ≡ (if text_eq key key' && u == u' then m else user_of key' u' s)
  user_of-put_user key u m key' u' s = elim (Bool-cases (text_eq key key')) [
    | inl e ↦
        let same = (text_eq_iff key key').0 e in
        rw (text_lookup-text_insert key key' (map_set u m (phase_of key s)) s, e)
          (ap (λ o. or_else o []) (lookup-map_set u u' m (phase_of key s))
            ∙ rw same (if_ap (λ o. or_else o []) (some m) (lookup u' (phase_of key' s)) (u == u')))
    | inr e ↦ rw (text_lookup-text_insert key key' (map_set u m (phase_of key s)) s, e) refl
  ]

  pub user_of-user :
      (key : Text) (u : ℕ) (key' : Text) (u' : ℕ) (s : Phases V)
      → user_of key' u' (user key u s) ≡ user_of key' u' s
  user_of-user key u key' u' s =
      user_of-put_user key u (user_of key u s) key' u' s
      ∙ elim (Bool-cases (same_user key u key' u')) [
        | inr e ↦ rw e refl
        | inl e ↦ let (p, q) = same_place key u key' u' e in rw (e, p, q) refl
      ]

-- The quantity that is left of an item, and the end of its cooldown, or 0.
abbrev pub left : Items → Text → ℕ → ℕ → ℕ
left s key u i = remaining_in (lookup i (user_of key u s.inventory))

abbrev pub ends_at : Items → Text → ℕ → ℕ → ℕ
ends_at s key u i = or_else (lookup i (user_of key u s.cooldowns)) 0

-- The parameters name this item of this player in this phase.
abbrev pub names : UseParams → Text → ℕ → ℕ → Bool
names p key u i = same_user p.phase_key p.attacker_user_id key u && p.item_id == i

abbrev pub read_both : UseParams → Items → Items
read_both p s = record s {
  inventory = user p.phase_key p.attacker_user_id s.inventory;
  cooldowns = user p.phase_key p.attacker_user_id s.cooldowns;
}

pub left-read_both :
    (p : UseParams) (s : Items) (key : Text) (u i : ℕ)
    → left (read_both p s) key u i ≡ left s key u i
left-read_both p s key u i = rw (user_of-user p.phase_key p.attacker_user_id key u s.inventory) refl

ends_at-read_both :
    (p : UseParams) (s : Items) (key : Text) (u i : ℕ)
    → ends_at (read_both p s) key u i ≡ ends_at s key u i
ends_at-read_both p s key u i =
    rw (user_of-user p.phase_key p.attacker_user_id key u s.cooldowns) refl

lowered_lem : (o : Option ItemState) → (lowered o).remaining ≡ remaining_in o - 1
lowered_lem none = refl
lowered_lem (some st) = refl

-- One of an item less, and the others as they were.
pub left-spend :
    (p : UseParams) (end : ℕ) (s : Items) (key : Text) (u i : ℕ)
    → left (spend p end s).1 key u i
      ≡ (if names p key u i then left s key u i - 1 else left s key u i)
unfolding spend
left-spend p end s key u i =
    let mine = user_of p.phase_key p.attacker_user_id s.inventory in
    let less = lowered (lookup p.item_id mine) in
    rw
      (user_of-put_user p.phase_key p.attacker_user_id (map_set p.item_id less mine) key u
        s.inventory)
      (elim (Bool-cases (same_user p.phase_key p.attacker_user_id key u)) [
        | inr e ↦ rw e refl
        | inl e ↦
            let (a, b) = same_place p.phase_key p.attacker_user_id key u e in
            elim (ℕ_discrete p.item_id i) [
              | yes q ↦
                  rw (e, lookup-map_set p.item_id i less mine, q, ==_refl i)
                    (lowered_lem (lookup i mine) ∙ rw (a, b) refl)
              | no n ↦
                  rw (e, lookup-map_set p.item_id i less mine, ==_ne p.item_id i n) (rw (a, b) refl)
            ]
      ])

ends_at-spend :
    (p : UseParams) (end : ℕ) (s : Items) (key : Text) (u i : ℕ)
    → ends_at (spend p end s).1 key u i ≡ (if names p key u i then end else ends_at s key u i)
unfolding spend
ends_at-spend p end s key u i =
    let mine = user_of p.phase_key p.attacker_user_id s.cooldowns in
    rw
      (user_of-put_user p.phase_key p.attacker_user_id (map_set p.item_id end mine) key u
        s.cooldowns)
      (elim (Bool-cases (same_user p.phase_key p.attacker_user_id key u)) [
        | inr e ↦ rw e refl
        | inl e ↦
            let (a, b) = same_place p.phase_key p.attacker_user_id key u e in
            elim (ℕ_discrete p.item_id i) [
              | yes q ↦ rw (e, lookup-map_set p.item_id i end mine, q, ==_refl i) refl
              | no n ↦
                  rw (e, lookup-map_set p.item_id i end mine, ==_ne p.item_id i n) (rw (a, b) refl)
            ]
      ])

-- The use succeeds: an item was left, its cooldown was over and its spec is known. One less of it is
-- left, and its cooldown begins.
abbrev pub Succeeds : (ℕ → Option ItemSpec) → UseParams → Items → Type 0
Succeeds specs p s =
    (spec : ItemSpec) × (0 < left s p.phase_key p.attacker_user_id p.item_id)
    × (ends_at s p.phase_key p.attacker_user_id p.item_id ≤ p.now)
    × (specs p.item_id ≡ some spec)
    × ((use_item specs p s).0
        ≡ ok (use_result p (left s p.phase_key p.attacker_user_id p.item_id) spec))
    × ((key : Text) (u i : ℕ)
        → left (use_item specs p s).1 key u i
          ≡ (if names p key u i then left s key u i - 1 else left s key u i))
    × ((key : Text) (u i : ℕ)
        → ends_at (use_item specs p s).1 key u i
          ≡ (if names p key u i then p.now + spec.cooldown_ms else ends_at s key u i))

-- The use is refused with the first reason that there is, and nothing changes.
abbrev pub IsRefused : (ℕ → Option ItemSpec) → UseParams → Items → Type 0
IsRefused specs p s =
    (thrown : Exception) × ((use_item specs p s).0 ≡ err thrown)
    × (((left s p.phase_key p.attacker_user_id p.item_id ≡ 0) × (thrown ≡ conflict not_enough))
        ⊎ ((p.now < ends_at s p.phase_key p.attacker_user_id p.item_id)
            × (thrown ≡ too_many_requests cooldown_remaining))
        ⊎ ((specs p.item_id ≡ none) × (thrown ≡ conflict spec_not_found)))
    × ((key : Text) (u i : ℕ) → left (use_item specs p s).1 key u i ≡ left s key u i)
    × ((key : Text) (u i : ℕ) → ends_at (use_item specs p s).1 key u i ≡ ends_at s key u i)

-- A use of an item during which no other message runs either succeeds, where some of it is left, its
-- cooldown is over and its spec is known, and then takes one of it and begins its cooldown; or it is
-- refused for one of the three reasons, and changes no quantity and no cooldown of anybody. Other items, players and phases are never
-- changed.
pub use_item_lem :
    (specs : ℕ → Option ItemSpec) (p : UseParams) (s : Items)
    → Succeeds specs p s ⊎ IsRefused specs p s
unfolding use_item begin_use finish_use get_remaining get_ends_at decide lift pure spend ◌>>=◌
use_item_lem specs p s =
    let n = left s p.phase_key p.attacker_user_id p.item_id in
    let end = ends_at s p.phase_key p.attacker_user_id p.item_id in
    elim (Bool-cases (n == 0)) [
      | inl e ↦ inr (
        conflict not_enough,
        rw e refl,
        inl (ground (arith, e), refl),
        (λ key u i. rw e (left-read_both p s key u i)),
        λ key u i. rw e (ends_at-read_both p s key u i),
      )
      | inr e ↦ elim (Bool-cases (ltb p.now end)) [
        | inl f ↦ inr (
          too_many_requests cooldown_remaining,
          rw (e, f) refl,
          inr (inl (ground (arith, f), refl)),
          (λ key u i. rw (e, f) (left-read_both p s key u i)),
          λ key u i. rw (e, f) (ends_at-read_both p s key u i),
        )
        | inr f ↦ elim (Option-cases (specs p.item_id)) [
          | inl g ↦ inr (
            conflict spec_not_found,
            rw (e, f, g) refl,
            inr (inr (g, refl)),
            (λ key u i. rw (e, f, g) (left-read_both p s key u i)),
            λ key u i. rw (e, f, g) (ends_at-read_both p s key u i),
          )
          | inr (spec, g) ↦
              let ends = p.now + spec.cooldown_ms in
              inl (
                spec,
                ground (arith, e),
                ground (arith, f),
                g,
                rw (e, f, g) refl,
                (λ key u i.
                    rw (e, f, g)
                      (left-spend p ends (read_both p s) key u i
                        ∙ rw (left-read_both p s key u i) refl)),
                λ key u i.
                    rw (e, f, g)
                      (ends_at-spend p ends (read_both p s) key u i
                        ∙ rw (ends_at-read_both p s key u i) refl),
              )
        ]
      ]
    ]
