-- ===== src/Game/Items/Overlap.antt =====
-- Two messages that use one item at the same time: `useItem` of src/game/item/game-item.service.ts waits for the
-- spec cache between its checks and the changes that it makes.
use pollycasso_back.Prelude.{
  ==_refl, Option, Text, ap, arith, err-ne-ok, false, inl, inr, is_ok, ltb, ok, refl, some,
  some-injective, sym, text_eq_iff, true, ℕ, ◌+◌, ◌-◌, ◌<◌, ◌==◌, ◌∙◌, ◌≡◌, ◌≤◌,
}
use pollycasso_back.Exec.{Exec, ◌>>=◌, pure, lift}
use pollycasso_back.Game.Items.{
  Items, UseParams, UseItemResult, ItemSpec, decide, use_result, get_remaining, get_ends_at, spend,
}
use pollycasso_back.Game.Items.Service.{begin_use, finish_use, use_item}
use pollycasso_back.Game.Items.Uses.{
  left, ends_at, names, read_both, left-spend, left-read_both, user_of-user, use_item_lem,
}

-- The parameters of a later message of the same player for the same item.
abbrev pub later : UseParams → ℕ → Text → ℕ → UseParams
later p target nickname now = record p {
  target_user_id = target;
  target_nickname = nickname;
  now = now;
}

-- Two messages of which the second one starts while the first one waits for the spec cache.
abbrev pub overlapped :
    (ℕ → Option ItemSpec) → UseParams → UseParams → Exec Items (UseItemResult × UseItemResult)
overlapped specs p q = begin_use p >>= λ known. begin_use q >>= λ known_too.
    finish_use specs p known >>= λ first.
    finish_use specs q known_too >>= λ second. pure (first, second)

names_self : (p : UseParams) → names p p.phase_key p.attacker_user_id p.item_id ≡ true
names_self p =
    rw ((text_eq_iff p.phase_key p.phase_key).1 refl, ==_refl p.attacker_user_id, ==_refl p.item_id)
      refl

-- After a use, nothing of the item is left or its cooldown runs, so the next message is refused.
refused_after :
    (specs : ℕ → Option ItemSpec) (p : UseParams) (s : Items) (target : ℕ) (nickname : Text)
    (now : ℕ) (spec : ItemSpec)
    → specs p.item_id ≡ some spec
    → now < p.now + spec.cooldown_ms
    → (use_item specs p s).0
      ≡ ok (use_result p (left s p.phase_key p.attacker_user_id p.item_id) spec)
    → is_ok (use_item specs (later p target nickname now) (use_item specs p s).1).0 ≡ false
refused_after specs p s target nickname now spec known early done = elim (use_item_lem specs p s) [
  | inr (_, refused, _, _, _) ↦ absurd (err-ne-ok (sym refused ∙ done))
  | inl (spec', _, _, known', _, _, ends) ↦
      elim (use_item_lem specs (later p target nickname now) (use_item specs p s).1) [
        | inr (_, refused, _, _, _) ↦ rw refused refl
        | inl (_, _, over, _, _, _, _) ↦
            let same : spec' ≡ spec = some-injective (sym known' ∙ known) in
            let end : ends_at (use_item specs p s).1 p.phase_key p.attacker_user_id p.item_id
                ≡ p.now + spec'.cooldown_ms =
              (rw (names_self p) at (ends p.phase_key p.attacker_user_id p.item_id)) in
            let cooling = ap (λ sp. p.now + sp.cooldown_ms) same in
            absurd (omega (arith, over, end, cooling, early))
      ]
]

-- Both messages take one.
left-twice :
    (p : UseParams) (s : Items) (target : ℕ) (nickname : Text) (now first second : ℕ)
    → let q = later p target nickname now in
      left
        (spend q second (spend p first (read_both q (read_both p s))).1).1
        p.phase_key
        p.attacker_user_id
        p.item_id
      ≡ left s p.phase_key p.attacker_user_id p.item_id - 2
left-twice p s target nickname now first second =
    let q = later p target nickname now in
    let key = p.phase_key in
    let u = p.attacker_user_id in
    let middle = read_both q (read_both p s) in
    let one = left-spend p first middle key u p.item_id in
    let two = left-spend q second (spend p first middle).1 key u p.item_id in
    let here =
      left-read_both q (read_both p s) key u p.item_id ∙ left-read_both p s key u p.item_id in
    let self = names_self p in
    let one_less : left (spend p first middle).1 key u p.item_id ≡ left middle key u p.item_id - 1 =
      (rw self at one) in
    let two_less : left (spend q second (spend p first middle).1).1 key u p.item_id
        ≡ left (spend p first middle).1 key u p.item_id - 1 =
      (rw self at two) in
    omega (arith, one_less, two_less, here)

-- A player has some of an item, its cooldown is over, and two messages use it, the second one before a
-- cooldown that starts with the first one would be over. If the second message starts while the first
-- one waits for the spec of the item, both succeed, and both tell the same number that is left, though
-- two were taken (or the last one twice). If it starts after the first one is finished, it is refused.
pub overlapped_lem :
    (specs : ℕ → Option ItemSpec) (p : UseParams) (s : Items) (target : ℕ) (nickname : Text)
    (now : ℕ) (spec : ItemSpec)
    → 0 < left s p.phase_key p.attacker_user_id p.item_id
    → ends_at s p.phase_key p.attacker_user_id p.item_id ≤ p.now
    → p.now ≤ now
    → now < p.now + spec.cooldown_ms
    → specs p.item_id ≡ some spec
    → let q = later p target nickname now in
      let n = left s p.phase_key p.attacker_user_id p.item_id in
      ((overlapped specs p q s).0 ≡ ok (use_result p n spec, use_result q n spec))
      × (left (overlapped specs p q s).1 p.phase_key p.attacker_user_id p.item_id ≡ n - 2)
      × (is_ok (use_item specs q (use_item specs p s).1).0 ≡ false)
unfolding use_item begin_use finish_use get_remaining get_ends_at decide lift pure spend ◌>>=◌
overlapped_lem specs p s target nickname now spec some_left over after early known =
    let q = later p target nickname now in
    let key = p.phase_key in
    let u = p.attacker_user_id in
    let i = p.item_id in
    let e : (left s key u i == 0) ≡ false = ground (arith, some_left) in
    let f : ltb p.now (ends_at s key u i) ≡ false = ground (arith, over) in
    let g : ltb now (ends_at s key u i) ≡ false = ground (arith, over, after) in
    let same = user_of-user key u key u s.inventory in
    let same_end = user_of-user key u key u s.cooldowns in
    let ends = p.now + spec.cooldown_ms in
    let after_both : (overlapped specs p q s).1
        ≡ (spend q (now + spec.cooldown_ms) (spend p ends (read_both q (read_both p s))).1).1 =
      rw (e, f, known, same, same_end, e, g) refl in
    (
      rw (e, f, known, same, same_end, e, g) refl,
      ap (λ st. left st key u i) after_both
          ∙ left-twice p s target nickname now ends (now + spec.cooldown_ms),
      refused_after specs p s target nickname now spec known early (rw (e, f, known) refl),
    )
