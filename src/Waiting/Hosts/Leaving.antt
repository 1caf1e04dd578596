-- ===== src/Waiting/Hosts/Leaving.antt =====
-- `leaveRoom` and `autoTransferHost` of src/waiting/waiting.store.ts: the place of the host goes to the
-- player who joined first.
use pollycasso_back.Prelude.{
  ==_ne, ==_refl, All, All-sort, Bool-cases, List, Option-cases, [], arith, false, get_elem?, inl,
  inr, is_some_eq, leb, length, length-sort, none, ok, refl, some, some-injective, sort, sym, true,
  ℕ, ◌&&◌, ◌==◌, ◌∙◌, ◌∷◌, ◌≡◌, ◌≢◌, ◌⊎◌,
}
use mathlib.Core.Path.{subst}
use native.Mathlib.Decide.{ℕ_discrete}
use pollycasso_back.Exec.{pure, ◌>>=◌, modify}
use pollycasso_back.Waiting.{WaitingPlayerState}
use pollycasso_back.Waiting.Store.{
  flag, get_host_id, leave_room, players_in, earliest, get_players, clear_room, auto_transfer_host,
  hset, PlayerHash, WaitingRedis, Hall, drop_player, next_host,
}
use pollycasso_back.Waiting.Hosts.{is_member, has_hash, host, RoomOk, Led, Same-RoomOk, hset-Same}
use pollycasso_back.Waiting.Hosts.Dropping.{collected, dropped_named, dropped_Led}

empty_list : {A : Type 0} (xs : List A) → length xs ≡ 0 → xs ≡ []
empty_list [] h = refl
empty_list (x ∷ xs) h = absurd (omega (arith, h))

no_first : {A : Type 0} (xs : List A) → get_elem? xs 0 ≡ none → length xs ≡ 0
no_first [] h = refl
no_first (x ∷ xs) h = cc

first-All :
    {A : Type 0} (P : A → Type 0) (xs : List A) (a : A) → get_elem? xs 0 ≡ some a → All P xs → P a
first-All P [] a h p = cc
first-All P (x ∷ xs) a h p = subst P (some-injective h) p.0

module _ {redis : WaitingRedis} where
  -- What is left of a room: it is well, or it has no members; other rooms stay as they are.
  abbrev pub Left : ℕ → Hall redis → Hall redis → Type 0
  Left k s t =
      ((r : ℕ) → k ≢ r → RoomOk s r → RoomOk t r)
      × (RoomOk t k ⊎ (redis.members.smembers k t.members ≡ []))
      × (t.rooms ≡ s.rooms)

  dropped-RoomOk :
      (k u : ℕ) (s : Hall redis) (r : ℕ)
      → (k == r && is_some_eq (host s r) u) ≡ false
      → RoomOk s r
      → RoomOk (drop_player k u s).1 r
  unfolding drop_player
  dropped-RoomOk k u s r other (named, led) =
      (dropped_named k u s r named, dropped_Led k u s r other led)

  -- The next host is a member, and becomes ready.
  next_host-RoomOk :
      (k : ℕ) (p : WaitingPlayerState) (t : Hall redis)
      → is_member t k p.user_id ≡ true
      → (r : ℕ) → ((v : ℕ) → is_member t r v ≡ true → has_hash t r v ≡ true)
      → (k ≢ r → Led (is_member t r) (host t r))
      → RoomOk (next_host k (some p) t).1 r
  unfolding next_host modify ◌>>=◌
  next_host-RoomOk k p t member r named led =
      let t2 = record t { hosts = redis.hosts.set k p.user_id t.hosts } in
      let ready = λ (h : PlayerHash). record h { is_ready = some (flag true) } in
      Same-RoomOk t2 (hset k p.user_id ready t2).1 r (hset-Same k p.user_id ready t2 r λ h. refl) (
        named,
        elim (ℕ_discrete k r) [
          | yes e ↦ rw (redis.hosts.get_set k r p.user_id t.hosts, sym e, ==_refl k) member
          | no n ↦ rw (redis.hosts.get_set k r p.user_id t.hosts, ==_ne k r n) (led n)
        ],
      )

  cleared_empty :
      (k : ℕ) (t s : Hall redis)
      → redis.members.smembers k t.members ≡ []
      → ((r : ℕ) → k ≢ r → RoomOk s r → RoomOk t r)
      → t.rooms ≡ s.rooms
      → Left k s (next_host k none t).1
  unfolding next_host clear_room
  cleared_empty k t s empty others rooms = rw empty (others, inr empty, rooms)

  -- Passing on the place of the host after the drop of a player.
  transfer_lem :
      (k u : ℕ) (s : Hall redis)
      → RoomOk s k
      → Left k s (auto_transfer_host k (drop_player k u s).1).1
  unfolding auto_transfer_host get_players ◌>>=◌ drop_player next_host modify hset
  transfer_lem k u s (named, led) =
      let t = (drop_player k u s).1 in
      let us = redis.members.smembers k t.members in
      let (among, counted) = collected t k us (dropped_named k u s k named) (λ v h. h) in
      let others =
        λ (r : ℕ) (n : k ≢ r) (was : RoomOk s r). dropped-RoomOk k u s r (ground (arith, n)) was in
      elim (Option-cases (earliest (players_in k t))) [
        | inl e ↦
            let players = players_in k t in
            let le = λ (a b : WaitingPlayerState). leb a.joined_at b.joined_at in
            let empty =
              empty_list us
                (sym counted ∙ sym (length-sort le players) ∙ no_first (sort le players) e) in
            rw e (cleared_empty k t s empty others refl)
        | inr (p, e) ↦
            let le = λ (a b : WaitingPlayerState). leb a.joined_at b.joined_at in
            let member =
              first-All (λ q. is_member t k q.user_id ≡ true) (sort le (players_in k t)) p e
                (All-sort le (λ q. is_member t k q.user_id ≡ true) (players_in k t) among) in
            rw e (
              (λ r n was.
                  let (named', led') = others r n was in
                  next_host-RoomOk k p t member r named' λ _. led'),
              inl (
                  next_host-RoomOk k p t member k (dropped_named k u s k named)
                    λ n. absurd (n refl)),
              refl,
            )
      ]

  kept_lem :
      (k u : ℕ) (s : Hall redis)
      → is_some_eq (host s k) u ≡ false
      → RoomOk s k
      → Left k s (drop_player k u s).1
  unfolding drop_player
  kept_lem k u s e was = (
    (λ r n ok_r. dropped-RoomOk k u s r (ground (arith, n)) ok_r),
    inl (dropped-RoomOk k u s k (ground (arith, e)) was),
    refl,
  )

  -- A member leaves a room that is well: the room is well again, or has no members; if the host
  -- leaves, the player who joined first has the place.
  pub leave_room_lem : (k u : ℕ) (s : Hall redis) → RoomOk s k → Left k s (leave_room k u s).1
  unfolding leave_room get_host_id pure ◌>>=◌ drop_player auto_transfer_host
  leave_room_lem k u s ok_before = elim (Bool-cases (is_some_eq (host s k) u)) [
    | inl e ↦ rw e (transfer_lem k u s ok_before)
    | inr e ↦ rw e (kept_lem k u s e ok_before)
  ]

  -- Leaving throws nothing.
  pub leave_room_ok : (k u : ℕ) (s : Hall redis) → (leave_room k u s).0 ≡ ok tt
  unfolding leave_room get_host_id pure ◌>>=◌ drop_player auto_transfer_host get_players next_host
      clear_room modify hset
  leave_room_ok k u s = elim (Bool-cases (is_some_eq (host s k) u)) [
    | inr e ↦ rw e refl
    | inl e ↦ elim (Option-cases (earliest (players_in k (drop_player k u s).1))) [
      | inl f ↦ rw (e, f) refl
      | inr (p, f) ↦ rw (e, f) refl
    ]
  ]

  -- Where somebody else is the host, every room stays as well as it was.
  pub leave_other_lem :
      (k u : ℕ) (s : Hall redis)
      → is_some_eq (host s k) u ≡ false
      → ((r : ℕ) → RoomOk s r → RoomOk (leave_room k u s).1 r)
        × ((leave_room k u s).1.rooms ≡ s.rooms)
  unfolding leave_room get_host_id pure ◌>>=◌ drop_player
  leave_other_lem k u s e = rw e (
    (λ r was. elim (ℕ_discrete k r) [
      | yes p ↦ dropped-RoomOk k u s r (rw (sym p) (ground (arith, e))) was
      | no n ↦ dropped-RoomOk k u s r (ground (arith, n)) was
    ]),
    refl,
  )
