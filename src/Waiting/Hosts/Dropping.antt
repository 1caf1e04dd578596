-- ===== src/Waiting/Hosts/Dropping.antt =====
-- What `leaveRoom` and `clearRoom` of src/waiting/waiting.store.ts do to the members of a room and to
-- its host.
use native.Mathlib.Decide.{ℕ_discrete}
use mathlib.Core.Path.{subst}
use pollycasso_back.Prelude.{
  ==_ne, ==_refl, All, Bool, Bool-cases, List, Option, Option-cases, [], ap, arith, false,
  if◌then◌else◌, includes, inl, inr, is_some_eq, length, none, not, refl, some, suc, sym, true,
  true-ne-false, ℕ, ◌&&◌, ◌==◌, ◌∙◌, ◌∷◌, ◌≡◌, ◌≢◌,
}
use pollycasso_back.Waiting.{WaitingPlayerState}
use pollycasso_back.Waiting.Store.{
  forget, clear_room, cleared, player_of, WaitingRedis, Hall, PlayerHash, same_key, read_player,
  collect, drop_player,
}
use pollycasso_back.Waiting.Hosts.{
  loads, Preserves, Same, Same-RoomOk, RoomOk, is_member, has_hash, host, is_hash_of, Led,
}

pub none_left : (xs : List ℕ) → ((v : ℕ) → includes xs v ≡ false) → xs ≡ []
none_left [] h = refl
none_left (x ∷ xs) h = absurd (true-ne-false (ground (arith, h x)))

-- The player that a hash of `u` describes is `u`.
read_named :
    (u : ℕ) (o : Option PlayerHash)
    → is_hash_of u o ≡ true
    → (p : WaitingPlayerState) × (read_player o ≡ some p) × (p.user_id ≡ u)
read_named u none h = absurd (true-ne-false (sym h))
read_named u (some hash) h = elim (Option-cases hash.identity) [
  | inl e ↦ absurd (true-ne-false (sym (rw e at h)))
  | inr (i, e) ↦ rw e (player_of i hash, refl, ground (arith, (rw e at h)))
]

-- `a && !b`
and_parts : (a b : Bool) → (a && not b) ≡ true → (a ≡ true) × (b ≡ false)
and_parts a b h = (ground (arith, h), ground (arith, h))

module _ {redis : WaitingRedis} where
  pub dropped_member :
      (k u : ℕ) (s : Hall redis) (r v : ℕ)
      → is_member (drop_player k u s).1 r v ≡ (is_member s r v && not (k == r && u == v))
  unfolding drop_player
  dropped_member k u s r v = redis.members.smembers_srem k u r v s.members

  pub dropped_hash :
      (k u : ℕ) (s : Hall redis) (r v : ℕ)
      → has_hash (drop_player k u s).1 r v
        ≡ (if same_key (k, u) (r, v) then false else has_hash s r v)
  unfolding drop_player
  dropped_hash k u s r v = elim (Bool-cases (same_key (k, u) (r, v))) [
    | inl e ↦ rw (redis.players.get_del (k, u) (r, v) s.players, e) refl
    | inr e ↦ rw (redis.players.get_del (k, u) (r, v) s.players, e) refl
  ]

  -- Whoever is still a member has a hash.
  pub dropped_named :
      (k u : ℕ) (s : Hall redis) (r : ℕ)
      → ((v : ℕ) → is_member s r v ≡ true → has_hash s r v ≡ true)
      → (v : ℕ) → is_member (drop_player k u s).1 r v ≡ true
      → has_hash (drop_player k u s).1 r v ≡ true
  dropped_named k u s r named v m =
      let (was, other) =
        and_parts (is_member s r v) (same_key (k, u) (r, v)) (sym (dropped_member k u s r v) ∙ m) in
      dropped_hash k u s r v ∙ rw other (named v was)

  pub dropped_Led :
      (k u : ℕ) (s : Hall redis) (r : ℕ)
      → (k == r && is_some_eq (host s r) u) ≡ false
      → Led (is_member s r) (host s r)
      → Led (is_member (drop_player k u s).1 r) (host s r)
  dropped_Led k u s r other led = elim (Option-cases (host s r)) [
    | inl e ↦ rw e λ v. dropped_member k u s r v ∙ ground (arith, (rw e at led) v)
    | inr (h, e) ↦ rw e (dropped_member k u s r h ∙ ground (arith, rw e at led, rw e at other))
  ]

  -- The players of a room are members of it.
  pub collected :
      (s : Hall redis) (k : ℕ) (us : List ℕ)
      → ((v : ℕ) → is_member s k v ≡ true → has_hash s k v ≡ true)
      → ((v : ℕ) → includes us v ≡ true → is_member s k v ≡ true)
      → All
          (λ p. is_member s k p.user_id ≡ true)
          (collect (λ v. read_player (redis.players.get (k, v) s.players)) us)
        × (length (collect (λ v. read_player (redis.players.get (k, v) s.players)) us) ≡ length us)
  collected s k [] named among = (tt, refl)
  collected s k (v ∷ us) named among =
      let here = among v (ground arith) in
      let (p, found, who) = read_named v (redis.players.get (k, v) s.players) (named v here) in
      let (rest, count_rest) = collected s k us named (λ w h. among w (ground (arith, h))) in
      rw found ((rw who here, rest), ap suc count_rest)

  forget_keys :
      (k : ℕ) (us : List ℕ) (s : Hall redis)
      → ((forget k us s).members ≡ s.members)
        × ((forget k us s).hosts ≡ s.hosts)
        × ((forget k us s).rooms ≡ s.rooms)
  forget_keys k [] s = (refl, refl, refl)
  forget_keys k (u ∷ us) s = forget_keys k us (record s {
    players = redis.players.del (k, u) s.players;
    current_rooms = redis.current_rooms.del u s.current_rooms;
  })

  forget_hash :
      (k : ℕ) (us : List ℕ) (s : Hall redis) (r v : ℕ)
      → k ≢ r
      → has_hash (forget k us s) r v ≡ has_hash s r v
  forget_hash k [] s r v n = refl
  forget_hash k (u ∷ us) s r v n =
      let t = record s {
        players = redis.players.del (k, u) s.players;
        current_rooms = redis.current_rooms.del u s.current_rooms;
      } in
      forget_hash k us t r v n
      ∙ rw (redis.players.get_del (k, u) (r, v) s.players, ==_ne k r n) refl

  -- Clearing a list of members leaves the other rooms alone.
  pub cleared-Same :
      (k : ℕ) (us : List ℕ) (s : Hall redis) (r : ℕ) → k ≢ r → Same s (cleared k us s) r
  cleared-Same k [] s r n = ((λ v. refl), (λ v. refl), refl)
  cleared-Same k (u ∷ us) s r n =
      let t = forget k (u ∷ us) s in
      let (members, hosts, _) = forget_keys k (u ∷ us) s in
      (
        (λ v.
            redis.members.smembers_del k r v t.members ∙ rw (members, ==_ne k r n) (ground arith)),
        (λ v. forget_hash k (u ∷ us) s r v n),
        redis.hosts.get_del k r t.hosts ∙ rw (hosts, ==_ne k r n) refl,
      )

  pub cleared_rooms : (k : ℕ) (us : List ℕ) (s : Hall redis) → (cleared k us s).rooms ≡ s.rooms
  cleared_rooms k [] s = refl
  cleared_rooms k (u ∷ us) s = (forget_keys k (u ∷ us) s).2

  -- The room itself has no member and no host then, if it had a member.
  cleared-RoomOk : (k u : ℕ) (us : List ℕ) (s : Hall redis) → RoomOk (cleared k (u ∷ us) s) k
  cleared-RoomOk k u us s =
      let t = forget k (u ∷ us) s in
      let gone = λ (v : ℕ). redis.members.smembers_del k k v t.members ∙ ground arith in
      (
        (λ v m. absurd (true-ne-false (sym m ∙ gone v))),
        rw (redis.hosts.get_del k k t.hosts, ==_refl k) gone,
      )

  cleared_here : (k : ℕ) (us : List ℕ) (s : Hall redis) → RoomOk s k → RoomOk (cleared k us s) k
  cleared_here k [] s was = was
  cleared_here k (u ∷ us) s was = cleared-RoomOk k u us s

  pub clear_room-Preserves : (k : ℕ) → Preserves (clear_room {redis = redis} k)
  unfolding clear_room
  clear_room-Preserves k = record {
    keeps = λ s well r there.
        let us = redis.members.smembers k s.members in
        let was = well r (
          subst (λ rooms. loads r (redis.rooms.get r rooms) ≡ true) (cleared_rooms k us s) there) in
        elim (ℕ_discrete k r) [
          | yes e ↦ subst (λ q. RoomOk s q → RoomOk (cleared k us s) q) e (cleared_here k us s) was
          | no n ↦ Same-RoomOk s (cleared k us s) r (cleared-Same k us s r n) was
        ];
  }
