-- ===== src/Waiting/Hosts.antt =====
-- The host of a waiting room and its players: what src/waiting/waiting.service.ts keeps true of the
-- keys of src/waiting/waiting.store.ts, as a predicate that methods preserve.
pub mod Joining
pub mod Changing
pub mod Dropping
pub mod Leaving
pub mod Departing
pub mod Requests
pub mod Outcomes
use pollycasso_back.Prelude.{
  Bool, Bool-cases, Exception, Option, Option-cases, Result, Result-cases, arith, err, false,
  if◌then◌else◌, includes, inl, inr, is_ok, none, not_found, ok, or_else, refl, room_not_found,
  some, sym, true, value, ℕ, ◌==◌, ◌∙◌, ◌≡◌, ◌⊎◌,
}
use pollycasso_back.Exec.{Exec, ◌>>=◌, continue, lift, gets, some_or_raise, pure}
use pollycasso_back.Room.{Room, RoomProps, load}
use pollycasso_back.Waiting.Store.{
  WaitingRedis, Hall, PlayerHash, Identity, empty_hash, same_key, players_in, hset, get_players,
  get_host_id,
}
use pollycasso_back.Waiting.Service.{
  get_state, get_player_responses, find_room_or_throw, load_waiting_entity,
}

abbrev pub is_identity_of : ℕ → Option Identity → Bool
is_identity_of u none = false
is_identity_of u (some i) = value i.user_id == u

-- The hash is the one of a player with the given id.
abbrev pub is_hash_of : ℕ → Option PlayerHash → Bool
is_hash_of u none = false
is_hash_of u (some h) = is_identity_of u h.identity

-- An empty room has no host; the host of a room is one of its members.
abbrev pub Led : (ℕ → Bool) → Option ℕ → Type 0
Led member none = (u : ℕ) → member u ≡ false
Led member (some h) = member h ≡ true

same_hash : (k u r v : ℕ) → same_key (k, u) (r, v) ≡ true → (k ≡ r) × (u ≡ v)
same_hash k u r v h = ground arith

changed_hash :
    (change : PlayerHash → PlayerHash) (u : ℕ) (o : Option PlayerHash)
    → ((h : PlayerHash) → (change h).identity ≡ h.identity)
    → is_hash_of u (some (change (or_else o empty_hash))) ≡ is_hash_of u o
changed_hash change u none keeps = rw (keeps empty_hash) refl
changed_hash change u (some h) keeps = rw (keeps h) refl

pub Led-cong : (m n : ℕ → Bool) (h : Option ℕ) → ((u : ℕ) → n u ≡ m u) → Led m h → Led n h
Led-cong m n none same led = λ u. same u ∙ led u
Led-cong m n (some h) same led = same h ∙ led

-- The row passes the checks of the entity.
abbrev pub loads : ℕ → Option RoomProps → Bool
loads r none = false
loads r (some row) = is_ok (load r row)

module _ {redis : WaitingRedis} where
  abbrev pub is_member : Hall redis → ℕ → ℕ → Bool
  is_member s r u = includes (redis.members.smembers r s.members) u

  abbrev pub has_hash : Hall redis → ℕ → ℕ → Bool
  has_hash s r u = is_hash_of u (redis.players.get (r, u) s.players)

  abbrev pub host : Hall redis → ℕ → Option ℕ
  host s r = redis.hosts.get r s.hosts

  -- The room is stored, and its row passes the checks of the entity.
  abbrev pub exists : Hall redis → ℕ → Bool
  exists s r = loads r (redis.rooms.get r s.rooms)

  abbrev pub RoomOk : Hall redis → ℕ → Type 0
  RoomOk s r =
      ((u : ℕ) → is_member s r u ≡ true → has_hash s r u ≡ true) × Led (is_member s r) (host s r)

  abbrev pub IsWell : Hall redis → Type 0
  IsWell s = (r : ℕ) → exists s r ≡ true → RoomOk s r

  -- Nothing that matters to a room changed.
  abbrev pub Same : Hall redis → Hall redis → ℕ → Type 0
  Same s t r =
      ((u : ℕ) → is_member t r u ≡ is_member s r u)
      × ((u : ℕ) → has_hash t r u ≡ has_hash s r u)
      × (host t r ≡ host s r)

  pub Same-RoomOk : (s t : Hall redis) (r : ℕ) → Same s t r → RoomOk s r → RoomOk t r
  Same-RoomOk s t r (members, hashes, hosts) (named, led) = (
    (λ u m. hashes u ∙ named u (sym (members u) ∙ m)),
    rw hosts (Led-cong (is_member s r) (is_member t r) (host s r) members led),
  )

-- A method that keeps every room well, whatever it answers.
pub record Preserves {redis : WaitingRedis} {A : Type 0} (m : Exec (Hall redis) A) : Type 0 where
  pub keeps : (s : Hall redis) → IsWell s → IsWell (m s).1

module _ {redis : WaitingRedis} where
  pub lift-Preserves : {A : Type 0} (r : Result A) → Preserves {redis = redis} (lift r)
  unfolding lift
  lift-Preserves r = record { keeps = λ s h. h }

  pub pure-Preserves : {A : Type 0} (a : A) → Preserves {redis = redis} (pure a)
  unfolding pure
  pure-Preserves a = record { keeps = λ s h. h }

  pub gets-Preserves : {A : Type 0} (f : Hall redis → A) → Preserves (gets f)
  unfolding gets
  gets-Preserves f = record { keeps = λ s h. h }

  module _ {A B : Type 0} where
    pub continue-Preserves :
        (f : A → Exec (Hall redis) B) (r : Result A × Hall redis)
        → ((a : A) → Preserves (f a))
        → IsWell r.1
        → IsWell (continue f r).1
    continue-Preserves f (ok a, s) p h = (p a).keeps s h
    continue-Preserves f (err e, s) p h = h

    pub >>=-Preserves :
        {m : Exec (Hall redis) A} {f : A → Exec (Hall redis) B}
        → Preserves m
        → ((a : A) → Preserves (f a))
        → Preserves (m >>= f)
    unfolding ◌>>=◌
    >>=-Preserves {m = m} {f = f} p q = record {
      keeps = λ s h. continue-Preserves f (m s) q (p.keeps s h);
    }

  -- A single field of a hash changes neither whose hash it is nor the room.
  pub hset-Same :
      (k u : ℕ) (change : PlayerHash → PlayerHash) (s : Hall redis) (r : ℕ)
      → ((h : PlayerHash) → (change h).identity ≡ h.identity)
      → Same s (hset k u change s).1 r
  unfolding hset
  hset-Same k u change s r keeps = (
    (λ v. refl),
    (λ v. elim (Bool-cases (same_key (k, u) (r, v))) [
      | inl e ↦
          let (p, q) = same_hash k u r v e in
          let hash = redis.players.get (k, u) s.players in
          let written =
            redis.players.get_set (k, u) (r, v) (change (or_else hash empty_hash)) s.players in
          rw (written, e, sym p, sym q) (changed_hash change u hash keeps)
      | inr e ↦
          let hash = redis.players.get (k, u) s.players in
          let written =
            redis.players.get_set (k, u) (r, v) (change (or_else hash empty_hash)) s.players in
          rw (written, e) refl
    ]),
    refl,
  )

  pub hset-Preserves :
      (k u : ℕ) (change : PlayerHash → PlayerHash)
      → ((h : PlayerHash) → (change h).identity ≡ h.identity)
      → Preserves (hset {redis = redis} k u change)
  unfolding hset
  hset-Preserves k u change keeps = record {
    keeps = λ s well r there.
        Same-RoomOk s (hset k u change s).1 r (hset-Same k u change s r keeps) (well r there);
  }

  pub find_room_or_throw-cases :
      (k : ℕ) (s : Hall redis)
      → ((thrown : Exception) × (exists s k ≡ false) × (find_room_or_throw k s ≡ (err thrown, s)))
        ⊎ ((room : Room) × (exists s k ≡ true) × (find_room_or_throw k s ≡ (ok room, s)))
  unfolding find_room_or_throw ◌>>=◌ gets some_or_raise lift
  find_room_or_throw-cases k s = elim (Option-cases (redis.rooms.get k s.rooms)) [
    | inl e ↦ rw e (inl (not_found room_not_found, refl, refl))
    | inr (row, e) ↦ elim (Result-cases (load k row)) [
      | inl (room, f) ↦ rw (e, f) (inr (room, refl, refl))
      | inr (thrown, f) ↦ rw (e, f) (inl (thrown, refl, refl))
    ]
  ]

  pub find_room_or_throw-Preserves : (k : ℕ) → Preserves (find_room_or_throw {redis = redis} k)
  find_room_or_throw-Preserves k = record {
    keeps = λ s well. elim (find_room_or_throw-cases k s) [
      | inl (thrown, _, e) ↦ rw e well
      | inr (room, _, e) ↦ rw e well
    ];
  }

  -- What loading a waiting room comes to: an exception, or the room with its players and its host.
  pub load_waiting_entity-cases :
      (k : ℕ) (s : Hall redis)
      → ((thrown : Exception) × (load_waiting_entity k s ≡ (err thrown, s)))
        ⊎ ((room : Room) × (exists s k ≡ true)
            × (load_waiting_entity k s
                ≡ (ok (record { room = room; players = players_in k s; host_id = host s k }), s)))
  unfolding load_waiting_entity find_room_or_throw ◌>>=◌ gets some_or_raise lift get_players
      get_host_id pure
  load_waiting_entity-cases k s = elim (Option-cases (redis.rooms.get k s.rooms)) [
    | inl e ↦ rw e (inl (not_found room_not_found, refl))
    | inr (row, e) ↦ elim (Result-cases (load k row)) [
      | inl (room, f) ↦ rw (e, f) (inr (room, refl, refl))
      | inr (thrown, f) ↦ rw (e, f) (inl (thrown, refl))
    ]
  ]

  pub load_waiting_entity-Preserves : (k : ℕ) → Preserves (load_waiting_entity {redis = redis} k)
  load_waiting_entity-Preserves k = record {
    keeps = λ s well. elim (load_waiting_entity-cases k s) [
      | inl (thrown, e) ↦ rw e well
      | inr (room, _, e) ↦ rw e well
    ];
  }

  pub get_players-Preserves : (k : ℕ) → Preserves (get_players {redis = redis} k)
  unfolding get_players
  get_players-Preserves k = record { keeps = λ s well. well }

  pub get_state-Preserves : (k : ℕ) → Preserves (get_state {redis = redis} k)
  unfolding get_state
  get_state-Preserves k = >>=-Preserves (load_waiting_entity-Preserves k) λ w. pure-Preserves _

  pub get_player_responses-Preserves : (k : ℕ) → Preserves (get_player_responses {redis = redis} k)
  unfolding get_player_responses
  get_player_responses-Preserves k =
      >>=-Preserves (find_room_or_throw-Preserves k) λ room. get_players-Preserves k

  pub if-Preserves :
      {A : Type 0} (b : Bool) {m n : Exec (Hall redis) A}
      → Preserves m
      → Preserves n
      → Preserves (if b then m else n)
  if-Preserves true p q = p
  if-Preserves false p q = q
