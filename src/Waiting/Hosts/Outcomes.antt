-- ===== src/Waiting/Hosts/Outcomes.antt =====
-- What single methods of src/waiting/waiting.store.ts and src/waiting/waiting.service.ts come to: a player
-- is stored and read back, the host leaves, and a game starts.
use pollycasso_back.Prelude.{
  ==_refl, All, Bool, Bool-cases, IsSorted, List, [], ap, arith, count, count-sort, false,
  get_elem?, if◌then◌else◌, inl, inr, leb, none, not, ok, or_else, refl, some, some-injective, sort,
  sort-IsSorted, sym, true, value-show, ℕ, ◌+◌, ◌==◌, ◌∙◌, ◌∷◌, ◌≡◌,
}
use mathlib.Core.Path.{subst}
use pollycasso_back.Exec.{◌>>=◌, modify}
use pollycasso_back.Outfit.{default_outfit}
use pollycasso_back.Room.{Room}
use pollycasso_back.Room
use pollycasso_back.GameState.{GameState, GamePhase}
use pollycasso_back.Waiting.{WaitingPlayerState}
use pollycasso_back.Waiting.Store.{
  is_flag, hash_of, read_player, get_player, join_room, flag, PlayerHash, empty_hash, ready_now,
  WaitingRedis, Hall, players_in, earliest, drop_player, leave_room, auto_transfer_host, next_host,
  get_host_id, get_players, hset,
}
use pollycasso_back.Waiting.Hosts.{host}

-- An element that a test refuses is counted.
counted_none :
    {A : Type 0} (f : A → Bool) (xs : List A)
    → All (λ x. f x ≡ true) xs
    → count (λ x. not (f x)) xs ≡ 0
counted_none f [] h = refl
counted_none f (x ∷ xs) h = rw (h.0) (counted_none f xs h.1)

none_counted :
    {A : Type 0} (f : A → Bool) (xs : List A)
    → count (λ x. not (f x)) xs ≡ 0
    → All (λ x. f x ≡ true) xs
none_counted f [] h = tt
none_counted f (x ∷ xs) h = elim (Bool-cases (f x)) [
  | inl e ↦ (e, none_counted f xs (rw e at h))
  | inr e ↦ absurd (omega (arith, rw e at h))
]

abbrev pub joined_before : WaitingPlayerState → WaitingPlayerState → Bool
joined_before a b = leb a.joined_at b.joined_at

first-least :
    (xs : List WaitingPlayerState) (p : WaitingPlayerState)
    → IsSorted joined_before xs
    → get_elem? xs 0 ≡ some p
    → All (λ q. joined_before p q ≡ true) xs
first-least [] p sorted h = tt
first-least (x ∷ xs) p sorted h =
    subst (λ y. All (λ q. joined_before y q ≡ true) (x ∷ xs)) (some-injective h)
      (ground arith, sorted.0)

-- Nobody joined before the earliest of some players.
earliest-least :
    (players : List WaitingPlayerState) (p : WaitingPlayerState)
    → earliest players ≡ some p
    → All (λ q. joined_before p q ≡ true) players
earliest-least players p h = none_counted (joined_before p) players (
    sym (count-sort joined_before (λ q. not (joined_before p q)) players)
    ∙ counted_none (joined_before p) (sort joined_before players) (
        first-least (sort joined_before players) p
          (sort-IsSorted joined_before (λ a b e. ground (arith, e))
            (λ a b c e f. ground (arith, e, f)) players)
          h))

ready_set :
    (redis : WaitingRedis) (u : ℕ) (hash : PlayerHash) (players : redis.players.State) (k : ℕ)
    → ready_now (
        redis.players.get
          (k, u)
          (redis.players.set (k, u) (record hash { is_ready = some (flag true) }) players))
      ≡ true
ready_set redis u hash players k =
    rw
      (
        redis.players.get_set (k, u) (k, u) (record hash { is_ready = some (flag true) }) players,
        ==_refl k,
        ==_refl u,
      )
      refl

module _ {redis : WaitingRedis} where
  -- When the host leaves a room and others remain, the place goes to one of them whom nobody else joined
  -- before, and who is ready from then on.
  pub leave_room-host :
      (k u : ℕ) (s : Hall redis) (p : WaitingPlayerState)
      → host s k ≡ some u
      → earliest (players_in k (drop_player k u s).1) ≡ some p
      → (host (leave_room k u s).1 k ≡ some p.user_id)
        × All (λ q. joined_before p q ≡ true) (players_in k (drop_player k u s).1)
        × (ready_now (redis.players.get (k, p.user_id) (leave_room k u s).1.players) ≡ true)
  unfolding leave_room get_host_id drop_player auto_transfer_host get_players next_host modify hset
      ◌>>=◌
  leave_room-host k u s p led next =
      rw (led, ==_refl u, next)
        (
          redis.hosts.get_set k k p.user_id s.hosts ∙ rw (==_refl k) refl,
          earliest-least (players_in k (drop_player k u s).1) p next,
          ready_set redis p.user_id
              (or_else (redis.players.get (k, p.user_id) (redis.players.del (k, u) s.players))
                empty_hash)
              (redis.players.del (k, u) s.players) k,
        )

is_flag-flag : (b : Bool) → is_flag (some (flag b)) ≡ b
is_flag-flag true = refl
is_flag-flag false = refl

-- The texts of a hash are read as what was written, but for the outfit and level 0.
read-hash_of :
    (p : WaitingPlayerState)
    → read_player (some (hash_of p))
      ≡ some (record p { outfit = default_outfit; level = if p.level == 0 then 1 else p.level })
read-hash_of p =
    rw (value-show p.user_id, value-show p.level, value-show p.joined_at, is_flag-flag p.is_ready)
      refl

module _ {redis : WaitingRedis} where
  -- A player whom `joinRoom` stores as texts is read back by `getPlayer` with the default outfit in
  -- place of its own, because the stored text is taken for an outfit, and with level 1 in place of level 0.
  -- The id, the nickname, the team, the readiness, the page and the time of joining are those that were stored.
  pub get_player-join_room :
      (k : ℕ) (p : WaitingPlayerState) (s : Hall redis)
      → (get_player k p.user_id (join_room k p s).1).0
        ≡ ok (
            some
              (record p { outfit = default_outfit; level = if p.level == 0 then 1 else p.level }))
  unfolding get_player join_room
  get_player-join_room k p s =
      let stored : redis.players.get (k, p.user_id)
            (redis.players.set (k, p.user_id) (hash_of p) s.players)
          ≡ some (hash_of p) =
        rw
          (
            redis.players.get_set (k, p.user_id) (k, p.user_id) (hash_of p) s.players,
            ==_refl k,
            ==_refl p.user_id,
          )
          refl in
      rw stored (ap (λ o. ok o) (read-hash_of p))

-- A game that has just been started for a match and its members: it loads for five seconds, in the first
-- of three rounds, without a theme, a context and totals.
pub record IsStarted (now match_id : ℕ) (members : List (ℕ × ℕ)) (st : GameState) : Type 0 where
  pub phase : st.phase ≡ GamePhase.loading
  pub ends_at : st.ends_at ≡ some (now + 5000)
  pub first_round : st.current_round ≡ some 1
  pub three_rounds : st.total_rounds ≡ some 3
  pub match_of : st.match_id ≡ match_id
  pub members_of : st.room_member_id_by_user_id ≡ members
  pub no_theme : (st.current_theme ≡ none) × (st.recent_themes ≡ [])
  pub no_context : st.phase_context ≡ none
  pub no_totals : st.total_scores ≡ []
