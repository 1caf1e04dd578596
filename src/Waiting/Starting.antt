-- ===== src/Waiting/Starting.antt =====
-- When a game may start and when a player may join
-- (src/waiting/entities/waiting.entity.ts).
use pollycasso_back.Prelude.{
  ℕ, ◌≤◌, ◌<◌, ◌≡◌, ◌≢◌, ◌⊎◌, ◌↔◌, true, not, Option, some, List, [], ◌∷◌, arith, length, All, Any,
  all, ok, filter, is_some_eq, ◌+◌, any, ◌==◌,
}
use pollycasso_back.Room.{RoomMode, solo, team, waiting}
use pollycasso_back.Waiting.{
  Waiting, WaitingPlayerState, red, blue, team_count, validate_game_start, can_join,
}

-- As many players as the mode asks for.
abbrev pub EnoughPlayers : RoomMode → ℕ → Type 0
EnoughPlayers solo n = 3 ≤ n
EnoughPlayers team n = (n ≡ 4) ⊎ (n ≡ 6)

-- In a team game neither team is ahead by more than one player.
abbrev pub IsBalanced : RoomMode → List WaitingPlayerState → Type 0
IsBalanced solo players = Unit {0}
IsBalanced team players =
    (team_count red players ≤ team_count blue players + 1)
    × (team_count blue players ≤ team_count red players + 1)

abbrev pub IsGuest : Option ℕ → WaitingPlayerState → Type 0
IsGuest host_id p = host_id ≢ some p.user_id

abbrev pub IsPrepared : Option ℕ → WaitingPlayerState → Type 0
IsPrepared host_id p = (host_id ≡ some p.user_id) ⊎ (p.is_ready ≡ true)

pub record MayStart (w : Waiting) (requester_id : ℕ) : Type 0 where
  pub host : w.host_id ≡ some requester_id
  pub waits : w.room.status ≡ waiting
  pub enough : EnoughPlayers w.room.mode (length w.players)
  pub guest : Any (IsGuest w.host_id) w.players
  pub prepared : All (IsPrepared w.host_id) w.players
  pub balanced : IsBalanced w.room.mode w.players

abbrev guests : Option ℕ → List WaitingPlayerState → List WaitingPlayerState
guests host_id = filter (λ p. not (is_some_eq host_id p.user_id))

guests-pos_iff :
    (h : Option ℕ) (ps : List WaitingPlayerState) → (0 < length (guests h ps)) ↔ Any (IsGuest h) ps
guests-pos_iff h [] = ground arith
guests-pos_iff h (p ∷ ps) = ground (arith, guests-pos_iff h ps)

guests-ready_iff :
    (h : Option ℕ) (ps : List WaitingPlayerState)
    → (all (λ p. p.is_ready) (guests h ps) ≡ true) ↔ All (IsPrepared h) ps
guests-ready_iff h [] = ground arith
guests-ready_iff h (p ∷ ps) = ground (arith, guests-ready_iff h ps)

-- A start is let through exactly when the host asks for it, the room waits, there are as many
-- players as the mode asks for, somebody but the host is there, everybody but the host is ready,
-- and in a team game the teams differ by one player at most.
pub validate_game_start_iff :
    (w : Waiting) (requester_id : ℕ)
    → (validate_game_start w requester_id ≡ ok tt) ↔ MayStart w requester_id
unfolding validate_game_start
validate_game_start_iff w requester_id =
    ground (arith, guests-pos_iff w.host_id w.players, guests-ready_iff w.host_id w.players)

has-Any_iff :
    (u : ℕ) (ps : List WaitingPlayerState)
    → (any (λ p. p.user_id == u) ps ≡ true) ↔ Any (λ p. p.user_id ≡ u) ps
has-Any_iff u [] = ground arith
has-Any_iff u (p ∷ ps) = ground (arith, has-Any_iff u ps)

-- A user may join exactly when already among the players, or when the room waits and has a free
-- place.
pub can_join_iff :
    (w : Waiting) (user_id : ℕ)
    → (can_join w user_id ≡ ok tt) ↔ (
        Any (λ p. p.user_id ≡ user_id) w.players
        ⊎ ((w.room.status ≡ waiting) × (length w.players < w.room.max_players)))
unfolding can_join
can_join_iff w user_id = ground (arith, has-Any_iff user_id w.players)
