-- ===== src/Waiting.antt =====
-- The waiting room seen at one moment: src/waiting/entities/waiting.entity.ts, with the player
-- record of src/waiting/waiting.store.ts. `Waiting` is loaded from the room, the players and the
-- host, and every operation of the waiting room asks it first; a guard throws or passes.
pub mod Starting
pub mod Teams
pub mod Guards
pub mod Store
pub mod Service
pub mod Changes
pub mod Leaving
pub mod Hosts
use pollycasso_back.Prelude.{
  Bool, List, Option, Result, Text, [], all, any, bad_request, cannot_kick_self, conflict, count,
  false, filter, find, forbidden, game_already_started, game_start_not_enough_players,
  game_start_not_host, host_cannot_toggle_ready, if◌then◌else◌, includes, invalid_team, is_some_eq,
  leb, length, ltb, max_players_less_than_current, not, not_all_players_ready, not_found, ok,
  or_throw, permission_denied, player_not_found, room_full, solo_mode_no_teams, team_full,
  team_imbalance, throw_if, true, truthy?, ℕ, ◌&&◌, ◌+◌, ◌-◌, ◌/◌, ◌==◌, ◌>>=◌, ◌>>◌, ◌∷◌,
}
use pollycasso_back.Outfit.{OutfitIds}
use pollycasso_back.Room.{
  Room, RoomMode, solo, is_solo, is_team, is_waiting, solo_min_players, team_allowed_players,
  mode_eq,
}

pub data Team : Type 0 where
  red blue no_team : Team

abbrev pub team_eq : Team → Team → Bool
team_eq red red = true
team_eq blue blue = true
team_eq no_team no_team = true
team_eq _ _ = false

pub data PlayerPageStatus : Type 0 where
  idle shopping customizing : PlayerPageStatus

pub record WaitingPlayerState : Type 0 where
  pub user_id : ℕ
  pub nickname : Text
  pub team : Team
  pub is_ready : Bool
  pub level : ℕ
  pub page_status : PlayerPageStatus
  pub outfit : OutfitIds
  pub joined_at : ℕ

pub record Waiting : Type 0 where
  pub room : Room
  pub players : List WaitingPlayerState
  pub host_id : Option ℕ

-- `players.some((p) => p.userId === userId)`
abbrev pub has_player : Waiting → ℕ → Bool
has_player w user_id = any (λ p. p.user_id == user_id) w.players

abbrev pub team_count : Team → List WaitingPlayerState → ℕ
team_count t players = count (λ p. team_eq p.team t) players

unfoldable pub can_join : Waiting → ℕ → Result (Unit {0})
can_join w user_id = if has_player w user_id then ok tt else do
  throw_if (not (is_waiting w.room.status)) (conflict game_already_started)
  throw_if (leb w.room.max_players (length w.players)) (conflict room_full)

unfoldable pub requires_password : Waiting → Bool
requires_password w = w.room.is_private && truthy? w.room.hashed_password

unfoldable pub get_initial_team : Waiting → Team
get_initial_team w =
    if is_solo w.room.mode
    then no_team
    else if leb (team_count red w.players) (team_count blue w.players)
    then red
    else blue

unfoldable pub find_player_or_throw : Waiting → ℕ → Result WaitingPlayerState
find_player_or_throw w user_id =
    or_throw (find (λ p. p.user_id == user_id) w.players) (not_found player_not_found)

unfoldable pub validate_toggle_ready : Waiting → ℕ → Result (Unit {0})
unfolding find_player_or_throw
validate_toggle_ready w user_id = do
  throw_if (is_some_eq w.host_id user_id) (forbidden host_cannot_toggle_ready)
  _ ← find_player_or_throw w user_id
  ok tt

-- `Math.ceil(maxPlayers / 2)`
abbrev pub max_per_team : Waiting → ℕ
max_per_team w = (w.room.max_players + 1) / 2

unfoldable pub validate_team_change : Waiting → ℕ → Team → Result (Unit {0})
unfolding find_player_or_throw
validate_team_change w user_id new_team = do
  throw_if (is_solo w.room.mode) (bad_request solo_mode_no_teams)
  throw_if (team_eq new_team no_team) (bad_request invalid_team)
  _ ← find_player_or_throw w user_id
  throw_if
      (leb (max_per_team w)
        (count (λ p. team_eq p.team new_team && not (p.user_id == user_id)) w.players))
      (conflict team_full)

unfoldable pub validate_kick : Waiting → ℕ → ℕ → Result (Unit {0})
validate_kick w requester_id target_user_id = do
  throw_if (not (is_some_eq w.host_id requester_id)) (forbidden permission_denied)
  throw_if (requester_id == target_user_id) (bad_request cannot_kick_self)

unfoldable pub validate_settings_update : Waiting → ℕ → Result (Unit {0})
validate_settings_update w requester_id =
    throw_if (not (is_some_eq w.host_id requester_id)) (forbidden permission_denied)

unfoldable pub validate_player_exists : Waiting → ℕ → Result (Unit {0})
unfolding find_player_or_throw
validate_player_exists w user_id = do _ ← find_player_or_throw w user_id; ok tt

unfoldable pub validate_max_players_update : Waiting → ℕ → Result (Unit {0})
validate_max_players_update w new_max_players =
    throw_if (ltb new_max_players (length w.players)) (bad_request max_players_less_than_current)

abbrev pub should_reset_teams_for_mode : Waiting → RoomMode → Bool
should_reset_teams_for_mode w new_mode = not (mode_eq w.room.mode new_mode)

pub record TeamResetCommand : Type 0 where
  pub user_id : ℕ
  pub new_team : Team
  pub should_reset_ready : Bool

-- The team of the player at an index; the index's parity alternates along the list.
abbrev pub reset_team : RoomMode → Bool → Team
reset_team new_mode even = if is_solo new_mode then no_team else if even then red else blue

-- The `map` over the players, from an index of the given parity.
reset_commands : Option ℕ → RoomMode → Bool → List WaitingPlayerState → List TeamResetCommand
reset_commands host_id new_mode even [] = []
reset_commands host_id new_mode even (p ∷ ps) =
    record {
      user_id = p.user_id;
      new_team = reset_team new_mode even;
      should_reset_ready = not (is_some_eq host_id p.user_id);
    }
    ∷ reset_commands host_id new_mode (not even) ps

unfoldable pub generate_team_reset_commands : Waiting → RoomMode → List TeamResetCommand
unfolding reset_commands
generate_team_reset_commands w new_mode = reset_commands w.host_id new_mode true w.players

validate_start_permission : Waiting → ℕ → Result (Unit {0})
validate_start_permission w requester_id =
    throw_if (not (is_some_eq w.host_id requester_id)) (forbidden game_start_not_host)

validate_room_status : Waiting → Result (Unit {0})
validate_room_status w = throw_if (not (is_waiting w.room.status)) (conflict game_already_started)

validate_player_count : Waiting → Result (Unit {0})
validate_player_count w =
    if is_solo w.room.mode
    then throw_if (ltb (length w.players) solo_min_players) (conflict game_start_not_enough_players)
    else throw_if (not (includes team_allowed_players (length w.players)))
        (conflict game_start_not_enough_players)

abbrev pub non_host_players : Waiting → List WaitingPlayerState
non_host_players w = filter (λ p. not (is_some_eq w.host_id p.user_id)) w.players

validate_all_players_ready : Waiting → Result (Unit {0})
validate_all_players_ready w =
    throw_if
      (not (ltb 0 (length (non_host_players w)) && all (λ p. p.is_ready) (non_host_players w)))
      (conflict not_all_players_ready)

-- `Math.abs(a - b)`
abbrev pub distance : ℕ → ℕ → ℕ
distance a b = a - b + (b - a)

validate_team_balance : Waiting → Result (Unit {0})
validate_team_balance w =
    throw_if
      (is_team w.room.mode
        && ltb 1 (distance (team_count red w.players) (team_count blue w.players)))
      (conflict team_imbalance)

unfoldable pub validate_game_start : Waiting → ℕ → Result (Unit {0})
unfolding validate_start_permission validate_room_status validate_player_count
    validate_all_players_ready validate_team_balance
validate_game_start w requester_id = do
  validate_start_permission w requester_id
  validate_room_status w
  validate_player_count w
  validate_all_players_ready w
  validate_team_balance w
