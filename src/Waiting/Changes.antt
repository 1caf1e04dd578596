-- ===== src/Waiting/Changes.antt =====
-- What players and the host change while they wait, in src/waiting/waiting.service.ts: readiness, team,
-- page, outfit, settings (with `updateRoomWhileWaiting` of src/room/room.service.ts) and kicking.
use pollycasso_back.Prelude.{
  Bool, List, Option, Result, Text, [], false, if◌then◌else◌, is_some_eq, none, not, not_found, ok,
  or_else, player_not_found, some, true, truthy?, ℕ, ◌==◌, ◌∷◌,
}
use pollycasso_back.Exec.{Exec, pure, lift, modify, some_or_raise, ◌>>=◌, ◌>>◌}
use pollycasso_back.Outfit.{OutfitIds, validate_ownership, validate_categories}
use pollycasso_back.Room.{RoomProps, RoomMode, UpdateRoomProps, update}
use pollycasso_back.Waiting.{
  WaitingPlayerState, Waiting, Team, PlayerPageStatus, validate_toggle_ready, validate_team_change,
  validate_player_exists, validate_settings_update, validate_max_players_update,
  should_reset_teams_for_mode, reset_team, validate_kick,
}
use pollycasso_back.Waiting.Store
use pollycasso_back.Waiting.Store.{
  WaitingRedis, Hall, room_updated, get_players, set_ready, leave_room,
}
use pollycasso_back.Waiting.Service.{
  WaitingEnv, Settings, Announced, kicked, settings_changed, find_room_or_throw,
  load_waiting_entity, get_player_responses, nickname_in,
}

-- `if (settings.maxPlayers)`: 0 is not asked about.
abbrev pub max_players_allowed : Option ℕ → Waiting → Result (Unit {0})
max_players_allowed none w = ok tt
max_players_allowed (some n) w = if n == 0 then ok tt else validate_max_players_update w n

abbrev pub hashed : WaitingEnv → Option Text → Option (Option Text)
hashed env password =
    if truthy? password then some (some (env.hash (or_else password []))) else none

abbrev pub update_of : WaitingEnv → Settings → UpdateRoomProps
update_of env settings = record {
  name = settings.name;
  mode = settings.mode;
  max_players = settings.max_players;
  is_private = settings.is_private;
  hashed_password = hashed env settings.password;
}

abbrev or_some : Option Text → Option Text → Option Text
or_some none o = o
or_some (some a) o = some a

-- The row after `update` with what `RoomMapper.toPersistence` answers: it leaves out a password of
-- null, so the one that is stored stays.
abbrev pub persisted : Option RoomProps → RoomProps → RoomProps
persisted (some row) props = record props {
  hashed_password = or_some props.hashed_password row.hashed_password;
}
persisted none props = props

module _ {redis : WaitingRedis} where
  unfoldable pub toggle_ready : ℕ → ℕ → Exec (Hall redis) Bool
  toggle_ready room_id user_id = do
    w ← load_waiting_entity room_id
    lift (validate_toggle_ready w user_id)
    Store.toggle_ready room_id user_id

  unfoldable pub change_team : ℕ → ℕ → Team → Exec (Hall redis) (Unit {0})
  change_team room_id user_id team = do
    w ← load_waiting_entity room_id
    lift (validate_team_change w user_id team)
    Store.change_team room_id user_id team

  unfoldable pub update_page_status : ℕ → ℕ → PlayerPageStatus → Exec (Hall redis) (Unit {0})
  update_page_status room_id user_id status = do
    w ← load_waiting_entity room_id
    lift (validate_player_exists w user_id)
    Store.update_page_status room_id user_id status

  unfoldable pub update_outfit : WaitingEnv → ℕ → ℕ → OutfitIds → Exec (Hall redis) (Unit {0})
  update_outfit env room_id user_id outfit = do
    w ← load_waiting_entity room_id
    lift (validate_player_exists w user_id)
    lift (validate_ownership (env.owned user_id) outfit)
    lift (validate_categories env.cosmetics outfit)
    Store.update_outfit room_id user_id outfit

  -- The players of the loaded room, from an index of the given parity.
  unfoldable pub reset_teams_for_mode :
      ℕ → RoomMode → Option ℕ → Bool → List WaitingPlayerState → Exec (Hall redis) (Unit {0})
  reset_teams_for_mode room_id new_mode host_id even [] = pure tt
  reset_teams_for_mode room_id new_mode host_id even (p ∷ ps) = do
    Store.change_team room_id p.user_id (reset_team new_mode even)
    if is_some_eq host_id p.user_id then pure tt else set_ready room_id p.user_id false
    reset_teams_for_mode room_id new_mode host_id (not even) ps

  unfoldable pub reset_teams : ℕ → Option RoomMode → Waiting → Exec (Hall redis) (Unit {0})
  reset_teams room_id none w = pure tt
  reset_teams room_id (some new_mode) w =
      if should_reset_teams_for_mode w new_mode
      then reset_teams_for_mode room_id new_mode w.host_id true w.players
      else pure tt

  unfoldable pub update_room_while_waiting :
      WaitingEnv → ℕ → Settings → Exec (Hall redis) (Unit {0})
  update_room_while_waiting env room_id settings = do
    room ← find_room_or_throw room_id
    updated ← lift (update (update_of env settings) room)
    modify (λ s. record s {
      rooms =
          redis.rooms.set room_id (persisted (redis.rooms.get room_id s.rooms) updated.props)
            s.rooms;
      published = room_updated room_id ∷ s.published;
    })

  unfoldable pub update_settings :
      WaitingEnv → ℕ → ℕ → Settings → Exec (Hall redis) (List WaitingPlayerState × Announced)
  update_settings env room_id requester_id settings = do
    w ← load_waiting_entity room_id
    lift (validate_settings_update w requester_id)
    lift (max_players_allowed settings.max_players w)
    reset_teams room_id settings.mode w
    update_room_while_waiting env room_id settings
    players ← get_player_responses room_id
    pure (players, settings_changed)

  unfoldable pub kick_player : ℕ → ℕ → ℕ → Exec (Hall redis) (List WaitingPlayerState × Announced)
  kick_player room_id requester_id target_user_id = do
    w ← load_waiting_entity room_id
    lift (validate_kick w requester_id target_user_id)
    players ← get_players room_id
    nickname ← some_or_raise (nickname_in target_user_id players) (not_found player_not_found)
    leave_room room_id target_user_id
    responses ← get_player_responses room_id
    pure (responses, kicked nickname)
