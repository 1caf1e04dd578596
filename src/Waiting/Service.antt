-- ===== src/Waiting/Service.antt =====
-- The waiting service: src/waiting/waiting.service.ts, with the transaction that starts a game
-- (src/waiting/waiting.repository.ts) and the calls of the room service
-- (src/room/room.service.ts). Every method loads the waiting room and asks the entity first.
use pollycasso_back.Prelude.{
  Bool, List, Option, Result, Text, [], bad_request, err, false, forbidden, if◌then◌else◌, none,
  not, not_found, ok, or_else, room_invalid_password, room_not_found, room_password_required, some,
  true, truthy?, ℕ, ◌==◌, ◌∷◌,
}
use pollycasso_back.Exec.{Exec, pure, lift, gets, some_or_raise, ◌>>=◌, ◌>>◌}
use pollycasso_back.Outfit.{Raw, from_json, CosmeticSubCategory}
use pollycasso_back.Room.{Room, RoomMode, load}
use pollycasso_back.Waiting
use pollycasso_back.Waiting.{
  WaitingPlayerState, Waiting, Team, PlayerPageStatus, has_player, requires_password,
  get_initial_team, validate_toggle_ready, validate_team_change, validate_player_exists,
  validate_settings_update, validate_max_players_update, should_reset_teams_for_mode, reset_team,
  validate_kick, validate_game_start, can_join,
}
use pollycasso_back.Waiting.Store.{
  WaitingRedis, Hall, get_players, get_host_id, join_room, try_assign_host, set_ready,
}

-- A user with the profile, as the database has it.
pub record WaitingUser : Type 0 where
  pub nickname : Text
  pub level : Option ℕ
  pub outfit : Raw

-- What the methods ask of the clock, the password library, and other tables. The members that the
-- transaction saves and the match it creates are one answer; none is a failure, which rolls back.
pub record WaitingEnv : Type 0 where
  pub now : ℕ
  pub find_user : ℕ → Option WaitingUser
  pub compare : Text → Text → Bool
  pub hash : Text → Text
  pub owned : ℕ → List ℕ
  pub cosmetics : ℕ → Option CosmeticSubCategory
  pub save_members : ℕ → ℕ → List WaitingPlayerState → Option (ℕ × List (ℕ × ℕ))

pub record Settings : Type 0 where
  pub name : Option Text
  pub mode : Option RoomMode
  pub max_players : Option ℕ
  pub is_private : Option Bool
  pub password : Option Text

-- Who came, left or was told of new settings: the text of a system message.
pub data Announced : Type 0 where
  entered left kicked : Text → Announced
  settings_changed : Announced

pub record WaitingState : Type 0 where
  pub room : Room
  pub host_id : Option ℕ
  pub players : List WaitingPlayerState

abbrev unknown : Text
unknown = 0x55 ∷ 0x6e ∷ 0x6b ∷ 0x6e ∷ 0x6f ∷ 0x77 ∷ 0x6e ∷ []

abbrev pub loading_phase_duration_ms : ℕ
loading_phase_duration_ms = 5000

abbrev pub default_rounds : ℕ
default_rounds = 3

abbrev pub name_of : Option WaitingUser → Text
name_of none = unknown
name_of (some u) = u.nickname

abbrev pub level_of : Option WaitingUser → ℕ
level_of none = 1
level_of (some u) = or_else u.level 1

abbrev pub outfit_of : Option WaitingUser → Raw
outfit_of none = Raw.missing
outfit_of (some u) = u.outfit

unfoldable pub create_player : WaitingEnv → ℕ → Waiting → WaitingPlayerState
create_player env user_id w = record {
  user_id = user_id;
  nickname = name_of (env.find_user user_id);
  team = get_initial_team w;
  is_ready = false;
  level = level_of (env.find_user user_id);
  page_status = Waiting.idle;
  outfit = from_json (outfit_of (env.find_user user_id));
  joined_at = env.now;
}

unfoldable pub validate_password : WaitingEnv → Room → Option Text → Result (Unit {0})
validate_password env room password =
    if not (truthy? password)
    then err (bad_request room_password_required)
    else if not (env.compare (or_else password []) (or_else room.hashed_password []))
    then err (forbidden room_invalid_password)
    else ok tt

abbrev pub nickname_in : ℕ → List WaitingPlayerState → Option Text
nickname_in user_id [] = none
nickname_in user_id (p ∷ ps) =
    if p.user_id == user_id then some p.nickname else nickname_in user_id ps

module _ {redis : WaitingRedis} where
  -- `getOneRoom` of the room service throws where there is no room.
  unfoldable pub find_room_or_throw : ℕ → Exec (Hall redis) Room
  find_room_or_throw room_id = do
    row ← gets (λ s. redis.rooms.get room_id s.rooms)
    props ← some_or_raise row (not_found room_not_found)
    lift (load room_id props)

  unfoldable pub load_waiting_entity : ℕ → Exec (Hall redis) Waiting
  load_waiting_entity room_id = do
    room ← find_room_or_throw room_id
    players ← get_players room_id
    host_id ← get_host_id room_id
    pure (record { room = room; players = players; host_id = host_id })

  unfoldable pub get_state : ℕ → Exec (Hall redis) WaitingState
  get_state room_id = do
    w ← load_waiting_entity room_id
    pure (record { room = w.room; host_id = w.host_id; players = w.players })

  -- `getPlayers` and `getPlayerResponses`
  unfoldable pub get_player_responses : ℕ → Exec (Hall redis) (List WaitingPlayerState)
  get_player_responses room_id = do _ ← find_room_or_throw room_id; get_players room_id

  -- The first player of a room is its host, and ready.
  unfoldable pub welcome_host : ℕ → ℕ → Bool → Exec (Hall redis) (Unit {0})
  welcome_host room_id user_id is_host = if is_host then set_ready room_id user_id true else pure tt

  unfoldable pub admit : WaitingEnv → ℕ → ℕ → Option Text → Waiting → Exec (Hall redis) Text
  admit env room_id user_id password w = do
    lift (if requires_password w then validate_password env w.room password else ok tt)
    join_room room_id (create_player env user_id w)
    is_host ← try_assign_host room_id user_id
    welcome_host room_id user_id is_host
    pure (name_of (env.find_user user_id))

  unfoldable pub join :
      WaitingEnv → ℕ → ℕ → Option Text → Exec (Hall redis) (WaitingState × Announced)
  join env room_id user_id password = do
    w ← load_waiting_entity room_id
    lift (can_join w user_id)
    name ←
        if has_player w user_id
        then pure (or_else (nickname_in user_id w.players) [])
        else admit env room_id user_id password w
    state ← get_state room_id
    pure (state, entered name)
