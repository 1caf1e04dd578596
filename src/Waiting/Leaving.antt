-- ===== src/Waiting/Leaving.antt =====
-- Leaving a room and starting its game: `leaveRoom`, `handleLeave`, `handleDisconnect`, `startGame`,
-- `handleGameStart` and `canStartMatch` of src/waiting/waiting.service.ts, the transaction of
-- src/waiting/waiting.repository.ts and `removeRoom` of src/room/room.service.ts.
use pollycasso_back.Prelude.{
  Bool, List, Option, Result, Text, [], conflict, err, false, game_already_started,
  game_start_failed, game_start_not_enough_players, if◌then◌else◌, internal_error, is_ok, length,
  none, not, not_found, ok, room_not_found, some, true, ℕ, ◌+◌, ◌==◌, ◌||◌, ◌∷◌,
}
use pollycasso_back.Exec.{Exec, pure, lift, gets, modify, ◌>>=◌, ◌>>◌}
use pollycasso_back.Room.{Room, RoomProps, is_waiting}
use pollycasso_back.Room
use pollycasso_back.GameState.{GameState, GamePhase}
use pollycasso_back.Waiting.{WaitingPlayerState, Waiting, validate_game_start}
use pollycasso_back.Waiting.Store
use pollycasso_back.Waiting.Store.{
  WaitingRedis, Hall, room_updated, room_deleted, loading_started, get_players, clear_room,
  set_room_expiry,
}
use pollycasso_back.Waiting.Service.{
  WaitingEnv, Announced, left, find_room_or_throw, load_waiting_entity, get_player_responses,
  nickname_in, loading_phase_duration_ms, default_rounds,
}

pub record Departure : Type 0 where
  pub was_last_player : Bool
  pub players : List WaitingPlayerState
  pub system_message : Option Announced
  pub is_game_in_progress : Bool

pub data StartOutcome : Type 0 where
  game_started : ℕ → List (ℕ × ℕ) → StartOutcome
  no_players room_missing already_started failed : StartOutcome

abbrev pub start_result : StartOutcome → Result (ℕ × List (ℕ × ℕ))
start_result (game_started match_id members) = ok (match_id, members)
start_result no_players = err (conflict game_start_not_enough_players)
start_result room_missing = err (not_found room_not_found)
start_result already_started = err (conflict game_already_started)
start_result failed = err (internal_error game_start_failed)

abbrev left_message : Option Text → Option Announced
left_message none = none
left_message (some nickname) = some (left nickname)

abbrev pub loading_state : WaitingEnv → ℕ → List (ℕ × ℕ) → GameState
loading_state env match_id members = record {
  phase = GamePhase.loading;
  ends_at = some (env.now + loading_phase_duration_ms);
  current_round = some 1;
  total_rounds = some default_rounds;
  match_id = match_id;
  room_member_id_by_user_id = members;
  current_theme = none;
  recent_themes = [];
  phase_context = none;
  total_scores = [];
}

abbrev pub host_may_start : Option ℕ → Waiting → Bool
host_may_start none w = false
host_may_start (some host_id) w = is_ok (validate_game_start w host_id)

abbrev pub startable : Result Waiting → Bool
startable (err thrown) = false
startable (ok w) = host_may_start w.host_id w

-- The answer; nobody is told where nobody is left, or a game is on.
abbrev pub departure : List WaitingPlayerState → ℕ → Room → List WaitingPlayerState → Departure
departure players user_id room responses = record {
  was_last_player = length players == 1;
  players = responses;
  system_message =
      if length players == 1 || not (is_waiting room.status)
      then none
      else left_message (nickname_in user_id players);
  is_game_in_progress = not (is_waiting room.status);
}

module _ {redis : WaitingRedis} where
  unfoldable pub remove_room : ℕ → Exec (Hall redis) (Unit {0})
  remove_room room_id = do
    _ ← find_room_or_throw room_id
    modify (λ s. record s {
      rooms = redis.rooms.del room_id s.rooms;
      published = room_deleted room_id ∷ s.published;
    })

  unfoldable pub leave_room : ℕ → ℕ → Exec (Hall redis) (Unit {0})
  leave_room room_id user_id = do
    Store.leave_room room_id user_id
    players ← get_players room_id
    if length players == 0 then (do clear_room room_id; remove_room room_id) else pure tt

  unfoldable pub handle_leave : ℕ → ℕ → Exec (Hall redis) Departure
  handle_leave room_id user_id = do
    room ← find_room_or_throw room_id
    players ← get_player_responses room_id
    leave_room room_id user_id
    responses ← if length players == 1 then pure [] else get_player_responses room_id
    pure (departure players user_id room responses)

  -- A room in the waiting phase is left; a room in a game is cleared by its last player.
  unfoldable pub part : ℕ → ℕ → Bool → Bool → Exec (Hall redis) (Unit {0})
  part room_id user_id true last = leave_room room_id user_id
  part room_id user_id false true = clear_room room_id
  part room_id user_id false false = pure tt

  unfoldable pub depart : ℕ → ℕ → Room → Exec (Hall redis) Departure
  depart room_id user_id room = do
    players ← get_player_responses room_id
    part room_id user_id (is_waiting room.status) (length players == 1)
    responses ←
        if length players == 1 || not (is_waiting room.status)
        then pure []
        else get_player_responses room_id
    pure (departure players user_id room responses)

  -- `try { findRoomOrThrow } catch { return … }`
  unfoldable pub depart_from : ℕ → ℕ → Result Room → Exec (Hall redis) Departure
  depart_from room_id user_id (err thrown) = pure (record {
    was_last_player = false;
    players = [];
    system_message = none;
    is_game_in_progress = false;
  })
  depart_from room_id user_id (ok room) = depart room_id user_id room

  unfoldable pub handle_disconnect : ℕ → ℕ → Exec (Hall redis) Departure
  handle_disconnect room_id user_id s =
      let (found, t) = find_room_or_throw room_id s in depart_from room_id user_id found t

  unfoldable pub commit_start :
      ℕ → RoomProps → Option (ℕ × List (ℕ × ℕ)) → Exec (Hall redis) StartOutcome
  commit_start room_id row none = pure failed
  commit_start room_id row (some (match_id, members)) = do
    modify (λ s. record s {
      rooms = redis.rooms.set room_id (record row { status = Room.in_progress }) s.rooms;
    })
    pure (game_started match_id members)

  -- `markRoomInProgressAtomic` and what follows it in the transaction; a failure rolls back.
  unfoldable pub begin :
      WaitingEnv
      → ℕ
      → ℕ
      → List WaitingPlayerState
      → Option RoomProps
      → Exec (Hall redis) StartOutcome
  begin env room_id host_user_id players none = pure room_missing
  begin env room_id host_user_id players (some row) =
      if not (is_waiting row.status)
      then pure already_started
      else commit_start room_id row (env.save_members room_id host_user_id players)

  unfoldable pub start_game_tx :
      WaitingEnv → ℕ → ℕ → List WaitingPlayerState → Exec (Hall redis) StartOutcome
  start_game_tx env room_id host_user_id [] = pure no_players
  start_game_tx env room_id host_user_id (p ∷ ps) = do
    row ← gets (λ s. redis.rooms.get room_id s.rooms)
    begin env room_id host_user_id (p ∷ ps) row

  unfoldable pub start_game : WaitingEnv → ℕ → ℕ → Exec (Hall redis) (ℕ × List (ℕ × ℕ))
  start_game env room_id requester_id = do
    w ← load_waiting_entity room_id
    lift (validate_game_start w requester_id)
    outcome ← start_game_tx env room_id requester_id w.players
    result ← lift (start_result outcome)
    _ ← find_room_or_throw room_id
    modify (λ s. record s { published = room_updated room_id ∷ s.published })
    pure result

  unfoldable pub initialize_game_state :
      WaitingEnv → ℕ → ℕ → List (ℕ × ℕ) → Exec (Hall redis) GameState
  initialize_game_state env room_id match_id members = do
    modify (λ s. record s {
      games = redis.games.set room_id (loading_state env match_id members) s.games;
      published = loading_started room_id ∷ s.published;
    })
    pure (loading_state env match_id members)

  unfoldable pub handle_game_start : WaitingEnv → ℕ → ℕ → Exec (Hall redis) GameState
  handle_game_start env room_id requester_id = do
    (match_id, members) ← start_game env room_id requester_id
    set_room_expiry room_id
    initialize_game_state env room_id match_id members

  -- `waiting.validateGameStart(waiting.hostId!)`, or false where anything is thrown. Without a host no
  -- requester is one.
  unfoldable pub can_start_match : ℕ → Exec (Hall redis) Bool
  can_start_match room_id s =
      let (loaded, t) = load_waiting_entity room_id s in (ok (startable loaded), t)
