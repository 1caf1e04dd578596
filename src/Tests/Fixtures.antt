-- ===== src/Tests/Fixtures.antt =====
-- Concrete rooms, players and games, and what surrounds the service in them.
use pollycasso_back.Prelude.{
  Bool, List, Option, Text, [], false, if◌then◌else◌, none, ok, some, true, value, whole, ℕ, ◌==◌,
  ◌∷◌,
}
use pollycasso_back.Outfit.{OutfitIds}
use pollycasso_back.Room.{RoomProps, Room}
use pollycasso_back.Room
use pollycasso_back.Waiting.{Team, WaitingPlayerState, Waiting}
use pollycasso_back.Waiting
use pollycasso_back.GameState.{
  GameState, GamePhase, PhaseContext, DrawingContext, EvaluatingContext,
}
use pollycasso_back.GameState.Store.{map_redis}
use pollycasso_back.Game.Service.{Server, Surroundings, end_drawing}

abbrev pub moon : Text
moon = b'm' ∷ b'o' ∷ b'n' ∷ []

abbrev pub star : Text
star = b's' ∷ b't' ∷ []

abbrev pub secret : Text
secret = b'#' ∷ []

-- A private team room of four, as it is stored.
abbrev pub team_props : RoomProps
team_props = record {
  name = moon;
  mode = Room.team;
  max_players = 4;
  is_private = true;
  hashed_password = some secret;
  status = Room.waiting;
}

abbrev pub team_room : Room
team_room = record { id = some 5; props = team_props }

abbrev pub plain_outfit : OutfitIds
plain_outfit = record {
  bird = 1;
  hat = none;
  accessory = none;
  top = none;
  bottom = none;
  shoes = none;
  effect = none;
}

abbrev pub player : ℕ → Team → Bool → WaitingPlayerState
player u t ready = record {
  user_id = u;
  nickname = star;
  team = t;
  is_ready = ready;
  level = 1;
  page_status = Waiting.idle;
  outfit = plain_outfit;
  joined_at = u;
}

-- The host 1 and three guests who are ready.
abbrev pub full_waiting : Waiting
full_waiting = record {
  room = team_room;
  players =
      player 1 Waiting.red false
      ∷ player 2 Waiting.blue true
      ∷ player 3 Waiting.red true
      ∷ player 4 Waiting.blue true
      ∷ [];
  host_id = some 1;
}

-- The same room with two players.
abbrev pub half_waiting : Waiting
half_waiting = record full_waiting {
  players = player 1 Waiting.red false ∷ player 2 Waiting.blue true ∷ [];
}

-- Member 11 is user 1, and so on.
abbrev pub members : List (ℕ × ℕ)
members = (1, 11) ∷ (2, 12) ∷ (3, 13) ∷ []

abbrev pub game_in : GamePhase → Option PhaseContext → GameState
game_in phase context = record {
  phase = phase;
  ends_at = some 1000;
  current_round = some 2;
  total_rounds = some 3;
  match_id = 7;
  room_member_id_by_user_id = members;
  current_theme = some moon;
  recent_themes = moon ∷ [];
  total_scores = [];
  phase_context = context;
}

abbrev pub choosing : GameState
choosing = game_in GamePhase.theme_selecting (
    some (PhaseContext.theme_selecting (record { selector_id = 1; selector_nickname = some star })))

-- User 1 has drawn; 2 has not.
abbrev pub drawing_context : DrawingContext
drawing_context = record {
  active_user_ids = 1 ∷ 2 ∷ [];
  ready_user_ids = 1 ∷ [];
  phase_instance_id = some star;
}

abbrev pub drawing_game : GameState
drawing_game = game_in GamePhase.drawing (some (PhaseContext.drawing drawing_context))

abbrev pub evaluating_context : EvaluatingContext
evaluating_context = record { active_user_ids = 1 ∷ 2 ∷ []; ready_user_ids = 1 ∷ [] }

abbrev pub evaluating_game : GameState
evaluating_game = game_in GamePhase.evaluating (some (PhaseContext.evaluating evaluating_context))

-- One game, in room 5.
abbrev pub only : GameState → ℕ → Option GameState
only st room_id = if 5 == room_id then some st else none

-- Every number is read as the digits say, and every call of another part succeeds.
abbrev pub calm : Surroundings
calm = record {
  now = 1000;
  uuid = star;
  draw = λ n. 0;
  themes = moon ∷ star ∷ [];
  socket_user_ids = λ r. 1 ∷ 2 ∷ [];
  nicknames = λ r. (1, moon) ∷ (2, star) ∷ [];
  players = λ r. full_waiting.players;
  to_number = λ s. whole (value s);
  start_drawing = λ r i us. ok tt;
  end_drawing = λ r i. ok tt;
  commit_drawings = λ r n st. ok tt;
  load_drawings = λ r n st. ok tt;
  count_targets = λ m r u. 1;
  sum_ratings = λ m r. [];
  drawings = λ m r. ok [];
  reset_room_to_waiting = λ room_id. ok tt;
  finish_match = λ m rs ms. ok [];
}

abbrev pub server_with : GameState → Server map_redis
server_with st = record {
  store = only st;
  timers = (5, end_drawing (some star)) ∷ [];
  summary_transition_guard = [];
  round_summary_exit_guard = [];
  sent = [];
}
