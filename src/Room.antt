-- ===== src/Room.antt =====
-- The room entity: src/room/entities/room.entity.ts with the limits of
-- src/room/constants/room.constant.ts. The constructor and
-- `update` run `validate`, which throws or returns the props (with the password of a public room
-- dropped). The player limit is a natural number; the request DTO admits integers only.
pub mod Validity
use pollycasso_back.Prelude.{
  ℕ, Bool, true, false, not, ◌&&◌, ◌||◌, Option, none, some, List, [], ◌∷◌, ltb, ◌==◌,
  if◌then◌else◌, or_else, includes, Text, truthy?, Result, ok, err, bad_request, conflict,
  solo_mode_players, team_mode_players, private_room_needs_password, room_not_waiting,
  room_not_in_progress, ◌>>=◌, ◌>>◌, throw_if,
}

pub data RoomMode : Type 0 where
  solo team : RoomMode

pub data RoomStatus : Type 0 where
  waiting in_progress finished : RoomStatus

abbrev pub is_solo : RoomMode → Bool
is_solo solo = true
is_solo team = false

abbrev pub is_team : RoomMode → Bool
is_team m = not (is_solo m)

abbrev pub mode_eq : RoomMode → RoomMode → Bool
mode_eq a b = if is_solo a then is_solo b else is_team b

abbrev pub is_waiting : RoomStatus → Bool
is_waiting waiting = true
is_waiting _ = false

abbrev pub is_in_progress : RoomStatus → Bool
is_in_progress in_progress = true
is_in_progress _ = false

abbrev pub solo_min_players : ℕ
solo_min_players = 3

abbrev pub solo_max_players : ℕ
solo_max_players = 6

abbrev pub team_allowed_players : List ℕ
team_allowed_players = 4 ∷ 6 ∷ []

pub record RoomProps : Type 0 where
  pub name : Text
  pub mode : RoomMode
  pub max_players : ℕ
  pub is_private : Bool
  pub hashed_password : Option Text
  pub status : RoomStatus

pub record CreateRoomProps : Type 0 where
  pub name : Text
  pub mode : RoomMode
  pub max_players : ℕ
  pub is_private : Bool
  pub hashed_password : Option Text

-- `none` is undefined: the field is left alone. The password may also be set to null.
pub record UpdateRoomProps : Type 0 where
  pub name : Option Text
  pub mode : Option RoomMode
  pub max_players : Option ℕ
  pub is_private : Option Bool
  pub hashed_password : Option (Option Text)

pub record Room : Type 0 where
  pub id : Option ℕ
  pub props : RoomProps
  pub open props use *

unfoldable pub validate_player_count : RoomProps → Result (Unit {0})
validate_player_count p = do
  throw_if
      (is_solo p.mode && (ltb p.max_players solo_min_players || ltb solo_max_players p.max_players))
      (bad_request solo_mode_players)
  throw_if (is_team p.mode && not (includes team_allowed_players p.max_players))
      (bad_request team_mode_players)

unfoldable pub validate_password : RoomProps → Result RoomProps
validate_password p =
    if p.is_private
    then (if truthy? p.hashed_password then ok p else err (bad_request private_room_needs_password))
    else ok (record p { hashed_password = none })

unfoldable pub validate : RoomProps → Result RoomProps
unfolding validate_player_count validate_password
validate p = do validate_player_count p; validate_password p

-- `new Room(id, props)`
unfoldable pub new_room : Option ℕ → RoomProps → Result Room
new_room id p = do valid ← validate p; ok (record { id = id; props = valid })

unfoldable pub create : CreateRoomProps → Result Room
create p = new_room none (record {
  name = p.name;
  mode = p.mode;
  max_players = p.max_players;
  is_private = p.is_private;
  hashed_password = p.hashed_password;
  status = waiting;
})

unfoldable pub load : ℕ → RoomProps → Result Room
load id p = new_room (some id) p

-- The `Object.assign` of `update`.
abbrev pub assign : UpdateRoomProps → RoomProps → RoomProps
assign u p = record p {
  name = or_else u.name p.name;
  mode = or_else u.mode p.mode;
  max_players = or_else u.max_players p.max_players;
  is_private = or_else u.is_private p.is_private;
  hashed_password = or_else u.hashed_password p.hashed_password;
}

-- On an exception the program drops the changed object.
unfoldable pub update : UpdateRoomProps → Room → Result Room
update u r = do valid ← validate (assign u r.props); ok (record r { props = valid })

unfoldable pub start_game : Room → Result Room
start_game r = do
  throw_if (not (is_waiting r.status)) (conflict room_not_waiting)
  ok (record r { props = record (r.props) { status = in_progress } })

unfoldable pub finish_game : Room → Result Room
finish_game r = do
  throw_if (not (is_in_progress r.status)) (conflict room_not_in_progress)
  ok (record r { props = record (r.props) { status = waiting } })
