-- ===== src/Tests/Rooms.antt =====
-- The room entity and the waiting room.
use pollycasso_back.Prelude.{
  Any, arith, conflict, err, false, length, none, ok, refl, room_not_waiting, some, true, ℕ, ◌+◌,
  ◌/◌, ◌<◌, ◌↔◌, ◌≡◌, ◌≢◌, ◌≤◌, ◌⊎◌,
}
use pollycasso_back.Room.{
  RoomProps, CreateRoomProps, UpdateRoomProps, Room, validate, create, load, update, start_game,
  finish_game,
}
use pollycasso_back.Room
use pollycasso_back.Room.Validity.{
  IsAccepted, IsValid, without_stale_password, validate_iff, create-load-IsValid, update-IsValid,
  finish_game-start_game,
}
use pollycasso_back.Waiting.{
  get_initial_team, Team, WaitingPlayerState, can_join, validate_game_start, validate_team_change,
  team_count, generate_team_reset_commands, max_per_team,
}
use pollycasso_back.Waiting
use pollycasso_back.Waiting.{
  validate_kick, validate_settings_update, validate_toggle_ready, validate_player_exists,
  validate_max_players_update,
}
use pollycasso_back.Waiting.Guards.{guards_iff}
use pollycasso_back.Waiting.Starting.{IsBalanced, MayStart, validate_game_start_iff, can_join_iff}
use pollycasso_back.Waiting.Teams.{
  seated, moved, Deals, reset_all, get_initial_team-IsBalanced, validate_team_change-bounds,
  generate_team_reset_commands-IsBalanced,
}
use pollycasso_back.Tests.Fixtures.{
  moon, secret, team_props, team_room, player, full_waiting, half_waiting,
}

-- A public room with a stale password.
abbrev opened : RoomProps
opened = record team_props { is_private = false }

validate_example :
    (validate opened ≡ ok (without_stale_password opened))
    ↔ (IsAccepted opened × (without_stale_password opened ≡ without_stale_password opened))
validate_example = validate_iff opened (without_stale_password opened)

abbrev wanted : CreateRoomProps
wanted = record {
  name = moon;
  mode = Room.team;
  max_players = 4;
  is_private = true;
  hashed_password = some secret;
}

abbrev made : Room
made = record { id = none; props = team_props }

create-load_example :
    (IsValid made.props × (made.id ≡ none) × (made.status ≡ Room.waiting))
    × (IsValid team_room.props × (team_room.id ≡ some 5) × (team_room.status ≡ Room.waiting))
unfolding create load Room.new_room validate
create-load_example = create-load-IsValid wanted 5 team_props made team_room refl refl

abbrev opening : UpdateRoomProps
opening = record {
  name = none;
  mode = some Room.solo;
  max_players = some 3;
  is_private = some false;
  hashed_password = none;
}

abbrev opened_room : Room
opened_room = record {
  id = some 5;
  props = record team_props {
    mode = Room.solo;
    max_players = 3;
    is_private = false;
    hashed_password = none;
  };
}

update_example :
    IsValid opened_room.props
    × (opened_room.id ≡ some 5)
    × (opened_room.status ≡ Room.waiting)
    × (opened_room.name ≡ moon)
    × (opened_room.mode ≡ Room.solo)
    × (opened_room.max_players ≡ 3)
    × (opened_room.is_private ≡ false)
unfolding update validate
update_example = update-IsValid opening team_room opened_room refl

abbrev playing : Room
playing = record team_room { props = record team_props { status = Room.in_progress } }

start_finish_example :
    (team_room.status ≡ Room.waiting)
    × (start_game playing ≡ err (conflict room_not_waiting))
    × (finish_game playing ≡ ok team_room)
unfolding start_game
start_finish_example = finish_game-start_game team_room playing refl

game_start_example : (validate_game_start full_waiting 1 ≡ ok tt) ↔ MayStart full_waiting 1
game_start_example = validate_game_start_iff full_waiting 1

can_join_example : (can_join half_waiting 9 ≡ ok tt) ↔ (
    Any (λ p. p.user_id ≡ 9) half_waiting.players
    ⊎ ((half_waiting.room.status ≡ Room.waiting)
        × (length half_waiting.players < half_waiting.room.max_players)))
can_join_example = can_join_iff half_waiting 9

initial_team_example :
    IsBalanced Room.team (seated half_waiting (player 9 Waiting.no_team false))
    × (((Room.team ≡ Room.solo) × (get_initial_team half_waiting ≡ Waiting.no_team))
        ⊎ ((Room.team ≡ Room.team)
            × (team_count Waiting.red half_waiting.players
                ≤ team_count Waiting.blue half_waiting.players)
            × (get_initial_team half_waiting ≡ Waiting.red))
        ⊎ ((Room.team ≡ Room.team)
            × (team_count Waiting.blue half_waiting.players
                < team_count Waiting.red half_waiting.players)
            × (get_initial_team half_waiting ≡ Waiting.blue)))
initial_team_example =
    get_initial_team-IsBalanced half_waiting (player 9 Waiting.no_team false)
      (omega arith, omega arith)

team_change_example :
    (half_waiting.room.mode ≡ Room.team)
    × (Waiting.red ≢ Waiting.no_team)
    × (team_count Waiting.red (moved 2 Waiting.red half_waiting.players)
        ≤ (half_waiting.room.max_players + 1) / 2)
unfolding validate_team_change
team_change_example =
    validate_team_change-bounds half_waiting 2 Waiting.red ((ground arith, tt), (tt, tt)) refl

team_reset_example :
    Deals (some 1) (generate_team_reset_commands full_waiting Room.team) full_waiting.players
    × IsBalanced Room.team
        (reset_all (generate_team_reset_commands full_waiting Room.team) full_waiting.players)
team_reset_example = generate_team_reset_commands-IsBalanced full_waiting Room.team

guards_example :
    ((validate_kick full_waiting 1 3 ≡ ok tt)
      ↔ ((full_waiting.host_id ≡ some 1) × (◌≢◌ {A = ℕ} 1 3)))
    × ((validate_settings_update full_waiting 1 ≡ ok tt) ↔ (full_waiting.host_id ≡ some 1))
    × ((validate_toggle_ready full_waiting 1 ≡ ok tt)
        ↔ ((full_waiting.host_id ≢ some 1) × Any (λ p. p.user_id ≡ 1) full_waiting.players))
    × ((validate_player_exists full_waiting 1 ≡ ok tt)
        ↔ Any (λ p. p.user_id ≡ 1) full_waiting.players)
    × ((validate_max_players_update full_waiting 3 ≡ ok tt) ↔ (length full_waiting.players ≤ 3))
guards_example = guards_iff full_waiting 1 3 3
