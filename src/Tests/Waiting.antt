-- ===== src/Tests/Waiting.antt =====
-- Players who join a private team room with its password, one of whom leaves, and a game that starts.
use pollycasso_back.Prelude.{
  All, List, Option, [], if◌then◌else◌, none, not, ok, refl, show, some, sort, sym, text_eq, true,
  true-ne-false, value, ℕ, ◌==◌, ◌∷◌, ◌≡◌,
}
use pollycasso_back.Keys.{map_keys, map_sets}
use pollycasso_back.Outfit.{Raw, default_outfit}
use pollycasso_back.Room.{Room, RoomProps}
use pollycasso_back.Room
use pollycasso_back.GameState.{GameState}
use pollycasso_back.Waiting.{Team, WaitingPlayerState, Waiting}
use pollycasso_back.Waiting
use pollycasso_back.Waiting.Store.{
  get_player, join_room, WaitingRedis, Hall, PlayerHash, same_key, hash_of, leave_room, players_in,
  drop_player, ready_now,
}
use pollycasso_back.Waiting.Service.{WaitingEnv}
use pollycasso_back.Waiting.Hosts.{IsWell, host}
use pollycasso_back.Waiting.Hosts.Requests.{Request, serve_all, serve_all-IsWell}
use pollycasso_back.Waiting.Hosts.Outcomes.{joined_before, leave_room-host, get_player-join_room}
use pollycasso_back.Tests.Fixtures.{star, secret, team_props, player}

abbrev redis : WaitingRedis
redis = record {
  current_rooms = map_keys ℕ ℕ (λ a b. a == b);
  members = map_sets;
  players = map_keys (ℕ × ℕ) PlayerHash same_key;
  hosts = map_keys ℕ ℕ (λ a b. a == b);
  statuses = map_keys ℕ (Unit {0}) (λ a b. a == b);
  started = map_keys ℕ (Unit {0}) (λ a b. a == b);
  rooms = map_keys ℕ RoomProps (λ a b. a == b);
  games = map_keys ℕ GameState (λ a b. a == b);
}

-- One room, the fifth, and nobody in it.
abbrev empty_hall : Hall redis
empty_hall = record {
  current_rooms = λ u. none;
  members = λ r. [];
  players = λ k. none;
  hosts = λ r. none;
  statuses = λ r. none;
  started = λ r. none;
  rooms = λ r. if r == 5 then some team_props else none;
  games = λ r. none;
  published = [];
}

abbrev env : WaitingEnv
env = record {
  now = 1000;
  find_user = λ u. some (record { nickname = star; level = some 2; outfit = Raw.missing });
  compare = text_eq;
  hash = λ password. password;
  owned = λ u. [];
  cosmetics = λ id. none;
  save_members = λ room_id host_id players. some (77, []);
}

empty_hall-IsWell : IsWell empty_hall
empty_hall-IsWell r there = ((λ u m. absurd (true-ne-false (sym m))), λ u. refl)

abbrev joining : List Request
joining =
    Request.to_join env 5 1 (some secret)
    ∷ Request.to_join env 5 2 (some secret)
    ∷ Request.to_join env 5 3 none
    ∷ Request.to_toggle_ready 5 2
    ∷ Request.to_disconnect 5 1
    ∷ Request.to_kick 5 2 2
    ∷ []

serve_all_example : IsWell (serve_all joining empty_hall)
serve_all_example = serve_all-IsWell joining empty_hall empty_hall-IsWell

-- Four players, two a team, who are ready; the first is the host.
abbrev seat : ℕ → Team → PlayerHash
seat u team = hash_of (record (player u team true) { outfit = default_outfit })

abbrev seats : ℕ × ℕ → Option PlayerHash
seats (r, u) =
    if not (r == 5)
    then none
    else if u == 1
    then some (seat 1 Waiting.red)
    else if u == 2
    then some (seat 2 Waiting.blue)
    else if u == 3
    then some (seat 3 Waiting.red)
    else if u == 4
    then some (seat 4 Waiting.blue)
    else none

abbrev full_hall : Hall redis
full_hall = record empty_hall {
  members = λ r. if r == 5 then 3 ∷ 1 ∷ 2 ∷ 4 ∷ [] else [];
  players = seats;
  hosts = λ r. if r == 5 then some 1 else none;
}

abbrev seated_player : ℕ → Team → WaitingPlayerState
seated_player u team = record (player u team true) { outfit = default_outfit }

next_host_example :
    (host (leave_room 5 1 full_hall).1 5 ≡ some 2)
    × All
        (λ q. joined_before (seated_player 2 Waiting.blue) q ≡ true)
        (players_in 5 (drop_player 5 1 full_hall).1)
    × (ready_now ((leave_room 5 1 full_hall).1.players (5, 2)) ≡ true)
unfolding drop_player sort show value
next_host_example = leave_room-host 5 1 full_hall (seated_player 2 Waiting.blue) refl refl

read_back_example :
    (get_player 5 1 (join_room 5 (player 1 Waiting.red true) empty_hall).1).0
    ≡ ok (some (record (player 1 Waiting.red true) { outfit = default_outfit }))
read_back_example = get_player-join_room 5 (player 1 Waiting.red true) empty_hall

abbrev everybody : List WaitingPlayerState
everybody =
    seated_player 3 Waiting.red
    ∷ seated_player 1 Waiting.red
    ∷ seated_player 2 Waiting.blue
    ∷ seated_player 4 Waiting.blue
    ∷ []
