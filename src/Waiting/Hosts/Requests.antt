-- ===== src/Waiting/Hosts/Requests.antt =====
-- Starting a game in src/waiting/waiting.service.ts, and every request of the waiting players
-- together, in any sequence.
use pollycasso_back.Prelude.{
  ==_ne, Bool-cases, List, Option, Option-cases, Result-cases, Text, [], inl, inr, none, ok, some,
  true, ℕ, ◌∷◌, ◌≡◌,
}
use native.Mathlib.Decide.{ℕ_discrete}
use pollycasso_back.Exec.{Exec, ◌>>=◌, ◌>>◌, lift, pure, modify, gets, discard}
use pollycasso_back.Outfit.{OutfitIds}
use pollycasso_back.Room.{Room, RoomProps, RoomMode, is_waiting}
use pollycasso_back.Room
use pollycasso_back.Waiting.{WaitingPlayerState, Team, PlayerPageStatus, validate_game_start}
use pollycasso_back.Waiting.Store.{players_in, WaitingRedis, Hall, room_updated, set_room_expiry}
use pollycasso_back.Waiting.Service.{find_room_or_throw, WaitingEnv, Settings, join}
use pollycasso_back.Waiting.Changes.{
  kick_player, toggle_ready, change_team, update_page_status, update_outfit, update_settings,
}
use pollycasso_back.Waiting.Leaving.{
  StartOutcome, start_result, handle_leave, handle_disconnect, commit_start, begin, start_game_tx,
  start_game, initialize_game_state, handle_game_start,
}
use pollycasso_back.Waiting.Hosts.{
  host, exists, IsWell, Preserves, pure-Preserves, lift-Preserves, >>=-Preserves,
  continue-Preserves, load_waiting_entity-cases, find_room_or_throw-Preserves,
}
use pollycasso_back.Waiting.Hosts.Joining.{join-Preserves}
use pollycasso_back.Waiting.Hosts.Changing.{
  toggle_ready-Preserves, change_team-Preserves, update_page_status-Preserves,
  update_outfit-Preserves, update_settings-Preserves,
}
use pollycasso_back.Waiting.Hosts.Departing.{
  kick_player-Preserves, handle_leave-Preserves, handle_disconnect-Preserves,
}

-- What a player asks the waiting service for: the id of the room is the first number.
pub data Request : Type 0 where
  to_join : WaitingEnv → ℕ → ℕ → Option Text → Request
  to_toggle_ready : ℕ → ℕ → Request
  to_change_team : ℕ → ℕ → Team → Request
  to_update_page_status : ℕ → ℕ → PlayerPageStatus → Request
  to_update_outfit : WaitingEnv → ℕ → ℕ → OutfitIds → Request
  to_update_settings : WaitingEnv → ℕ → ℕ → Settings → Request
  to_kick : ℕ → ℕ → ℕ → Request
  to_leave to_disconnect : ℕ → ℕ → Request
  to_start : WaitingEnv → ℕ → ℕ → Request

module _ {redis : WaitingRedis} where
  unfoldable pub serve : Request → Exec (Hall redis) (Unit {0})
  serve (to_join env room_id user_id password) = discard (join env room_id user_id password)
  serve (to_toggle_ready room_id user_id) = discard (toggle_ready room_id user_id)
  serve (to_change_team room_id user_id team) = change_team room_id user_id team
  serve (to_update_page_status room_id user_id status) = update_page_status room_id user_id status
  serve (to_update_outfit env room_id user_id outfit) = update_outfit env room_id user_id outfit
  serve (to_update_settings env room_id user_id settings) =
      discard (update_settings env room_id user_id settings)
  serve (to_kick room_id user_id target) = discard (kick_player room_id user_id target)
  serve (to_leave room_id user_id) = discard (handle_leave room_id user_id)
  serve (to_disconnect room_id user_id) = discard (handle_disconnect room_id user_id)
  serve (to_start env room_id user_id) = discard (handle_game_start env room_id user_id)

  begin-IsWell :
      (env : WaitingEnv) (k u : ℕ) (players : List WaitingPlayerState) (row : Option RoomProps)
      (s : Hall redis)
      → IsWell s
      → exists s k ≡ true
      → IsWell (begin env k u players row s).1
  unfolding begin commit_start pure modify ◌>>=◌
  begin-IsWell env k u players none s well there = well
  begin-IsWell env k u players (some row) s well there = elim (Bool-cases (is_waiting row.status)) [
    | inr w ↦ rw w well
    | inl w ↦ elim (Option-cases (env.save_members k u players)) [
      | inl e ↦ rw (w, e) well
      | inr ((match_id, members), e) ↦
          rw (w, e)
            λ r h. elim (ℕ_discrete k r) [
              | yes p ↦ well r (rw p at there)
              | no n ↦ well r (
                  rw
                    (
                      redis.rooms.get_set k r (record row { status = Room.in_progress }) s.rooms,
                      ==_ne k r n,
                    )
                    at h)
            ]
    ]
  ]

  start_game_tx-IsWell :
      (env : WaitingEnv) (k u : ℕ) (players : List WaitingPlayerState) (s : Hall redis)
      → IsWell s
      → exists s k ≡ true
      → IsWell (start_game_tx env k u players s).1
  unfolding start_game_tx pure gets ◌>>=◌
  start_game_tx-IsWell env k u [] s well there = well
  start_game_tx-IsWell env k u (p ∷ ps) s well there =
      begin-IsWell env k u (p ∷ ps) (redis.rooms.get k s.rooms) s well there

  publish-Preserves :
      (k : ℕ)
      → Preserves {redis = redis}
          (modify (λ s. record s { published = room_updated k ∷ s.published }))
  unfolding modify
  publish-Preserves k = record { keeps = λ s well. well }

  expiry-Preserves : (k : ℕ) → Preserves (set_room_expiry {redis = redis} k)
  unfolding set_room_expiry
  expiry-Preserves k = record { keeps = λ s well. well }

  initialize-Preserves :
      (env : WaitingEnv) (k match_id : ℕ) (members : List (ℕ × ℕ))
      → Preserves (initialize_game_state {redis = redis} env k match_id members)
  unfolding initialize_game_state modify pure ◌>>=◌
  initialize-Preserves env k match_id members = record { keeps = λ s well. well }

  -- What follows the transaction.
  started-Preserves :
      (k : ℕ) (outcome : StartOutcome)
      → Preserves {redis = redis} (do
        result ← lift (start_result outcome)
        _ ← find_room_or_throw k
        modify (λ s. record s { published = room_updated k ∷ s.published })
        pure result)
  started-Preserves k outcome = >>=-Preserves (lift-Preserves (start_result outcome)) λ result.
      >>=-Preserves (find_room_or_throw-Preserves k)
        λ room. >>=-Preserves (publish-Preserves k) λ _. pure-Preserves result

  start_game-Preserves :
      (env : WaitingEnv) (k u : ℕ) → Preserves (start_game {redis = redis} env k u)
  unfolding start_game ◌>>=◌ lift
  start_game-Preserves env k u = record {
    keeps = λ s well. elim (load_waiting_entity-cases k s) [
      | inl (thrown, e) ↦ rw e well
      | inr (room, there, e) ↦
          elim (Result-cases (
            validate_game_start
              (record { room = room; players = players_in k s; host_id = host s k }) u)) [
                | inr (thrown, f) ↦ rw (e, f) well
                | inl (done, f) ↦
                    rw (e, f)
                      (continue-Preserves _ (start_game_tx env k u (players_in k s) s)
                        (started-Preserves k)
                        (start_game_tx-IsWell env k u (players_in k s) s well there))
              ]
    ];
  }

  handle_game_start-Preserves :
      (env : WaitingEnv) (k u : ℕ) → Preserves (handle_game_start {redis = redis} env k u)
  unfolding handle_game_start
  handle_game_start-Preserves env k u =
      >>=-Preserves (start_game-Preserves env k u) λ (result : ℕ × List (ℕ × ℕ)).
        >>=-Preserves (expiry-Preserves k) λ _. initialize-Preserves env k result.0 result.1

  pure_unit-Preserves : Preserves {redis = redis} (λ s. (ok tt, s))
  pure_unit-Preserves = record { keeps = λ s well. well }

  discard-Preserves : {A : Type 0} (m : Exec (Hall redis) A) → Preserves m → Preserves (discard m)
  unfolding discard
  discard-Preserves m p = record {
    keeps = λ s well. continue-Preserves _ (m s) (λ _. pure_unit-Preserves) (p.keeps s well);
  }

  serve-Preserves : (request : Request) → Preserves (serve request)
  unfolding serve
  serve-Preserves (to_join env k u password) = discard-Preserves _ (join-Preserves env k u password)
  serve-Preserves (to_toggle_ready k u) = discard-Preserves _ (toggle_ready-Preserves k u)
  serve-Preserves (to_change_team k u team) = change_team-Preserves k u team
  serve-Preserves (to_update_page_status k u status) = update_page_status-Preserves k u status
  serve-Preserves (to_update_outfit env k u outfit) = update_outfit-Preserves env k u outfit
  serve-Preserves (to_update_settings env k u settings) =
      discard-Preserves _ (update_settings-Preserves env k u settings)
  serve-Preserves (to_kick k u target) = discard-Preserves _ (kick_player-Preserves k u target)
  serve-Preserves (to_leave k u) = discard-Preserves _ (handle_leave-Preserves k u)
  serve-Preserves (to_disconnect k u) = discard-Preserves _ (handle_disconnect-Preserves k u)
  serve-Preserves (to_start env k u) = discard-Preserves _ (handle_game_start-Preserves env k u)

  -- The requests one after the other; a refused one leaves the state that it reached.
  abbrev pub serve_all : List Request → Hall redis → Hall redis
  serve_all [] s = s
  serve_all (request ∷ rest) s = serve_all rest (serve request s).1

  -- Whatever sequence of requests the players of any rooms make (joining, readiness, team, page, outfit,
  -- settings, kicking, leaving, disconnecting, starting a game), refused ones included, from a state in
  -- which all is well: in every room that is stored, each member has a player's hash of its own, an
  -- empty room has no host, and the host of any other room is one of its members.
  pub serve_all-IsWell :
      (requests : List Request) (s : Hall redis) → IsWell s → IsWell (serve_all requests s)
  serve_all-IsWell [] s well = well
  serve_all-IsWell (request ∷ rest) s well =
      serve_all-IsWell rest (serve request s).1 ((serve-Preserves request).keeps s well)
