-- ===== src/Tests/Outcomes.antt =====
-- What single methods of the service achieve in a room.
use pollycasso_back.Prelude.{
  [], arith, false, if◌then◌else◌, includes, lookup, none, ok, refl, some, text_eq, true, truthy?,
  ℕ, ◌==◌, ◌∷◌, ◌≡◌, ◌⊎◌,
}
use pollycasso_back.GameState.{GameState}
use pollycasso_back.GameState.Store
use pollycasso_back.GameState.Store.{map_redis}
use pollycasso_back.Game.Service.{Sent, end_evaluating}
use pollycasso_back.Game.Service.Drawing.{advance_to_evaluating}
use pollycasso_back.Game.Service.Leaving.{handle_disconnect}
use pollycasso_back.Game.Service.Outcomes.{
  evaluation_of, handle_disconnect_aborts, advance_to_evaluating_lem,
}
use pollycasso_back.Tests.Fixtures.{calm, star, drawing_game, drawing_context, server_with}

-- Two players draw, and one of them leaves.
abbrev pair : GameState
pair = record drawing_game { room_member_id_by_user_id = (1, 11) ∷ (2, 12) ∷ [] }

abort_example :
    ((handle_disconnect calm 5 2 (server_with pair)).0 ≡ ok tt)
    × ((j : ℕ)
        → Store.get map_redis j (handle_disconnect calm 5 2 (server_with pair)).1.store
          ≡ (if 5 == j then none else Store.get map_redis j (server_with pair).store))
    × ((handle_disconnect calm 5 2 (server_with pair)).1.timers ≡ [])
    × ((handle_disconnect calm 5 2 (server_with pair)).1.sent
        ≡ Sent.game_aborted 5 ((1, 11) ∷ []) ∷ [])
unfolding Store.get
abort_example = handle_disconnect_aborts calm 5 2 (server_with pair) pair refl (omega arith)

evaluation_example :
    ((truthy? (some star) ≡ true) × (text_eq star star ≡ false)
      → advance_to_evaluating calm 5 (some star) (server_with drawing_game)
        ≡ (ok tt, server_with drawing_game))
    × ((truthy? (some star) ≡ false) ⊎ (text_eq star star ≡ true)
        → ((advance_to_evaluating calm 5 (some star) (server_with drawing_game)).0 ≡ ok tt)
          × ((j : ℕ)
              → Store.get map_redis j
                  (advance_to_evaluating calm 5 (some star) (server_with drawing_game)).1.store
                ≡ (if 5 == j
                    then some (evaluation_of 1000 drawing_context drawing_game)
                    else Store.get map_redis j (server_with drawing_game).store))
          × (lookup 5 (advance_to_evaluating calm 5 (some star) (server_with drawing_game)).1.timers
              ≡ some end_evaluating)
          × (includes
                (advance_to_evaluating calm 5
                  (some star)
                  (server_with drawing_game)).1.summary_transition_guard
                5
              ≡ false))
unfolding Store.get
evaluation_example =
    advance_to_evaluating_lem calm 5 2 star (some star) (server_with drawing_game) drawing_game
      drawing_context refl refl refl refl refl refl (omega arith) refl refl refl
