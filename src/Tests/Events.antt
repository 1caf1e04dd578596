-- ===== src/Tests/Events.antt =====
-- Messages, closed sockets and timeouts in a room.
use pollycasso_back.Prelude.{List, [], ok, refl, some, ℕ, ◌∷◌, ◌≡◌, ◌≤◌}
use pollycasso_back.GameState.Store
use pollycasso_back.GameState.Store.{map_redis}
use pollycasso_back.Game.Service.{Surroundings, end_evaluating}
use pollycasso_back.Game.Service.Steps.{StoreStep}
use pollycasso_back.Game.Service.Events.{
  Event, handle, run, submits_drawing, toggles_ready, disconnects, phase_timeout, finalizes,
}
use pollycasso_back.Game.Service.Events.History.{stage_in, handle-StoreStep, run-stage}
use pollycasso_back.Game.Service.Events.Refusals.{handle_refused}
use pollycasso_back.Tests.Fixtures.{moon, calm, drawing_game, server_with}

handle_example :
    StoreStep map_redis 5
      (server_with drawing_game).store
      (handle calm 5 (submits_drawing 2) (server_with drawing_game)).1.store
handle_example = handle-StoreStep calm 5 (submits_drawing 2) (server_with drawing_game)

-- The second drawing comes in, both votes are in, and then everybody leaves.
abbrev history : List (Surroundings × ℕ × Event)
history =
    (calm, 5, submits_drawing 2)
    ∷ (calm, 5, toggles_ready 1)
    ∷ (calm, 5, phase_timeout end_evaluating)
    ∷ (calm, 5, disconnects 3)
    ∷ (calm, 5, disconnects 2)
    ∷ []

run_example :
    stage_in map_redis 5 (server_with drawing_game).store
    ≤ stage_in map_redis 5 (run history (server_with drawing_game)).store
run_example = run-stage history (server_with drawing_game) 5

-- A theme is confirmed while the players draw already.
refused_example :
    handle calm 5 (finalizes 2 (some moon)) (server_with drawing_game)
    ≡ (ok tt, record (server_with drawing_game) { timers = [] })
unfolding Store.get
refused_example =
    handle_refused calm 5 2 (some moon) (server_with drawing_game) drawing_game refl λ m. cc
