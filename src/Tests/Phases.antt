-- ===== src/Tests/Phases.antt =====
-- The session entity, the phases and the store of game states.
use pollycasso_back.Prelude.{
  Option, [], conflict, err, evaluation_incomplete, false, if◌then◌else◌, includes, length, none,
  not, ok, refl, some, take, trim, true, user_not_active, ws_error, ℕ, ◌&&◌, ◌+◌, ◌==◌, ◌↔◌, ◌∷◌,
  ◌≡◌, ◌≤◌, ◌⊎◌,
}
use pollycasso_back.GameState.{
  GameState, GamePhase, PhaseContext, DrawingContext, EvaluatingContext, PartialGameState,
  no_change, overlay, theme_context?, drawing_context?,
}
use pollycasso_back.GameState.Store.{map_redis, get, patch, get-patch}
use mathlib.Core.Option
use pollycasso_back.Game.Disconnect.{PhaseDisconnectResult}
use pollycasso_back.Game.Session.{
  start_drawing, get_confirmed_theme, current_phase_instance_id, recent_themes_limit,
  drawing_duration_ms,
}
use pollycasso_back.Game.Session.Moves.{start_drawing_lem}
use pollycasso_back.Game.Drawing.{SubmitDrawingResult, submit_drawing, mark_ready}
use pollycasso_back.Game.Drawing
use pollycasso_back.Game.Drawing.Readiness.{IsSound, leave_drawing_lem, submit_drawing_lem}
use pollycasso_back.Game.Drawing.Readiness
use pollycasso_back.Game.Evaluation.{
  ToggleReadyResult, toggle_ready, is_evaluation_complete_for_user,
}
use pollycasso_back.Game.Evaluation
use pollycasso_back.Game.Evaluation.Ready.{leave_evaluation_lem, toggle_ready_lem}
use pollycasso_back.Game.Evaluation.Ready
use pollycasso_back.Tests.Fixtures.{
  moon, star, choosing, drawing_context, drawing_game, evaluating_context, evaluating_game, only,
}

-- The selector confirms " st".
abbrev started : GameState
started = record choosing {
  phase = GamePhase.drawing;
  current_theme = some star;
  ends_at = some (500 + drawing_duration_ms);
  phase_context = some (
      PhaseContext.drawing (record {
        active_user_ids = 1 ∷ 2 ∷ [];
        ready_user_ids = [];
        phase_instance_id = some moon;
      }));
  recent_themes = star ∷ moon ∷ [];
}

start_drawing_example :
    (choosing.phase ≡ GamePhase.theme_selecting)
    × (Option.map (λ c. c.selector_id) (theme_context? choosing.phase_context) ≡ some 1)
    × (get_confirmed_theme started ≡ ok (trim (32 ∷ star)))
    × (current_phase_instance_id started ≡ ok moon)
    × (Option.map (λ c. c.ready_user_ids) (drawing_context? started.phase_context) ≡ some [])
    × (take 1 started.recent_themes ≡ trim (32 ∷ star) ∷ [])
    × (length started.recent_themes ≤ recent_themes_limit)
    × (started.ends_at ≡ some (500 + drawing_duration_ms))
unfolding start_drawing trim
start_drawing_example =
    start_drawing_lem 500 1 moon (32 ∷ star) (1 ∷ 2 ∷ []) choosing started refl refl

drawing_context-IsSound : IsSound drawing_context
drawing_context-IsSound = record {
  ready_once = (refl, tt);
  active_once = (refl, (refl, tt));
  within = refl;
}

leave_drawing_example :
    (includes drawing_context.active_user_ids 2 ≡ false
      → Drawing.compute_disconnect drawing_game 2 ≡ none)
    × (includes drawing_context.active_user_ids 2 ≡ true
        → (r : PhaseDisconnectResult) × (d : DrawingContext) × (Drawing.compute_disconnect
              drawing_game 2
            ≡ some r)
          × (r.next_phase_context ≡ some (PhaseContext.drawing d))
          × IsSound d
          × ((b : ℕ)
              → includes d.active_user_ids b
                ≡ (includes drawing_context.active_user_ids b && not (2 == b)))
          × ((b : ℕ)
              → includes d.ready_user_ids b
                ≡ (includes drawing_context.ready_user_ids b && not (2 == b)))
          × ((r.should_advance ≡ true) ↔ Readiness.AllReady d))
leave_drawing_example =
    leave_drawing_lem drawing_game drawing_context 2 refl refl drawing_context-IsSound

submit_drawing_example :
    (includes drawing_context.active_user_ids 2 ≡ false
      → submit_drawing map_redis 5 2 (only drawing_game)
        ≡ (err (conflict user_not_active), only drawing_game))
    × (includes drawing_context.active_user_ids 2 ≡ true
        → (r : SubmitDrawingResult) × (d : DrawingContext) × (s' : ℕ → Option GameState)
          × (submit_drawing map_redis 5 2 (only drawing_game) ≡ (ok r, s'))
          × ((j : ℕ)
              → get map_redis j s' ≡ (
                  if 5 == j
                  then some (record drawing_game { phase_context = some (PhaseContext.drawing d) })
                  else get map_redis j (only drawing_game)))
          × IsSound d
          × (d.active_user_ids ≡ drawing_context.active_user_ids)
          × (includes d.ready_user_ids 2 ≡ true)
          × ((r.should_advance ≡ true) ↔ Readiness.AllReady d)
          × (r.ready_summary.all_ready ≡ r.should_advance))
unfolding get
submit_drawing_example =
    submit_drawing_lem map_redis 5 2 (only drawing_game) drawing_game drawing_context refl refl refl
      drawing_context-IsSound

leave_evaluation_example :
    (includes evaluating_context.active_user_ids 2 ≡ false
      → Evaluation.compute_disconnect evaluating_game 2 ≡ none)
    × (includes evaluating_context.active_user_ids 2 ≡ true
        → (r : PhaseDisconnectResult) × (d : EvaluatingContext) × (Evaluation.compute_disconnect
              evaluating_game 2
            ≡ some r)
          × (r.next_phase_context ≡ some (PhaseContext.evaluating d))
          × ((b : ℕ)
              → includes d.active_user_ids b
                ≡ (includes evaluating_context.active_user_ids b && not (2 == b)))
          × ((b : ℕ)
              → includes d.ready_user_ids b
                ≡ (includes evaluating_context.ready_user_ids b && not (2 == b)))
          × ((r.should_advance ≡ true) ↔ Ready.AllReady d))
leave_evaluation_example = leave_evaluation_lem evaluating_game evaluating_context 2 refl refl

-- Every voter has voted for one drawing.
abbrev one_vote : ℕ → ℕ → ℕ → ℕ
one_vote m r u = 1

toggle_ready_example :
    (includes evaluating_context.ready_user_ids 2 ≡ false
      → is_evaluation_complete_for_user one_vote evaluating_game 2 ≡ false
      → toggle_ready map_redis one_vote 5 evaluating_game 2 (only evaluating_game)
        ≡ (err (ws_error 400 evaluation_incomplete), only evaluating_game))
    × ((includes evaluating_context.ready_user_ids 2 ≡ true)
          ⊎ (is_evaluation_complete_for_user one_vote evaluating_game 2 ≡ true)
        → (r : ToggleReadyResult) × (d : EvaluatingContext) × (s' : ℕ → Option GameState)
          × (toggle_ready map_redis one_vote 5 evaluating_game 2 (only evaluating_game)
              ≡ (ok r, s'))
          × ((j : ℕ)
              → get map_redis j s' ≡ (
                  if 5 == j
                  then some
                      (record evaluating_game { phase_context = some (PhaseContext.evaluating d) })
                  else get map_redis j (only evaluating_game)))
          × ((b : ℕ)
              → includes d.ready_user_ids b ≡ (
                  if 2 == b
                  then not (includes evaluating_context.ready_user_ids b)
                  else includes evaluating_context.ready_user_ids b))
          × (d.active_user_ids ≡ evaluating_context.active_user_ids)
          × (r.is_ready ≡ includes d.ready_user_ids 2)
          × ((r.all_ready ≡ true) ↔ Ready.AllReady d))
unfolding get
toggle_ready_example =
    toggle_ready_lem map_redis one_vote 5 2 (only evaluating_game) evaluating_game
      evaluating_context refl refl refl

abbrev renamed : PartialGameState
renamed = record no_change { current_theme = some (some star) }

get-patch_example :
    ((patch map_redis 5 renamed (only drawing_game)).0 ≡ some (overlay drawing_game renamed))
    × (get map_redis 6 (patch map_redis 5 renamed (only drawing_game)).1 ≡ (
        if 5 == 6
        then some (overlay drawing_game renamed)
        else get map_redis 6 (only drawing_game)))
unfolding get
get-patch_example = get-patch map_redis 5 6 renamed (only drawing_game) drawing_game refl
