-- ===== src/Game/Service/Events.antt =====
-- What reaches a running game: the messages of its players (`onReadyToggle` of
-- src/game/game.gateway.ts, `onSubmitDrawing` of src/game/drawing/drawing.gateway.ts, `handleFinalize`
-- of src/game/topic/topic.gateway.ts), a closed socket, and the timeouts. A timeout may fire at any
-- moment here, whether one is pending or not. The message `test:setPhase` of the topic gateway is not
-- among the events.
pub mod History
pub mod Refusals
use pollycasso_back.Prelude.{
  List, Option, Text, [], err, game_state_not_found, if◌then◌else◌, invalid_phase, none, ok,
  or_throw, ws_error, ℕ, ◌∷◌,
}
use pollycasso_back.GameState.{GameState, GamePhase, is_evaluating, is_round_summary}
use pollycasso_back.GameState.Store.{Redis}
use pollycasso_back.Game.Disconnect.{became_ready}
use pollycasso_back.Game.Drawing.{submit_drawing}
use pollycasso_back.Game.Evaluation.{toggle_ready}
use pollycasso_back.Game.Service.{
  M, Server, Surroundings, Sent, Timeout, end_drawing, end_evaluating, end_summary, pure, ◌>>=◌,
  ◌>>◌, lift, send, read, call, if_some, if_true,
}
use pollycasso_back.Game.Service.Drawing.{start_drawing_phase, advance_to_evaluating}
use pollycasso_back.Game.Service.Summary.{
  advance_to_round_summary, advance_from_round_summary, begin_theme_selection, return_to_waiting,
}
use pollycasso_back.Game.Service.Leaving.{handle_disconnect}
use pollycasso_back.Game.Service.Toggle.{handle_ready_toggle}

pub data Event : Type 0 where
  toggles_ready : ℕ → Event
  submits_drawing : ℕ → Event
  finalizes : ℕ → Option Text → Event
  disconnects : ℕ → Event
  phase_timeout : Timeout → Event
  theme_timeout : Event
  return_timeout : Event

module _ {redis : Redis} where
  -- The `switch` on the phase.
  abbrev pub toggle_in : Surroundings → ℕ → ℕ → GameState → GamePhase → M redis (Unit {0})
  toggle_in env room_id user_id st GamePhase.evaluating = do
    r ← call (toggle_ready redis env.count_targets room_id st user_id)
    (if r.all_ready then advance_to_round_summary env room_id else do
      send (Sent.player_update room_id (became_ready user_id r.is_ready))
      send (Sent.ready_summary room_id r.ready_summary))
  toggle_in env room_id user_id st GamePhase.round_summary = handle_ready_toggle env room_id user_id
  toggle_in env room_id user_id st _ = lift (err (ws_error 400 invalid_phase))

  unfoldable pub on_ready_toggle : Surroundings → ℕ → ℕ → M redis (Unit {0})
  on_ready_toggle env room_id user_id = do
    found ← read room_id
    st ← lift (or_throw found (ws_error 404 game_state_not_found))
    toggle_in env room_id user_id st st.phase

  unfoldable pub on_submit_drawing : Surroundings → ℕ → ℕ → M redis (Unit {0})
  on_submit_drawing env room_id user_id = do
    r ← call (submit_drawing redis room_id user_id)
    (if r.should_advance then advance_to_evaluating env room_id none else do
      if_some r.player_update λ u. send (Sent.player_update room_id u)
      send (Sent.ready_summary room_id r.ready_summary))

  -- The callback of a timeout: `schedulePhaseTransition` looks at the phase first.
  unfoldable pub on_timeout : Surroundings → ℕ → Timeout → M redis (Unit {0})
  on_timeout env room_id (end_drawing expected) = advance_to_evaluating env room_id expected
  on_timeout env room_id end_evaluating = do
    found ← read room_id
    if_some found λ st. if_true (is_evaluating st.phase) (advance_to_round_summary env room_id)
  on_timeout env room_id end_summary = do
    found ← read room_id
    if_some found λ st. if_true (is_round_summary st.phase) (advance_from_round_summary env room_id)

  -- `try { … } catch (e) { console.error(…); }`: what was changed before the exception stays changed.
  unfoldable pub logged : {A : Type 0} → M redis A → M redis (Unit {0})
  logged m s = (ok tt, (m s).1)

  unfoldable pub on_finalize : Surroundings → ℕ → ℕ → Option Text → M redis (Unit {0})
  on_finalize env room_id user_id typed = logged (start_drawing_phase env room_id user_id typed)

  unfoldable pub handle : Surroundings → ℕ → Event → M redis (Unit {0})
  unfolding on_ready_toggle on_submit_drawing on_finalize on_timeout
  handle env room_id (toggles_ready u) = on_ready_toggle env room_id u
  handle env room_id (submits_drawing u) = on_submit_drawing env room_id u
  handle env room_id (finalizes u typed) = on_finalize env room_id u typed
  handle env room_id (disconnects u) = handle_disconnect env room_id u
  handle env room_id (phase_timeout t) = on_timeout env room_id t
  handle env room_id theme_timeout = begin_theme_selection env room_id
  handle env room_id return_timeout = return_to_waiting env room_id

  -- Events one after the other, each with its room and what it finds around it. An exception ends its
  -- own event only.
  unfoldable pub run : List (Surroundings × ℕ × Event) → Server redis → Server redis
  unfolding handle
  run [] s = s
  run ((env, room_id, e) ∷ es) s = run es (handle env room_id e s).1
