-- ===== src/Game/Service/Leaving.antt =====
-- A player's socket closes during a game: `handleDisconnect` of
-- src/game/session/game-session.service.ts.
use pollycasso_back.Prelude.{
  List, Option, erase, if◌then◌else◌, keys, leb, length, none, some, truthy, ℕ,
}
use pollycasso_back.GameState.{GameState, GamePhase, PartialGameState, no_change}
use pollycasso_back.GameState.Store.{Redis}
use pollycasso_back.Game.Disconnect.{PhaseDisconnectResult}
use pollycasso_back.Game.Drawing
use pollycasso_back.Game.Evaluation
use pollycasso_back.Game.Topic
use pollycasso_back.Game.Service.{
  M, Surroundings, Sent, pure, ◌>>=◌, ◌>>◌, send, read, change, remove, clear_phase_timer, if_some,
  if_true,
}
use pollycasso_back.Game.Service.Drawing.{advance_to_evaluating, force_start_drawing_phase}
use pollycasso_back.Game.Service.Summary.{advance_to_round_summary}

-- The answer of the phase that the game is in.
abbrev pub phase_result : Surroundings → GamePhase → GameState → ℕ → Option PhaseDisconnectResult
phase_result env GamePhase.theme_selecting st u = Topic.compute_disconnect env.draw env.themes st u
phase_result env GamePhase.drawing st u = Drawing.compute_disconnect st u
phase_result env GamePhase.evaluating st u = Evaluation.compute_disconnect st u
phase_result env _ st u = none

-- The members without the player, and the context that the phase wants.
abbrev pub departure : GameState → ℕ → Option PhaseDisconnectResult → PartialGameState
departure st u none = record no_change {
  room_member_id_by_user_id = some (erase u st.room_member_id_by_user_id);
}
departure st u (some r) = record no_change {
  room_member_id_by_user_id = some (erase u st.room_member_id_by_user_id);
  phase_context = some r.next_phase_context;
}

module _ {redis : Redis} where
  -- The end of the phase, where the phase asks for it.
  abbrev pub advance_phase :
      Surroundings → ℕ → GamePhase → PhaseDisconnectResult → M redis (Unit {0})
  advance_phase env room_id GamePhase.theme_selecting r =
      if_some r.selected_topic
        λ topic. if_true (truthy topic) (force_start_drawing_phase env room_id topic)
  advance_phase env room_id GamePhase.drawing r = advance_to_evaluating env room_id none
  advance_phase env room_id GamePhase.evaluating r = advance_to_round_summary env room_id
  advance_phase env room_id _ r = pure tt

  -- The room is given up.
  unfoldable pub abort : ℕ → List (ℕ × ℕ) → M redis (Unit {0})
  abort room_id remaining = do
    clear_phase_timer room_id
    remove room_id
    send (Sent.game_aborted room_id remaining)

  -- The update of the players, and the end of the phase.
  unfoldable pub after_departure :
      Surroundings → ℕ → GamePhase → PhaseDisconnectResult → M redis (Unit {0})
  after_departure env room_id phase r = do
    if_some r.player_update λ u. send (Sent.player_update room_id u)
    if_true r.should_advance (advance_phase env room_id phase r)

  -- The member is taken out.
  unfoldable pub depart : Surroundings → ℕ → ℕ → GameState → M redis (Unit {0})
  unfolding after_departure
  depart env room_id user_id st = do
    let answer = phase_result env st.phase st user_id
    patched ← change room_id (departure st user_id answer)
    if_some patched λ _. if_some answer λ r. after_departure env room_id st.phase r

  unfoldable pub handle_disconnect : Surroundings → ℕ → ℕ → M redis (Unit {0})
  unfolding abort depart
  handle_disconnect env room_id user_id = do
    found ← read room_id
    if_some found λ st.
        let remaining = erase user_id st.room_member_id_by_user_id in
        if leb (length (keys remaining)) 1
        then abort room_id remaining
        else depart env room_id user_id st
