-- ===== src/Game/Service/Phases/Leaving.antt =====
-- `handleDisconnect` of src/game/session/game-session.service.ts and `handleReadyToggle` of
-- src/game/round-summary/round-summary.service.ts as steps of the phase diagram.
use pollycasso_back.Game.Service.Phases.{
  advance_to_round_summary-IsStep, advance_to_evaluating-IsStep, advance_from_round_summary-IsStep,
  force_start_drawing_phase-IsStep,
}
use pollycasso_back.Game.Service.Steps.{IsStep}
use pollycasso_back.Game.Service.Steps.Rules.{
  clear-IsQuiet, send-IsQuiet, if_true-IsStep, if_some-IsQuiet, quiet_then, if_some-IsStep,
  then_quiet, read_then, quiet, pure-IsQuiet, IsQuiet-IsStep,
}
use pollycasso_back.Game.Service.Steps.Writes.{change_then, remove-IsStep}
use pollycasso_back.Game.Service.Phases.{
  branch-IsStep, force_start_drawing_phase-IsStep, advance_to_evaluating-IsStep,
  advance_to_round_summary-IsStep, advance_from_round_summary-IsStep,
}
use pollycasso_back.Game.Service.{Surroundings}
use pollycasso_back.Game.Service.Leaving.{
  advance_phase, phase_result, departure, depart, after_departure, abort, handle_disconnect,
}
use pollycasso_back.Game.Service.Toggle.{all_members_ready, handle_ready_toggle, announce}
use pollycasso_back.Game.Disconnect.{PhaseDisconnectResult}
use pollycasso_back.Prelude.{Bool, List, Option, erase, keys, leb, length, none, refl, some, ℕ, ◌≡◌}
use pollycasso_back.GameState.{overlay, GamePhase, GameState}
use pollycasso_back.GameState.Store
use pollycasso_back.GameState.Store.{Redis}

departure-phase :
    (st : GameState) (u : ℕ) (answer : Option PhaseDisconnectResult)
    → (overlay st (departure st u answer)).phase ≡ st.phase
departure-phase st u none = refl
departure-phase st u (some r) = refl

module _ {redis : Redis} {room_id : ℕ} where
  abort-IsStep :
      (before : redis.State) (remaining : List (ℕ × ℕ))
      → IsStep redis room_id before (abort {redis = redis} room_id remaining)
  unfolding abort
  abort-IsStep before remaining =
      quiet_then _ _ (clear-IsQuiet room_id) λ _. then_quiet _ _ remove-IsStep λ _. send-IsQuiet _

  advance_phase-IsStep :
      (env : Surroundings) (before : redis.State) (phase : GamePhase) (r : PhaseDisconnectResult)
      (st : GameState)
      → Store.get redis room_id before ≡ some st
      → st.phase ≡ phase
      → IsStep redis room_id before (advance_phase {redis = redis} env room_id phase r)
  advance_phase-IsStep env before GamePhase.theme_selecting r st here same =
      if_some-IsStep _ _ λ topic _.
        if_true-IsStep _ _ λ _. force_start_drawing_phase-IsStep env topic before st here same
  advance_phase-IsStep env before GamePhase.drawing r st here same =
      advance_to_evaluating-IsStep env none before
  advance_phase-IsStep env before GamePhase.evaluating r st here same =
      advance_to_round_summary-IsStep env before
  advance_phase-IsStep env before _ r st here same = IsQuiet-IsStep _ (pure-IsQuiet tt)

  after_departure-IsStep :
      (env : Surroundings) (before : redis.State) (phase : GamePhase) (r : PhaseDisconnectResult)
      (st : GameState)
      → Store.get redis room_id before ≡ some st
      → st.phase ≡ phase
      → IsStep redis room_id before (after_departure {redis = redis} env room_id phase r)
  unfolding after_departure
  after_departure-IsStep env before phase r st here same =
      quiet_then _ _ (if_some-IsQuiet _ _ λ u. send-IsQuiet _)
        λ _. if_true-IsStep _ _ λ _. advance_phase-IsStep env before phase r st here same

  pub handle_disconnect-IsStep :
      (env : Surroundings) (user_id : ℕ) (before : redis.State)
      → IsStep redis room_id before (handle_disconnect {redis = redis} env room_id user_id)
  unfolding handle_disconnect depart
  handle_disconnect-IsStep env user_id before = read_then _ (
      if_some-IsStep _ _ λ old found.
        branch-IsStep (leb (length (keys (erase user_id old.room_member_id_by_user_id))) 1) _ _
          (abort-IsStep before _)
          (let answer = phase_result env old.phase old user_id in
            change_then old (departure old user_id answer) _ found
              (departure-phase old user_id answer)
              λ middle here. if_some-IsStep _ _ λ new _. if_some-IsStep _ _ λ r _.
                after_departure-IsStep env middle old.phase r _ here
                  (departure-phase old user_id answer)))

  announce-IsStep :
      (env : Surroundings) (user_id : ℕ) (ready : Bool) (p : GameState) (before : redis.State)
      → IsStep redis room_id before (announce {redis = redis} env room_id user_id ready p)
  unfolding announce
  announce-IsStep env user_id ready p before = if_some-IsStep _ _ λ c _.
      branch-IsStep (all_members_ready p c) _ _ (advance_from_round_summary-IsStep env before)
        (IsQuiet-IsStep _ (search quiet depth 8))

  pub handle_ready_toggle-IsStep :
      (env : Surroundings) (user_id : ℕ) (before : redis.State)
      → IsStep redis room_id before (handle_ready_toggle {redis = redis} env room_id user_id)
  unfolding handle_ready_toggle
  handle_ready_toggle-IsStep env user_id before = read_then _ (
      if_some-IsStep _ _ λ old found. if_true-IsStep _ _ λ _. if_some-IsStep _ _ λ c _.
        change_then old _ _ found refl
          λ middle here. if_some-IsStep _ _ λ new _. announce-IsStep env user_id _ _ middle)
