-- ===== src/Game/Service/Phases.antt =====
-- The methods of src/game/session/game-session.service.ts as steps of the phase diagram.
pub mod Leaving
use pollycasso_back.Game.Service.Steps.Writes.{
  on_error-IsStep, write-IsStep, finally-IsStep, change-IsStep, guarded,
}
use pollycasso_back.Game.Disconnect.{PhaseDisconnectResult}
use pollycasso_back.Game.Service.Toggle.{all_members_ready, handle_ready_toggle, announce}
use pollycasso_back.Game.Service.Leaving.{
  phase_result, departure, advance_phase, depart, handle_disconnect, abort, after_departure,
}
use pollycasso_back.Game.Session.{is_last_round}
use pollycasso_back.Game.Service.Summary.{
  release_exit, guard_exit, summarised, begin_theme_selection, return_to_waiting, advance,
  advance_from_round_summary, close, release_summary, guard_summary, advance_to_round_summary,
  start_round_summary_phase_timer,
}
use pollycasso_back.Prelude.{
  Bool, List, Option, Text, arith, false, if◌then◌else◌, includes, inl, none, not, ok,
  or_throw-eq-ok, refl, result_some, some, true, ℕ, ◌≡◌,
}
use pollycasso_back.GameState.{overlay, is_finished, GameState, GamePhase}
use pollycasso_back.GameState.Store
use pollycasso_back.GameState.Store.{Redis}
use pollycasso_back.Game.Session
use pollycasso_back.Game.Service.{M, Surroundings}
use pollycasso_back.Game.Service.Steps.{Edge, StoreStep, IsStep, IsQuiet, edge_between}
use pollycasso_back.Game.Service.Steps.Rules.{
  clear-IsQuiet, send-IsQuiet, if_true-IsStep, if_some-IsQuiet, quiet_then, if_some-IsStep,
  lift_then, read-IsQuiet, then_quiet, read_then, quiet,
}
use pollycasso_back.Game.Service.Drawing.{
  advance_to_evaluating, chosen_theme, start_chosen, force_start_drawing_phase,
  start_evaluating_phase_timer, start_drawing_phase,
}

-- The entity's moves, as edges.
start_drawing-phases :
    (now user_id : ℕ) (uuid theme : Text) (active : List ℕ) (old new : GameState)
    → Session.start_drawing now uuid user_id theme active old ≡ ok new
    → (old.phase ≡ GamePhase.theme_selecting) × (new.phase ≡ GamePhase.drawing)
unfolding Session.start_drawing
start_drawing-phases now user_id uuid theme active old new h = ground arith

start_chosen-phases :
    (env : Surroundings) (user_id : ℕ) (theme : Option Text) (active : List ℕ) (old new : GameState)
    → start_chosen env user_id theme active old ≡ ok new
    → (old.phase ≡ GamePhase.theme_selecting) × (new.phase ≡ GamePhase.drawing)
unfolding start_chosen Session.start_drawing_undefined
start_chosen-phases env user_id none active old new h = ground (arith, h)
start_chosen-phases env user_id (some theme) active old new h =
    start_drawing-phases env.now user_id env.uuid theme active old new h

advance_to_theme_selecting-phases :
    (ends selector : ℕ) (nickname : Text) (old new : GameState)
    → Session.advance_to_theme_selecting ends selector nickname old ≡ ok new
    → (old.phase ≡ GamePhase.round_summary) × (new.phase ≡ GamePhase.theme_selecting)
unfolding Session.advance_to_theme_selecting
advance_to_theme_selecting-phases ends selector nickname old new h = ground arith

advance_to_finished-phases :
    (old new : GameState)
    → Session.advance_to_finished old ≡ ok new
    → (old.phase ≡ GamePhase.round_summary) × (new.phase ≡ GamePhase.finished)
unfolding Session.advance_to_finished
advance_to_finished-phases old new h = ground arith

start_theme_selection-phases :
    (now selector : ℕ) (nickname : Option Text) (old new : GameState)
    → result_some (Session.start_theme_selection now selector nickname old) ≡ some new
    → (old.phase ≡ GamePhase.loading) × (new.phase ≡ GamePhase.theme_selecting)
unfolding Session.start_theme_selection
start_theme_selection-phases now selector nickname old new h = ground arith

module _ {redis : Redis} {room_id : ℕ} where
  summary_timer-IsQuiet :
      (k : ℕ) → IsQuiet redis room_id (start_round_summary_phase_timer {redis = redis} k)
  unfolding start_round_summary_phase_timer
  summary_timer-IsQuiet k = search (quiet, read-IsQuiet) depth 12

  summarised-IsQuiet :
      (o : Option GameState) → IsQuiet redis room_id (summarised {redis = redis} room_id o)
  unfolding summarised
  summarised-IsQuiet none = record { apply = λ s. refl }
  summarised-IsQuiet (some p) = search (quiet, read-IsQuiet) depth 14

  branch-IsQuiet :
      {A : Type 0} (b : Bool) (m n : M redis A)
      → IsQuiet redis room_id m
      → IsQuiet redis room_id n
      → IsQuiet redis room_id (if b then m else n)
  branch-IsQuiet true m n p q = p
  branch-IsQuiet false m n p q = q

  pub branch-IsStep :
      {A : Type 0} {before : redis.State} (b : Bool) (m n : M redis A)
      → IsStep redis room_id before m
      → IsStep redis room_id before n
      → IsStep redis room_id before (if b then m else n)
  branch-IsStep true m n p q = p
  branch-IsStep false m n p q = q

  close-IsQuiet :
      (env : Surroundings) (p : GameState)
      → IsQuiet redis room_id (close {redis = redis} env room_id p)
  unfolding close
  close-IsQuiet env p = search quiet depth 12

  timer-IsQuiet : (k : ℕ) → IsQuiet redis room_id (start_evaluating_phase_timer {redis = redis} k)
  unfolding start_evaluating_phase_timer
  timer-IsQuiet k = record { apply = λ s. refl }

  pub start_drawing_phase-IsStep :
      (env : Surroundings) (user_id : ℕ) (typed : Option Text) (before : redis.State)
      → IsStep redis room_id before (start_drawing_phase env room_id user_id typed)
  unfolding start_drawing_phase
  start_drawing_phase-IsStep env user_id typed before = read_then _ (
      lift_then _ _ λ old found. quiet_then _ _ (clear-IsQuiet room_id) λ _.
        lift_then _ _ λ new moved.
          let (p, q) =
            start_chosen-phases env user_id (chosen_theme env typed old) _ old new moved in
          then_quiet _ _
            (write-IsStep old new (or_throw-eq-ok _ _ found) (edge_between Edge.draw p q))
            λ _. search quiet depth 12)

  pub advance_to_evaluating-IsStep :
      (env : Surroundings) (expected : Option Text) (before : redis.State)
      → IsStep redis room_id before (advance_to_evaluating env room_id expected)
  unfolding advance_to_evaluating
  advance_to_evaluating-IsStep env expected before = read_then _ (
      if_some-IsStep _ _ λ old found. if_true-IsStep _ _ λ phase. if_some-IsStep _ _ λ c _.
        lift_then _ _ λ round_id _. if_true-IsStep _ _ λ _. if_some-IsStep _ _ λ round _.
          lift_then _ _ λ _ _. quiet_then _ _ (send-IsQuiet _) λ _. lift_then _ _ λ _ _.
            quiet_then _ _ (send-IsQuiet _) λ _. lift_then _ _ λ _ _.
              then_quiet _ _
                (change-IsStep old _ found (edge_between Edge.evaluate (ground arith) refl))
                λ _. search (quiet, timer-IsQuiet) depth 12)

  pub force_start_drawing_phase-IsStep :
      (env : Surroundings) (topic : Text) (before : redis.State) (st : GameState)
      → Store.get redis room_id before ≡ some st
      → st.phase ≡ GamePhase.theme_selecting
      → IsStep redis room_id before (force_start_drawing_phase env room_id topic)
  unfolding force_start_drawing_phase
  force_start_drawing_phase-IsStep env topic before st here phase = read_then _ (
      if_some-IsStep _ _ λ old found. quiet_then _ _ (clear-IsQuiet room_id) λ _.
        then_quiet _ _
          (change-IsStep old _ found (edge_between Edge.draw (ground (arith, here, found)) refl))
          λ _. search quiet depth 12)

  pub advance_to_round_summary-IsStep :
      (env : Surroundings) (before : redis.State)
      → IsStep redis room_id before (advance_to_round_summary env room_id)
  unfolding advance_to_round_summary
  advance_to_round_summary-IsStep env before = read_then _ (
      lift_then _ _ λ old found. if_true-IsStep _ _ λ phase.
        guarded (λ s. not (includes s.summary_transition_guard room_id)) _
          (on_error-IsStep _ (guard_summary room_id) (release_summary room_id) (λ s. refl)
            (λ s. refl)
            (quiet_then _ _ (clear-IsQuiet room_id) λ _. lift_then _ _ λ r _.
              then_quiet _ _
                (change-IsStep old _ (or_throw-eq-ok _ _ found)
                  (edge_between Edge.summarise (ground arith) refl))
                λ patched. summarised-IsQuiet patched)))

  advance-IsStep :
      (env : Surroundings) (before : redis.State) (old new : GameState)
      → Store.get redis room_id before ≡ some old
      → Edge old.phase new.phase
      → IsStep redis room_id before (advance env room_id new)
  unfolding advance
  advance-IsStep env before old new found e =
      then_quiet _ _ (change-IsStep old _ found (inl e)) λ patched.
        if_some-IsQuiet _ _
          λ p. branch-IsQuiet (is_finished p.phase) _ _ (close-IsQuiet env p) (send-IsQuiet _)

  pub advance_from_round_summary-IsStep :
      (env : Surroundings) (before : redis.State)
      → IsStep redis room_id before (advance_from_round_summary env room_id)
  unfolding advance_from_round_summary
  advance_from_round_summary-IsStep env before =
      guarded (λ s. not (includes s.round_summary_exit_guard room_id)) _
        (finally-IsStep _ (guard_exit room_id) (release_exit room_id) (λ s. refl) (λ s. refl)
          (read_then _ (
            if_some-IsStep _ _ λ old found. if_true-IsStep _ _ λ _.
              quiet_then _ _ (clear-IsQuiet room_id) λ _.
                branch-IsStep (is_last_round old) _ _
                  (lift_then _ _ λ new moved.
                    let (p, q) = advance_to_finished-phases old new moved in
                    advance-IsStep env before old new found (rw (p, q) Edge.finish))
                  (if_some-IsStep _ _ λ t _. lift_then _ _ λ new moved.
                    let (p, q) = advance_to_theme_selecting-phases _ _ _ old new moved in
                    advance-IsStep env before old new found (rw (p, q) Edge.again)))))

  pub begin_theme_selection-IsStep :
      (env : Surroundings) (before : redis.State)
      → IsStep redis room_id before (begin_theme_selection env room_id)
  unfolding begin_theme_selection
  begin_theme_selection-IsStep env before = read_then _ (
      if_some-IsStep _ _ λ old found. if_true-IsStep _ _ λ _. if_some-IsStep _ _ λ t _.
        if_some-IsStep _ _ λ new moved.
          let (p, q) = start_theme_selection-phases _ _ _ old new moved in
          then_quiet _ _ (write-IsStep old new found (edge_between Edge.select p q))
            λ _. send-IsQuiet _)

  pub return_to_waiting-IsStep :
      (env : Surroundings) (before : redis.State)
      → IsStep redis room_id before (return_to_waiting {redis = redis} env room_id)
  unfolding return_to_waiting
  return_to_waiting-IsStep env before = read_then _ (
      if_some-IsStep _ _ λ old found. if_true-IsStep _ _ λ phase.
        then_quiet _ _ (change-IsStep old _ found (edge_between Edge.return (ground arith) refl))
          λ patched. search quiet depth 8)
