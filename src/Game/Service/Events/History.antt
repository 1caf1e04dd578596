-- ===== src/Game/Service/Events/History.antt =====
-- Events (src/game/*.gateway.ts and the timeouts of src/game/session/game-session.service.ts) as steps
-- of the phase diagram.
use mathlib.Core.Path.{subst}
use native.Mathlib.Decide.{ℕ_discrete}
use pollycasso_back.Prelude.{
  ==_ne, Bool-cases, List, Option, [], arith, inl, inr, none, or_throw-eq-ok, refl, some, sym, true,
  ℕ, ◌==◌, ◌∷◌, ◌≡◌, ◌≤◌, ◌⊎◌,
}
use pollycasso_back.GameState.{GameState, GamePhase}
use pollycasso_back.GameState.Store
use pollycasso_back.GameState.Store.{Redis}
use pollycasso_back.Game.Drawing.{submit_drawing}
use pollycasso_back.Game.Drawing.Readiness.{submit_drawing-store}
use pollycasso_back.Game.Evaluation.{toggle_ready}
use pollycasso_back.Game.Evaluation.Ready.{toggle_ready-store}
use pollycasso_back.Game.Service.{
  M, lift, Server, Surroundings, Timeout, end_drawing, end_evaluating, end_summary,
}
use pollycasso_back.Game.Service.Events.{
  Event, handle, logged, on_finalize, run, on_ready_toggle, on_submit_drawing, on_timeout,
  toggle_in, toggles_ready, submits_drawing, finalizes, disconnects, phase_timeout, theme_timeout,
  return_timeout,
}
use pollycasso_back.Game.Service.Steps.{Edge, StoreStep, IsStep, keeps, writes, deletes}
use pollycasso_back.Game.Service.Steps.Rules.{
  quiet, read_then, lift_then, if_some-IsStep, if_true-IsStep, IsQuiet-IsStep,
}
use pollycasso_back.Game.Service.Steps.Writes.{call_then}
use pollycasso_back.Game.Service.Phases.{
  branch-IsStep, start_drawing_phase-IsStep, advance_to_evaluating-IsStep,
  advance_to_round_summary-IsStep, advance_from_round_summary-IsStep, begin_theme_selection-IsStep,
  return_to_waiting-IsStep,
}
use pollycasso_back.Game.Service.Phases.Leaving.{
  handle_disconnect-IsStep, handle_ready_toggle-IsStep,
}

module _ {redis : Redis} {room_id : ℕ} where
  toggle_in-IsStep :
      (env : Surroundings) (user_id : ℕ) (before : redis.State) (st : GameState) (phase : GamePhase)
      → Store.get redis room_id before ≡ some st
      → IsStep redis room_id before (toggle_in env room_id user_id st phase)
  unfolding lift
  toggle_in-IsStep env user_id before st GamePhase.evaluating found =
      call_then (toggle_ready redis env.count_targets room_id st user_id) _
        (toggle_ready-store redis env.count_targets room_id user_id before st found)
        λ r middle.
          branch-IsStep r.all_ready _ _ (advance_to_round_summary-IsStep env middle)
            (IsQuiet-IsStep _ (search quiet depth 8))
  toggle_in-IsStep env user_id before st GamePhase.round_summary found =
      handle_ready_toggle-IsStep env user_id before
  toggle_in-IsStep env user_id before st _ found = record { apply = λ s e. keeps e }

  on_ready_toggle-IsStep :
      (env : Surroundings) (user_id : ℕ) (before : redis.State)
      → IsStep redis room_id before (on_ready_toggle {redis = redis} env room_id user_id)
  unfolding on_ready_toggle
  on_ready_toggle-IsStep env user_id before = read_then _ (
      lift_then _ _
        λ st found. toggle_in-IsStep env user_id before st st.phase (or_throw-eq-ok _ _ found))

  on_submit_drawing-IsStep :
      (env : Surroundings) (user_id : ℕ) (before : redis.State)
      → IsStep redis room_id before (on_submit_drawing {redis = redis} env room_id user_id)
  unfolding on_submit_drawing
  on_submit_drawing-IsStep env user_id before =
      call_then (submit_drawing redis room_id user_id) _
        (submit_drawing-store redis room_id user_id before)
        λ r middle.
          branch-IsStep r.should_advance _ _ (advance_to_evaluating-IsStep env none middle)
            (IsQuiet-IsStep _ (search quiet depth 8))

  on_timeout-IsStep :
      (env : Surroundings) (t : Timeout) (before : redis.State)
      → IsStep redis room_id before (on_timeout {redis = redis} env room_id t)
  unfolding on_timeout
  on_timeout-IsStep env (end_drawing expected) before =
      advance_to_evaluating-IsStep env expected before
  on_timeout-IsStep env end_evaluating before = read_then _ (
      if_some-IsStep _ _ λ st _. if_true-IsStep _ _ λ _. advance_to_round_summary-IsStep env before)
  on_timeout-IsStep env end_summary before = read_then _ (
      if_some-IsStep _ _
        λ st _. if_true-IsStep _ _ λ _. advance_from_round_summary-IsStep env before)

  logged-IsStep :
      {A : Type 0} {before : redis.State} (m : M redis A)
      → IsStep redis room_id before m
      → IsStep redis room_id before (logged m)
  unfolding logged
  logged-IsStep m h = record { apply = h.apply }

  handle-IsStep :
      (env : Surroundings) (e : Event) (before : redis.State)
      → IsStep redis room_id before (handle {redis = redis} env room_id e)
  unfolding handle on_finalize
  handle-IsStep env (toggles_ready u) before = on_ready_toggle-IsStep env u before
  handle-IsStep env (submits_drawing u) before = on_submit_drawing-IsStep env u before
  handle-IsStep env (finalizes u typed) before =
      logged-IsStep _ (start_drawing_phase-IsStep env u typed before)
  handle-IsStep env (disconnects u) before = handle_disconnect-IsStep env u before
  handle-IsStep env (phase_timeout t) before = on_timeout-IsStep env t before
  handle-IsStep env theme_timeout before = begin_theme_selection-IsStep env before
  handle-IsStep env return_timeout before = return_to_waiting-IsStep env before

-- One event changes at most the game of its own room. That game keeps its phase, or moves along one
-- edge of the phase diagram, or is deleted; the games of the other rooms stay as they are, also where
-- the event ends in an exception.
pub handle-StoreStep :
    {redis : Redis} (env : Surroundings) (room_id : ℕ) (e : Event) (s : Server redis)
    → StoreStep redis room_id s.store (handle env room_id e s).1.store
handle-StoreStep env room_id e s = (handle-IsStep env e s.store).apply s refl

-- How far a match has come: it runs, it is finished, its players are back in the waiting room, its game
-- is deleted.
abbrev pub stage : Option GamePhase → ℕ
stage none = 3
stage (some GamePhase.waiting) = 2
stage (some GamePhase.finished) = 1
stage (some _) = 0

abbrev pub phase_of : Option GameState → Option GamePhase
phase_of none = none
phase_of (some st) = some st.phase

stage-Edge : {p q : GamePhase} → Edge p q → stage (some p) ≤ stage (some q)
stage-Edge Edge.select = omega arith
stage-Edge Edge.draw = omega arith
stage-Edge Edge.evaluate = omega arith
stage-Edge Edge.summarise = omega arith
stage-Edge Edge.again = omega arith
stage-Edge Edge.finish = omega arith
stage-Edge Edge.return = omega arith

stage-write :
    (old new : GameState)
    → Edge old.phase new.phase ⊎ (new.phase ≡ old.phase)
    → stage (some old.phase) ≤ stage (some new.phase)
stage-write old new (inl e) = stage-Edge e
stage-write old new (inr e) = rw e (omega arith)

stage-le : (p : Option GamePhase) → stage p ≤ 3
stage-le none = omega arith
stage-le (some GamePhase.waiting) = omega arith
stage-le (some GamePhase.loading) = omega arith
stage-le (some GamePhase.theme_selecting) = omega arith
stage-le (some GamePhase.drawing) = omega arith
stage-le (some GamePhase.evaluating) = omega arith
stage-le (some GamePhase.round_summary) = omega arith
stage-le (some GamePhase.finished) = omega arith

-- The stage of a room's match in the store.
abbrev pub stage_in : (redis : Redis) → ℕ → redis.State → ℕ
stage_in redis j k = stage (phase_of (Store.get redis j k))

module _ {redis : Redis} where
  step-stage :
      (room_id j : ℕ) (before after : redis.State)
      → StoreStep redis room_id before after
      → stage_in redis j before ≤ stage_in redis j after
  step-stage room_id j before after (keeps e) =
      subst (λ k. stage_in redis j before ≤ stage_in redis j k) (sym e) (omega arith)
  step-stage room_id j before after (writes old new found edge law) = elim (ℕ_discrete room_id j) [
    | yes e ↦
        let same : (room_id == j) ≡ true = ground arith in
        let here : Store.get redis j before ≡ some old =
          subst (λ k. Store.get redis k before ≡ some old) e found in
        rw (law j, same, here) (stage-write old new edge)
    | no n ↦ rw (law j, ==_ne room_id j n) (omega arith)
  ]
  step-stage room_id j before after (deletes law) = elim (Bool-cases (room_id == j)) [
    | inl e ↦ rw (law j, e) (stage-le (phase_of (Store.get redis j before)))
    | inr e ↦ rw (law j, e) (omega arith)
  ]

  -- Whatever events arrive (toggles of readiness, drawings, themes, closed sockets and timeouts), in
  -- whatever rooms and order, no room's match goes back a stage: a finished match does not run again,
  -- one whose players are back in the waiting room is neither finished nor run again, and a deleted
  -- game stays deleted.
  pub run-stage :
      (es : List (Surroundings × ℕ × Event)) (s : Server redis) (room_id : ℕ)
      → stage_in redis room_id s.store ≤ stage_in redis room_id (run es s).store
  unfolding run
  run-stage [] s room_id = omega arith
  run-stage ((env, k, e) ∷ es) s room_id =
      let here =
        step-stage k room_id s.store (handle env k e s).1.store
          ((handle-IsStep env e s.store).apply s refl) in
      let rest = run-stage es (handle env k e s).1 room_id in omega (arith, here, rest)
