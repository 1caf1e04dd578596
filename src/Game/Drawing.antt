-- ===== src/Game/Drawing.antt =====
-- The drawing phase: the phase context entity of src/game/drawing/entities/drawing.entity.ts, and
-- the submission and disconnection of src/game/drawing/drawing.service.ts. The entity is the
-- context that it copies; `toPlain` gives it back.
pub mod Readiness
use pollycasso_back.Prelude.{
  Bool, Option, Result, [], conflict, drawing_context_missing, err, false, game_state_not_found,
  if◌then◌else◌, includes, leb, length, ltb, none, not, ok, or_throw, some, throw_if, true,
  user_not_active, without, ℕ, ◌&&◌, ◌++◌, ◌>>=◌, ◌>>◌, ◌∷◌,
}
use pollycasso_back.GameState.{
  GameState, PartialGameState, no_change, PhaseContext, DrawingContext, is_drawing,
  drawing_context?,
}
use pollycasso_back.GameState.Store.{Redis, get, patch}
use pollycasso_back.Game.Disconnect.{
  PhaseDisconnectResult, RoomUpdatePlayerPayload, disconnected, became_ready,
}
use pollycasso_back.Game.Ready.{RoomReadySummaryPayload, get_ready_summary_from_state}

unfoldable pub from_phase_context : Option PhaseContext → Result DrawingContext
from_phase_context c = or_throw (drawing_context? c) (conflict drawing_context_missing)

unfoldable pub is_ready_to_advance : DrawingContext → Bool
is_ready_to_advance c =
    ltb 0 (length c.active_user_ids) && leb (length c.active_user_ids) (length c.ready_user_ids)

unfoldable pub ensure_active : ℕ → DrawingContext → Result (Unit {0})
ensure_active user_id c =
    throw_if (not (includes c.active_user_ids user_id)) (conflict user_not_active)

-- Whether the user became ready, and the changed context.
unfoldable pub mark_ready : ℕ → DrawingContext → Result (Bool × DrawingContext)
unfolding ensure_active
mark_ready user_id c = do
  ensure_active user_id c
  ok (
      if includes c.ready_user_ids user_id
      then (false, c)
      else (true, record c { ready_user_ids = c.ready_user_ids ++ user_id ∷ [] }))

unfoldable pub remove_user : ℕ → DrawingContext → Bool × DrawingContext
remove_user user_id c =
    if includes c.active_user_ids user_id
    then (
      true,
      record c {
        active_user_ids = without user_id c.active_user_ids;
        ready_user_ids = without user_id c.ready_user_ids;
      },
    )
    else (false, c)

abbrev removal : ℕ → Bool × DrawingContext → Option PhaseDisconnectResult
removal user_id (false, c) = none
removal user_id (true, c) = some (record {
  next_phase_context = some (PhaseContext.drawing c);
  should_advance = is_ready_to_advance c;
  player_update = some (disconnected user_id);
  selected_topic = none;
})

abbrev leave_context : ℕ → Option DrawingContext → Option PhaseDisconnectResult
leave_context user_id none = none
leave_context user_id (some c) = removal user_id (remove_user user_id c)

unfoldable pub compute_disconnect : GameState → ℕ → Option PhaseDisconnectResult
compute_disconnect s user_id =
    if is_drawing s.phase then leave_context user_id (drawing_context? s.phase_context) else none

pub record SubmitDrawingResult : Type 0 where
  pub should_advance : Bool
  pub player_update : Option RoomUpdatePlayerPayload
  pub ready_summary : RoomReadySummaryPayload

module _ (redis : Redis) where
  open redis use {State}

  -- The patch with the new context, and the answer.
  abbrev submit : ℕ → ℕ → State → Bool × DrawingContext → Result SubmitDrawingResult × State
  submit room_id user_id s (became, c) =
      let change = record no_change { phase_context = some (some (PhaseContext.drawing c)) } in
      let (patched, s') = patch redis room_id change s in
      (
        do
          state ← or_throw patched (conflict game_state_not_found)
          ok (record {
            should_advance = is_ready_to_advance c;
            player_update = if became then some (became_ready user_id true) else none;
            ready_summary = get_ready_summary_from_state state;
          }),
        s',
      )

  abbrev ready_of : ℕ → Option GameState → Result (Bool × DrawingContext)
  ready_of user_id found = do
    state ← or_throw found (conflict game_state_not_found)
    c ← from_phase_context state.phase_context
    mark_ready user_id c

  -- Nothing is written before the last guard has passed.
  unfoldable pub submit_drawing : ℕ → ℕ → State → Result SubmitDrawingResult × State
  submit_drawing room_id user_id s = elim (ready_of user_id (get redis room_id s)) [
    | ok m ↦ submit room_id user_id s m
    | err e ↦ (err e, s)
  ]
