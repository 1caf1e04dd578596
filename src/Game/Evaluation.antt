-- ===== src/Game/Evaluation.antt =====
-- The evaluation phase: src/game/evaluation/evaluation.service.ts. The vote repository
-- (evaluation/interfaces/evaluation-vote.interface.ts) is an argument: the number of distinct
-- targets of a voter, the sums of the ratings, and the write of a vote. So are `Number(text)` and
-- the drawings of a round.
pub mod Ready
pub mod Votes
pub mod Summary
use pollycasso_back.Prelude.{
  Bool, JsNumber, Option, Result, Text, [], all, err, evaluation_context_invalid,
  evaluation_incomplete, false, if◌then◌else◌, includes, invalid_phase, leb, length, ltb, none, not,
  ok, or_throw, show, some, state_patch_failed, throw_if, unique, whole, without, ws_error, ℕ, ◌&&◌,
  ◌++◌, ◌>>=◌, ◌>>◌, ◌∷◌,
}
use pollycasso_back.GameState.{
  GameState, no_change, PhaseContext, EvaluatingContext, evaluating_context?, RoundRankItem,
  RoundSummaryPhaseContext, GamePhase, is_evaluating, DrawData,
}
use pollycasso_back.GameState.Store.{Redis, get, patch}
use pollycasso_back.Game.Disconnect.{PhaseDisconnectResult, disconnected}
use pollycasso_back.Game.Ready.{RoomReadySummaryPayload}

abbrev pub score_min : ℕ
score_min = 0

abbrev pub score_max : ℕ
score_max = 10

abbrev pub colon : ℕ
colon = b':'

-- `${matchId}:${roomMemberId}:${round}`
unfoldable pub make_drawing_id : ℕ → ℕ → ℕ → Text
make_drawing_id match_id room_member_id round =
    show match_id ++ (colon ∷ (show room_member_id ++ (colon ∷ show round)))

unfoldable pub validate_score : JsNumber → Bool
validate_score (whole n) = leb score_min n && leb n score_max
validate_score _ = false

-- Everybody who is active is ready, and somebody is active.
unfoldable pub is_all_ready : EvaluatingContext → Bool
is_all_ready c =
    ltb 0 (length c.active_user_ids) && all (includes c.ready_user_ids) c.active_user_ids

abbrev leave_context : ℕ → Option EvaluatingContext → Option PhaseDisconnectResult
leave_context user_id none = none
leave_context user_id (some c) =
    let next : EvaluatingContext = record {
      active_user_ids = without user_id c.active_user_ids;
      ready_user_ids = without user_id c.ready_user_ids;
    } in
    if includes c.active_user_ids user_id
    then some (record {
      next_phase_context = some (PhaseContext.evaluating next);
      should_advance = is_all_ready next;
      player_update = some (disconnected user_id);
      selected_topic = none;
    })
    else none

unfoldable pub compute_disconnect : GameState → ℕ → Option PhaseDisconnectResult
compute_disconnect s user_id =
    if is_evaluating s.phase
    then leave_context user_id (evaluating_context? s.phase_context)
    else none

-- The votes that a user owes: one for each other active user.
abbrev pub required_votes : EvaluatingContext → ℕ → ℕ
required_votes c user_id = length (without user_id c.active_user_ids)

abbrev complete : (ℕ → ℕ → ℕ → ℕ) → GameState → ℕ → Option EvaluatingContext → Option ℕ → Bool
complete count_targets s user_id (some c) (some round) =
    leb (required_votes c user_id) (count_targets s.match_id round user_id)
complete count_targets s user_id _ _ = false

unfoldable pub is_evaluation_complete_for_user : (ℕ → ℕ → ℕ → ℕ) → GameState → ℕ → Bool
is_evaluation_complete_for_user count_targets s user_id =
    complete count_targets s user_id (evaluating_context? s.phase_context) s.current_round

pub record ToggleReadyResult : Type 0 where
  pub is_ready : Bool
  pub all_ready : Bool
  pub ready_summary : RoomReadySummaryPayload

abbrev summary_of : Option EvaluatingContext → Bool → RoomReadySummaryPayload
summary_of none all_ready = record {
  phase = GamePhase.evaluating;
  ready_count = 0;
  total_count = 0;
  all_ready = all_ready;
}
summary_of (some c) all_ready = record {
  phase = GamePhase.evaluating;
  ready_count = length c.ready_user_ids;
  total_count = length c.active_user_ids;
  all_ready = all_ready;
}

abbrev all_ready_of : Option EvaluatingContext → Bool
all_ready_of none = false
all_ready_of (some c) = is_all_ready c

abbrev toggled : ℕ → EvaluatingContext → EvaluatingContext
toggled user_id c = record c {
  ready_user_ids =
      if includes c.ready_user_ids user_id
      then without user_id c.ready_user_ids
      else unique (c.ready_user_ids ++ user_id ∷ []);
}

-- The guards of `toggleReady`, up to the write.
toggle_context : (ℕ → ℕ → ℕ → ℕ) → GameState → ℕ → Result EvaluatingContext
toggle_context count_targets s user_id = do
  throw_if (not (is_evaluating s.phase)) (ws_error 400 invalid_phase)
  c ← or_throw (evaluating_context? s.phase_context) (ws_error 500 evaluation_context_invalid)
  throw_if
      (not (includes c.ready_user_ids user_id)
        && not (is_evaluation_complete_for_user count_targets s user_id))
      (ws_error 400 evaluation_incomplete)
  ok c

module _ (redis : Redis) where
  open redis use {State}

  abbrev toggle : ℕ → ℕ → State → EvaluatingContext → Result ToggleReadyResult × State
  toggle room_id user_id s c =
      let change = record no_change {
        phase_context = some (some (PhaseContext.evaluating (toggled user_id c)));
      } in
      let (patched, s') = patch redis room_id change s in
      (
        do
          state ← or_throw patched (ws_error 500 state_patch_failed)
          let all_ready = all_ready_of (evaluating_context? state.phase_context)
          ok (record {
            is_ready = not (includes c.ready_user_ids user_id);
            all_ready = all_ready;
            ready_summary = summary_of (evaluating_context? state.phase_context) all_ready;
          }),
        s',
      )

  unfoldable pub toggle_ready :
      (ℕ → ℕ → ℕ → ℕ) → ℕ → GameState → ℕ → State → Result ToggleReadyResult × State
  unfolding toggle_context
  toggle_ready count_targets room_id state user_id s =
      elim (toggle_context count_targets state user_id) [
        | ok c ↦ toggle room_id user_id s c
        | err e ↦ (err e, s)
      ]
