-- ===== src/Game/Ready.antt =====
-- Who is ready in a phase, as the clients are told: src/game/utils/game-phase-ready.util.ts.
pub mod Sets
pub mod Snapshot
use pollycasso_back.Prelude.{
  Bool, List, Option, [], includes, keys, leb, length, ltb, map, some, ℕ, ◌&&◌,
}
use pollycasso_back.GameState.{GamePhase, GameState, PhaseContext}

pub record RoomReadySummaryPayload : Type 0 where
  pub phase : GamePhase
  pub ready_count : ℕ
  pub total_count : ℕ
  pub all_ready : Bool

pub record RoomPhasePlayerSnapshot : Type 0 where
  pub user_id : ℕ
  pub is_ready : Bool

pub record RoomPhaseSnapshotPayload : Type 0 where
  pub players : List RoomPhasePlayerSnapshot
  pub ready_summary : RoomReadySummaryPayload

-- `ctx.readyUserIds` of a context that has them.
abbrev pub ready_ids : Option PhaseContext → List ℕ
ready_ids (some (PhaseContext.drawing c)) = c.ready_user_ids
ready_ids (some (PhaseContext.evaluating c)) = c.ready_user_ids
ready_ids (some (PhaseContext.round_summary c)) = c.ready_user_ids
ready_ids _ = []

-- `ctx.activeUserIds` of a drawing or evaluating context.
abbrev pub active_ids : Option PhaseContext → List ℕ
active_ids (some (PhaseContext.drawing c)) = c.active_user_ids
active_ids (some (PhaseContext.evaluating c)) = c.active_user_ids
active_ids _ = []

unfoldable pub get_ready_user_ids : GameState → List ℕ
get_ready_user_ids s = ready_ids s.phase_context

-- The users who are to be ready, by phase.
abbrev pub target_ids : GamePhase → GameState → List ℕ
target_ids GamePhase.drawing s = active_ids s.phase_context
target_ids GamePhase.evaluating s = active_ids s.phase_context
target_ids GamePhase.round_summary s = keys s.room_member_id_by_user_id
target_ids _ s = []

unfoldable pub get_phase_ready_target_user_ids : GameState → List ℕ
get_phase_ready_target_user_ids s = target_ids s.phase s

abbrev pub target_count : GamePhase → GameState → ℕ
target_count GamePhase.drawing s = length (active_ids s.phase_context)
target_count GamePhase.evaluating s = length (active_ids s.phase_context)
target_count GamePhase.round_summary s = length (keys s.room_member_id_by_user_id)
target_count _ s = 0

unfoldable pub get_ready_target_count_by_phase : GameState → ℕ
get_ready_target_count_by_phase s = target_count s.phase s

unfoldable pub get_ready_summary_from_state : GameState → RoomReadySummaryPayload
unfolding get_ready_user_ids get_ready_target_count_by_phase
get_ready_summary_from_state s =
    let ready_count = length (get_ready_user_ids s) in
    let total_count = get_ready_target_count_by_phase s in
    record {
      phase = s.phase;
      ready_count = ready_count;
      total_count = total_count;
      all_ready = ltb 0 total_count && leb total_count ready_count;
    }

unfoldable pub build_phase_snapshot_from_state : GameState → RoomPhaseSnapshotPayload
unfolding get_ready_summary_from_state get_phase_ready_target_user_ids
build_phase_snapshot_from_state s = record {
  players =
      map
        (λ user_id. record {
          user_id = user_id;
          is_ready = includes (get_ready_user_ids s) user_id;
        })
        (get_phase_ready_target_user_ids s);
  ready_summary = get_ready_summary_from_state s;
}
