-- ===== src/Game/Ready/Snapshot.antt =====
-- The snapshot that clients are sent: `buildPhaseSnapshotFromState` of
-- src/game/utils/game-phase-ready.util.ts.
use pollycasso_back.Prelude.{includes, ℕ}
use pollycasso_back.GameState.{GameState}
use pollycasso_back.Game.Ready.{RoomPhasePlayerSnapshot, get_ready_user_ids}

abbrev player_of : GameState → ℕ → RoomPhasePlayerSnapshot
player_of s u = record { user_id = u; is_ready = includes (get_ready_user_ids s) u }
