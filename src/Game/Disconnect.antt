-- ===== src/Game/Disconnect.antt =====
-- What a phase answers when a player's socket closes, and the player update that clients are told:
-- src/game/interfaces/game-disconnect.interface.ts and game.interface.ts.
use pollycasso_back.Prelude.{Bool, Option, Text, false, none, some, ℕ}
use pollycasso_back.GameState.{PhaseContext}

-- An absent change is `none`.
pub record RoomUpdatePlayerPayload : Type 0 where
  pub user_id : ℕ
  pub is_ready : Option Bool
  pub is_connected : Option Bool

pub record PhaseDisconnectResult : Type 0 where
  pub next_phase_context : Option PhaseContext
  pub should_advance : Bool
  pub player_update : Option RoomUpdatePlayerPayload
  pub selected_topic : Option Text

abbrev pub disconnected : ℕ → RoomUpdatePlayerPayload
disconnected user_id = record { user_id = user_id; is_ready = none; is_connected = some false }

abbrev pub became_ready : ℕ → Bool → RoomUpdatePlayerPayload
became_ready user_id ready = record {
  user_id = user_id;
  is_ready = some ready;
  is_connected = none;
}
