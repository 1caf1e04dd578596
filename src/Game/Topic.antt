-- ===== src/Game/Topic.antt =====
-- The topic service (src/game/topic/topic.service.ts). The players of the waiting room, the pool of
-- themes and the random index are arguments: `draw n` is `Math.floor(Math.random() * n)`.
pub mod Departure
use pollycasso_back.Prelude.{
  Bool, List, Option, Text, false, get_elem?, if◌then◌else◌, length, ltb, none, some, true, ℕ, ◌==◌,
}
use pollycasso_back.GameState.{
  GameState, ThemeSelectPhaseContext, PhaseContext, theme_context?, is_theme_selecting,
}
use pollycasso_back.Game.Disconnect.{PhaseDisconnectResult, disconnected}
use pollycasso_back.Game.Session.{theme_candidates}
use pollycasso_back.Waiting.{WaitingPlayerState}

pub record ThemeSelection : Type 0 where
  pub selector_id : ℕ
  pub selector_nickname : Text

-- `players[i]`, which is there for every index below the length.
abbrev selection : Option WaitingPlayerState → Option ThemeSelection
selection none = none
selection (some p) = some (record { selector_id = p.user_id; selector_nickname = p.nickname })

unfoldable pub build_theme_selection_context :
    (ℕ → ℕ) → List WaitingPlayerState → Option ThemeSelection
build_theme_selection_context draw players =
    if ltb 0 (length players) then selection (get_elem? players (draw (length players))) else none

unfoldable pub pick_random_theme : (ℕ → ℕ) → List Text → List Text → Option Text
pick_random_theme draw themes recent =
    let pool = theme_candidates recent themes in get_elem? pool (draw (length pool))

abbrev stays : ThemeSelectPhaseContext → ℕ → Option Text → Bool → PhaseDisconnectResult
stays c user_id topic advance = record {
  next_phase_context = some (PhaseContext.theme_selecting c);
  should_advance = advance;
  player_update = some (disconnected user_id);
  selected_topic = topic;
}

abbrev leave_context :
    (ℕ → ℕ)
    → List Text
    → GameState
    → ℕ
    → Option ThemeSelectPhaseContext
    → Option PhaseDisconnectResult
leave_context draw themes s user_id none = none
leave_context draw themes s user_id (some c) =
    if c.selector_id == user_id
    then some (stays c user_id (pick_random_theme draw themes s.recent_themes) true)
    else some (stays c user_id none false)

unfoldable pub compute_disconnect :
    (ℕ → ℕ) → List Text → GameState → ℕ → Option PhaseDisconnectResult
compute_disconnect draw themes s user_id =
    if is_theme_selecting s.phase
    then leave_context draw themes s user_id (theme_context? s.phase_context)
    else none
