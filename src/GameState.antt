-- ===== src/GameState.antt =====
-- The state of a running game: src/game-state/interfaces/game-state.interface.ts. It is stored as
-- one JSON value per room; JSON keeps all of it. Ids, rounds, scores and times (milliseconds) are
-- natural numbers; the sizes and coordinates of a drawn line are carried and never computed with.
pub mod Store
use pollycasso_back.Prelude.{Bool, List, Option, Text, false, none, or_else, some, true, ℕ}

pub data GamePhase : Type 0 where
  waiting loading theme_selecting drawing evaluating round_summary finished : GamePhase

pub data DrawingTool : Type 0 where
  pencil brush neon bucket eraser : DrawingTool

pub record DrawLine : Type 0 where
  pub tool : DrawingTool
  pub color : Text
  pub size : ℕ
  pub points : List ℕ

pub record DrawData : Type 0 where
  pub lines : List DrawLine

pub record ThemeSelectPhaseContext : Type 0 where
  pub selector_id : ℕ
  pub selector_nickname : Option Text

pub record DrawingContext : Type 0 where
  pub active_user_ids : List ℕ
  pub ready_user_ids : List ℕ
  pub phase_instance_id : Option Text

pub record EvaluatingContext : Type 0 where
  pub active_user_ids : List ℕ
  pub ready_user_ids : List ℕ

pub record RoundRankItem : Type 0 where
  pub room_member_id : ℕ
  pub nickname : Text
  pub drawing_id : Text
  pub score : ℕ
  pub total_score : ℕ

pub record RoundSummaryPhaseContext : Type 0 where
  pub rankings : List RoundRankItem
  pub drawings_by_id : List (Text × DrawData)
  pub ready_user_ids : List ℕ

-- The constructor is the `kind`; `null` is `none` of `Option PhaseContext`.
pub data PhaseContext : Type 0 where
  theme_selecting : ThemeSelectPhaseContext → PhaseContext
  drawing : DrawingContext → PhaseContext
  evaluating : EvaluatingContext → PhaseContext
  round_summary : RoundSummaryPhaseContext → PhaseContext

pub record GameState : Type 0 where
  pub phase : GamePhase
  pub ends_at : Option ℕ
  pub current_round : Option ℕ
  pub total_rounds : Option ℕ
  pub match_id : ℕ
  pub room_member_id_by_user_id : List (ℕ × ℕ)
  pub current_theme : Option Text
  pub recent_themes : List Text
  pub total_scores : List (Text × ℕ)
  pub phase_context : Option PhaseContext

-- `Partial<GameState>`: `none` is a field that is left out.
pub record PartialGameState : Type 0 where
  pub phase : Option GamePhase
  pub ends_at : Option (Option ℕ)
  pub current_round : Option (Option ℕ)
  pub total_rounds : Option (Option ℕ)
  pub match_id : Option ℕ
  pub room_member_id_by_user_id : Option (List (ℕ × ℕ))
  pub current_theme : Option (Option Text)
  pub recent_themes : Option (List Text)
  pub total_scores : Option (List (Text × ℕ))
  pub phase_context : Option (Option PhaseContext)

abbrev pub no_change : PartialGameState
no_change = record {
  phase = none;
  ends_at = none;
  current_round = none;
  total_rounds = none;
  match_id = none;
  room_member_id_by_user_id = none;
  current_theme = none;
  recent_themes = none;
  total_scores = none;
  phase_context = none;
}

-- `{ ...current, ...partial }`
abbrev pub overlay : GameState → PartialGameState → GameState
overlay s p = record {
  phase = or_else p.phase s.phase;
  ends_at = or_else p.ends_at s.ends_at;
  current_round = or_else p.current_round s.current_round;
  total_rounds = or_else p.total_rounds s.total_rounds;
  match_id = or_else p.match_id s.match_id;
  room_member_id_by_user_id = or_else p.room_member_id_by_user_id s.room_member_id_by_user_id;
  current_theme = or_else p.current_theme s.current_theme;
  recent_themes = or_else p.recent_themes s.recent_themes;
  total_scores = or_else p.total_scores s.total_scores;
  phase_context = or_else p.phase_context s.phase_context;
}

abbrev pub is_loading : GamePhase → Bool
is_loading loading = true
is_loading _ = false

abbrev pub is_theme_selecting : GamePhase → Bool
is_theme_selecting theme_selecting = true
is_theme_selecting _ = false

abbrev pub is_drawing : GamePhase → Bool
is_drawing drawing = true
is_drawing _ = false

abbrev pub is_evaluating : GamePhase → Bool
is_evaluating evaluating = true
is_evaluating _ = false

abbrev pub is_round_summary : GamePhase → Bool
is_round_summary round_summary = true
is_round_summary _ = false

abbrev pub is_finished : GamePhase → Bool
is_finished finished = true
is_finished _ = false

-- The context of each kind, if the state is in it.
abbrev pub theme_context? : Option PhaseContext → Option ThemeSelectPhaseContext
theme_context? (some (PhaseContext.theme_selecting c)) = some c
theme_context? _ = none

abbrev pub drawing_context? : Option PhaseContext → Option DrawingContext
drawing_context? (some (PhaseContext.drawing c)) = some c
drawing_context? _ = none

abbrev pub evaluating_context? : Option PhaseContext → Option EvaluatingContext
evaluating_context? (some (PhaseContext.evaluating c)) = some c
evaluating_context? _ = none

abbrev pub summary_context? : Option PhaseContext → Option RoundSummaryPhaseContext
summary_context? (some (PhaseContext.round_summary c)) = some c
summary_context? _ = none
