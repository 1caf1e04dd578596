-- ===== src/Game/Session.antt =====
-- The session entity: src/game/entities/game-session.entity.ts, with the limits and durations of
-- src/game/constants/game.constant.ts. An entity is the game state that it holds (`restore` copies
-- it); a method returns the new state or throws. The clock, the random UUID and the random index
-- are arguments.
pub mod Moves
pub mod Rounds
use pollycasso_back.Prelude.{
  Bool, List, Option, Result, Text, [], context_invalid, err, filter, get_elem?, if◌then◌else◌, leb,
  length, ltb, none, not, ok, or_else, or_throw, permission_denied_selector, phase_must_be_loading,
  phase_must_be_theme_selecting, plain_error, some, take, text_includes, theme_invalid,
  theme_not_set, throw_if, trim, truthy, truthy?, type_error, ℕ, ◌&&◌, ◌+◌, ◌==◌, ◌>>=◌, ◌>>◌, ◌∷◌,
}
use pollycasso_back.GameState.{
  GamePhase, GameState, PhaseContext, is_loading, theme_context?, drawing_context?,
  is_theme_selecting, is_round_summary,
}

abbrev pub default_total_rounds : ℕ
default_total_rounds = 3

abbrev pub recent_themes_limit : ℕ
recent_themes_limit = 3

abbrev pub theme_selecting_duration_ms : ℕ
theme_selecting_duration_ms = 32000

abbrev pub drawing_duration_ms : ℕ
drawing_duration_ms = 92000

-- `n || d`, where n may be null: 0 is replaced too.
abbrev pub nonzero_or : Option ℕ → ℕ → ℕ
nonzero_or none d = d
nonzero_or (some n) d = if n == 0 then d else n

-- A drawing context has an instance id, and that is not "".
unfoldable pub current_phase_instance_id : GameState → Result Text
current_phase_instance_id s = do
  c ← or_throw (drawing_context? s.phase_context) (plain_error context_invalid)
  throw_if (not (truthy? c.phase_instance_id)) (plain_error context_invalid)
  ok (or_else c.phase_instance_id [])

unfoldable pub get_confirmed_theme : GameState → Result Text
get_confirmed_theme s = do
  throw_if (not (truthy? s.current_theme)) (plain_error theme_not_set)
  ok (or_else s.current_theme [])

unfoldable pub start_theme_selection : ℕ → ℕ → Option Text → GameState → Result GameState
start_theme_selection now selector_id nickname s = do
  throw_if (not (is_loading s.phase)) (plain_error phase_must_be_loading)
  ok (record s {
    phase = GamePhase.theme_selecting;
    ends_at = some (now + theme_selecting_duration_ms);
    current_theme = none;
    phase_context = some (
        PhaseContext.theme_selecting
          (record { selector_id = selector_id; selector_nickname = nickname }));
  })

unfoldable pub start_drawing : ℕ → Text → ℕ → Text → List ℕ → GameState → Result GameState
start_drawing now uuid user_id theme active_user_ids s = do
  throw_if (not (is_theme_selecting s.phase)) (plain_error phase_must_be_theme_selecting)
  context ← or_throw (theme_context? s.phase_context) (plain_error context_invalid)
  throw_if (not (context.selector_id == user_id)) (plain_error permission_denied_selector)
  throw_if (not (truthy (trim theme))) (plain_error theme_invalid)
  ok (record s {
    phase = GamePhase.drawing;
    current_theme = some (trim theme);
    ends_at = some (now + drawing_duration_ms);
    current_round = some (nonzero_or s.current_round 1);
    total_rounds = some (nonzero_or s.total_rounds default_total_rounds);
    phase_context = some (
        PhaseContext.drawing (record {
          active_user_ids = active_user_ids;
          ready_user_ids = [];
          phase_instance_id = some uuid;
        }));
    recent_themes = take recent_themes_limit (trim theme ∷ s.recent_themes);
  })

-- `startDrawing` with an undefined theme, which has no `trim`.
unfoldable pub start_drawing_undefined : ℕ → GameState → Result GameState
start_drawing_undefined user_id s = do
  throw_if (not (is_theme_selecting s.phase)) (plain_error phase_must_be_theme_selecting)
  context ← or_throw (theme_context? s.phase_context) (plain_error context_invalid)
  throw_if (not (context.selector_id == user_id)) (plain_error permission_denied_selector)
  err (plain_error type_error)

-- The themes of the pool that are not recent, or the whole pool where all are.
abbrev pub theme_candidates : List Text → List Text → List Text
theme_candidates recent pool =
    let fresh = filter (λ t. not (text_includes recent t)) pool in
    if ltb 0 (length fresh) then fresh else pool

-- `draw n` is `Math.floor(Math.random() * n)`; `none` is undefined.
unfoldable pub pick_random_theme : (ℕ → ℕ) → List Text → GameState → Option Text
pick_random_theme draw pool s =
    let final_pool = theme_candidates s.recent_themes pool in
    get_elem? final_pool (draw (length final_pool))

abbrev pub is_last_round : GameState → Bool
is_last_round s =
    let total = or_else s.total_rounds default_total_rounds in
    ltb 0 total && leb total (or_else s.current_round 1)

unfoldable pub advance_to_theme_selecting : ℕ → ℕ → Text → GameState → Result GameState
advance_to_theme_selecting ends_at selector_id nickname s = do
  throw_if (not (is_round_summary s.phase)) (plain_error context_invalid)
  throw_if (is_last_round s) (plain_error context_invalid)
  ok (record s {
    current_theme = none;
    current_round = some (or_else s.current_round 1 + 1);
    phase = GamePhase.theme_selecting;
    ends_at = some ends_at;
    phase_context = some (
        PhaseContext.theme_selecting
          (record { selector_id = selector_id; selector_nickname = some nickname }));
  })

unfoldable pub advance_to_finished : GameState → Result GameState
advance_to_finished s = do
  throw_if (not (is_round_summary s.phase)) (plain_error context_invalid)
  ok (record s {
    current_theme = none;
    ends_at = none;
    phase_context = none;
    phase = GamePhase.finished;
  })
