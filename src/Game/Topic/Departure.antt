-- ===== src/Game/Topic/Departure.antt =====
-- A player who leaves during the theme selection: `computeDisconnect` of
-- src/game/topic/topic.service.ts.
use pollycasso_back.Prelude.{
  ==_ne, Bool, IsIn, List, Option, Text, arith, false, filter, length, none, not, refl, some,
  text_includes, true, ℕ, ◌<◌, ◌==◌, ◌↔◌, ◌≡◌, ◌⊎◌,
}
use native.Mathlib.Decide.{ℕ_discrete}
use pollycasso_back.GameState.{GameState, GamePhase, PhaseContext, ThemeSelectPhaseContext}
use pollycasso_back.Game.Disconnect.{PhaseDisconnectResult, disconnected}
use pollycasso_back.Game.Topic.{compute_disconnect, pick_random_theme}
use pollycasso_back.Game.Session
use pollycasso_back.Game.Session.Moves.{pick_random_theme_lem}

abbrev answer : ThemeSelectPhaseContext → ℕ → Option Text → Bool → PhaseDisconnectResult
answer c user_id topic advance = record {
  next_phase_context = some (PhaseContext.theme_selecting c);
  should_advance = advance;
  player_update = some (disconnected user_id);
  selected_topic = topic;
}

-- In a theme selection with a pool of themes, the context stays as it is whoever leaves. If the
-- selector leaves, the drawing is to start with a theme of the pool, one that was not used recently as
-- long as there is one; if anybody else leaves, the phase goes on.
pub leave_selection_lem :
    (draw : ℕ → ℕ) (themes : List Text) (s : GameState) (c : ThemeSelectPhaseContext) (user_id : ℕ)
    → ((n : ℕ) → 0 < n → draw n < n)
    → 0 < length themes
    → s.phase ≡ GamePhase.theme_selecting
    → s.phase_context ≡ some (PhaseContext.theme_selecting c)
    → (r : PhaseDisconnectResult) × (compute_disconnect draw themes s user_id ≡ some r)
      × (r.next_phase_context ≡ s.phase_context)
      × ((r.should_advance ≡ true) ↔ (c.selector_id ≡ user_id))
      × (c.selector_id ≡ user_id
          → (t : Text) × (r.selected_topic ≡ some t)
            × IsIn t themes
            × ((text_includes s.recent_themes t ≡ false)
                ⊎ (length (filter (λ x. not (text_includes s.recent_themes x)) themes) ≡ 0)))
unfolding compute_disconnect pick_random_theme Session.pick_random_theme
leave_selection_lem draw themes s c user_id in_range some_theme phase context =
    elim (ℕ_discrete c.selector_id user_id) [
      | yes e ↦
          let here : (c.selector_id == user_id) ≡ true = ground arith in
          (
            answer c user_id (pick_random_theme draw themes s.recent_themes) true,
            rw (phase, context, here) refl,
            rw context refl,
            (λ h. e, λ h. refl),
            λ h. pick_random_theme_lem draw themes s in_range some_theme,
          )
      | no ne ↦
          let away : (c.selector_id == user_id) ≡ false = ==_ne c.selector_id user_id ne in
          (
            answer c user_id none false,
            rw (phase, context, away) refl,
            rw context refl,
            (λ h. cc, λ h. absurd (ne h)),
            λ h. absurd (ne h),
          )
    ]
