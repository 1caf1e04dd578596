-- ===== src/Game/Session/Moves.antt =====
-- The start of a drawing phase and the random theme of
-- src/game/entities/game-session.entity.ts.
use mathlib.Core.Option
use pollycasso_back.Prelude.{
  Bool-cases, IsIn, IsIn-filter, List, Text, [], arith, false, filter, get_elem?-IsIn, inl, inr,
  length, length-take-le, ltb, not, ok, some, take, text_includes, trim, true, truthy, ℕ, ◌+◌, ◌<◌,
  ◌∷◌, ◌≡◌, ◌≤◌, ◌⊎◌,
}
use pollycasso_back.GameState.{GameState, GamePhase, theme_context?, drawing_context?}
use pollycasso_back.Game.Session.{
  start_drawing, get_confirmed_theme, current_phase_instance_id, pick_random_theme,
  recent_themes_limit, drawing_duration_ms,
}

-- A drawing phase is started only in the theme selection, by the selector, with a theme that is not
-- blank. The started state confirms the trimmed theme, has the given id (one that is not "") for
-- its instance, has nobody ready, remembers at most three themes with this one first, and ends
-- when its duration has passed.
pub start_drawing_lem :
    (now user_id : ℕ) (uuid theme : Text) (active_user_ids : List ℕ) (s t : GameState)
    → truthy uuid ≡ true
    → start_drawing now uuid user_id theme active_user_ids s ≡ ok t
    → (s.phase ≡ GamePhase.theme_selecting)
      × (Option.map (λ c. c.selector_id) (theme_context? s.phase_context) ≡ some user_id)
      × (get_confirmed_theme t ≡ ok (trim theme))
      × (current_phase_instance_id t ≡ ok uuid)
      × (Option.map (λ c. c.ready_user_ids) (drawing_context? t.phase_context) ≡ some [])
      × (take 1 t.recent_themes ≡ trim theme ∷ [])
      × (length t.recent_themes ≤ recent_themes_limit)
      × (t.ends_at ≡ some (now + drawing_duration_ms))
unfolding start_drawing get_confirmed_theme current_phase_instance_id
start_drawing_lem now user_id uuid theme active_user_ids s t h e =
    let bound = length-take-le 2 s.recent_themes in ground (arith, bound)

-- A random theme is always one of the pool, and none of the recent ones as long as the pool has
-- another.
pub pick_random_theme_lem :
    (draw : ℕ → ℕ) (pool : List Text) (s : GameState)
    → ((n : ℕ) → 0 < n → draw n < n)
    → 0 < length pool
    → (t : Text) × (pick_random_theme draw pool s ≡ some t)
      × IsIn t pool
      × ((text_includes s.recent_themes t ≡ false)
          ⊎ (length (filter (λ x. not (text_includes s.recent_themes x)) pool) ≡ 0))
unfolding pick_random_theme
pick_random_theme_lem draw pool s in_range some_theme =
    let fresh = filter (λ x. not (text_includes s.recent_themes x)) pool in
    elim (Bool-cases (ltb 0 (length fresh))) [
      | inl e ↦
          let (t, found, listed) =
            get_elem?-IsIn fresh (draw (length fresh)) (in_range (length fresh) (ground arith)) in
          let (listed', unseen) =
            IsIn-filter (λ x. not (text_includes s.recent_themes x)) t pool listed in
          (t, rw e found, listed', inl (ground arith))
      | inr e ↦
          let (t, found, listed) =
            get_elem?-IsIn pool (draw (length pool)) (in_range (length pool) some_theme) in
          (t, rw e found, listed, inr (ground arith))
    ]
