-- ===== src/Tests/Rounds.antt =====
-- Rounds, departures from the theme selection, and the snapshot for clients.
use pollycasso_back.Prelude.{
  IsIn, Text, [], arith, context_invalid, err, false, filter, length, not, ok, plain_error, refl,
  some, text_includes, true, ◌+◌, ◌-◌, ◌<◌, ◌↔◌, ◌∷◌, ◌≡◌, ◌≤◌, ◌⊎◌,
}
use pollycasso_back.GameState.{GameState, GamePhase, PhaseContext, ThemeSelectPhaseContext}
use pollycasso_back.Game.Disconnect.{PhaseDisconnectResult}
use pollycasso_back.Game.Session.{advance_to_theme_selecting, advance_to_finished}
use pollycasso_back.Game.Session.Rounds.{round_of, total_of, advance_rounds_lem}
use pollycasso_back.Game.Topic.{compute_disconnect}
use pollycasso_back.Game.Topic.Departure.{leave_selection_lem}
use pollycasso_back.Tests.Fixtures.{moon, star, choosing, game_in}

-- The summary of the second round of three; players 1 and 3 are ready to go on.
abbrev pub summary_game : GameState
summary_game = game_in GamePhase.round_summary (
    some (
      PhaseContext.round_summary
        (record { rankings = []; drawings_by_id = []; ready_user_ids = 3 ∷ 1 ∷ [] })))

advance_rounds_example :
    (round_of summary_game < total_of summary_game
      → (t : GameState) × (advance_to_theme_selecting 9000 2 star summary_game ≡ ok t)
        × (t.phase ≡ GamePhase.theme_selecting)
        × (round_of t ≡ round_of summary_game + 1)
        × (round_of t ≤ total_of t)
        × (total_of t - round_of t + 1 ≡ total_of summary_game - round_of summary_game)
        × (t.total_scores ≡ summary_game.total_scores))
    × (total_of summary_game ≤ round_of summary_game
        → advance_to_theme_selecting 9000 2 star summary_game ≡ err (plain_error context_invalid))
    × ((t : GameState) × (advance_to_finished summary_game ≡ ok t)
        × (t.phase ≡ GamePhase.finished)
        × (t.total_scores ≡ summary_game.total_scores))
advance_rounds_example = advance_rounds_lem 9000 2 star summary_game refl (omega arith)

abbrev selector : ThemeSelectPhaseContext
selector = record { selector_id = 1; selector_nickname = some star }

leave_selection_example :
    (r : PhaseDisconnectResult) × (compute_disconnect (λ n. 0) (moon ∷ star ∷ []) choosing 1
      ≡ some r)
    × (r.next_phase_context ≡ choosing.phase_context)
    × ((r.should_advance ≡ true) ↔ (selector.selector_id ≡ 1))
    × (selector.selector_id ≡ 1
        → (t : Text) × (r.selected_topic ≡ some t)
          × IsIn t (moon ∷ star ∷ [])
          × ((text_includes choosing.recent_themes t ≡ false)
              ⊎ (length
                    (filter (λ x. not (text_includes choosing.recent_themes x)) (moon ∷ star ∷ []))
                  ≡ 0)))
leave_selection_example =
    leave_selection_lem (λ n. 0) (moon ∷ star ∷ []) choosing selector 1 (λ n h. h) (omega arith)
      refl refl
