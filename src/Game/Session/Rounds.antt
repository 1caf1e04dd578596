-- ===== src/Game/Session/Rounds.antt =====
-- The rounds of a match: `advanceToThemeSelecting` and `advanceToFinished` of
-- src/game/entities/game-session.entity.ts.
use pollycasso_back.Prelude.{
  Text, arith, context_invalid, err, false, none, ok, or_else, plain_error, refl, some, true, ℕ,
  ◌+◌, ◌-◌, ◌<◌, ◌≡◌, ◌≤◌,
}
use pollycasso_back.GameState.{GameState, GamePhase, PhaseContext}
use pollycasso_back.Game.Session.{
  default_total_rounds, is_last_round, advance_to_theme_selecting, advance_to_finished,
}

abbrev pub round_of : GameState → ℕ
round_of s = or_else s.current_round 1

abbrev pub total_of : GameState → ℕ
total_of s = or_else s.total_rounds default_total_rounds

-- In a round summary of a match with at least one round, before the last round the next theme selection
-- is started: in the next round, which is not past the last one, with one round fewer to play, and with
-- the totals and the number of rounds unchanged. In the last round it is refused. The match can be
-- finished, with its totals unchanged.
pub advance_rounds_lem :
    (ends_at selector_id : ℕ) (nickname : Text) (s : GameState)
    → s.phase ≡ GamePhase.round_summary
    → 0 < total_of s
    → (round_of s < total_of s
        → (t : GameState) × (advance_to_theme_selecting ends_at selector_id nickname s ≡ ok t)
          × (t.phase ≡ GamePhase.theme_selecting)
          × (round_of t ≡ round_of s + 1)
          × (round_of t ≤ total_of t)
          × (total_of t - round_of t + 1 ≡ total_of s - round_of s)
          × (t.total_scores ≡ s.total_scores))
      × (total_of s ≤ round_of s
          → advance_to_theme_selecting ends_at selector_id nickname s
            ≡ err (plain_error context_invalid))
      × ((t : GameState) × (advance_to_finished s ≡ ok t)
          × (t.phase ≡ GamePhase.finished)
          × (t.total_scores ≡ s.total_scores))
unfolding advance_to_theme_selecting advance_to_finished
advance_rounds_lem ends_at selector_id nickname s phase some_round = (
  λ before.
      let going : is_last_round s ≡ false = ground arith in
      let t = record s {
        current_theme = none;
        current_round = some (round_of s + 1);
        phase = GamePhase.theme_selecting;
        ends_at = some ends_at;
        phase_context = some (
            PhaseContext.theme_selecting
              (record { selector_id = selector_id; selector_nickname = some nickname }));
      } in
      (t, rw (phase, going) refl, refl, refl, omega arith, omega arith, refl),
  λ last. let over : is_last_round s ≡ true = ground arith in rw (phase, over) refl,
  (
    record s {
      current_theme = none;
      ends_at = none;
      phase_context = none;
      phase = GamePhase.finished;
    },
    rw phase refl,
    refl,
    refl,
  ),
)
