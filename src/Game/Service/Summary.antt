-- ===== src/Game/Service/Summary.antt =====
-- Into the round summary and out of it: `advanceToRoundSummary`, `startRoundSummaryPhaseTimer` and
-- `advanceFromRoundSummary` of src/game/session/game-session.service.ts. The start of the theme
-- selection after loading (`startTopicPhase`) and the return to the waiting room
-- (src/game/finished/finished-return.service.ts) stand here too, at the moment their timeout fires.
use pollycasso_back.Prelude.{
  Option, context_invalid, if◌then◌else◌, includes, none, not, ok, or_throw, result_some, some,
  without, ws_error, ℕ, ◌+◌, ◌∷◌,
}
use pollycasso_back.GameState.{
  GameState, GamePhase, PhaseContext, no_change, is_evaluating, is_round_summary, is_loading,
  is_finished,
}
use pollycasso_back.GameState.Store.{Redis}
use pollycasso_back.Game.Session
use pollycasso_back.Game.Session.{is_last_round, theme_selecting_duration_ms}
use pollycasso_back.Game.Topic.{build_theme_selection_context}
use pollycasso_back.Game.Results.{compute_final_scores_by_user_id, build_final_results}
use pollycasso_back.Game.Evaluation.Summary.{compute_round_summary}
use pollycasso_back.Game.Service.{
  M, Server, Surroundings, Sent, end_summary, ◌>>=◌, ◌>>◌, lift, send, read, write, change,
  clear_phase_timer, set_phase_timer, if_some, if_true, on_error, finally,
}
use pollycasso_back.Game.Service.Drawing.{nonzero}

abbrev pub round_summary_duration_ms : ℕ
round_summary_duration_ms = 32000

module _ {redis : Redis} where
  unfoldable pub start_round_summary_phase_timer : ℕ → M redis (Unit {0})
  start_round_summary_phase_timer room_id = do
    found ← read room_id
    if_some found λ st. if_true (is_round_summary st.phase) (
        if_some (nonzero st.ends_at)
          λ _. do clear_phase_timer room_id; set_phase_timer room_id end_summary)

  abbrev pub guard_summary : ℕ → Server redis → Server redis
  guard_summary room_id s = record s {
    summary_transition_guard = room_id ∷ without room_id s.summary_transition_guard;
  }

  abbrev pub release_summary : ℕ → Server redis → Server redis
  release_summary room_id s = record s {
    summary_transition_guard = without room_id s.summary_transition_guard;
  }

  -- The state with the summary, or no state any more.
  unfoldable pub summarised : ℕ → Option GameState → M redis (Unit {0})
  unfolding start_round_summary_phase_timer
  summarised room_id none s = (ok tt, release_summary room_id s)
  summarised room_id (some p) s =
      (do send (Sent.game_state room_id p); start_round_summary_phase_timer room_id) s

  -- The body of the `try`.
  unfoldable pub summarise : Surroundings → ℕ → GameState → M redis (Unit {0})
  unfolding summarised
  summarise env room_id st = do
    clear_phase_timer room_id
    r ← lift (compute_round_summary env.sum_ratings env.drawings st (env.nicknames room_id))
    patched ← change room_id (record no_change {
      phase = some GamePhase.round_summary;
      ends_at = some (some (env.now + round_summary_duration_ms));
      phase_context = some (some (PhaseContext.round_summary r.phase_context));
      total_scores = some r.updated_totals;
    })
    summarised room_id patched

  unfoldable pub advance_to_round_summary : Surroundings → ℕ → M redis (Unit {0})
  unfolding summarise
  advance_to_round_summary env room_id = do
    found ← read room_id
    st ← lift (or_throw found (ws_error 404 context_invalid))
    if_true (is_evaluating st.phase) λ s.
        if_true (not (includes s.summary_transition_guard room_id))
          (λ t.
            on_error (summarise env room_id st) (release_summary room_id) (guard_summary room_id t))
          s

  abbrev pub guard_exit : ℕ → Server redis → Server redis
  guard_exit room_id s = record s {
    round_summary_exit_guard = room_id ∷ without room_id s.round_summary_exit_guard;
  }

  abbrev pub release_exit : ℕ → Server redis → Server redis
  release_exit room_id s = record s {
    round_summary_exit_guard = without room_id s.round_summary_exit_guard;
  }

  -- What follows the last round: the match is closed with its results.
  unfoldable pub close : Surroundings → ℕ → GameState → M redis (Unit {0})
  close env room_id p = do
    let scores =
        compute_final_scores_by_user_id env.to_number p.room_member_id_by_user_id p.total_scores
    let results = build_final_results scores
    rewards ← lift (env.finish_match p.match_id results p.room_member_id_by_user_id)
    send (Sent.game_finished room_id p results rewards)
    send (Sent.return_scheduled room_id)

  -- The fields that the entity may have changed, written to the store.
  unfoldable pub advance : Surroundings → ℕ → GameState → M redis (Unit {0})
  unfolding close
  advance env room_id next = do
    patched ← change room_id (record no_change {
      phase = some next.phase;
      ends_at = some next.ends_at;
      phase_context = some next.phase_context;
      current_theme = some next.current_theme;
      current_round = some next.current_round;
    })
    if_some patched
        λ p. if is_finished p.phase then close env room_id p else send (Sent.game_state room_id p)

  -- The next round, if there is a player to choose its theme.
  unfoldable pub next_round : Surroundings → ℕ → GameState → M redis (Unit {0})
  unfolding advance
  next_round env room_id st =
      if_some (build_theme_selection_context env.draw (env.players room_id)) λ t. do
        next ← lift (
            Session.advance_to_theme_selecting (env.now + theme_selecting_duration_ms) t.selector_id
              t.selector_nickname st)
        advance env room_id next

  -- The end of the match.
  unfoldable pub finish : Surroundings → ℕ → GameState → M redis (Unit {0})
  unfolding advance
  finish env room_id st = do next ← lift (Session.advance_to_finished st); advance env room_id next

  -- The body of the `try`.
  unfoldable pub leave_summary : Surroundings → ℕ → M redis (Unit {0})
  unfolding finish next_round
  leave_summary env room_id = do
    found ← read room_id
    if_some found λ st. if_true (is_round_summary st.phase) (do
      clear_phase_timer room_id
      (if is_last_round st then finish env room_id st else next_round env room_id st))

  unfoldable pub advance_from_round_summary : Surroundings → ℕ → M redis (Unit {0})
  unfolding leave_summary
  advance_from_round_summary env room_id s =
      if_true (not (includes s.round_summary_exit_guard room_id))
        (λ t. finally (leave_summary env room_id) (release_exit room_id) (guard_exit room_id t)) s

  -- The callback of `startTopicPhase`; an exception of the entity is swallowed.
  unfoldable pub begin_theme_selection : Surroundings → ℕ → M redis (Unit {0})
  begin_theme_selection env room_id = do
    found ← read room_id
    if_some found λ st. if_true (is_loading st.phase) (
        if_some (build_theme_selection_context env.draw (env.players room_id)) λ t.
          if_some
            (result_some
              (Session.start_theme_selection env.now t.selector_id (some t.selector_nickname) st))
            λ next. do write room_id next; send (Sent.game_state room_id next))

  -- `returnToWaiting`: where the reset of the room in the database throws, nobody is told.
  unfoldable pub return_to_waiting : Surroundings → ℕ → M redis (Unit {0})
  return_to_waiting env room_id = do
    found ← read room_id
    if_some found λ st. if_true (is_finished st.phase) (do
      patched ← change room_id (record no_change {
        phase = some GamePhase.waiting;
        ends_at = some none;
        phase_context = some none;
        current_theme = some none;
      })
      if_some patched
          λ p. do lift (env.reset_room_to_waiting room_id); send (Sent.game_state room_id p))
