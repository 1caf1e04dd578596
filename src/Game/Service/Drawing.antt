-- ===== src/Game/Service/Drawing.antt =====
-- Into the drawing phase and out of it: `startDrawingPhase`, `forceStartDrawingPhase`,
-- `advanceToEvaluating` and `startEvaluatingPhaseTimer` of
-- src/game/session/game-session.service.ts. The drawings that each socket is sent at the start of an
-- evaluation are not modelled.
use pollycasso_back.Prelude.{
  List, Option, Result, Text, [], context_invalid, erase, filter, if◌then◌else◌, includes, insert,
  keys, none, not, ok, or_else, or_throw, some, take, text_eq, trim, truthy, truthy?, without,
  ws_error, ℕ, ◌+◌, ◌==◌, ◌||◌, ◌∷◌,
}
use pollycasso_back.GameState.{
  GameState, GamePhase, PhaseContext, DrawingContext, drawing_context?, no_change, is_drawing,
}
use pollycasso_back.GameState.Store.{Redis}
use pollycasso_back.Game.Session
use pollycasso_back.Game.Session.{
  nonzero_or, default_total_rounds, recent_themes_limit, drawing_duration_ms,
}
use pollycasso_back.Game.Service.{
  M, Surroundings, Sent, end_drawing, end_evaluating, pure, ◌>>=◌, ◌>>◌, lift, send, read, write,
  change, clear_phase_timer, set_phase_timer, if_some, if_true,
}

abbrev pub evaluating_duration_ms : ℕ
evaluating_duration_ms = 60000

-- The members with an open socket in the room, in the order of the members.
abbrev pub active_members : Surroundings → ℕ → GameState → List ℕ
active_members env room_id st =
    filter (λ u. includes (env.socket_user_ids room_id) u) (keys st.room_member_id_by_user_id)

-- `n`, where 0 and null are false.
abbrev pub nonzero : Option ℕ → Option ℕ
nonzero none = none
nonzero (some n) = if n == 0 then none else some n

-- The typed theme without its outer white space, or a random one where nothing is left.
abbrev pub chosen_theme : Surroundings → Option Text → GameState → Option Text
chosen_theme env typed st =
    let trimmed = trim (or_else typed []) in
    if truthy trimmed then some trimmed else Session.pick_random_theme env.draw env.themes st

unfoldable pub start_chosen : Surroundings → ℕ → Option Text → List ℕ → GameState → Result GameState
start_chosen env user_id none active st = Session.start_drawing_undefined user_id st
start_chosen env user_id (some theme) active st =
    Session.start_drawing env.now env.uuid user_id theme active st

module _ {redis : Redis} where
  unfoldable pub start_drawing_phase : Surroundings → ℕ → ℕ → Option Text → M redis GameState
  start_drawing_phase env room_id user_id typed = do
    found ← read room_id
    st ← lift (or_throw found (ws_error 404 context_invalid))
    clear_phase_timer room_id
    let active = active_members env room_id st
    next ← lift (start_chosen env user_id (chosen_theme env typed st) active st)
    write room_id next
    round_id ← lift (Session.current_phase_instance_id next)
    lift (env.start_drawing room_id round_id active)
    send (Sent.drawing_started room_id round_id active)
    confirmed ← lift (Session.get_confirmed_theme next)
    send (Sent.theme_confirmed room_id confirmed)
    send (Sent.game_state room_id next)
    set_phase_timer room_id (end_drawing (some round_id))
    pure next

  unfoldable pub start_evaluating_phase_timer : ℕ → M redis (Unit {0})
  start_evaluating_phase_timer room_id s = (
    ok tt,
    record s {
      summary_transition_guard = without room_id s.summary_transition_guard;
      timers = insert room_id end_evaluating (erase room_id s.timers);
    },
  )

  -- From the check of the phase on.
  unfoldable pub evaluate :
      Surroundings → ℕ → GameState → DrawingContext → Text → ℕ → M redis (Unit {0})
  unfolding start_evaluating_phase_timer
  evaluate env room_id st c round_id round = do
    lift (env.end_drawing room_id round_id)
    send (Sent.drawing_ended room_id round_id)
    lift (env.commit_drawings room_id round st)
    send (Sent.drawings_committed room_id round)
    lift (env.load_drawings room_id round st)
    patched ← change room_id (record no_change {
      phase = some GamePhase.evaluating;
      ends_at = some (some (env.now + evaluating_duration_ms));
      phase_context = some (
          some (
            PhaseContext.evaluating
              (record { active_user_ids = c.active_user_ids; ready_user_ids = [] })));
    })
    if_some patched λ p. do
      clear_phase_timer room_id
      start_evaluating_phase_timer room_id
      send (Sent.game_state room_id p)

  unfoldable pub advance_to_evaluating : Surroundings → ℕ → Option Text → M redis (Unit {0})
  unfolding evaluate
  advance_to_evaluating env room_id expected = do
    found ← read room_id
    if_some found λ st. if_true (is_drawing st.phase) (
        if_some (drawing_context? st.phase_context) λ c. do
          round_id ← lift (Session.current_phase_instance_id st)
          if_true (not (truthy? expected) || text_eq round_id (or_else expected [])) (
              if_some (nonzero st.current_round) λ round. evaluate env room_id st c round_id round))

  unfoldable pub force_start_drawing_phase : Surroundings → ℕ → Text → M redis (Unit {0})
  force_start_drawing_phase env room_id topic = do
    found ← read room_id
    if_some found λ st. do
      clear_phase_timer room_id
      let active = active_members env room_id st
      patched ← change room_id (record no_change {
        phase = some GamePhase.drawing;
        current_theme = some (some topic);
        ends_at = some (some (env.now + drawing_duration_ms));
        current_round = some (some (nonzero_or st.current_round 1));
        total_rounds = some (some (nonzero_or st.total_rounds default_total_rounds));
        phase_context = some (
            some (
              PhaseContext.drawing (record {
                active_user_ids = active;
                ready_user_ids = [];
                phase_instance_id = some env.uuid;
              })));
        recent_themes = some (take recent_themes_limit (topic ∷ st.recent_themes));
      })
      if_some patched λ p. do
        lift (env.start_drawing room_id env.uuid active)
        send (Sent.drawing_started room_id env.uuid active)
        send (Sent.theme_confirmed room_id topic)
        send (Sent.game_state room_id p)
        set_phase_timer room_id (end_drawing (some env.uuid))
