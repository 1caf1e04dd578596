-- ===== src/Game/Service/Outcomes.antt =====
-- The outcomes of single methods of src/game/session/game-session.service.ts: `handleDisconnect` and
-- `advanceToEvaluating`.
use pollycasso_back.Prelude.{
  Option, Text, [], arith, erase, false, if◌then◌else◌, includes, includes-without, insert, keys,
  leb, length, lookup, lookup-insert, none, not, ok, or_else, refl, some, text_eq, true, truthy,
  truthy?, without, ℕ, ◌+◌, ◌<◌, ◌==◌, ◌||◌, ◌∷◌, ◌≡◌, ◌≤◌, ◌⊎◌,
}
use pollycasso_back.GameState.{
  no_change, PartialGameState, PhaseContext, GamePhase, DrawingContext, GameState,
}
use pollycasso_back.GameState.Store
use pollycasso_back.GameState.Store.{Redis, get-patch}
use pollycasso_back.Game.Session
use pollycasso_back.Game.Service.{
  pure, if_true, end_evaluating, change, Server, Surroundings, Sent, ◌>>=◌, lift, send, read,
  remove, clear_phase_timer, if_some,
}
use pollycasso_back.Game.Service.Drawing.{
  advance_to_evaluating, evaluating_duration_ms, start_evaluating_phase_timer, evaluate,
}
use pollycasso_back.Game.Service.Leaving.{handle_disconnect, abort}

-- The state of the evaluation that follows a drawing phase.
abbrev pub evaluation_of : ℕ → DrawingContext → GameState → GameState
evaluation_of now c st = record st {
  phase = GamePhase.evaluating;
  ends_at = some (now + evaluating_duration_ms);
  phase_context = some (
      PhaseContext.evaluating
        (record { active_user_ids = c.active_user_ids; ready_user_ids = [] }));
}

-- The change that `advanceToEvaluating` stores.
abbrev evaluation_change : ℕ → DrawingContext → PartialGameState
evaluation_change now c = record no_change {
  phase = some GamePhase.evaluating;
  ends_at = some (some (now + evaluating_duration_ms));
  phase_context = some (
      some (
        PhaseContext.evaluating
          (record { active_user_ids = c.active_user_ids; ready_user_ids = [] })));
}

module _ {redis : Redis} where
  -- When a player leaves and at most one is left, the game is deleted, the timer of its room with it,
  -- the remaining player is told, and the games of the other rooms stay.
  pub handle_disconnect_aborts :
      (env : Surroundings) (room_id user_id : ℕ) (s : Server redis) (st : GameState)
      → Store.get redis room_id s.store ≡ some st
      → length (keys (erase user_id st.room_member_id_by_user_id)) ≤ 1
      → let after = handle_disconnect env room_id user_id s in
        (after.0 ≡ ok tt)
        × ((j : ℕ)
            → Store.get redis j after.1.store
              ≡ (if room_id == j then none else Store.get redis j s.store))
        × (after.1.timers ≡ erase room_id s.timers)
        × (after.1.sent
            ≡ Sent.game_aborted room_id (erase user_id st.room_member_id_by_user_id) ∷ s.sent)
  unfolding handle_disconnect abort ◌>>=◌ read if_some clear_phase_timer remove send Store.get
      Store.delete
  handle_disconnect_aborts env room_id user_id s st found few =
      let alone : leb (length (keys (erase user_id st.room_member_id_by_user_id))) 1 ≡ true =
        ground arith in
      rw (found, alone) (refl, (λ j. redis.get_del room_id j s.store), refl, refl)

  evaluate_lem :
      (env : Surroundings) (room_id round : ℕ) (round_id : Text) (s : Server redis) (st : GameState)
      (c : DrawingContext)
      → Store.get redis room_id s.store ≡ some st
      → env.end_drawing room_id round_id ≡ ok tt
      → env.commit_drawings room_id round st ≡ ok tt
      → env.load_drawings room_id round st ≡ ok tt
      → evaluate env room_id st c round_id round s ≡ (
        ok tt,
        record {
          store = (Store.patch redis room_id (evaluation_change env.now c) s.store).1;
          timers = insert room_id end_evaluating (erase room_id (erase room_id s.timers));
          summary_transition_guard = without room_id s.summary_transition_guard;
          round_summary_exit_guard = s.round_summary_exit_guard;
          sent =
              Sent.game_state room_id (evaluation_of env.now c st)
              ∷ Sent.drawings_committed room_id round
              ∷ Sent.drawing_ended room_id round_id
              ∷ s.sent;
        },
      )
  unfolding evaluate ◌>>=◌ lift send change if_some clear_phase_timer start_evaluating_phase_timer
  evaluate_lem env room_id round round_id s st c found ended committed loaded =
      rw
        (
          evaluate,
          ended,
          committed,
          loaded,
          (get-patch redis room_id room_id (evaluation_change env.now c) s.store st found).0,
        )
        refl

  advance_to_evaluating_reaches :
      (env : Surroundings) (room_id round : ℕ) (round_id : Text) (expected : Option Text)
      (s : Server redis) (st : GameState) (c : DrawingContext)
      → Store.get redis room_id s.store ≡ some st
      → st.phase ≡ GamePhase.drawing
      → st.phase_context ≡ some (PhaseContext.drawing c)
      → c.phase_instance_id ≡ some round_id
      → truthy round_id ≡ true
      → st.current_round ≡ some round
      → 0 < round
      → advance_to_evaluating env room_id expected s
        ≡ if_true
            (not (truthy? expected) || text_eq round_id (or_else expected []))
            (evaluate env room_id st c round_id round)
            s
  unfolding advance_to_evaluating ◌>>=◌ read lift if_some if_true Session.current_phase_instance_id
  advance_to_evaluating_reaches env room_id round round_id expected s st c found phase context
        running given current positive =
      let nonzero_round : (round == 0) ≡ false = ground arith in
      rw (found, phase, context, running, given, current, nonzero_round, if_true) refl

  -- In a drawing phase of a round, `advanceToEvaluating` for the running instance (or for none in
  -- particular) makes an evaluation of it, with the players who were active and nobody ready, if the
  -- drawing service closes, commits and loads the drawings: that is stored and the other rooms' games
  -- stay, the timeout that ends the evaluation is set, and the guard against a second summary is open.
  -- A timeout of an earlier instance does nothing.
  pub advance_to_evaluating_lem :
      (env : Surroundings) (room_id round : ℕ) (round_id : Text) (expected : Option Text)
      (s : Server redis) (st : GameState) (c : DrawingContext)
      → Store.get redis room_id s.store ≡ some st
      → st.phase ≡ GamePhase.drawing
      → st.phase_context ≡ some (PhaseContext.drawing c)
      → c.phase_instance_id ≡ some round_id
      → truthy round_id ≡ true
      → st.current_round ≡ some round
      → 0 < round
      → env.end_drawing room_id round_id ≡ ok tt
      → env.commit_drawings room_id round st ≡ ok tt
      → env.load_drawings room_id round st ≡ ok tt
      → let after = advance_to_evaluating env room_id expected s in
        ((truthy? expected ≡ true) × (text_eq round_id (or_else expected []) ≡ false)
          → after ≡ (ok tt, s))
        × ((truthy? expected ≡ false) ⊎ (text_eq round_id (or_else expected []) ≡ true)
            → (after.0 ≡ ok tt)
              × ((j : ℕ)
                  → Store.get redis j after.1.store ≡ (
                      if room_id == j
                      then some (evaluation_of env.now c st)
                      else Store.get redis j s.store))
              × (lookup room_id after.1.timers ≡ some end_evaluating)
              × (includes after.1.summary_transition_guard room_id ≡ false))
  unfolding advance_to_evaluating ◌>>=◌ read lift if_some if_true pure
      Session.current_phase_instance_id
  advance_to_evaluating_lem env room_id round round_id expected s st c found phase context running
        given current positive ended committed loaded =
      let reach =
        advance_to_evaluating_reaches env room_id round round_id expected s st c found phase context
          running given current positive in
      let p = evaluation_change env.now c in
      (
        λ (t, other). rw (reach, t, other) refl,
        λ same.
            let passes : (not (truthy? expected) || text_eq round_id (or_else expected [])) ≡ true =
              ground arith in
            rw
              (
                reach,
                passes,
                evaluate_lem env room_id round round_id s st c found ended committed loaded,
              )
              (
                refl,
                (λ j. (get-patch redis room_id j p s.store st found).1),
                ground (
                  arith,
                  lookup-insert room_id room_id end_evaluating
                      (erase room_id (erase room_id s.timers)),
                ),
                ground (arith, includes-without room_id room_id s.summary_transition_guard),
              ),
      )
