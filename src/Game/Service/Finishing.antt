-- ===== src/Game/Service/Finishing.antt =====
-- The end of a match: `advanceFromRoundSummary` of src/game/session/game-session.service.ts after the
-- last round.
use pollycasso_back.Game.Session.Rounds.{round_of, total_of}
use pollycasso_back.Prelude.{
  Exception, List, Result, arith, erase, err, false, if◌then◌else◌, includes, includes-without,
  none, ok, refl, some, true, without, ℕ, ◌<◌, ◌==◌, ◌∷◌, ◌≡◌, ◌≤◌,
}
use pollycasso_back.GameState.{GameState, GamePhase, PartialGameState, no_change}
use pollycasso_back.GameState.Store
use pollycasso_back.GameState.Store.{Redis, get-patch}
use pollycasso_back.Game.Session.{is_last_round, advance_to_finished}
use pollycasso_back.Game.Results.{
  FinalResultItem, Reward, compute_final_scores_by_user_id, build_final_results,
}
use pollycasso_back.Game.Service.{
  clear_phase_timer, finally, if_true, read, Server, Surroundings, Sent, ◌>>=◌, lift, send, change,
  if_some,
}
use pollycasso_back.Game.Service.Summary.{
  leave_summary, advance_from_round_summary, release_exit, guard_exit, close, advance, finish,
}

-- The state of a match that is over.
abbrev pub finished_of : GameState → GameState
finished_of st = record st {
  phase = GamePhase.finished;
  ends_at = none;
  phase_context = none;
  current_theme = none;
}

-- What the match service is told of the results.
abbrev pub results_of : Surroundings → GameState → List FinalResultItem
results_of env st =
    build_final_results
      (compute_final_scores_by_user_id env.to_number st.room_member_id_by_user_id st.total_scores)

abbrev finish_change : GameState → PartialGameState
finish_change st = record no_change {
  phase = some GamePhase.finished;
  ends_at = some none;
  phase_context = some none;
  current_theme = some none;
  current_round = some st.current_round;
}

-- What is answered and sent, by the outcome of the match service.
abbrev pub Settles :
    ℕ
    → GameState
    → List FinalResultItem
    → Result (List (ℕ × Reward))
    → List Sent
    → Result (Unit {0})
    → List Sent
    → Type 0
Settles room_id st results (ok rewards) before answer after =
    (answer ≡ ok tt)
    × (after
        ≡ Sent.return_scheduled room_id
          ∷ Sent.game_finished room_id (finished_of st) results rewards
          ∷ before)
Settles room_id st results (err e) before answer after = (answer ≡ err e) × (after ≡ before)

module _ {redis : Redis} where
  -- The server after the end, with what was sent.
  abbrev ended : ℕ → GameState → List Sent → Server redis → Server redis
  ended room_id st sent s = record s {
    store = (Store.patch redis room_id (finish_change st) s.store).1;
    sent = sent;
  }

  finish_ok :
      (env : Surroundings) (room_id : ℕ) (s : Server redis) (st : GameState)
      (rewards : List (ℕ × Reward))
      → Store.get redis room_id s.store ≡ some st
      → st.phase ≡ GamePhase.round_summary
      → env.finish_match st.match_id (results_of env st) st.room_member_id_by_user_id ≡ ok rewards
      → finish env room_id st s ≡ (
        ok tt,
        ended room_id st
            (Sent.return_scheduled room_id
              ∷ Sent.game_finished room_id (finished_of st) (results_of env st) rewards
              ∷ s.sent)
            s,
      )
  unfolding finish advance close ◌>>=◌ lift send change if_some advance_to_finished
  finish_ok env room_id s st rewards found phase settled =
      rw
        (
          phase,
          finish,
          (get-patch redis room_id room_id (finish_change st) s.store st found).0,
          settled,
        )
        refl

  finish_err :
      (env : Surroundings) (room_id : ℕ) (s : Server redis) (st : GameState) (e : Exception)
      → Store.get redis room_id s.store ≡ some st
      → st.phase ≡ GamePhase.round_summary
      → env.finish_match st.match_id (results_of env st) st.room_member_id_by_user_id ≡ err e
      → finish env room_id st s ≡ (err e, ended room_id st s.sent s)
  unfolding finish advance close ◌>>=◌ lift send change if_some advance_to_finished
  finish_err env room_id s st e found phase settled =
      rw
        (
          phase,
          finish,
          (get-patch redis room_id room_id (finish_change st) s.store st found).0,
          settled,
        )
        refl

  -- The server that the body of the `try` starts from, once the timer is cleared.
  abbrev entered : ℕ → Server redis → Server redis
  entered room_id s = record (guard_exit room_id s) { timers = erase room_id s.timers }

  abbrev left : ℕ → Result (Unit {0}) × Server redis → Result (Unit {0}) × Server redis
  left room_id (r, t) = (r, release_exit room_id t)

  advance_from_round_summary_reaches :
      (env : Surroundings) (room_id : ℕ) (s : Server redis) (st : GameState)
      → Store.get redis room_id s.store ≡ some st
      → st.phase ≡ GamePhase.round_summary
      → includes s.round_summary_exit_guard room_id ≡ false
      → is_last_round st ≡ true
      → advance_from_round_summary env room_id s
        ≡ left room_id (finish env room_id st (entered room_id s))
  unfolding advance_from_round_summary leave_summary ◌>>=◌ read if_some if_true finally
      clear_phase_timer
  advance_from_round_summary_reaches env room_id s st found phase free last =
      rw (free, found, phase, last) refl

  -- In the summary of the last round, unless an earlier call is still at it, the match is over: the
  -- finished state is stored, the other rooms' games stay, the timer of the room is cleared, and the
  -- guard is open again. If the match service settles the results, they are sent with the rewards and
  -- the return to the waiting room is scheduled. If it throws, so does the method, and nothing is sent
  -- and no return is scheduled, although the finished state is stored.
  pub advance_from_round_summary_lem :
      (env : Surroundings) (room_id : ℕ) (s : Server redis) (st : GameState)
      (outcome : Result (List (ℕ × Reward)))
      → Store.get redis room_id s.store ≡ some st
      → st.phase ≡ GamePhase.round_summary
      → includes s.round_summary_exit_guard room_id ≡ false
      → 0 < total_of st
      → total_of st ≤ round_of st
      → env.finish_match st.match_id (results_of env st) st.room_member_id_by_user_id ≡ outcome
      → let after = advance_from_round_summary env room_id s in
        Settles room_id st (results_of env st) outcome s.sent after.0 after.1.sent
        × ((j : ℕ)
            → Store.get redis j after.1.store
              ≡ (if room_id == j then some (finished_of st) else Store.get redis j s.store))
        × (after.1.timers ≡ erase room_id s.timers)
        × (includes after.1.round_summary_exit_guard room_id ≡ false)
  advance_from_round_summary_lem env room_id s st outcome found phase free some_round last =
      go outcome
    where
      over : is_last_round st ≡ true
      over = ground arith

      open_again :
          includes (without room_id (room_id ∷ without room_id s.round_summary_exit_guard)) room_id
          ≡ false
      open_again = ground (
        arith,
        includes-without room_id room_id (room_id ∷ without room_id s.round_summary_exit_guard),
      )

      go :
          (o : Result (List (ℕ × Reward)))
          → env.finish_match st.match_id (results_of env st) st.room_member_id_by_user_id ≡ o
          → let after = advance_from_round_summary env room_id s in
            Settles room_id st (results_of env st) o s.sent after.0 after.1.sent
            × ((j : ℕ)
                → Store.get redis j after.1.store
                  ≡ (if room_id == j then some (finished_of st) else Store.get redis j s.store))
            × (after.1.timers ≡ erase room_id s.timers)
            × (includes after.1.round_summary_exit_guard room_id ≡ false)
      go (ok rewards) settled =
          rw
            (
              advance_from_round_summary_reaches env room_id s st found phase free over,
              finish_ok env room_id (entered room_id s) st rewards found phase settled,
            )
            (
              (refl, refl),
              (λ j. (get-patch redis room_id j (finish_change st) s.store st found).1),
              refl,
              open_again,
            )
      go (err e) settled =
          rw
            (
              advance_from_round_summary_reaches env room_id s st found phase free over,
              finish_err env room_id (entered room_id s) st e found phase settled,
            )
            (
              (refl, refl),
              (λ j. (get-patch redis room_id j (finish_change st) s.store st found).1),
              refl,
              open_again,
            )
