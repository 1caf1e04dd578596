-- ===== src/Game/Evaluation/Ready.antt =====
-- Readiness in the evaluation phase: `toggleReady` and `computeDisconnect` of
-- src/game/evaluation/evaluation.service.ts.
use pollycasso_back.Prelude.{
  List, Result, [], ap, arith, err, evaluation_incomplete, false, if◌then◌else◌, includes,
  includes-append, includes-unique, includes-without, inl, inr, length, none, not, ok, refl, some,
  true, unique, without, ws_error, ℕ, ◌&&◌, ◌++◌, ◌<◌, ◌==◌, ◌↔◌, ◌∷◌, ◌≡◌, ◌⊎◌,
}
use pollycasso_back.GameState.{
  GameState, GamePhase, PhaseContext, EvaluatingContext, no_change, PartialGameState,
}
use pollycasso_back.GameState.Store.{Redis, get, patch, get-patch}
use pollycasso_back.Game.Disconnect.{PhaseDisconnectResult, disconnected}
use pollycasso_back.Game.Ready.Sets.{IsWithin}
use pollycasso_back.Game.Evaluation.{
  toggle_context, is_all_ready, compute_disconnect, toggle_ready, ToggleReadyResult,
  is_evaluation_complete_for_user,
}

-- Everybody who is active is ready, and somebody is active.
abbrev pub AllReady : EvaluatingContext → Type 0
AllReady c = (0 < length c.active_user_ids) × IsWithin c.active_user_ids c.ready_user_ids

is_all_ready_iff : (c : EvaluatingContext) → (is_all_ready c ≡ true) ↔ AllReady c
unfolding is_all_ready
is_all_ready_iff c = ground arith

-- When an active player of an evaluation disconnects, the next context holds the same active and
-- ready users without that player, and the phase is to end exactly if somebody is left and
-- everybody who is left is ready. Nothing happens if the player is not active.
pub leave_evaluation_lem :
    (s : GameState) (c : EvaluatingContext) (user_id : ℕ)
    → s.phase ≡ GamePhase.evaluating
    → s.phase_context ≡ some (PhaseContext.evaluating c)
    → (includes c.active_user_ids user_id ≡ false → compute_disconnect s user_id ≡ none)
      × (includes c.active_user_ids user_id ≡ true
          → (r : PhaseDisconnectResult) × (d : EvaluatingContext) × (compute_disconnect s user_id
              ≡ some r)
            × (r.next_phase_context ≡ some (PhaseContext.evaluating d))
            × ((b : ℕ)
                → includes d.active_user_ids b
                  ≡ (includes c.active_user_ids b && not (user_id == b)))
            × ((b : ℕ)
                → includes d.ready_user_ids b ≡ (includes c.ready_user_ids b && not (user_id == b)))
            × ((r.should_advance ≡ true) ↔ AllReady d))
unfolding compute_disconnect
leave_evaluation_lem s c user_id p e = (
  λ h. rw (p, e, h) refl,
  λ h.
      let d : EvaluatingContext = record {
        active_user_ids = without user_id c.active_user_ids;
        ready_user_ids = without user_id c.ready_user_ids;
      } in
      (
        record {
          next_phase_context = some (PhaseContext.evaluating d);
          should_advance = is_all_ready d;
          player_update = some (disconnected user_id);
          selected_topic = none;
        },
        d,
        rw (p, e, h) refl,
        refl,
        (λ b. includes-without user_id b c.active_user_ids),
        (λ b. includes-without user_id b c.ready_user_ids),
        is_all_ready_iff d,
      ),
)

abbrev flipped : ℕ → EvaluatingContext → EvaluatingContext
flipped user_id c = record c {
  ready_user_ids =
      if includes c.ready_user_ids user_id
      then without user_id c.ready_user_ids
      else unique (c.ready_user_ids ++ user_id ∷ []);
}

includes-flipped :
    (user_id : ℕ) (c : EvaluatingContext) (b : ℕ)
    → includes (flipped user_id c).ready_user_ids b
      ≡ (if user_id == b then not (includes c.ready_user_ids b) else includes c.ready_user_ids b)
includes-flipped user_id c b = ground (
  arith,
  includes-without user_id b c.ready_user_ids,
  includes-unique (c.ready_user_ids ++ user_id ∷ []) b,
  includes-append c.ready_user_ids user_id b,
  same c.ready_user_ids,
)
  where
    same : (xs : List ℕ) → user_id ≡ b → includes xs user_id ≡ includes xs b
    same xs e = ap (includes xs) e

toggle_context_lem :
    (count_targets : ℕ → ℕ → ℕ → ℕ) (st : GameState) (user_id : ℕ) (c : EvaluatingContext)
    → st.phase ≡ GamePhase.evaluating
    → st.phase_context ≡ some (PhaseContext.evaluating c)
    → toggle_context count_targets st user_id ≡ (
        if not (includes c.ready_user_ids user_id)
          && not (is_evaluation_complete_for_user count_targets st user_id)
        then err (ws_error 400 evaluation_incomplete)
        else ok c)
unfolding toggle_context
toggle_context_lem count_targets st user_id c p q = ground arith

module _ (redis : Redis) where
  open redis use {State}

  toggle_ready-passes :
      (count_targets : ℕ → ℕ → ℕ → ℕ) (room_id user_id : ℕ) (s : State) (st : GameState)
      (c : EvaluatingContext)
      → get redis room_id s ≡ some st
      → toggle_context count_targets st user_id ≡ ok c
      → let change = record no_change {
        phase_context = some (some (PhaseContext.evaluating (flipped user_id c)));
      } in
        toggle_ready redis count_targets room_id st user_id s ≡ (
          ok (record {
            is_ready = not (includes c.ready_user_ids user_id);
            all_ready = is_all_ready (flipped user_id c);
            ready_summary = record {
              phase = GamePhase.evaluating;
              ready_count = length (flipped user_id c).ready_user_ids;
              total_count = length c.active_user_ids;
              all_ready = is_all_ready (flipped user_id c);
            };
          }),
          (patch redis room_id change s).1,
        )
  unfolding toggle_ready
  toggle_ready-passes count_targets room_id user_id s st c e h =
      let change = record no_change {
        phase_context = some (some (PhaseContext.evaluating (flipped user_id c)));
      } in
      rw (h, toggle_ready) (rw (get-patch redis room_id room_id change s st e).0 refl)

  -- In an evaluation, a user who is not ready and owes votes is refused, and nothing is written. Any
  -- other toggle turns the user's readiness over in the room's stored state, leaves everybody
  -- else's and every other room as it was, and answers the new readiness and whether everybody who
  -- is active is now ready.
  pub toggle_ready_lem :
      (count_targets : ℕ → ℕ → ℕ → ℕ) (room_id user_id : ℕ) (s : State) (st : GameState)
      (c : EvaluatingContext)
      → get redis room_id s ≡ some st
      → st.phase ≡ GamePhase.evaluating
      → st.phase_context ≡ some (PhaseContext.evaluating c)
      → (includes c.ready_user_ids user_id ≡ false
          → is_evaluation_complete_for_user count_targets st user_id ≡ false
          → toggle_ready redis count_targets room_id st user_id s
            ≡ (err (ws_error 400 evaluation_incomplete), s))
        × ((includes c.ready_user_ids user_id ≡ true)
              ⊎ (is_evaluation_complete_for_user count_targets st user_id ≡ true)
            → (r : ToggleReadyResult) × (d : EvaluatingContext) × (s' : State) × (toggle_ready redis
                  count_targets room_id st user_id s
                ≡ (ok r, s'))
              × ((j : ℕ)
                  → get redis j s' ≡ (
                      if room_id == j
                      then some (record st { phase_context = some (PhaseContext.evaluating d) })
                      else get redis j s))
              × ((b : ℕ)
                  → includes d.ready_user_ids b ≡ (
                      if user_id == b
                      then not (includes c.ready_user_ids b)
                      else includes c.ready_user_ids b))
              × (d.active_user_ids ≡ c.active_user_ids)
              × (r.is_ready ≡ includes d.ready_user_ids user_id)
              × ((r.all_ready ≡ true) ↔ AllReady d))
  unfolding toggle_ready
  toggle_ready_lem count_targets room_id user_id s st c e p q =
      let context = toggle_context_lem count_targets st user_id c p q in
      (
        λ n m. rw (context, toggle_ready, n, m) refl,
        λ h.
            let d = flipped user_id c in
            let change = record no_change {
              phase_context = some (some (PhaseContext.evaluating d));
            } in
            (
              record {
                is_ready = not (includes c.ready_user_ids user_id);
                all_ready = is_all_ready d;
                ready_summary = record {
                  phase = GamePhase.evaluating;
                  ready_count = length d.ready_user_ids;
                  total_count = length d.active_user_ids;
                  all_ready = is_all_ready d;
                };
              },
              d,
              (patch redis room_id change s).1,
              toggle_ready-passes count_targets room_id user_id s st c e (passes h context),
              (λ j. (get-patch redis room_id j change s st e).1),
              (λ b. includes-flipped user_id c b),
              refl,
              ground (arith, includes-flipped user_id c user_id),
              is_all_ready_iff d,
            ),
      )
    where
      passes :
          (includes c.ready_user_ids user_id ≡ true)
            ⊎ (is_evaluation_complete_for_user count_targets st user_id ≡ true)
          → toggle_context count_targets st user_id ≡ (
              if not (includes c.ready_user_ids user_id)
                && not (is_evaluation_complete_for_user count_targets st user_id)
              then err (ws_error 400 evaluation_incomplete)
              else ok c)
          → toggle_context count_targets st user_id ≡ ok c
      passes h k = ground arith

  -- What `toggleReady` does to the store, on every branch: nothing, or a patch of the room's game
  -- that keeps the phase.
  pub toggle_ready-store :
      (count_targets : ℕ → ℕ → ℕ → ℕ) (room_id user_id : ℕ) (s : State) (st : GameState)
      → get redis room_id s ≡ some st
      → ((toggle_ready redis count_targets room_id st user_id s).1 ≡ s)
        ⊎ ((old : GameState) × (p : PartialGameState) × (get redis room_id s ≡ some old)
            × (p.phase ≡ none)
            × ((toggle_ready redis count_targets room_id st user_id s).1
                ≡ (patch redis room_id p s).1))
  unfolding toggle_ready
  toggle_ready-store count_targets room_id user_id s st found =
      go (toggle_context count_targets st user_id) refl
    where
      go :
          (r : Result EvaluatingContext)
          → toggle_context count_targets st user_id ≡ r
          → ((toggle_ready redis count_targets room_id st user_id s).1 ≡ s)
            ⊎ ((old : GameState) × (p : PartialGameState) × (get redis room_id s ≡ some old)
                × (p.phase ≡ none)
                × ((toggle_ready redis count_targets room_id st user_id s).1
                    ≡ (patch redis room_id p s).1))
      go (err e) h = inl (rw (h, toggle_ready) refl)
      go (ok c) h =
          let p = record no_change {
            phase_context = some (some (PhaseContext.evaluating (flipped user_id c)));
          } in
          inr (st, p, found, refl, rw (h, toggle_ready) refl)
