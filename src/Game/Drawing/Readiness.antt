-- ===== src/Game/Drawing/Readiness.antt =====
-- Readiness in the drawing phase (src/game/drawing/entities/drawing.entity.ts, drawing.service.ts):
-- marking, submitting and leaving.
use pollycasso_back.Game.Ready.{get_ready_summary_from_state}
use pollycasso_back.Game.Disconnect.{became_ready, disconnected, PhaseDisconnectResult}
use pollycasso_back.GameState.Store.{get-patch, patch, get, Redis}
use pollycasso_back.Prelude.{
  >>=-eq-ok, Bool, Bool-cases, List, Result, [], arith, conflict, err, false, if◌then◌else◌,
  includes, includes-append, includes-without, inl, inr, length, none, not, ok, or_throw,
  or_throw-eq-ok, refl, some, true, user_not_active, without, ℕ, ◌&&◌, ◌++◌, ◌<◌, ◌==◌, ◌↔◌, ◌∷◌,
  ◌≡◌, ◌⊎◌,
}
use pollycasso_back.GameState.{
  no_change, overlay, PartialGameState, PhaseContext, GamePhase, GameState, DrawingContext,
}
use pollycasso_back.Game.Ready.Sets.{
  IsWithin-includes, without-IsDistinct, includes-IsWithin, IsDistinct, IsWithin, IsReadySet,
  IsWithin-length, length-IsWithin,
}
use pollycasso_back.Game.Drawing.{
  ready_of, from_phase_context, SubmitDrawingResult, submit_drawing, compute_disconnect,
  remove_user, mark_ready, is_ready_to_advance,
}

-- Everybody who is active is ready, and somebody is.
abbrev pub AllReady : DrawingContext → Type 0
AllReady c = (0 < length c.active_user_ids) × IsWithin c.active_user_ids c.ready_user_ids

abbrev pub IsSound : DrawingContext → Type 0
IsSound c = IsReadySet c.ready_user_ids c.active_user_ids

is_ready_to_advance_iff :
    (c : DrawingContext) → IsSound c → (is_ready_to_advance c ≡ true) ↔ AllReady c
unfolding is_ready_to_advance
is_ready_to_advance_iff c v = (
  λ h. (
    ground arith,
    length-IsWithin c.ready_user_ids c.active_user_ids v.ready_once v.within (ground arith),
  ),
  λ h.
      let fits = IsWithin-length c.active_user_ids c.ready_user_ids v.active_once h.1 in
      ground (arith, h.0),
)

append-IsDistinct :
    (xs : List ℕ) (a : ℕ) → IsDistinct xs → includes xs a ≡ false → IsDistinct (xs ++ a ∷ [])
append-IsDistinct [] a d h = (refl, tt)
append-IsDistinct (x ∷ xs) a d h =
    ground (arith, append-IsDistinct xs a d.1, includes-append xs a x)

append-IsWithin :
    (xs ys : List ℕ) (a : ℕ) → IsWithin xs ys → includes ys a ≡ true → IsWithin (xs ++ a ∷ []) ys
append-IsWithin [] ys a h m = ground arith
append-IsWithin (x ∷ xs) ys a h m = ground (arith, append-IsWithin xs ys a)

-- A user who is marked as ready was active, and is among the ready users afterwards. The answer is
-- true exactly if the user was not ready before, the active users are unchanged, and the ready users
-- stay a duplicate-free part of them.
mark_ready-IsSound :
    (user_id : ℕ) (c d : DrawingContext) (became : Bool)
    → IsSound c
    → mark_ready user_id c ≡ ok (became, d)
    → IsSound d
      × (includes c.active_user_ids user_id ≡ true)
      × (became ≡ not (includes c.ready_user_ids user_id))
      × (includes d.ready_user_ids user_id ≡ true)
      × (d.active_user_ids ≡ c.active_user_ids)
unfolding mark_ready
mark_ready-IsSound user_id c d became v h = ground (
  arith,
  append-IsDistinct c.ready_user_ids user_id v.ready_once,
  append-IsWithin c.ready_user_ids c.active_user_ids user_id v.within,
  includes-append c.ready_user_ids user_id user_id,
)

marked :
    (user_id : ℕ) (c : DrawingContext)
    → includes c.active_user_ids user_id ≡ true
    → mark_ready user_id c
      ≡ ok (
        not (includes c.ready_user_ids user_id),
        (if includes c.ready_user_ids user_id
            then c
            else record c { ready_user_ids = c.ready_user_ids ++ user_id ∷ [] }),
      )
unfolding mark_ready
marked user_id c h = elim (Bool-cases (includes c.ready_user_ids user_id)) [
  | inl e ↦ rw (h, e) refl
  | inr e ↦ rw (h, e) refl
]

without-IsWithin :
    (a : ℕ) (xs ys : List ℕ) → IsWithin xs ys → IsWithin (without a xs) (without a ys)
without-IsWithin a xs ys h = includes-IsWithin (without a xs) (without a ys) λ b m.
    ground (arith, includes-without a b xs, includes-without a b ys, IsWithin-includes xs ys b h)

remove_user-IsSound :
    (user_id : ℕ) (c : DrawingContext) → IsSound c → IsSound (remove_user user_id c).1
unfolding remove_user
remove_user-IsSound user_id c v = elim (Bool-cases (includes c.active_user_ids user_id)) [
  | inl e ↦ rw e (record {
    ready_once = without-IsDistinct user_id c.ready_user_ids v.ready_once;
    active_once = without-IsDistinct user_id c.active_user_ids v.active_once;
    within = without-IsWithin user_id c.ready_user_ids c.active_user_ids v.within;
  })
  | inr e ↦ rw e v
]

-- When an active player of a drawing phase disconnects, the next context holds the same active and
-- ready users without that player, is sound if the context was, and the phase is to end exactly if
-- somebody is left and everybody who is left is ready. Nothing happens if the player is not active.
pub leave_drawing_lem :
    (s : GameState) (c : DrawingContext) (user_id : ℕ)
    → s.phase ≡ GamePhase.drawing
    → s.phase_context ≡ some (PhaseContext.drawing c)
    → IsSound c
    → (includes c.active_user_ids user_id ≡ false → compute_disconnect s user_id ≡ none)
      × (includes c.active_user_ids user_id ≡ true
          → (r : PhaseDisconnectResult) × (d : DrawingContext) × (compute_disconnect s user_id
              ≡ some r)
            × (r.next_phase_context ≡ some (PhaseContext.drawing d))
            × IsSound d
            × ((b : ℕ)
                → includes d.active_user_ids b
                  ≡ (includes c.active_user_ids b && not (user_id == b)))
            × ((b : ℕ)
                → includes d.ready_user_ids b ≡ (includes c.ready_user_ids b && not (user_id == b)))
            × ((r.should_advance ≡ true) ↔ AllReady d))
unfolding compute_disconnect remove_user
leave_drawing_lem s c user_id p e v = (
  λ h. rw (p, e, h) refl,
  λ h.
      let d : DrawingContext = record c {
        active_user_ids = without user_id c.active_user_ids;
        ready_user_ids = without user_id c.ready_user_ids;
      } in
      let sound : IsSound d = rw h at (remove_user-IsSound user_id c v) in
      (
        record {
          next_phase_context = some (PhaseContext.drawing d);
          should_advance = is_ready_to_advance d;
          player_update = some (disconnected user_id);
          selected_topic = none;
        },
        d,
        rw (p, e, h) refl,
        refl,
        sound,
        (λ b. includes-without user_id b c.active_user_ids),
        (λ b. includes-without user_id b c.ready_user_ids),
        is_ready_to_advance_iff d sound,
      ),
)

module _ (redis : Redis) where
  open redis use {State}

  abbrev change : DrawingContext → PartialGameState
  change d = record no_change { phase_context = some (some (PhaseContext.drawing d)) }

  abbrev answer : ℕ → GameState → Bool × DrawingContext → SubmitDrawingResult
  answer user_id st (became, d) = record {
    should_advance = is_ready_to_advance d;
    player_update = if became then some (became_ready user_id true) else none;
    ready_summary = get_ready_summary_from_state (overlay st (change d));
  }

  submit_drawing-marked :
      (room_id user_id : ℕ) (s : State) (st : GameState) (c : DrawingContext)
      (m : Bool × DrawingContext)
      → get redis room_id s ≡ some st
      → st.phase_context ≡ some (PhaseContext.drawing c)
      → mark_ready user_id c ≡ ok m
      → submit_drawing redis room_id user_id s
        ≡ (ok (answer user_id st m), (patch redis room_id (change m.1) s).1)
  unfolding submit_drawing from_phase_context
  submit_drawing-marked room_id user_id s st c m e q mk =
      rw (e, submit_drawing, q, mk)
        (rw (get-patch redis room_id room_id (change m.1) s st e).0 refl)

  answer-all_ready :
      (user_id : ℕ) (st : GameState) (m : Bool × DrawingContext)
      → st.phase ≡ GamePhase.drawing
      → (answer user_id st m).ready_summary.all_ready ≡ is_ready_to_advance m.1
  unfolding get_ready_summary_from_state is_ready_to_advance
  answer-all_ready user_id st m p = rw p refl

  -- A submission in a drawing phase with a sound context is refused, and nothing is written, if the
  -- player is not active. Else the player is ready in the room's new state, whose context is sound
  -- and has the same active users; the answer says that the phase is to end exactly if everybody
  -- who is active is ready, as does its ready summary; and no other room changes.
  pub submit_drawing_lem :
      (room_id user_id : ℕ) (s : State) (st : GameState) (c : DrawingContext)
      → get redis room_id s ≡ some st
      → st.phase ≡ GamePhase.drawing
      → st.phase_context ≡ some (PhaseContext.drawing c)
      → IsSound c
      → (includes c.active_user_ids user_id ≡ false
          → submit_drawing redis room_id user_id s ≡ (err (conflict user_not_active), s))
        × (includes c.active_user_ids user_id ≡ true
            → (r : SubmitDrawingResult) × (d : DrawingContext) × (s' : State) × (submit_drawing
                  redis room_id user_id s
                ≡ (ok r, s'))
              × ((j : ℕ)
                  → get redis j s' ≡ (
                      if room_id == j
                      then some (record st { phase_context = some (PhaseContext.drawing d) })
                      else get redis j s))
              × IsSound d
              × (d.active_user_ids ≡ c.active_user_ids)
              × (includes d.ready_user_ids user_id ≡ true)
              × ((r.should_advance ≡ true) ↔ AllReady d)
              × (r.ready_summary.all_ready ≡ r.should_advance))
  unfolding submit_drawing from_phase_context mark_ready
  submit_drawing_lem room_id user_id s st c e p q v = (
    λ h. rw (e, submit_drawing, q, mark_ready, h) refl,
    λ h.
        let became = not (includes c.ready_user_ids user_id) in
        let d : DrawingContext =
          if includes c.ready_user_ids user_id
          then c
          else record c { ready_user_ids = c.ready_user_ids ++ user_id ∷ [] } in
        let marks = marked user_id c h in
        let sound = mark_ready-IsSound user_id c d became v marks in
        (
          answer user_id st (became, d),
          d,
          (patch redis room_id (change d) s).1,
          submit_drawing-marked room_id user_id s st c (became, d) e q marks,
          (λ j. (get-patch redis room_id j (change d) s st e).1),
          sound.0,
          sound.4,
          sound.3,
          is_ready_to_advance_iff d sound.0,
          answer-all_ready user_id st (became, d) p,
        ),
  )

  -- What `submitDrawing` does to the store, on every branch: nothing, or a patch of the room's game
  -- that keeps the phase.
  pub submit_drawing-store :
      (room_id user_id : ℕ) (s : State)
      → ((submit_drawing redis room_id user_id s).1 ≡ s)
        ⊎ ((old : GameState) × (p : PartialGameState) × (get redis room_id s ≡ some old)
            × (p.phase ≡ none)
            × ((submit_drawing redis room_id user_id s).1 ≡ (patch redis room_id p s).1))
  unfolding submit_drawing
  submit_drawing-store room_id user_id s = go (ready_of redis user_id (get redis room_id s)) refl
    where
      go :
          (r : Result (Bool × DrawingContext))
          → ready_of redis user_id (get redis room_id s) ≡ r
          → ((submit_drawing redis room_id user_id s).1 ≡ s)
            ⊎ ((old : GameState) × (p : PartialGameState) × (get redis room_id s ≡ some old)
                × (p.phase ≡ none)
                × ((submit_drawing redis room_id user_id s).1 ≡ (patch redis room_id p s).1))
      go (err e) h = inl (rw (h, submit_drawing) refl)
      go (ok m) h =
          let (old, found, rest) = >>=-eq-ok (or_throw (get redis room_id s) _) _ h in
          inr (old, change m.1, or_throw-eq-ok _ _ found, refl, rw (h, submit_drawing) refl)
