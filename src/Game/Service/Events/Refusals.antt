-- ===== src/Game/Service/Events/Refusals.antt =====
-- A theme that is confirmed by somebody who may not: `handleFinalize` of
-- src/game/topic/topic.gateway.ts over `startDrawingPhase` of
-- src/game/session/game-session.service.ts.
use pollycasso_back.Prelude.{
  Bool-cases, List, Option, Option-cases, Result-cases, Text, ap, arith, erase, err-ne-ok, inl, inr,
  none, ok, refl, some, some-injective, true, ℕ, ◌==◌, ◌≡◌,
}
use pollycasso_back.GameState.{
  GameState, GamePhase, PhaseContext, ThemeSelectPhaseContext, is_theme_selecting, theme_context?,
}
use pollycasso_back.GameState.Store
use pollycasso_back.GameState.Store.{Redis}
use pollycasso_back.Game.Session
use pollycasso_back.Game.Service.{Server, Surroundings, ◌>>=◌, lift, read, clear_phase_timer}
use pollycasso_back.Game.Service.Drawing.{
  start_drawing_phase, start_chosen, chosen_theme, active_members,
}
use pollycasso_back.Game.Service.Events.{handle, logged, on_finalize, finalizes}

-- The room selects a theme, and the user is the one who selects it.
abbrev pub IsSelector : GameState → ℕ → Type 0
IsSelector st user_id =
    (st.phase ≡ GamePhase.theme_selecting)
    × ((c : ThemeSelectPhaseContext) × (st.phase_context ≡ some (PhaseContext.theme_selecting c))
        × (c.selector_id ≡ user_id))

theme_context?-eq :
    (o : Option PhaseContext) (c : ThemeSelectPhaseContext)
    → theme_context? o ≡ some c
    → o ≡ some (PhaseContext.theme_selecting c)
theme_context?-eq (some (PhaseContext.theme_selecting d)) c h =
    ap (λ k. some (PhaseContext.theme_selecting k)) (some-injective h)
theme_context?-eq none c h = cc
theme_context?-eq (some _) c h = cc

is_theme_selecting-eq :
    (p : GamePhase) → is_theme_selecting p ≡ true → p ≡ GamePhase.theme_selecting
is_theme_selecting-eq p h = ground arith

start_chosen-IsSelector :
    (env : Surroundings) (user_id : ℕ) (theme : Option Text) (active : List ℕ) (st new : GameState)
    → start_chosen env user_id theme active st ≡ ok new
    → IsSelector st user_id
unfolding start_chosen Session.start_drawing Session.start_drawing_undefined
start_chosen-IsSelector env user_id none active st new h = absurd (ground (arith, h))
start_chosen-IsSelector env user_id (some theme) active st new h =
    elim (Bool-cases (is_theme_selecting st.phase)) [
      | inr e ↦ absurd (err-ne-ok (rw e at h))
      | inl e ↦ elim (Option-cases (theme_context? st.phase_context)) [
        | inl f ↦ absurd (err-ne-ok (rw (e, f) at h))
        | inr (c, f) ↦ elim (Bool-cases (c.selector_id == user_id)) [
          | inr g ↦ absurd (err-ne-ok (rw (e, f, g) at h))
          | inl g ↦ (
            is_theme_selecting-eq st.phase e,
            (c, theme_context?-eq st.phase_context c f, ground (arith, g)),
          )
        ]
      ]
    ]

-- A theme that is confirmed by anybody but the selector of a room that selects a theme: the message ends
-- without an error, and stores and sends nothing. But the timer of the room is gone, so that the running
-- phase no longer ends by timeout.
pub handle_refused :
    {redis : Redis} (env : Surroundings) (room_id user_id : ℕ) (typed : Option Text)
    (s : Server redis) (st : GameState)
    → Store.get redis room_id s.store ≡ some st
    → (IsSelector st user_id → ⊥)
    → handle env room_id (finalizes user_id typed) s
      ≡ (ok tt, record s { timers = erase room_id s.timers })
unfolding handle on_finalize logged start_drawing_phase ◌>>=◌ read lift clear_phase_timer
handle_refused env room_id user_id typed s st found refused =
    let active = active_members env room_id st in
    elim (Result-cases (start_chosen env user_id (chosen_theme env typed st) active st)) [
      | inl (new, e) ↦ absurd (
          refused (start_chosen-IsSelector env user_id (chosen_theme env typed st) active st new e))
      | inr (_, e) ↦ rw (found, e) refl
    ]
