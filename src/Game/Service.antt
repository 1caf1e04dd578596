-- ===== src/Game/Service.antt =====
-- The state of the game session service (src/game/session/game-session.service.ts), the effects
-- that its methods have on it, and its surroundings. A method runs from its call to its end: between
-- its waits for Redis or the database no other method runs. The broadcasts and the calls of the
-- drawing service are listed in `sent`, the newest first.
pub mod Steps
pub mod Phases
pub mod Drawing
pub mod Summary
pub mod Leaving
pub mod Toggle
pub mod Events
pub mod Outcomes
pub mod Finishing
use pollycasso_back.Prelude.{
  Bool, JsNumber, List, Option, Result, Text, erase, err, false, insert, none, ok, some, true, ℕ,
  ◌∷◌,
}
use pollycasso_back.GameState.{GameState, GamePhase, PartialGameState, DrawData}
use pollycasso_back.GameState.Store
use pollycasso_back.GameState.Store.{Redis}
use pollycasso_back.Game.Disconnect.{RoomUpdatePlayerPayload}
use pollycasso_back.Game.Ready.{RoomReadySummaryPayload}
use pollycasso_back.Game.Results.{FinalResultItem, Reward}
use pollycasso_back.Waiting.{WaitingPlayerState}

-- What a pending timeout does: `advanceToEvaluating` with an expected instance, or the callback of
-- `schedulePhaseTransition` for a phase.
pub data Timeout : Type 0 where
  end_drawing : Option Text → Timeout
  end_evaluating : Timeout
  end_summary : Timeout

pub data Sent : Type 0 where
  game_state : ℕ → GameState → Sent
  game_aborted : ℕ → List (ℕ × ℕ) → Sent
  game_finished : ℕ → GameState → List FinalResultItem → List (ℕ × Reward) → Sent
  player_update : ℕ → RoomUpdatePlayerPayload → Sent
  ready_summary : ℕ → RoomReadySummaryPayload → Sent
  theme_confirmed : ℕ → Text → Sent
  drawing_started : ℕ → Text → List ℕ → Sent
  drawing_ended : ℕ → Text → Sent
  drawings_committed : ℕ → ℕ → Sent
  return_scheduled : ℕ → Sent

pub record Server (redis : Redis) : Type 0 where
  pub store : redis.State
  pub timers : List (ℕ × Timeout)
  pub summary_transition_guard : List ℕ
  pub round_summary_exit_guard : List ℕ
  pub sent : List Sent

-- What the methods ask of the clock, the random source, the sockets of a room, the waiting store and
-- the repositories. An outcome of a call that may throw is a result.
pub record Surroundings : Type 0 where
  pub now : ℕ
  pub uuid : Text
  pub draw : ℕ → ℕ
  pub themes : List Text
  pub socket_user_ids : ℕ → List ℕ
  pub nicknames : ℕ → List (ℕ × Text)
  pub players : ℕ → List WaitingPlayerState
  pub to_number : Text → JsNumber
  pub start_drawing : ℕ → Text → List ℕ → Result (Unit {0})
  pub end_drawing : ℕ → Text → Result (Unit {0})
  pub commit_drawings : ℕ → ℕ → GameState → Result (Unit {0})
  pub load_drawings : ℕ → ℕ → GameState → Result (Unit {0})
  pub count_targets : ℕ → ℕ → ℕ → ℕ
  pub sum_ratings : ℕ → ℕ → List (Text × ℕ)
  pub drawings : ℕ → ℕ → Result (List (Text × DrawData))
  pub reset_room_to_waiting : ℕ → Result (Unit {0})
  pub finish_match : ℕ → List FinalResultItem → List (ℕ × ℕ) → Result (List (ℕ × Reward))

-- A method changes the state also where it throws.
module _ (redis : Redis) where
  abbrev pub M : Type 0 → Type 0
  M A = Server redis → Result A × Server redis

module _ {redis : Redis} where
  unfoldable pub pure : {A : Type 0} → A → M redis A
  pure a s = (ok a, s)

  -- What follows a step: it runs on the step's result, or the exception goes on.
  abbrev pub continue :
      {A B : Type 0} → (A → M redis B) → Result A × Server redis → Result B × Server redis
  continue f (ok a, s) = f a s
  continue f (err e, s) = (err e, s)

  infixl 5 ◌>>=◌ ◌>>◌
  unfoldable pub ◌>>=◌ : {A B : Type 0} → M redis A → (A → M redis B) → M redis B
  ◌>>=◌ m f s = continue f (m s)

  abbrev pub ◌>>◌ : {B : Type 0} → M redis (Unit {0}) → M redis B → M redis B
  m >> k = m >>= λ _. k

  unfoldable pub lift : {A : Type 0} → Result A → M redis A
  lift r s = (r, s)

  unfoldable pub send : Sent → M redis (Unit {0})
  send m s = (ok tt, record s { sent = m ∷ s.sent })

  unfoldable pub read : ℕ → M redis (Option GameState)
  read room_id s = (ok (Store.get redis room_id s.store), s)

  unfoldable pub write : ℕ → GameState → M redis (Unit {0})
  write room_id st s = (ok tt, record s { store = Store.set redis room_id st s.store })

  unfoldable pub change : ℕ → PartialGameState → M redis (Option GameState)
  change room_id p s =
      let (patched, store') = Store.patch redis room_id p s.store in
      (ok patched, record s { store = store' })

  unfoldable pub remove : ℕ → M redis (Unit {0})
  remove room_id s = (ok tt, record s { store = Store.delete redis room_id s.store })

  -- A call of another service, which works on the store.
  unfoldable pub call : {A : Type 0} → (redis.State → Result A × redis.State) → M redis A
  call f s = let (r, store') = f s.store in (r, record s { store = store' })

  -- `clearTimeout` and the removal of the entry, if there is one.
  unfoldable pub clear_phase_timer : ℕ → M redis (Unit {0})
  clear_phase_timer room_id s = (ok tt, record s { timers = erase room_id s.timers })

  unfoldable pub set_phase_timer : ℕ → Timeout → M redis (Unit {0})
  set_phase_timer room_id t s = (ok tt, record s { timers = insert room_id t s.timers })

  -- The step for a value that is there; `return` where there is none.
  unfoldable pub if_some : {A : Type 0} → Option A → (A → M redis (Unit {0})) → M redis (Unit {0})
  if_some none f = pure tt
  if_some (some a) f = f a

  -- The step if a test holds; `return` where it fails.
  unfoldable pub if_true : Bool → M redis (Unit {0}) → M redis (Unit {0})
  if_true false m = pure tt
  if_true true m = m

  -- `try { m } catch (e) { cleanup; throw e; }`
  abbrev pub recover :
      {A : Type 0}
      → (Server redis → Server redis)
      → Result A × Server redis
      → Result A × Server redis
  recover cleanup (ok a, t) = (ok a, t)
  recover cleanup (err e, t) = (err e, cleanup t)

  unfoldable pub on_error : {A : Type 0} → M redis A → (Server redis → Server redis) → M redis A
  on_error m cleanup s = recover cleanup (m s)

  -- `try { m } finally { cleanup; }`
  unfoldable pub finally : {A : Type 0} → M redis A → (Server redis → Server redis) → M redis A
  finally m cleanup s = let (r, t) = m s in (r, cleanup t)
