-- ===== src/Game/Service/Steps.antt =====
-- How a method changes the stored games: not at all, or one room's, along an edge of the phase
-- diagram.
pub mod Rules
pub mod Writes
use mathlib.Core.Path.{subst}
use pollycasso_back.Prelude.{if◌then◌else◌, inl, none, some, ℕ, ◌==◌, ◌≡◌, ◌⊎◌}
use pollycasso_back.GameState.{GameState, GamePhase, PartialGameState, overlay}
use pollycasso_back.GameState.Store
use pollycasso_back.GameState.Store.{Redis, get-patch}
use pollycasso_back.Game.Service.{
  set_phase_timer, send, Timeout, pure, lift, Sent, clear_phase_timer, M, Server, continue, ◌>>=◌,
  read, write, change, remove, if_some, if_true, on_error, finally, recover,
}

-- The order of the phases. A summary leads to the next round or to the end.
pub data Edge : GamePhase → GamePhase → Type 0 where
  select : Edge GamePhase.loading GamePhase.theme_selecting
  draw : Edge GamePhase.theme_selecting GamePhase.drawing
  evaluate : Edge GamePhase.drawing GamePhase.evaluating
  summarise : Edge GamePhase.evaluating GamePhase.round_summary
  again : Edge GamePhase.round_summary GamePhase.theme_selecting
  finish : Edge GamePhase.round_summary GamePhase.finished
  return : Edge GamePhase.finished GamePhase.waiting

module _ (redis : Redis) (room_id : ℕ) where
  -- One method's effect on the stored games.
  pub data StoreStep (before after : redis.State) : Type 0 where
    keeps : after ≡ before → StoreStep before after
    writes :
        (old new : GameState)
        → Store.get redis room_id before ≡ some old
        → Edge old.phase new.phase ⊎ (new.phase ≡ old.phase)
        → ((j : ℕ)
            → Store.get redis j after
              ≡ (if room_id == j then some new else Store.get redis j before))
        → StoreStep before after
    deletes :
        ((j : ℕ)
          → Store.get redis j after ≡ (if room_id == j then none else Store.get redis j before))
        → StoreStep before after

  -- The method leaves the stored games alone.
  pub record IsQuiet {A : Type 0} (m : M redis A) : Type 0 where
    pub apply : (s : Server redis) → (m s).1.store ≡ s.store

  -- The method makes one step from the given store.
  pub record IsStep {A : Type 0} (before : redis.State) (m : M redis A) : Type 0 where
    pub apply : (s : Server redis) → s.store ≡ before → StoreStep before (m s).1.store

-- An edge between the phases of two states.
pub edge_between : {a b p q : GamePhase} → Edge p q → a ≡ p → b ≡ q → Edge a b ⊎ (b ≡ a)
edge_between e h k = inl (rw (h, k) e)
