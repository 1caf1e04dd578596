-- ===== src/Game/Service/Steps/Writes.antt =====
-- Rules for the methods that change a stored game, and for `try` blocks.
use mathlib.Core.Path.{subst}
use pollycasso_back.Prelude.{
  Bool, Option, Result, ap, arith, err, false, if◌then◌else◌, inl, inr, none, ok, refl, some, sym,
  true, ℕ, ◌==◌, ◌∙◌, ◌≡◌, ◌⊎◌,
}
use pollycasso_back.GameState.{overlay, PartialGameState, GameState}
use pollycasso_back.GameState.Store
use pollycasso_back.GameState.Store.{get-patch, Redis}
use pollycasso_back.Game.Service.{
  M, Server, call, continue, pure, recover, ◌>>=◌, write, change, remove, if_true, on_error,
  finally,
}
use pollycasso_back.Game.Service.Steps.{StoreStep, Edge, IsStep, keeps, writes, deletes}

module _ {redis : Redis} where
  recover-store :
      {A : Type 0} (clean : Server redis → Server redis) (x : Result A × Server redis)
      → ((s : Server redis) → (clean s).store ≡ s.store)
      → (recover clean x).1.store ≡ x.1.store
  recover-store clean (ok a, t) q = refl
  recover-store clean (err e, t) q = q t

module _ {redis : Redis} {room_id : ℕ} where
  pub change-IsStep :
      {before : redis.State} (old : GameState) (p : PartialGameState)
      → Store.get redis room_id before ≡ some old
      → Edge old.phase (overlay old p).phase ⊎ ((overlay old p).phase ≡ old.phase)
      → IsStep redis room_id before (change room_id p)
  unfolding change
  change-IsStep {before} old p found edge = record {
    apply = λ s e.
        subst (λ k. StoreStep redis room_id before (Store.patch redis room_id p k).1) (sym e)
          (writes old (overlay old p) found edge
            (λ j. (get-patch redis room_id j p before old found).1));
  }

  pub write-IsStep :
      {before : redis.State} (old new : GameState)
      → Store.get redis room_id before ≡ some old
      → Edge old.phase new.phase ⊎ (new.phase ≡ old.phase)
      → IsStep redis room_id before (write room_id new)
  unfolding write Store.get Store.set
  write-IsStep {before} old new found edge = record {
    apply = λ s e.
        subst (λ k. StoreStep redis room_id before (Store.set redis room_id new k)) (sym e)
          (writes old new found edge (λ j. redis.get_set room_id j new before));
  }

  pub remove-IsStep : {before : redis.State} → IsStep redis room_id before (remove room_id)
  unfolding remove Store.get Store.delete
  remove-IsStep {before} = record {
    apply = λ s e.
        subst (λ k. StoreStep redis room_id before (Store.delete redis room_id k)) (sym e)
          (deletes (λ j. redis.get_del room_id j before));
  }

  -- A write that keeps the phase, and a step after it, make one step.
  compose :
      (before middle after : redis.State) (old new : GameState)
      → Store.get redis room_id before ≡ some old
      → new.phase ≡ old.phase
      → ((j : ℕ)
          → Store.get redis j middle
            ≡ (if room_id == j then some new else Store.get redis j before))
      → StoreStep redis room_id middle after
      → StoreStep redis room_id before after
  compose before middle after old new found same law (keeps e) =
      writes old new found (inr same) (λ j. ap (Store.get redis j) e ∙ law j)
  compose before middle after old new found same law (writes o n f edge law') =
      writes old n found (ground (arith, law room_id, edge)) (λ j. ground (arith, law j, law' j))
  compose before middle after old new found same law (deletes law') =
      deletes (λ j. ground (arith, law j, law' j))

  pub change_then :
      {B : Type 0} {before : redis.State} (old : GameState) (p : PartialGameState)
      (f : Option GameState → M redis B)
      → Store.get redis room_id before ≡ some old
      → (overlay old p).phase ≡ old.phase
      → ((middle : redis.State)
          → Store.get redis room_id middle ≡ some (overlay old p)
          → IsStep redis room_id middle (f (some (overlay old p))))
      → IsStep redis room_id before (change room_id p >>= f)
  unfolding ◌>>=◌ change
  change_then {before} old p f found same h = record {
    apply = λ s e.
        let law = λ (j : ℕ). get-patch redis room_id j p before old found in
        let middle = (Store.patch redis room_id p before).1 in
        let here : Store.get redis room_id middle ≡ some (overlay old p) =
          ground (arith, (law room_id).1) in
        let step = (h middle here).apply (record s { store = middle }) refl in
        subst
          (λ k.
            StoreStep redis room_id before
              (f (Store.patch redis room_id p k).0
                (record s { store = (Store.patch redis room_id p k).1 })).1.store)
          (sym e)
          (subst (λ o. StoreStep redis room_id before (f o (record s { store = middle })).1.store)
            (sym (law room_id).0)
            (compose before middle _ old (overlay old p) found same (λ j. (law j).1) step));
  }

  -- A call that leaves the store alone or patches the room's game, and a step after it.
  pub call_then :
      {A B : Type 0} {before : redis.State} (g : redis.State → Result A × redis.State)
      (f : A → M redis B)
      → ((g before).1 ≡ before)
        ⊎ ((old : GameState) × (p : PartialGameState) × (Store.get redis room_id before ≡ some old)
            × (p.phase ≡ none)
            × ((g before).1 ≡ (Store.patch redis room_id p before).1))
      → ((a : A) (middle : redis.State) → IsStep redis room_id middle (f a))
      → IsStep redis room_id before (call g >>= f)
  unfolding ◌>>=◌ call
  call_then {A} {B} {before} g f effect h = record {
    apply = λ s e.
        subst
          (λ k.
            StoreStep redis room_id before
              (continue f ((g k).0, record s { store = (g k).1 })).1.store)
          (sym e) (go s (g before) effect);
  }
    where
      go :
          (s : Server redis) (x : Result A × redis.State)
          → (x.1 ≡ before)
            ⊎ ((old : GameState) × (p : PartialGameState) × (Store.get redis room_id before
                  ≡ some old)
                × (p.phase ≡ none)
                × (x.1 ≡ (Store.patch redis room_id p before).1))
          → StoreStep redis room_id before (continue f (x.0, record s { store = x.1 })).1.store
      go s (err x, t) (inl e) = keeps e
      go s (err x, t) (inr (old, p, found, same, e)) =
          writes old (overlay old p) found (inr (rw same refl))
            λ j. ap (Store.get redis j) e ∙ (get-patch redis room_id j p before old found).1
      go s (ok a, t) (inl e) =
          subst (λ k. StoreStep redis room_id k (f a (record s { store = t })).1.store) e
            ((h a t).apply (record s { store = t }) refl)
      go s (ok a, t) (inr (old, p, found, same, e)) =
          compose before t _ old (overlay old p) found (rw same refl)
            (λ j. ap (Store.get redis j) e ∙ (get-patch redis room_id j p before old found).1)
            ((h a t).apply (record s { store = t }) refl)

  -- A step that a guard of the server's state lets through.
  pub guarded :
      {before : redis.State} (b : Server redis → Bool) (m : M redis (Unit {0}))
      → IsStep redis room_id before m
      → IsStep redis room_id before (λ s. if_true (b s) m s)
  unfolding if_true pure
  guarded {before} b m h = record { apply = λ s e. go (b s) s e }
    where
      go :
          (c : Bool) (s : Server redis)
          → s.store ≡ before
          → StoreStep redis room_id before (if_true c m s).1.store
      go false s e = keeps e
      go true s e = h.apply s e

  -- `try` blocks whose preparation and cleanup leave the stored games alone.
  pub on_error-IsStep :
      {A : Type 0} {before : redis.State} (m : M redis A)
      (prepare clean : Server redis → Server redis)
      → ((s : Server redis) → (prepare s).store ≡ s.store)
      → ((s : Server redis) → (clean s).store ≡ s.store)
      → IsStep redis room_id before m
      → IsStep redis room_id before (λ s. on_error m clean (prepare s))
  unfolding on_error
  on_error-IsStep {before} m prepare clean p q h = record {
    apply = λ s e.
        subst (StoreStep redis room_id before) (sym (recover-store clean (m (prepare s)) q))
          (h.apply (prepare s) (p s ∙ e));
  }

  pub finally-IsStep :
      {A : Type 0} {before : redis.State} (m : M redis A)
      (prepare clean : Server redis → Server redis)
      → ((s : Server redis) → (prepare s).store ≡ s.store)
      → ((s : Server redis) → (clean s).store ≡ s.store)
      → IsStep redis room_id before m
      → IsStep redis room_id before (λ s. finally m clean (prepare s))
  unfolding finally
  finally-IsStep {before} m prepare clean p q h = record {
    apply = λ s e.
        subst (StoreStep redis room_id before) (sym (q (m (prepare s)).1))
          (h.apply (prepare s) (p s ∙ e));
  }
