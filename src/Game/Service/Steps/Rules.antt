-- ===== src/Game/Service/Steps/Rules.antt =====
-- Rules for the methods that leave the stored games alone, and for a step at the end of them.
use mathlib.Core.Path.{subst}
use pollycasso_back.Prelude.{
  Bool, Option, Result, err, false, none, ok, refl, some, sym, true, ℕ, ◌∙◌, ◌≡◌,
}
use pollycasso_back.GameState.{GameState}
use pollycasso_back.GameState.Store
use pollycasso_back.GameState.Store.{Redis}
use pollycasso_back.Game.Service.{
  Timeout, Sent, M, Server, pure, continue, ◌>>=◌, lift, send, read, clear_phase_timer,
  set_phase_timer, if_some, if_true,
}
use pollycasso_back.Game.Service.Steps.{StoreStep, IsQuiet, IsStep, keeps}

module _ {redis : Redis} {room_id : ℕ} where
  continue-IsQuiet :
      {A B : Type 0} (f : A → M redis B) (x : Result A × Server redis) (before : redis.State)
      → ((a : A) → IsQuiet redis room_id (f a))
      → x.1.store ≡ before
      → (continue f x).1.store ≡ before
  continue-IsQuiet f (ok a, t) before q e = (q a).apply t ∙ e
  continue-IsQuiet f (err x, t) before q e = e

  pub >>=-IsQuiet :
      {A B : Type 0} (m : M redis A) (f : A → M redis B)
      → IsQuiet redis room_id m
      → ((a : A) → IsQuiet redis room_id (f a))
      → IsQuiet redis room_id (m >>= f)
  unfolding ◌>>=◌
  >>=-IsQuiet m f q g = record { apply = λ s. continue-IsQuiet f (m s) s.store g (q.apply s) }

  continue-IsStep :
      {A B : Type 0} (f : A → M redis B) (x : Result A × Server redis) (before : redis.State)
      → ((a : A) → IsStep redis room_id before (f a))
      → x.1.store ≡ before
      → StoreStep redis room_id before (continue f x).1.store
  continue-IsStep f (ok a, t) before g e = (g a).apply t e
  continue-IsStep f (err x, t) before g e = keeps e

  pub quiet_then :
      {A B : Type 0} {before : redis.State} (m : M redis A) (f : A → M redis B)
      → IsQuiet redis room_id m
      → ((a : A) → IsStep redis room_id before (f a))
      → IsStep redis room_id before (m >>= f)
  unfolding ◌>>=◌
  quiet_then m f q g = record { apply = λ s e. continue-IsStep f (m s) _ g (q.apply s ∙ e) }

  continue-quiet :
      {A B : Type 0} (f : A → M redis B) (x : Result A × Server redis) (before : redis.State)
      → ((a : A) → IsQuiet redis room_id (f a))
      → StoreStep redis room_id before x.1.store
      → StoreStep redis room_id before (continue f x).1.store
  continue-quiet f (ok a, t) before q h =
      subst (StoreStep redis room_id before) (sym ((q a).apply t)) h
  continue-quiet f (err x, t) before q h = h

  pub then_quiet :
      {A B : Type 0} {before : redis.State} (m : M redis A) (f : A → M redis B)
      → IsStep redis room_id before m
      → ((a : A) → IsQuiet redis room_id (f a))
      → IsStep redis room_id before (m >>= f)
  unfolding ◌>>=◌
  then_quiet m f h q = record { apply = λ s e. continue-quiet f (m s) _ q (h.apply s e) }

  pub read_then :
      {B : Type 0} {before : redis.State} (f : Option GameState → M redis B)
      → IsStep redis room_id before (f (Store.get redis room_id before))
      → IsStep redis room_id before (read room_id >>= f)
  unfolding ◌>>=◌ read
  read_then {before} f h = record {
    apply = λ s e.
        subst (λ k. StoreStep redis room_id before (f (Store.get redis room_id k) s).1.store)
          (sym e) (h.apply s e);
  }

  pub IsQuiet-IsStep :
      {A : Type 0} {before : redis.State} (m : M redis A)
      → IsQuiet redis room_id m
      → IsStep redis room_id before m
  IsQuiet-IsStep m q = record { apply = λ s e. keeps (q.apply s ∙ e) }

  pub if_some-IsStep :
      {A : Type 0} {before : redis.State} (o : Option A) (f : A → M redis (Unit {0}))
      → ((a : A) → o ≡ some a → IsStep redis room_id before (f a))
      → IsStep redis room_id before (if_some o f)
  unfolding if_some pure
  if_some-IsStep none f h = record { apply = λ s e. keeps e }
  if_some-IsStep (some a) f h = h a refl

  pub if_some-IsQuiet :
      {A : Type 0} (o : Option A) (f : A → M redis (Unit {0}))
      → ((a : A) → IsQuiet redis room_id (f a))
      → IsQuiet redis room_id (if_some o f)
  unfolding if_some pure
  if_some-IsQuiet none f h = record { apply = λ s. refl }
  if_some-IsQuiet (some a) f h = h a

  pub if_true-IsStep :
      {before : redis.State} (b : Bool) (m : M redis (Unit {0}))
      → (b ≡ true → IsStep redis room_id before m)
      → IsStep redis room_id before (if_true b m)
  unfolding if_true pure
  if_true-IsStep false m h = record { apply = λ s e. keeps e }
  if_true-IsStep true m h = h refl

  pub if_true-IsQuiet :
      (b : Bool) (m : M redis (Unit {0}))
      → IsQuiet redis room_id m
      → IsQuiet redis room_id (if_true b m)
  unfolding if_true pure
  if_true-IsQuiet false m h = record { apply = λ s. refl }
  if_true-IsQuiet true m h = h

  -- A step on a value that may be an exception.
  pub lift_then :
      {A B : Type 0} {before : redis.State} (r : Result A) (f : A → M redis B)
      → ((a : A) → r ≡ ok a → IsStep redis room_id before (f a))
      → IsStep redis room_id before (lift r >>= f)
  unfolding ◌>>=◌ lift
  lift_then (ok a) f h = record { apply = λ s e. (h a refl).apply s e }
  lift_then (err x) f h = record { apply = λ s e. keeps e }

  pub lift-IsQuiet :
      {A B : Type 0} (r : Result A) (f : A → M redis B)
      → ((a : A) → IsQuiet redis room_id (f a))
      → IsQuiet redis room_id (lift r >>= f)
  unfolding ◌>>=◌ lift
  lift-IsQuiet (ok a) f h = record { apply = λ s. (h a).apply s }
  lift-IsQuiet (err x) f h = record { apply = λ s. refl }

  pub send-IsQuiet : (m : Sent) → IsQuiet redis room_id (send m)
  unfolding send
  send-IsQuiet m = record { apply = λ s. refl }

  pub clear-IsQuiet : (k : ℕ) → IsQuiet redis room_id (clear_phase_timer k)
  unfolding clear_phase_timer
  clear-IsQuiet k = record { apply = λ s. refl }

  pub set-IsQuiet : (k : ℕ) (t : Timeout) → IsQuiet redis room_id (set_phase_timer k t)
  unfolding set_phase_timer
  set-IsQuiet k t = record { apply = λ s. refl }

  pub pure-IsQuiet : {A : Type 0} (a : A) → IsQuiet redis room_id (pure a)
  unfolding pure
  pure-IsQuiet a = record { apply = λ s. refl }

  pub read-IsQuiet : (k : ℕ) → IsQuiet redis room_id (read k)
  unfolding read
  read-IsQuiet k = record { apply = λ s. refl }

pub ruleset quiet = (
  lift-IsQuiet, >>=-IsQuiet, send-IsQuiet, clear-IsQuiet, set-IsQuiet, pure-IsQuiet,
  if_some-IsQuiet, if_true-IsQuiet,
)
