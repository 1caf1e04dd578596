-- ===== src/Exec.antt =====
-- Methods of a service as functions of its state. What a method changed before it throws stays
-- changed: nothing in the services rolls a state back. A method runs from its call to its end.
use pollycasso_back.Prelude.{Bool, Exception, Option, Result, err, false, none, ok, some, true}

abbrev pub Exec : Type 0 → Type 0 → Type 0
Exec S A = S → Result A × S

module _ {S : Type 0} where
  unfoldable pub pure : {A : Type 0} → A → Exec S A
  pure a s = (ok a, s)

  unfoldable pub raise : {A : Type 0} → Exception → Exec S A
  raise thrown s = (err thrown, s)

  -- What follows a step: it runs on the step's value, or the exception goes on.
  abbrev pub continue : {A B : Type 0} → (A → Exec S B) → Result A × S → Result B × S
  continue f (ok a, s) = f a s
  continue f (err thrown, s) = (err thrown, s)

  infixl 5 ◌>>=◌ ◌>>◌
  unfoldable pub ◌>>=◌ : {A B : Type 0} → Exec S A → (A → Exec S B) → Exec S B
  ◌>>=◌ m f s = continue f (m s)

  abbrev pub ◌>>◌ : {B : Type 0} → Exec S (Unit {0}) → Exec S B → Exec S B
  m >> k = m >>= λ _. k

  unfoldable pub lift : {A : Type 0} → Result A → Exec S A
  lift r s = (r, s)

  unfoldable pub gets : {A : Type 0} → (S → A) → Exec S A
  gets f s = (ok (f s), s)

  unfoldable pub modify : (S → S) → Exec S (Unit {0})
  modify f s = (ok tt, f s)

  -- `if (!o) throw e;`
  unfoldable pub some_or_raise : {A : Type 0} → Option A → Exception → Exec S A
  some_or_raise none thrown s = (err thrown, s)
  some_or_raise (some a) thrown s = (ok a, s)

  -- `if (b) throw e;`
  unfoldable pub raise_if : Bool → Exception → Exec S (Unit {0})
  raise_if true thrown s = (err thrown, s)
  raise_if false thrown s = (ok tt, s)

  -- The step with its value dropped.
  unfoldable pub discard : {A : Type 0} → Exec S A → Exec S (Unit {0})
  discard m s = continue (λ _ t. (ok tt, t)) (m s)
