-- ===== src/Prelude/Results.antt =====
-- The exceptions that the program throws, by class and code, and results that carry one.
use Prim.Native.Nat.{ℕ}
use mathlib.Core.Path.{◌≡◌, refl}
use mathlib.Core.Bool.{Bool, true, false}
use mathlib.Core.Option.{Option, none, some}
use mathlib.Core.Logic.{◌⊎◌, inl, inr}

-- The error codes of the components (their `constants/` files).
pub data Code : Type 0 where
  solo_mode_players team_mode_players private_room_needs_password : Code
  room_not_waiting room_not_in_progress : Code
  permission_denied game_start_not_host host_cannot_toggle_ready player_not_found : Code
  room_full cannot_kick_self : Code
  game_already_started game_start_not_enough_players not_all_players_ready team_full : Code
  solo_mode_no_teams invalid_team team_imbalance max_players_less_than_current : Code
  phase_must_be_loading phase_must_be_theme_selecting context_invalid : Code
  permission_denied_selector theme_invalid theme_not_set : Code
  game_state_not_found drawing_context_missing user_not_active : Code
  invalid_phase evaluation_incomplete state_patch_failed invalid_score round_missing : Code
  drawing_id_invalid self_evaluation_not_allowed evaluation_context_invalid : Code
  type_error unique_violation record_missing : Code
  user_not_found request_not_found not_a_friend already_friend already_sent_request : Code
  request_already_processed blocked_by_target blocking_target cannot_request_self : Code
  cannot_cancel_received_request cannot_respond_own_request : Code
  cannot_self_block block_not_found already_blocked : Code
  room_not_found room_password_required room_invalid_password game_start_failed : Code
  not_enough cooldown_remaining spec_not_found target_not_in_room : Code
  item_not_owned invalid_category_match : Code
  cannot_whisper_self not_friends target_is_blocked you_are_blocked : Code

-- NestJS exceptions by class, socket errors by status, and plain errors.
pub data Exception : Type 0 where
  bad_request conflict forbidden not_found too_many_requests internal_error : Code → Exception
  ws_error : ℕ → Code → Exception
  plain_error : Code → Exception

pub data Result {ℓ} (A : Type ℓ) : Type ℓ where
  ok : A → Result A
  err : Exception → Result A

module _ {ℓ κ} {A : Type ℓ} {B : Type κ} where
  infixl 5 ◌>>=◌
  -- What follows a call: an exception passes it over.
  abbrev pub ◌>>=◌ : Result A → (A → Result B) → Result B
  err thrown >>= next = err thrown
  ok value >>= next = next value

  -- A sequence that ends well had a first part that ended well.
  pub >>=-eq-ok :
      (r : Result A) (next : A → Result B) {out : B}
      → (r >>= next) ≡ ok out
      → (value : A) × (r ≡ ok value) × (next value ≡ ok out)
  >>=-eq-ok (err thrown) next h = cc
  >>=-eq-ok (ok value) next h = (value, refl, h)

infixl 5 ◌>>◌
abbrev pub ◌>>◌ {κ} : {B : Type κ} → Result (Unit {0}) → Result B → Result B
first >> second = first >>= λ _. second

-- `if (b) throw e;`
abbrev pub throw_if : Bool → Exception → Result (Unit {0})
throw_if true e = err e
throw_if false e = ok tt

-- `if (!o) throw e;`
abbrev pub or_throw {ℓ} : {A : Type ℓ} → Option A → Exception → Result A
or_throw none e = err e
or_throw (some a) e = ok a

pub ok-injective {ℓ} : {A : Type ℓ} {a b : A} → ok a ≡ ok b → a ≡ b
ok-injective h = cc

-- `try { … } catch { }`: the value, if nothing is thrown.
abbrev pub result_some {ℓ} : {A : Type ℓ} → Result A → Option A
result_some (ok a) = some a
result_some (err e) = none

pub or_throw-eq-ok {ℓ} :
    {A : Type ℓ} (o : Option A) (e : Exception) {a : A} → or_throw o e ≡ ok a → o ≡ some a
or_throw-eq-ok none e h = cc
or_throw-eq-ok (some a) e h = cc

pub err-ne-ok {ℓ} : {A : Type ℓ} {e : Exception} {a : A} → err e ≡ ok a → ⊥
err-ne-ok h = cc

abbrev pub is_ok {ℓ} : {A : Type ℓ} → Result A → Bool
is_ok (ok a) = true
is_ok (err e) = false

pub Result-cases {ℓ} :
    {A : Type ℓ} (r : Result A) → ((a : A) × (r ≡ ok a)) ⊎ ((e : Exception) × (r ≡ err e))
Result-cases (ok a) = inl (a, refl)
Result-cases (err e) = inr (e, refl)
