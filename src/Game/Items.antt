-- ===== src/Game/Items.antt =====
-- Items that players use against each other while drawing: src/game/item/game-item.service.ts with the
-- decision of src/game/item/domain/game-item-usage.domain.ts and the two stores in memory,
-- src/game/item/stores/cooldown.store.ts and src/game/item/stores/game-inventory.store.ts. The cache of
-- the item specs and the nicknames in the waiting store are arguments; the quantities that are
-- written to the database are listed, the newest first.
pub mod Service
pub mod Uses
pub mod Overlap
use pollycasso_back.Prelude.{
  List, Option, Result, Text, [], conflict, cooldown_remaining, if◌then◌else◌, lookup, ltb, none,
  not_enough, ok, or_else, or_throw, some, spec_not_found, text_eq, text_insert, text_lookup,
  throw_if, too_many_requests, ℕ, ◌++◌, ◌+◌, ◌-◌, ◌==◌, ◌>>=◌, ◌>>◌, ◌∷◌,
}
use pollycasso_back.Exec.{Exec}

-- A `Map` lists its keys in the order in which they were first set.
abbrev pub map_set {ℓ} : {V : Type ℓ} → ℕ → V → List (ℕ × V) → List (ℕ × V)
map_set k v [] = (k, v) ∷ []
map_set k v ((j, w) ∷ m) = if j == k then (j, v) ∷ m else (j, w) ∷ map_set k v m

-- Values by phase, user and item, in both stores.
abbrev pub Phases : Type 0 → Type 0
Phases V = List (Text × List (ℕ × List (ℕ × V)))

module _ {V : Type 0} where
  abbrev pub phase_of : Text → Phases V → List (ℕ × List (ℕ × V))
  phase_of phase_key s = or_else (text_lookup phase_key s) []

  abbrev pub user_of : Text → ℕ → Phases V → List (ℕ × V)
  user_of phase_key user_id s = or_else (lookup user_id (phase_of phase_key s)) []

  abbrev pub put_user : Text → ℕ → List (ℕ × V) → Phases V → Phases V
  put_user phase_key user_id m s =
      text_insert phase_key (map_set user_id m (phase_of phase_key s)) s

  -- Reading makes the maps of the phase and of the user, if there are none.
  abbrev pub user : Text → ℕ → Phases V → Phases V
  user phase_key user_id s = put_user phase_key user_id (user_of phase_key user_id s) s

  abbrev pub clear : Text → Phases V → Phases V
  clear phase_key [] = []
  clear phase_key ((key, m) ∷ s) =
      let rest = clear phase_key s in if text_eq key phase_key then rest else (key, m) ∷ rest

pub record ItemState : Type 0 where
  pub initial : ℕ
  pub remaining : ℕ

pub record Used : Type 0 where
  pub user_id : ℕ
  pub item_id : ℕ
  pub used : ℕ

pub record ItemSpec : Type 0 where
  pub name : Text
  pub duration_ms : ℕ
  pub cooldown_ms : ℕ

pub record UseItemResult : Type 0 where
  pub attacker_user_id : ℕ
  pub attacker_nickname : Text
  pub target_user_id : ℕ
  pub target_nickname : Text
  pub item_name : Text
  pub item_id : ℕ
  pub duration : ℕ
  pub count_left : ℕ
  pub cooldown_ends_at : ℕ

abbrev pub remaining_in : Option ItemState → ℕ
remaining_in none = 0
remaining_in (some st) = st.remaining

abbrev pub init_items : List (ℕ × ℕ) → List (ℕ × ItemState) → List (ℕ × ItemState)
init_items [] u = u
init_items ((item_id, quantity) ∷ items) u =
    init_items items (map_set item_id (record { initial = quantity; remaining = quantity }) u)

abbrev pub init_user : Text → ℕ → List (ℕ × ℕ) → Phases ItemState → Phases ItemState
init_user phase_key user_id items s =
    put_user phase_key user_id (init_items items (user_of phase_key user_id s)) s

abbrev pub lowered : Option ItemState → ItemState
lowered none = record { initial = 0; remaining = 0 }
lowered (some st) = record st { remaining = st.remaining - 1 }

-- One less, and never below 0; an item that is not there is put there with none left.
abbrev pub decrement : Text → ℕ → ℕ → Phases ItemState → Phases ItemState
decrement phase_key user_id item_id s =
    let u = user_of phase_key user_id s in
    put_user phase_key user_id (map_set item_id (lowered (lookup item_id u)) u) s

abbrev pub used_items : ℕ → List (ℕ × ItemState) → List Used
used_items user_id [] = []
used_items user_id ((item_id, st) ∷ u) =
    let rest = used_items user_id u in
    if ltb 0 (st.initial - st.remaining)
    then record { user_id = user_id; item_id = item_id; used = st.initial - st.remaining } ∷ rest
    else rest

abbrev pub used_by_users : List (ℕ × List (ℕ × ItemState)) → List Used
used_by_users [] = []
used_by_users ((user_id, u) ∷ p) = used_items user_id u ++ used_by_users p

abbrev pub extract_used : Text → Phases ItemState → List Used
extract_used phase_key s = used_by_users (phase_of phase_key s)

pub record UseParams : Type 0 where
  pub phase_key : Text
  pub attacker_user_id : ℕ
  pub attacker_nickname : Text
  pub target_user_id : ℕ
  pub target_nickname : Text
  pub item_id : ℕ
  pub now : ℕ

abbrev pub use_result : UseParams → ℕ → ItemSpec → UseItemResult
use_result p remaining spec = record {
  attacker_user_id = p.attacker_user_id;
  attacker_nickname = p.attacker_nickname;
  target_user_id = p.target_user_id;
  target_nickname = p.target_nickname;
  item_name = spec.name;
  item_id = p.item_id;
  duration = spec.duration_ms;
  count_left = remaining - 1;
  cooldown_ends_at = p.now + spec.cooldown_ms;
}

-- The new end of the cooldown, and the answer.
unfoldable pub decide : UseParams → ℕ → ℕ → Option ItemSpec → Result (ℕ × UseItemResult)
decide p remaining cooldown_ends_at found = do
  throw_if (remaining == 0) (conflict not_enough)
  throw_if (ltb p.now cooldown_ends_at) (too_many_requests cooldown_remaining)
  spec ← or_throw found (conflict spec_not_found)
  ok (p.now + spec.cooldown_ms, use_result p remaining spec)

pub record Items : Type 0 where
  pub inventory : Phases ItemState
  pub cooldowns : Phases ℕ
  pub applied : List (List Used)

unfoldable pub get_remaining : Text → ℕ → ℕ → Exec Items ℕ
get_remaining phase_key user_id item_id s = (
  ok (remaining_in (lookup item_id (user_of phase_key user_id s.inventory))),
  record s { inventory = user phase_key user_id s.inventory },
)

unfoldable pub get_ends_at : Text → ℕ → ℕ → Exec Items ℕ
get_ends_at phase_key user_id item_id s = (
  ok (or_else (lookup item_id (user_of phase_key user_id s.cooldowns)) 0),
  record s { cooldowns = user phase_key user_id s.cooldowns },
)

unfoldable pub spend : UseParams → ℕ → Exec Items (Unit {0})
spend p ends_at s = (
  ok tt,
  record s {
    inventory = decrement p.phase_key p.attacker_user_id p.item_id s.inventory;
    cooldowns =
        put_user p.phase_key p.attacker_user_id
          (map_set p.item_id ends_at (user_of p.phase_key p.attacker_user_id s.cooldowns))
          s.cooldowns;
  },
)
