-- ===== src/GameState/Store.antt =====
-- The store of game states: src/game-state/game-state.store.ts over src/redis/redis.service.ts.
-- Redis itself is a parameter: a state with `GET`, `SET` and `DEL`, whose documented effect on every
-- key is named by two laws. The key `game:state:<roomId>` is the room id, and the JSON text of a
-- value is the value. The time to live of 3600 seconds is not modelled: no key expires.
use pollycasso_back.Prelude.{ℕ, ◌≡◌, refl, Option, none, some, ◌==◌, if◌then◌else◌}
use pollycasso_back.GameState.{GameState, PartialGameState, overlay}

pub record Redis : Type 1 where
  pub State : Type 0
  pub get_key : ℕ → State → Option GameState
  pub set_key : ℕ → GameState → State → State
  pub del_key : ℕ → State → State
  pub get_set :
      (k j : ℕ) (v : GameState) (s : State)
      → get_key j (set_key k v s) ≡ (if k == j then some v else get_key j s)
  pub get_del :
      (k j : ℕ) (s : State) → get_key j (del_key k s) ≡ (if k == j then none else get_key j s)

-- A Redis that is a function from keys, which shows that the laws can hold.
abbrev pub map_redis : Redis
map_redis = record {
  State = ℕ → Option GameState;
  get_key = λ k s. s k;
  set_key = λ k v s j. if k == j then some v else s j;
  del_key = λ k s j. if k == j then none else s j;
  get_set = λ k j v s. refl;
  get_del = λ k j s. refl;
}

module _ (redis : Redis) where
  open redis use {State, get_key, set_key, del_key, get_set, get_del}

  unfoldable pub get : ℕ → State → Option GameState
  get room_id s = get_key room_id s

  unfoldable pub set : ℕ → GameState → State → State
  set room_id v s = set_key room_id v s

  -- The stored state with the given fields replaced, or null where there is none.
  unfoldable pub patch : ℕ → PartialGameState → State → Option GameState × State
  unfolding get set
  patch room_id p s = elim (get room_id s) [
    | none ↦ (none, s)
    | some current ↦ (some (overlay current p), set room_id (overlay current p) s)
  ]

  unfoldable pub delete : ℕ → State → State
  delete room_id s = del_key room_id s

  -- A patch of a stored state answers the state with the given fields replaced, every later read of the
  -- room answers the same, and reads of other rooms answer what they did before.
  pub get-patch :
      (room_id j : ℕ) (p : PartialGameState) (s : State) (current : GameState)
      → get room_id s ≡ some current
      → ((patch room_id p s).0 ≡ some (overlay current p))
        × (get j (patch room_id p s).1
            ≡ (if room_id == j then some (overlay current p) else get j s))
  unfolding patch
  get-patch room_id j p s current h = rw (h, patch) (refl, get_set room_id j (overlay current p) s)
