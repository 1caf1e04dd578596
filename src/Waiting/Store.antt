-- ===== src/Waiting/Store.antt =====
-- The players who wait in a room, in Redis: src/waiting/waiting.store.ts. Each pattern of keys is a
-- key space, and a pipeline is its commands in order. The hash of a player holds texts: numbers in
-- digits, which `Number` reads back as `value`, and '1' or '0'; the enumerations are texts in the source
-- too, and stand for themselves. The state also holds what the waiting service
-- (src/waiting/waiting.service.ts) works on besides: the rows of the rooms, the stored games, and what
-- was published, the newest first.
use pollycasso_back.Exec.{Exec, pure, gets, modify, ◌>>=◌, ◌>>◌}
use pollycasso_back.Prelude.{
  Bool, List, Option, Result, Text, [], false, get_elem?, if◌then◌else◌, is_some, is_some_eq, leb,
  none, not, ok, or_cons, or_else, show, some, sort, text_eq, true, value, ℕ, ◌&&◌, ◌==◌, ◌∷◌,
}
use pollycasso_back.Keys.{KeySpace, SetSpace}
use pollycasso_back.Outfit.{OutfitIds, Raw, from_json}
use pollycasso_back.Room.{RoomProps}
use pollycasso_back.GameState.{GameState}
use pollycasso_back.Waiting.{WaitingPlayerState, Team, PlayerPageStatus}
use pollycasso_back.Waiting

-- The four fields that only `joinRoom` writes, together.
pub record Identity : Type 0 where
  pub user_id : Text
  pub nickname : Text
  pub level : Text
  pub joined_at : Text

-- The hash of a player: a field that was set where there was no hash makes one of that field alone.
pub record PlayerHash : Type 0 where
  pub identity : Option Identity
  pub team : Option Team
  pub is_ready : Option Text
  pub page_status : Option PlayerPageStatus
  pub outfit : Option OutfitIds

abbrev pub empty_hash : PlayerHash
empty_hash = record {
  identity = none;
  team = none;
  is_ready = none;
  page_status = none;
  outfit = none;
}

abbrev pub same_key : ℕ × ℕ → ℕ × ℕ → Bool
same_key (r, u) (q, v) = r == q && u == v

pub record WaitingRedis : Type 1 where
  pub current_rooms : KeySpace ℕ ℕ (λ a b. a == b)
  pub members : SetSpace
  pub players : KeySpace (ℕ × ℕ) PlayerHash same_key
  pub hosts : KeySpace ℕ ℕ (λ a b. a == b)
  pub statuses : KeySpace ℕ (Unit {0}) (λ a b. a == b)
  pub started : KeySpace ℕ (Unit {0}) (λ a b. a == b)
  pub rooms : KeySpace ℕ RoomProps (λ a b. a == b)
  pub games : KeySpace ℕ GameState (λ a b. a == b)

pub data Published : Type 0 where
  room_updated room_deleted loading_started : ℕ → Published

pub record Hall (redis : WaitingRedis) : Type 0 where
  pub current_rooms : redis.current_rooms.State
  pub members : redis.members.State
  pub players : redis.players.State
  pub hosts : redis.hosts.State
  pub statuses : redis.statuses.State
  pub started : redis.started.State
  pub rooms : redis.rooms.State
  pub games : redis.games.State
  pub published : List Published

-- `isReady ? '1' : '0'`, and `=== '1'`
abbrev pub flag : Bool → Text
flag is_ready = if is_ready then 49 ∷ [] else 48 ∷ []

abbrev pub is_flag : Option Text → Bool
is_flag none = false
is_flag (some t) = text_eq t (49 ∷ [])

abbrev pub hash_of : WaitingPlayerState → PlayerHash
hash_of p = record {
  identity = some (record {
    user_id = show p.user_id;
    nickname = p.nickname;
    level = show p.level;
    joined_at = show p.joined_at;
  });
  team = some p.team;
  is_ready = some (flag p.is_ready);
  page_status = some p.page_status;
  outfit = some p.outfit;
}

-- `Number(level) || 1`
abbrev level_or_one : ℕ → ℕ
level_or_one n = if n == 0 then 1 else n

-- The outfit is stored as a string: `JSON.stringify(outfit)`.
abbrev raw_outfit : Option OutfitIds → Raw
raw_outfit none = Raw.missing
raw_outfit (some ids) = Raw.text

-- A missing team does not come up: a hash with an identity has every field.
abbrev pub player_of : Identity → PlayerHash → WaitingPlayerState
player_of i h = record {
  user_id = value i.user_id;
  nickname = i.nickname;
  team = or_else h.team Waiting.no_team;
  is_ready = is_flag h.is_ready;
  level = level_or_one (value i.level);
  page_status = or_else h.page_status Waiting.idle;
  outfit = from_json (raw_outfit h.outfit);
  joined_at = value i.joined_at;
}

abbrev pub identified : Option Identity → PlayerHash → Option WaitingPlayerState
identified none h = none
identified (some i) h = some (player_of i h)

-- The player that a hash describes; no hash, and one without `userId`, are none.
abbrev pub read_player : Option PlayerHash → Option WaitingPlayerState
read_player none = none
read_player (some h) = identified h.identity h

abbrev pub collect : {A : Type 0} → (ℕ → Option A) → List ℕ → List A
collect f [] = []
collect f (u ∷ us) = or_cons (f u) (collect f us)

abbrev pub earliest : List WaitingPlayerState → Option WaitingPlayerState
earliest players = get_elem? (sort (λ a b. leb a.joined_at b.joined_at) players) 0

-- `hget(key, 'isReady') === '1'`
abbrev pub ready_now : Option PlayerHash → Bool
ready_now none = false
ready_now (some h) = is_flag h.is_ready

-- `SET … NX`
abbrev claim : {A B : Type 0} → Option A → B → B → Result Bool × B
claim none taken s = (ok true, taken)
claim (some a) taken s = (ok false, s)

abbrev identity_name : Option Identity → Option Text
identity_name none = none
identity_name (some i) = some i.nickname

abbrev nickname_of : Option PlayerHash → Option Text
nickname_of none = none
nickname_of (some h) = identity_name h.identity

module _ {redis : WaitingRedis} where
  unfoldable pub get_player : ℕ → ℕ → Exec (Hall redis) (Option WaitingPlayerState)
  get_player room_id user_id s =
      (ok (read_player (redis.players.get (room_id, user_id) s.players)), s)

  -- The players of the members, in the order in which Redis lists the members.
  abbrev pub players_in : ℕ → Hall redis → List WaitingPlayerState
  players_in room_id s =
      collect (λ u. read_player (redis.players.get (room_id, u) s.players))
        (redis.members.smembers room_id s.members)

  unfoldable pub get_players : ℕ → Exec (Hall redis) (List WaitingPlayerState)
  get_players room_id s = (ok (players_in room_id s), s)

  unfoldable pub join_room : ℕ → WaitingPlayerState → Exec (Hall redis) (Unit {0})
  join_room room_id p s = (
    ok tt,
    record s {
      current_rooms = redis.current_rooms.set p.user_id room_id s.current_rooms;
      members = redis.members.sadd room_id p.user_id s.members;
      players = redis.players.set (room_id, p.user_id) (hash_of p) s.players;
    },
  )

  -- `HSET` of single fields
  unfoldable pub hset : ℕ → ℕ → (PlayerHash → PlayerHash) → Exec (Hall redis) (Unit {0})
  hset room_id user_id change s =
      let hash = or_else (redis.players.get (room_id, user_id) s.players) empty_hash in
      (ok tt, record s { players = redis.players.set (room_id, user_id) (change hash) s.players })

  unfoldable pub set_ready : ℕ → ℕ → Bool → Exec (Hall redis) (Unit {0})
  set_ready room_id user_id is_ready =
      hset room_id user_id (λ h. record h { is_ready = some (flag is_ready) })

  unfoldable pub toggle_ready : ℕ → ℕ → Exec (Hall redis) Bool
  toggle_ready room_id user_id = do
    current ← gets (λ s. ready_now (redis.players.get (room_id, user_id) s.players))
    hset room_id user_id (λ h. record h { is_ready = some (flag (not current)) })
    pure (not current)

  unfoldable pub change_team : ℕ → ℕ → Team → Exec (Hall redis) (Unit {0})
  change_team room_id user_id team = hset room_id user_id (λ h. record h { team = some team })

  unfoldable pub update_page_status : ℕ → ℕ → PlayerPageStatus → Exec (Hall redis) (Unit {0})
  update_page_status room_id user_id status =
      hset room_id user_id (λ h. record h { page_status = some status })

  unfoldable pub update_outfit : ℕ → ℕ → OutfitIds → Exec (Hall redis) (Unit {0})
  update_outfit room_id user_id outfit =
      hset room_id user_id (λ h. record h { outfit = some outfit })

  unfoldable pub get_host_id : ℕ → Exec (Hall redis) (Option ℕ)
  get_host_id room_id s = (ok (redis.hosts.get room_id s.hosts), s)

  unfoldable pub set_room_expiry : ℕ → Exec (Hall redis) (Unit {0})
  set_room_expiry room_id s =
      (ok tt, record s { statuses = redis.statuses.set room_id tt s.statuses })

  unfoldable pub is_room_started : ℕ → Exec (Hall redis) Bool
  is_room_started room_id s = (ok (is_some (redis.statuses.get room_id s.statuses)), s)

  -- `SET … NX`: whether the key was free.
  unfoldable pub mark_game_started_atomic : ℕ → Exec (Hall redis) Bool
  mark_game_started_atomic room_id s =
      claim (redis.started.get room_id s.started)
        (record s { started = redis.started.set room_id tt s.started }) s

  unfoldable pub get_current_room : ℕ → Exec (Hall redis) (Option ℕ)
  get_current_room user_id s = (ok (redis.current_rooms.get user_id s.current_rooms), s)

  unfoldable pub get_nickname : ℕ → ℕ → Exec (Hall redis) (Option Text)
  get_nickname room_id user_id s =
      (ok (nickname_of (redis.players.get (room_id, user_id) s.players)), s)

  unfoldable pub try_assign_host : ℕ → ℕ → Exec (Hall redis) Bool
  try_assign_host room_id user_id s =
      claim (redis.hosts.get room_id s.hosts)
        (record s { hosts = redis.hosts.set room_id user_id s.hosts }) s

  -- The two keys of each member.
  abbrev pub forget : ℕ → List ℕ → Hall redis → Hall redis
  forget room_id [] s = s
  forget room_id (u ∷ us) s = forget room_id us (record s {
    players = redis.players.del (room_id, u) s.players;
    current_rooms = redis.current_rooms.del u s.current_rooms;
  })

  abbrev pub cleared : ℕ → List ℕ → Hall redis → Hall redis
  cleared room_id [] s = s
  cleared room_id (u ∷ us) s =
      let t = forget room_id (u ∷ us) s in
      record t {
        members = redis.members.del_set room_id t.members;
        hosts = redis.hosts.del room_id t.hosts;
        statuses = redis.statuses.del room_id t.statuses;
      }

  unfoldable pub clear_room : ℕ → Exec (Hall redis) (Unit {0})
  clear_room room_id s = (ok tt, cleared room_id (redis.members.smembers room_id s.members) s)

  -- The player who joined first is the next host; a room without players is cleared.
  unfoldable pub next_host : ℕ → Option WaitingPlayerState → Exec (Hall redis) (Unit {0})
  next_host room_id none = clear_room room_id
  next_host room_id (some next) = do
    modify (λ s. record s { hosts = redis.hosts.set room_id next.user_id s.hosts })
    hset room_id next.user_id (λ h. record h { is_ready = some (flag true) })

  unfoldable pub auto_transfer_host : ℕ → Exec (Hall redis) (Unit {0})
  auto_transfer_host room_id = do
    players ← get_players room_id
    next_host room_id (earliest players)

  -- The pipeline of `leaveRoom`.
  unfoldable pub drop_player : ℕ → ℕ → Exec (Hall redis) (Unit {0})
  drop_player room_id user_id s = (
    ok tt,
    record s {
      current_rooms = redis.current_rooms.del user_id s.current_rooms;
      members = redis.members.srem room_id user_id s.members;
      players = redis.players.del (room_id, user_id) s.players;
    },
  )

  unfoldable pub leave_room : ℕ → ℕ → Exec (Hall redis) (Unit {0})
  leave_room room_id user_id = do
    host_id ← get_host_id room_id
    drop_player room_id user_id
    if is_some_eq host_id user_id then auto_transfer_host room_id else pure tt
