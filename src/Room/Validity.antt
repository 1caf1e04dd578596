-- ===== src/Room/Validity.antt =====
-- The validity of a room's props and the moves of its status
-- (src/room/entities/room.entity.ts).
use pollycasso_back.Prelude.{
  ℕ, ◌≤◌, ◌≡◌, refl, ◌⊎◌, ◌↔◌, Bool, true, false, Option, none, some, ok, err, conflict, arith,
  Text, if◌then◌else◌, room_not_waiting, truthy?, or_else, >>=-eq-ok, ok-injective, ap,
}
use pollycasso_back.Room.{
  RoomMode, solo, team, RoomProps, CreateRoomProps, UpdateRoomProps, Room, waiting, validate,
  new_room, create, load, assign, update, start_game, finish_game,
}

-- The player limit fits the mode.
abbrev pub FitsMode : RoomMode → ℕ → Type 0
FitsMode solo n = (3 ≤ n) × (n ≤ 6)
FitsMode team n = (n ≡ 4) ⊎ (n ≡ 6)

-- A private room has a password, a public one has none.
abbrev pub HasPassword : Bool → Option Text → Type 0
HasPassword true h = truthy? h ≡ true
HasPassword false h = h ≡ none

pub record IsValid (p : RoomProps) : Type 0 where
  pub fits : FitsMode p.mode p.max_players
  pub password : HasPassword p.is_private p.hashed_password

-- What `validate` lets through, and the props that it leaves.
abbrev pub IsAccepted : RoomProps → Type 0
IsAccepted p =
    FitsMode p.mode p.max_players × ((p.is_private ≡ false) ⊎ (truthy? p.hashed_password ≡ true))

abbrev pub without_stale_password : RoomProps → RoomProps
without_stale_password p = record p {
  hashed_password = if p.is_private then p.hashed_password else none;
}

-- `validate` throws unless the limit fits the mode and a private room has a password, and else
-- returns the props with the password of a public room removed.
pub validate_iff :
    (p q : RoomProps) → (validate p ≡ ok q) ↔ (IsAccepted p × (q ≡ without_stale_password p))
unfolding validate
validate_iff p q = ground arith

validate-IsValid : (p : RoomProps) {q : RoomProps} → validate p ≡ ok q → IsValid q
validate-IsValid p {q} h =
    let (accepted, same) = (validate_iff p q).0 h in
    rw same (record { fits = accepted.0; password = go p.is_private p.hashed_password accepted.1 })
  where
    go :
        (b : Bool) (o : Option Text)
        → ((b ≡ false) ⊎ (truthy? o ≡ true))
        → HasPassword b (if b then o else none)
    go true o h = ground arith
    go false o h = refl

new_room-IsValid :
    (id : Option ℕ) (p : RoomProps) (r : Room)
    → new_room id p ≡ ok r
    → IsValid r.props × (r.id ≡ id) × (r.status ≡ p.status)
unfolding new_room
new_room-IsValid id p r h =
    let (q, valid, e) = >>=-eq-ok (validate p) _ h in
    let same = ((validate_iff p q).0 valid).1 in
    rw (← ok-injective e) (validate-IsValid p valid, refl, ap RoomProps.status same)

-- Every room that `create` or `load` returns is valid; a new one waits and has no id yet, and a
-- loaded one has the id and the status that it was stored with.
pub create-load-IsValid :
    (c : CreateRoomProps) (id : ℕ) (p : RoomProps) (r s : Room)
    → create c ≡ ok r
    → load id p ≡ ok s
    → (IsValid r.props × (r.id ≡ none) × (r.status ≡ waiting))
      × (IsValid s.props × (s.id ≡ some id) × (s.status ≡ p.status))
unfolding create load
create-load-IsValid c id p r s h k = (new_room-IsValid none _ r h, new_room-IsValid (some id) p s k)

-- A successful `update` leaves a valid room, keeps its id and its status, and gives each of the
-- name, the mode, the limit and the privacy its new value, or the old one where none is given.
pub update-IsValid :
    (u : UpdateRoomProps) (r s : Room)
    → update u r ≡ ok s
    → IsValid s.props
      × (s.id ≡ r.id)
      × (s.status ≡ r.status)
      × (s.name ≡ or_else u.name r.name)
      × (s.mode ≡ or_else u.mode r.mode)
      × (s.max_players ≡ or_else u.max_players r.max_players)
      × (s.is_private ≡ or_else u.is_private r.is_private)
unfolding update
update-IsValid u r s h =
    let (q, valid, e) = >>=-eq-ok (validate (assign u r.props)) _ h in
    let same = ((validate_iff (assign u r.props) q).0 valid).1 in
    rw (← ok-injective e, same)
      (rw (← same) (validate-IsValid _ valid), refl, refl, refl, refl, refl, refl)

-- A game starts only in a waiting room. A second start is then refused, and finishing the game
-- restores the room as it was.
pub finish_game-start_game :
    (r s : Room)
    → start_game r ≡ ok s
    → (r.status ≡ waiting)
      × (start_game s ≡ err (conflict room_not_waiting))
      × (finish_game s ≡ ok r)
unfolding start_game finish_game
finish_game-start_game r s h = ground arith
