-- ===== src/Waiting/Hosts/Departing.antt =====
-- Kicking, leaving and disconnecting in src/waiting/waiting.service.ts.
use pollycasso_back.Prelude.{
  ==_ne, ==_refl, Bool, Bool-cases, List, Option, Option-cases, Result-cases, [], arith, false, inl,
  inr, is_some_eq, length, none, not, not_found, ok, player_not_found, refl, some, sym, true,
  true-ne-false, ℕ, ◌==◌, ◌||◌, ◌∙◌, ◌≡◌, ◌≢◌,
}
use native.Mathlib.Decide.{ℕ_discrete}
use mathlib.Core.Path.{subst}
use pollycasso_back.Exec.{◌>>=◌, ◌>>◌, lift, pure, modify, some_or_raise}
use pollycasso_back.Room.{is_waiting, Room}
use pollycasso_back.Waiting.{WaitingPlayerState, validate_kick}
use pollycasso_back.Waiting.Store
use pollycasso_back.Waiting.Store.{WaitingRedis, Hall, players_in, get_players, clear_room, cleared}
use pollycasso_back.Waiting.Service.{
  find_room_or_throw, kicked, Announced, get_player_responses, nickname_in,
}
use pollycasso_back.Waiting.Changes.{kick_player}
use pollycasso_back.Waiting.Leaving.{
  part, departure, depart, depart_from, handle_disconnect, remove_room, leave_room, handle_leave,
}
use pollycasso_back.Waiting.Hosts.{
  Same-RoomOk, host, exists, loads, RoomOk, IsWell, Preserves, pure-Preserves, >>=-Preserves,
  continue-Preserves, if-Preserves, load_waiting_entity-cases, find_room_or_throw-cases,
  get_player_responses-Preserves,
}
use pollycasso_back.Waiting.Hosts.Dropping.{clear_room-Preserves, cleared-Same, cleared_rooms}
use pollycasso_back.Waiting.Hosts.Leaving.{leave_room_lem, leave_room_ok, leave_other_lem}

-- A host may kick another player only, so that a host remains.
kicked_other :
    (h : Option ℕ) (room : Room) (players : List WaitingPlayerState) (requester target : ℕ)
    → validate_kick (record { room = room; players = players; host_id = h }) requester target
      ≡ ok tt
    → is_some_eq h target ≡ false
unfolding validate_kick
kicked_other none room players requester target e = refl
kicked_other (some h) room players requester target e = ground (arith, e)

module _ {redis : WaitingRedis} where
  exists_cong :
      (s t : Hall redis) (r : ℕ) → t.rooms ≡ s.rooms → exists t r ≡ true → exists s r ≡ true
  exists_cong s t r same there =
      subst (λ rooms. loads r (redis.rooms.get r rooms) ≡ true) same there

  leave_other-IsWell :
      (k u : ℕ) (s : Hall redis)
      → is_some_eq (host s k) u ≡ false
      → IsWell s
      → IsWell (Store.leave_room k u s).1
  leave_other-IsWell k u s e well r there =
      let (kept, rooms) = leave_other_lem k u s e in
      kept r (well r (exists_cong s (Store.leave_room k u s).1 r rooms there))

  kick_tail :
      (k target : ℕ) (s : Hall redis)
      → is_some_eq (host s k) target ≡ false
      → IsWell s
      → IsWell
          ((do
            players ← get_players k
            nickname ← some_or_raise (nickname_in target players) (not_found player_not_found)
            Store.leave_room k target
            responses ← get_player_responses k
            pure {A = List WaitingPlayerState × Announced} (responses, kicked nickname))
            s).1
  unfolding ◌>>=◌ get_players some_or_raise
  kick_tail k target s e well = elim (Option-cases (nickname_in target (players_in k s))) [
    | inl f ↦ rw f well
    | inr (name, f) ↦ rw f (
        continue-Preserves _ (Store.leave_room k target s)
          (λ _.
            >>=-Preserves (get_player_responses-Preserves k)
              λ responses. pure-Preserves (responses, kicked name))
          (leave_other-IsWell k target s e well))
  ]

  pub kick_player-Preserves :
      (k requester target : ℕ) → Preserves (kick_player {redis = redis} k requester target)
  unfolding kick_player ◌>>=◌ lift
  kick_player-Preserves k requester target = record {
    keeps = λ s well. elim (load_waiting_entity-cases k s) [
      | inl (thrown, e) ↦ rw e well
      | inr (room, there, e) ↦
          elim (Result-cases (
            validate_kick (record { room = room; players = players_in k s; host_id = host s k })
              requester target)) [
                | inr (thrown, f) ↦ rw (e, f) well
                | inl (done, f) ↦
                    rw (e, f)
                      (kick_tail k target s
                        (kicked_other (host s k) room (players_in k s) requester target f) well)
              ]
    ];
  }

  -- Well but for one room.
  abbrev AlmostWell : ℕ → Hall redis → Type 0
  AlmostWell k t = (r : ℕ) → k ≢ r → exists t r ≡ true → RoomOk t r

  cleared-AlmostWell : (k : ℕ) (t : Hall redis) → AlmostWell k t → AlmostWell k (clear_room k t).1
  unfolding clear_room
  cleared-AlmostWell k t almost r n there =
      let us = redis.members.smembers k t.members in
      Same-RoomOk t (cleared k us t) r (cleared-Same k us t r n)
        (almost r n (exists_cong t (cleared k us t) r (cleared_rooms k us t) there))

  remove_room-IsWell : (k : ℕ) (t : Hall redis) → AlmostWell k t → IsWell (remove_room k t).1
  unfolding remove_room ◌>>=◌ modify
  remove_room-IsWell k t almost = elim (find_room_or_throw-cases k t) [
    | inl (thrown, missing, e) ↦ rw e λ r there. elim (ℕ_discrete k r) [
      | yes p ↦ absurd (true-ne-false (sym there ∙ rw p at missing))
      | no n ↦ almost r n there
    ]
    | inr (room, _, e) ↦ rw e λ r there. elim (ℕ_discrete k r) [
      | yes p ↦
          absurd
            (true-ne-false (sym there ∙ rw (redis.rooms.get_del k r t.rooms, p, ==_refl r) refl))
      | no n ↦ almost r n (rw (redis.rooms.get_del k r t.rooms, ==_ne k r n) at there)
    ]
  ]

  left_room-AlmostWell :
      (k u : ℕ) (s : Hall redis)
      → IsWell s
      → exists s k ≡ true
      → AlmostWell k (Store.leave_room k u s).1
  left_room-AlmostWell k u s well there r n there' =
      let (others, _, rooms) = leave_room_lem k u s (well k there) in
      others r n (well r (exists_cong s (Store.leave_room k u s).1 r rooms there'))

  -- A room that is left with players in it is well.
  left_room-IsWell :
      (k u : ℕ) (s : Hall redis)
      → IsWell s
      → exists s k ≡ true
      → (length (players_in k (Store.leave_room k u s).1) == 0) ≡ false
      → IsWell (Store.leave_room k u s).1
  left_room-IsWell k u s well there some_left r there' = elim (ℕ_discrete k r) [
    | no n ↦ left_room-AlmostWell k u s well there r n there'
    | yes p ↦
        let t = (Store.leave_room k u s).1 in
        let (_, here, _) = leave_room_lem k u s (well k there) in
        subst (λ q. RoomOk t q) p
          (elim here [
            | inl fine ↦ fine
            | inr empty ↦ absurd (true-ne-false (rw empty at some_left))
          ])
  ]

  leave_room-IsWell :
      (k u : ℕ) (s : Hall redis) → IsWell s → exists s k ≡ true → IsWell (leave_room k u s).1
  unfolding leave_room ◌>>=◌ get_players pure clear_room
  leave_room-IsWell k u s well there =
      let t = (Store.leave_room k u s).1 in
      elim (Bool-cases (length (players_in k t) == 0)) [
        | inl e ↦
            rw (leave_room_ok k u s, e)
              (remove_room-IsWell k (clear_room k t).1
                (cleared-AlmostWell k t (left_room-AlmostWell k u s well there)))
        | inr e ↦ rw (leave_room_ok k u s, e) (left_room-IsWell k u s well there e)
      ]

  pub handle_leave-Preserves : (k u : ℕ) → Preserves (handle_leave {redis = redis} k u)
  unfolding handle_leave ◌>>=◌ get_player_responses get_players
  handle_leave-Preserves k u = record {
    keeps = λ s well. elim (find_room_or_throw-cases k s) [
      | inl (thrown, _, e) ↦ rw e well
      | inr (room, there, e) ↦
          rw (e, e)
            (continue-Preserves _ (leave_room k u s)
              (λ _.
                >>=-Preserves
                  (if-Preserves (length (players_in k s) == 1) (pure-Preserves [])
                    (get_player_responses-Preserves k))
                  λ responses. pure-Preserves _)
              (leave_room-IsWell k u s well there))
    ];
  }

  part-IsWell :
      (k u : ℕ) (waits last : Bool) (s : Hall redis)
      → IsWell s
      → exists s k ≡ true
      → IsWell (part k u waits last s).1
  unfolding part pure
  part-IsWell k u true last s well there = leave_room-IsWell k u s well there
  part-IsWell k u false true s well there = (clear_room-Preserves k).keeps s well
  part-IsWell k u false false s well there = well

  depart-IsWell :
      (k u : ℕ) (room : Room) (s : Hall redis)
      → find_room_or_throw k s ≡ (ok room, s)
      → IsWell s
      → exists s k ≡ true
      → IsWell (depart k u room s).1
  unfolding depart ◌>>=◌ get_player_responses get_players
  depart-IsWell k u room s e well there = rw e (
      continue-Preserves _ (part k u (is_waiting room.status) (length (players_in k s) == 1) s)
        (λ _.
          >>=-Preserves
            (if-Preserves (length (players_in k s) == 1 || not (is_waiting room.status))
              (pure-Preserves []) (get_player_responses-Preserves k))
            λ responses. pure-Preserves (departure (players_in k s) u room responses))
        (part-IsWell k u (is_waiting room.status) (length (players_in k s) == 1) s well there))

  pub handle_disconnect-Preserves : (k u : ℕ) → Preserves (handle_disconnect {redis = redis} k u)
  unfolding handle_disconnect depart_from pure
  handle_disconnect-Preserves k u = record {
    keeps = λ s well. elim (find_room_or_throw-cases k s) [
      | inl (thrown, _, e) ↦ rw e well
      | inr (room, there, e) ↦ rw e (depart-IsWell k u room s e well there)
    ];
  }
