-- ===== src/Social/Chat.antt =====
-- Chat messages and the rules of a whisper: src/chat/chat.service.ts and
-- src/chat/chat-validation.service.ts. The UUID and the moment of a message are arguments.
use pollycasso_back.Prelude.{
  Bool, Bool-cases, Option, Option-cases, Result, Text, cannot_whisper_self, err, false, find,
  if◌then◌else◌, inl, inr, none, none-ne-some, not, not_friends, ok, refl, show, some, sym,
  target_is_blocked, true, truthy?, user_not_found, ws_error, you_are_blocked, ℕ, ◌&&◌, ◌==◌, ◌≡◌,
}
use pollycasso_back.Exec.{pure, ◌>>=◌, ◌>>◌, some_or_raise, raise_if}
use pollycasso_back.Social.{
  FriendTable, BlockTable, Social, SocialExec, FriendStatus, Friend, between, blocks,
  find_friendship, find_block_relation, is_pending,
}
use pollycasso_back.Social.Blocks.{User, is_blocked}
use pollycasso_back.Social.Friends.{get_friendship}
use pollycasso_back.Social.Refinement.Friendships.{status_cases}
use pollycasso_back.Social.Refinement.{View, view}
use pollycasso_back.Social.Safety.{IsSafe}

pub data ChatReceiveChannel : Type 0 where
  global direct system : ChatReceiveChannel

abbrev is_system : ChatReceiveChannel → Bool
is_system ChatReceiveChannel.system = true
is_system _ = false

abbrev is_direct : ChatReceiveChannel → Bool
is_direct ChatReceiveChannel.direct = true
is_direct _ = false

pub record ChatMessage : Type 0 where
  pub id : Text
  pub created_at : ℕ
  pub message : Text
  pub channel : ChatReceiveChannel
  pub sender_id : Option Text
  pub nickname : Option Text
  pub target_id : Option Text
  pub target_nickname : Option Text

pub record MessageParams : Type 0 where
  pub sender_id : Option Text
  pub nickname : Option Text
  pub message : Text
  pub channel : ChatReceiveChannel
  pub target_id : Option Text
  pub target_nickname : Option Text

unfoldable pub create_message : Text → ℕ → MessageParams → ChatMessage
create_message uuid now p =
    let from = not (is_system p.channel) && truthy? p.sender_id && truthy? p.nickname in
    let to = is_direct p.channel && truthy? p.target_id && truthy? p.target_nickname in
    record {
      id = uuid;
      created_at = now;
      message = p.message;
      channel = p.channel;
      sender_id = if from then p.sender_id else none;
      nickname = if from then p.nickname else none;
      target_id = if to then p.target_id else none;
      target_nickname = if to then p.target_nickname else none;
    }

unfoldable pub create_global_message : Text → ℕ → Text → Text → Text → ChatMessage
create_global_message uuid now sender_id nickname message = create_message uuid now (record {
  sender_id = some sender_id;
  nickname = some nickname;
  message = message;
  channel = ChatReceiveChannel.global;
  target_id = none;
  target_nickname = none;
})

unfoldable pub create_direct_message : Text → ℕ → Text → Text → Text → Text → Text → ChatMessage
create_direct_message uuid now sender_id nickname message target_id target_nickname =
    create_message uuid now (record {
      sender_id = some sender_id;
      nickname = some nickname;
      message = message;
      channel = ChatReceiveChannel.direct;
      target_id = some target_id;
      target_nickname = some target_nickname;
    })

unfoldable pub create_system_message : Text → ℕ → Text → ChatMessage
create_system_message uuid now message = create_message uuid now (record {
  sender_id = none;
  nickname = none;
  message = message;
  channel = ChatReceiveChannel.system;
  target_id = none;
  target_nickname = none;
})

-- `!friendship || friendship.status !== ACCEPTED`
abbrev not_friends_yet : Option Friend → Bool
not_friends_yet none = true
not_friends_yet (some f) = is_pending f.status

abbrev is_friend : Option (ℕ × FriendStatus) → Bool
is_friend none = false
is_friend (some (asker, status)) = not (is_pending status)

abbrev whisper_to : Option User → Bool → (User → ChatMessage) → Result ChatMessage
whisper_to none friend message = err (ws_error 404 user_not_found)
whisper_to (some u) true message = ok (message u)
whisper_to (some u) false message = err (ws_error 403 not_friends)

-- What a whisper comes to, from the view of the two users.
abbrev pub whispered :
    (ℕ → Option User) → Text → ℕ → ℕ → Text → ℕ → Text → View → Result ChatMessage
whispered find_user uuid now sender_id nickname target_id message v =
    if sender_id == target_id
    then err (ws_error 400 cannot_whisper_self)
    else whisper_to (find_user target_id) (is_friend (v.bond sender_id target_id)) (λ u.
      create_direct_message uuid now (show sender_id) nickname message (show target_id) u.nickname)

-- Two users with a bond do not block each other.
bond_clear :
    (v : View)
    → IsSafe v
    → (a b asker : ℕ) (status : FriendStatus) → v.bond a b ≡ some (asker, status)
    → (v.blocked a b ≡ false) × (v.blocked b a ≡ false)
bond_clear v safe a b asker status h = (
  elim (Bool-cases (v.blocked a b)) [
    | inr no_block ↦ no_block
    | inl k ↦ absurd (none-ne-some (rw h at (sym ((safe a b k).0))))
  ],
  elim (Bool-cases (v.blocked b a)) [
    | inr no_block ↦ no_block
    | inl k ↦ absurd (none-ne-some (rw h at (sym ((safe b a k).1))))
  ],
)

module _ {friend_table : FriendTable} {block_table : BlockTable} where
  unfoldable pub validate_direct_message :
      (ℕ → Option User) → ℕ → ℕ → SocialExec friend_table block_table User
  validate_direct_message find_user sender_id target_id = do
    raise_if (sender_id == target_id) (ws_error 400 cannot_whisper_self)
    target_user ← some_or_raise (find_user target_id) (ws_error 404 user_not_found)
    friendship ← get_friendship sender_id target_id
    raise_if (not_friends_yet friendship) (ws_error 403 not_friends)
    i_blocked_target ← is_blocked sender_id target_id
    raise_if i_blocked_target (ws_error 403 target_is_blocked)
    target_blocked_me ← is_blocked target_id sender_id
    raise_if target_blocked_me (ws_error 403 you_are_blocked)
    pure target_user

  unfoldable pub handle_direct_message :
      (ℕ → Option User)
      → Text
      → ℕ
      → ℕ
      → Text
      → ℕ
      → Text
      → SocialExec friend_table block_table ChatMessage
  handle_direct_message find_user uuid now sender_id sender_nickname target_id message = do
    validated_target ← validate_direct_message find_user sender_id target_id
    pure (
        create_direct_message uuid now (show sender_id) sender_nickname message (show target_id)
          validated_target.nickname)

  -- Where no blocked pair is bound, a whisper is refused for being to oneself, for a target that is
  -- unknown, and for users who are not friends, in this order, and never for a block: the two checks of
  -- the blocks cannot fail. Otherwise the answer is the message with the target's own nickname. The
  -- tables are left alone.
  pub handle_direct_message_lem :
      (find_user : ℕ → Option User) (uuid : Text) (now sender_id : ℕ) (nickname : Text)
      (target_id : ℕ) (message : Text) (s : Social friend_table block_table)
      → IsSafe (view s)
      → handle_direct_message find_user uuid now sender_id nickname target_id message s
        ≡ (whispered find_user uuid now sender_id nickname target_id message (view s), s)
  unfolding handle_direct_message validate_direct_message get_friendship find_friendship is_blocked
      find_block_relation pure ◌>>=◌ some_or_raise raise_if
  handle_direct_message_lem find_user uuid now sender_id nickname target_id message s safe =
      let found = friend_table.find_first_rows (between sender_id target_id) s.friends in
      let blocked = block_table.find_first_rows (blocks sender_id target_id) s.blocked in
      let blocking = block_table.find_first_rows (blocks target_id sender_id) s.blocked in
      elim (Bool-cases (sender_id == target_id)) [
        | inl q ↦ rw (q) refl
        | inr q ↦ elim (Option-cases (find_user target_id)) [
          | inl u ↦ rw (q, u) refl
          | inr (target, u) ↦
              elim (Option-cases
                (find (between sender_id target_id) (friend_table.rows s.friends))) [
                  | inl e ↦ rw (q, u, found, e) refl
                  | inr (f, e) ↦ elim (status_cases f.status) [
                    | inl p ↦ rw (q, u, found, e, p) refl
                    | inr p ↦
                        let clear =
                          bond_clear (view s) safe sender_id target_id f.requester_id
                            FriendStatus.accepted (rw (e, p) refl) in
                        rw (q, u, found, e, p, blocked, clear.0, blocking, clear.1) refl
                  ]
                ]
        ]
      ]
