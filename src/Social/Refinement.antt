-- ===== src/Social/Refinement.antt =====
-- Friend requests and blocks as two users see them: src/friend/friend.service.ts and
-- src/block/block.service.ts against an abstract view that forgets rows, ids and dates.
pub mod Changes
pub mod Friendships
pub mod Blocking
use pollycasso_back.Prelude.{
  Bool, Code, List, Option, Result, already_blocked, already_friend, already_sent_request, arith,
  bad_request, block_not_found, blocked_by_target, blocking_target, cannot_cancel_received_request,
  cannot_request_self, cannot_respond_own_request, cannot_self_block, conflict, err, false, find,
  forbidden, if◌then◌else◌, is_some, none, not, not_a_friend, not_found, ok,
  request_already_processed, request_not_found, some, throw_if, true, user_not_found, value, ℕ,
  ◌==◌, ◌>>=◌, ◌>>◌, ◌≡◌,
}
use pollycasso_back.Exec.{discard}
use pollycasso_back.Social.{
  FriendTable, BlockTable, SocialExec, Social, FriendStatus, Friend, same_pair, same_order, between,
  blocks,
}
use pollycasso_back.Social.{Block}
use pollycasso_back.Social.Rows.{Distinct}
use pollycasso_back.Social.Blocks
use pollycasso_back.Social.Blocks.{User}
use pollycasso_back.Social.Friends.{
  send_request, cancel_request, respond_friend_request, remove_friend,
}

-- Who asked and how far it went, for two users in either order, and who blocks whom.
pub record View : Type 0 where
  pub bond : ℕ → ℕ → Option (ℕ × FriendStatus)
  pub blocked : ℕ → ℕ → Bool

pub data Request : Type 0 where
  send cancel accept decline remove block unblock : Request

abbrev pub bond_of : Option Friend → Option (ℕ × FriendStatus)
bond_of none = none
bond_of (some f) = some (f.requester_id, f.status)

abbrev pub set_bond : ℕ → ℕ → Option (ℕ × FriendStatus) → View → View
set_bond a b bond v = record v { bond = λ c d. if same_pair a b c d then bond else v.bond c d }

abbrev pub set_blocked : ℕ → ℕ → Bool → View → View
set_blocked a b value v = record v {
  blocked = λ c d. if same_order a b c d then value else v.blocked c d;
}

-- No bond yet, or which one there is.
abbrev pub unbound : Option (ℕ × FriendStatus) → Result (Unit {0})
unbound none = ok tt
unbound (some (asker, FriendStatus.pending)) = err (conflict already_sent_request)
unbound (some (asker, FriendStatus.accepted)) = err (conflict already_friend)

-- A pending bond that the given user asked for.
abbrev pub asked_by : ℕ → Code → Option (ℕ × FriendStatus) → Result (Unit {0})
asked_by user code none = err (not_found request_not_found)
asked_by user code (some (asker, FriendStatus.accepted)) = err (conflict request_already_processed)
asked_by user code (some (asker, FriendStatus.pending)) =
    throw_if (not (asker == user)) (bad_request code)

abbrev pub befriended : Option (ℕ × FriendStatus) → Result (Unit {0})
befriended none = err (not_found request_not_found)
befriended (some (asker, FriendStatus.pending)) = err (conflict not_a_friend)
befriended (some (asker, FriendStatus.accepted)) = ok tt

-- Whether the user may make the request about the other one, and the exception where not.
abbrev pub permission : (ℕ → Option User) → Request → ℕ → ℕ → View → Result (Unit {0})
permission find_user Request.send user other v = do
  throw_if (user == other) (bad_request cannot_request_self)
  throw_if (not (is_some (find_user other))) (not_found user_not_found)
  throw_if (v.blocked other user) (forbidden blocked_by_target)
  throw_if (v.blocked user other) (forbidden blocking_target)
  unbound (v.bond user other)
permission find_user Request.cancel user other v =
    asked_by user cannot_cancel_received_request (v.bond user other)
permission find_user Request.accept user other v =
    asked_by other cannot_respond_own_request (v.bond other user)
permission find_user Request.decline user other v =
    asked_by other cannot_respond_own_request (v.bond other user)
permission find_user Request.remove user other v = befriended (v.bond user other)
permission find_user Request.block user other v = do
  throw_if (not (is_some (find_user other))) (not_found user_not_found)
  throw_if (user == other) (bad_request cannot_self_block)
  throw_if (v.blocked user other) (bad_request already_blocked)
permission find_user Request.unblock user other v = do
  throw_if (not (is_some (find_user other))) (not_found user_not_found)
  throw_if (not (v.blocked user other)) (not_found block_not_found)

abbrev pub effect : Request → ℕ → ℕ → View → View
effect Request.send user other v = set_bond user other (some (user, FriendStatus.pending)) v
effect Request.cancel user other v = set_bond user other none v
effect Request.accept user other v = set_bond other user (some (other, FriendStatus.accepted)) v
effect Request.decline user other v = set_bond other user none v
effect Request.remove user other v = set_bond user other none v
effect Request.block user other v = set_blocked user other true (set_bond user other none v)
effect Request.unblock user other v = set_blocked user other false v

-- A refused request leaves the view alone.
abbrev pub outcome : Result (Unit {0}) → View → View → View
outcome (ok _) changed v = changed
outcome (err _) changed v = v

pub pair_left : (x y a b c d : ℕ) → same_pair x y a b ≡ true → same_pair x y c d ≡ same_pair a b c d
pair_left x y a b c d h = ground arith

pub pair_symm : (x y a b : ℕ) → same_pair x y a b ≡ same_pair a b x y
pair_symm x y a b = ground arith

pub order_left :
    (x y a b c d : ℕ) → same_order x y a b ≡ true → same_order x y c d ≡ same_order a b c d
order_left x y a b c d h = ground arith

pub order_symm : (x y a b : ℕ) → same_order x y a b ≡ same_order a b x y
order_symm x y a b = ground arith

abbrev pub FriendsDistinct : List Friend → Type 0
FriendsDistinct rows =
    Distinct (λ f. f.id) (λ f. f.requester_id) (λ f. f.receiver_id) same_pair pair_left pair_symm
      rows

abbrev pub BlocksDistinct : List Block → Type 0
BlocksDistinct rows =
    Distinct (λ k. k.id) (λ k. k.user_id) (λ k. k.target_user_id) same_order order_left order_symm
      rows

module _ {friend_table : FriendTable} {block_table : BlockTable} where
  -- The service's method for a request, its value dropped.
  unfoldable pub perform :
      (ℕ → Option User) → ℕ → Request → ℕ → ℕ → SocialExec friend_table block_table (Unit {0})
  perform find_user now Request.send user other = discard (send_request find_user now user other)
  perform find_user now Request.cancel user other = cancel_request user other
  perform find_user now Request.accept user other = discard (respond_friend_request user other true)
  perform find_user now Request.decline user other =
      discard (respond_friend_request user other false)
  perform find_user now Request.remove user other = remove_friend user other
  perform find_user now Request.block user other = discard (Blocks.block find_user now user other)
  perform find_user now Request.unblock user other = Blocks.unblock find_user user other

  abbrev pub view : Social friend_table block_table → View
  view s = record {
    bond = λ a b. bond_of (find (between a b) (friend_table.rows s.friends));
    blocked = λ a b. is_some (find (blocks a b) (block_table.rows s.blocked));
  }

  -- The same view, at every two users.
  abbrev pub Agrees : Social friend_table block_table → View → Type 0
  Agrees s v =
      ((a b : ℕ) → (view s).bond a b ≡ v.bond a b)
      × ((a b : ℕ) → (view s).blocked a b ≡ v.blocked a b)

  -- No two friendships have the same id or the same two users; no two blocks the same id or users.
  abbrev pub IsSound : Social friend_table block_table → Type 0
  IsSound s =
      FriendsDistinct (friend_table.rows s.friends) × BlocksDistinct (block_table.rows s.blocked)
