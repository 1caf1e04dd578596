-- ===== src/Social.antt =====
-- Friendships and blocks between users: the rows of the two tables, and the repositories
-- src/friend/friend.repository.ts and src/block/block.repository.ts. The state of the services is
-- that of the two tables; the user table, which the services only read, is an argument.
pub mod Rows
pub mod Refinement
pub mod Safety
pub mod Chat
pub mod Friends
use pollycasso_back.Prelude.{
  Bool, Option, err, false, none, ok, plain_error, record_missing, some, true, ℕ, ◌&&◌, ◌==◌, ◌||◌,
}
use pollycasso_back.Exec.{Exec}
use pollycasso_back.Database.{Table}
pub mod Blocks

pub data FriendStatus : Type 0 where
  pending accepted : FriendStatus

pub record Friend : Type 0 where
  pub id : ℕ
  pub requester_id : ℕ
  pub receiver_id : ℕ
  pub status : FriendStatus
  pub created_at : ℕ

pub record Block : Type 0 where
  pub id : ℕ
  pub user_id : ℕ
  pub target_user_id : ℕ
  pub created_at : ℕ

abbrev pub is_pending : FriendStatus → Bool
is_pending FriendStatus.pending = true
is_pending FriendStatus.accepted = false

-- `@@unique([requesterId, receiverId])` and `@@unique([blockerId, blockedId])`
abbrev pub same_request : Friend → Friend → Bool
same_request f g = f.requester_id == g.requester_id && f.receiver_id == g.receiver_id

abbrev pub same_block : Block → Block → Bool
same_block b c = b.user_id == c.user_id && b.target_user_id == c.target_user_id

abbrev pub FriendTable : Type 1
FriendTable = Table Friend (λ f. f.id) same_request

abbrev pub BlockTable : Type 1
BlockTable = Table Block (λ b. b.id) same_block

-- The same two users in either order, or in the same order.
abbrev pub same_pair : ℕ → ℕ → ℕ → ℕ → Bool
same_pair x y a b = x == a && y == b || x == b && y == a

abbrev pub same_order : ℕ → ℕ → ℕ → ℕ → Bool
same_order x y a b = x == a && y == b

-- The `where` clauses: a friendship in either direction, and one block.
abbrev pub between : ℕ → ℕ → Friend → Bool
between a b f = same_pair f.requester_id f.receiver_id a b

abbrev pub blocks : ℕ → ℕ → Block → Bool
blocks a b k = same_order k.user_id k.target_user_id a b

abbrev pub friend_of : ℕ → ℕ → ℕ → ℕ → Friend
friend_of now a b id = record {
  id = id;
  requester_id = a;
  receiver_id = b;
  status = FriendStatus.pending;
  created_at = now;
}

abbrev pub block_of : ℕ → ℕ → ℕ → ℕ → Block
block_of now a b id = record { id = id; user_id = a; target_user_id = b; created_at = now }

abbrev pub with_status : FriendStatus → Friend → Friend
with_status status f = record f { status = status }

pub record Social (friend_table : FriendTable) (block_table : BlockTable) : Type 0 where
  pub friends : friend_table.State
  pub blocked : block_table.State

abbrev pub SocialExec : FriendTable → BlockTable → Type 0 → Type 0
SocialExec friend_table block_table A = Exec (Social friend_table block_table) A

module _ {friend_table : FriendTable} {block_table : BlockTable} where
  unfoldable pub find_friendship : ℕ → ℕ → SocialExec friend_table block_table (Option Friend)
  find_friendship a b s = (ok (friend_table.find_first (between a b) s.friends), s)

  unfoldable pub create_friendship : ℕ → ℕ → ℕ → SocialExec friend_table block_table Friend
  create_friendship now a b s =
      let (r, t) = friend_table.create (friend_of now a b) s.friends in
      (r, record s { friends = t })

  unfoldable pub update_friendship_status :
      ℕ → FriendStatus → SocialExec friend_table block_table Friend
  update_friendship_status id status s =
      let (r, t) = friend_table.update id (with_status status) s.friends in
      (r, record s { friends = t })

  unfoldable pub delete_friendship_by_id : ℕ → SocialExec friend_table block_table (Unit {0})
  delete_friendship_by_id id s =
      let (r, t) = friend_table.delete id s.friends in (r, record s { friends = t })

  unfoldable pub delete_friendship_if_exists :
      ℕ → ℕ → SocialExec friend_table block_table (Unit {0})
  delete_friendship_if_exists a b s =
      (ok tt, record s { friends = friend_table.delete_many (between a b) s.friends })

  unfoldable pub find_block_relation : ℕ → ℕ → SocialExec friend_table block_table (Option Block)
  find_block_relation a b s = (ok (block_table.find_first (blocks a b) s.blocked), s)

  unfoldable pub create_block_relation : ℕ → ℕ → ℕ → SocialExec friend_table block_table Block
  create_block_relation now a b s =
      let (r, t) = block_table.create (block_of now a b) s.blocked in (r, record s { blocked = t })

  unfoldable pub delete_block_row : Option Block → SocialExec friend_table block_table (Unit {0})
  delete_block_row none s = (err (plain_error record_missing), s)
  delete_block_row (some k) s =
      let (r, t) = block_table.delete k.id s.blocked in (r, record s { blocked = t })

  -- `delete` names the block by its two users, which is a unique key.
  unfoldable pub delete_block_relation : ℕ → ℕ → SocialExec friend_table block_table (Unit {0})
  unfolding delete_block_row
  delete_block_relation a b s = delete_block_row (block_table.find_first (blocks a b) s.blocked) s
