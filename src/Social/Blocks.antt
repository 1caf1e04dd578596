-- ===== src/Social/Blocks.antt =====
-- The block service: src/block/block.service.ts. A block ends the friendship of the two users first.
use pollycasso_back.Prelude.{
  Bool, Option, Text, already_blocked, bad_request, block_not_found, cannot_self_block, is_some,
  not_found, user_not_found, ℕ, ◌==◌,
}
use pollycasso_back.Exec.{◌>>=◌, ◌>>◌, pure, raise_if, some_or_raise}
use pollycasso_back.Social.{
  FriendTable, BlockTable, SocialExec, Block, delete_friendship_if_exists, find_block_relation,
  create_block_relation, delete_block_relation,
}

pub record User : Type 0 where
  pub id : ℕ
  pub nickname : Text

module _ {friend_table : FriendTable} {block_table : BlockTable} where
  unfoldable pub is_blocked : ℕ → ℕ → SocialExec friend_table block_table Bool
  is_blocked user_id target_user_id = do
    relation ← find_block_relation user_id target_user_id
    pure (is_some relation)

  -- `removeFriendshipIfExists` of the friend service
  unfoldable pub remove_friendship_if_exists :
      ℕ → ℕ → SocialExec friend_table block_table (Unit {0})
  remove_friendship_if_exists user_id target_user_id =
      delete_friendship_if_exists user_id target_user_id

  unfoldable pub block : (ℕ → Option User) → ℕ → ℕ → ℕ → SocialExec friend_table block_table Block
  block find_user now user_id target_user_id = do
    _ ← some_or_raise (find_user target_user_id) (not_found user_not_found)
    raise_if (user_id == target_user_id) (bad_request cannot_self_block)
    existing ← find_block_relation user_id target_user_id
    raise_if (is_some existing) (bad_request already_blocked)
    remove_friendship_if_exists user_id target_user_id
    create_block_relation now user_id target_user_id

  unfoldable pub unblock :
      (ℕ → Option User) → ℕ → ℕ → SocialExec friend_table block_table (Unit {0})
  unblock find_user user_id target_user_id = do
    _ ← some_or_raise (find_user target_user_id) (not_found user_not_found)
    existing ← find_block_relation user_id target_user_id
    _ ← some_or_raise existing (not_found block_not_found)
    delete_block_relation user_id target_user_id
