-- ===== src/Social/Friends.antt =====
-- The friend service: src/friend/friend.service.ts, the methods that change friendships and the
-- checks they make.
use pollycasso_back.Prelude.{
  Bool, Code, Option, already_friend, already_sent_request, bad_request, blocked_by_target,
  blocking_target, cannot_cancel_received_request, cannot_request_self, cannot_respond_own_request,
  conflict, false, forbidden, none, not, not_a_friend, not_found, request_already_processed,
  request_not_found, some, true, user_not_found, ℕ, ◌==◌,
}
use pollycasso_back.Exec.{◌>>=◌, ◌>>◌, pure, raise_if, some_or_raise}
use pollycasso_back.Social.Blocks.{User, is_blocked}
use pollycasso_back.Social.{
  FriendTable, BlockTable, SocialExec, Friend, find_friendship, create_friendship,
  update_friendship_status, delete_friendship_by_id, is_pending, FriendStatus,
}

module _ {friend_table : FriendTable} {block_table : BlockTable} where
  unfoldable pub get_friendship : ℕ → ℕ → SocialExec friend_table block_table (Option Friend)
  get_friendship user_id target_user_id = find_friendship user_id target_user_id

  unfoldable pub validate_self_request : ℕ → ℕ → SocialExec friend_table block_table (Unit {0})
  validate_self_request user_id target_user_id =
      raise_if (user_id == target_user_id) (bad_request cannot_request_self)

  unfoldable pub validate_block_status : ℕ → ℕ → SocialExec friend_table block_table (Unit {0})
  validate_block_status user_id target_user_id = do
    is_blocked_by_target ← is_blocked target_user_id user_id
    is_blocking_target ← is_blocked user_id target_user_id
    raise_if is_blocked_by_target (forbidden blocked_by_target)
    raise_if is_blocking_target (forbidden blocking_target)

  -- The two tests of the status.
  unfoldable pub no_friendship : Option Friend → SocialExec friend_table block_table (Unit {0})
  no_friendship none = pure tt
  no_friendship (some existing) = do
    raise_if (is_pending existing.status) (conflict already_sent_request)
    raise_if (not (is_pending existing.status)) (conflict already_friend)

  unfoldable pub validate_existing_friendship :
      ℕ → ℕ → SocialExec friend_table block_table (Unit {0})
  validate_existing_friendship user_id target_user_id = do
    existing ← find_friendship user_id target_user_id
    no_friendship existing

  unfoldable pub get_friendship_or_throw : ℕ → ℕ → SocialExec friend_table block_table Friend
  get_friendship_or_throw user_id target_user_id = do
    friendship ← find_friendship user_id target_user_id
    some_or_raise friendship (not_found request_not_found)

  unfoldable pub validate_requester : ℕ → ℕ → Code → SocialExec friend_table block_table (Unit {0})
  validate_requester actual_requester_id expected_requester_id error_code =
      raise_if (not (actual_requester_id == expected_requester_id)) (bad_request error_code)

  unfoldable pub send_request :
      (ℕ → Option User) → ℕ → ℕ → ℕ → SocialExec friend_table block_table Friend
  send_request find_user now user_id target_user_id = do
    validate_self_request user_id target_user_id
    _ ← some_or_raise (find_user target_user_id) (not_found user_not_found)
    validate_block_status user_id target_user_id
    validate_existing_friendship user_id target_user_id
    create_friendship now user_id target_user_id

  unfoldable pub cancel_request : ℕ → ℕ → SocialExec friend_table block_table (Unit {0})
  cancel_request user_id target_user_id = do
    request ← get_friendship_or_throw user_id target_user_id
    raise_if (not (is_pending request.status)) (conflict request_already_processed)
    validate_requester request.requester_id user_id cannot_cancel_received_request
    delete_friendship_by_id request.id

  -- The row is deleted, or it is accepted and answered.
  unfoldable pub settle : Bool → Friend → SocialExec friend_table block_table (Option Friend)
  settle false request = do delete_friendship_by_id request.id; pure none
  settle true request = do
    updated_row ← update_friendship_status request.id FriendStatus.accepted
    pure (some updated_row)

  unfoldable pub respond_friend_request :
      ℕ → ℕ → Bool → SocialExec friend_table block_table (Option Friend)
  respond_friend_request user_id requester_id accept = do
    request ← get_friendship_or_throw requester_id user_id
    raise_if (not (is_pending request.status)) (conflict request_already_processed)
    validate_requester request.requester_id requester_id cannot_respond_own_request
    settle accept request

  unfoldable pub remove_friend : ℕ → ℕ → SocialExec friend_table block_table (Unit {0})
  remove_friend user_id friend_user_id = do
    friendship ← get_friendship_or_throw user_id friend_user_id
    raise_if (is_pending friendship.status) (conflict not_a_friend)
    delete_friendship_by_id friendship.id
