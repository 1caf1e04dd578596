-- ===== src/Tests/Social.antt =====
-- Three users: the first has asked the second for a friendship, and the third blocks the first.
use pollycasso_back.Prelude.{List, Option, [], arith, if◌then◌else◌, leb, none, some, ℕ, ◌∷◌, ◌≡◌}
use pollycasso_back.Database.{list_table}
use pollycasso_back.Social.{
  FriendTable, BlockTable, FriendStatus, Friend, Block, Social, same_request, same_block,
}
use pollycasso_back.Social.Blocks.{User}
use pollycasso_back.Social.Chat.{handle_direct_message, whispered, handle_direct_message_lem}
use pollycasso_back.Social.Refinement.{Request, IsSound, view}
use pollycasso_back.Social.Refinement.Blocking.{perform_lem}
use pollycasso_back.Social.Refinement.Friendships.{Refines}
use pollycasso_back.Social.Safety.{IsSafe, run, run-IsSafe}
use pollycasso_back.Tests.Fixtures.{moon, secret}

abbrev friend_list : FriendTable
friend_list = list_table (λ f. f.id) same_request

abbrev block_list : BlockTable
block_list = list_table (λ k. k.id) same_block

abbrev asked : Friend
asked = record {
  id = 7;
  requester_id = 1;
  receiver_id = 2;
  status = FriendStatus.pending;
  created_at = 100;
}

abbrev befriended_row : Friend
befriended_row = record asked { status = FriendStatus.accepted }

abbrev blocked_row : Block
blocked_row = record { id = 4; user_id = 3; target_user_id = 1; created_at = 90 }

abbrev before : Social friend_list block_list
before = record { friends = asked ∷ []; blocked = blocked_row ∷ [] }

abbrev friends_now : Social friend_list block_list
friends_now = record { friends = befriended_row ∷ []; blocked = blocked_row ∷ [] }

abbrev find_user : ℕ → Option User
find_user n = if leb n 3 then some (record { id = n; nickname = moon }) else none

before-IsSafe : IsSafe (view before)
before-IsSafe a b h = (ground (arith, h), ground (arith, h))

friends_now-IsSafe : IsSafe (view friends_now)
friends_now-IsSafe a b h = (ground (arith, h), ground (arith, h))

perform_example : Refines find_user 120 Request.accept 2 1 before
perform_example = perform_lem find_user 120 Request.accept 2 1 before ((tt, tt), (tt, tt))

abbrev requests : List (Request × (ℕ × (ℕ × ℕ)))
requests =
    (Request.accept, (120, (2, 1)))
    ∷ (Request.block, (130, (1, 2)))
    ∷ (Request.send, (140, (2, 1)))
    ∷ (Request.unblock, (150, (1, 2)))
    ∷ []

social_run_example :
    IsSound (run find_user requests before) × IsSafe (view (run find_user requests before))
social_run_example = run-IsSafe find_user requests before ((tt, tt), (tt, tt)) before-IsSafe

whisper_example :
    handle_direct_message find_user secret 160 1 moon 2 secret friends_now
    ≡ (whispered find_user secret 160 1 moon 2 secret (view friends_now), friends_now)
whisper_example =
    handle_direct_message_lem find_user secret 160 1 moon 2 secret friends_now friends_now-IsSafe
