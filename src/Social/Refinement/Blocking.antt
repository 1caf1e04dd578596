-- ===== src/Social/Refinement/Blocking.antt =====
-- Asking for a friendship, blocking and unblocking (src/friend/friend.service.ts,
-- src/block/block.service.ts), and every request together, against the abstract view.
use pollycasso_back.Prelude.{Bool-cases, Option, Option-cases, find, inl, inr, refl, ℕ, ◌==◌, ◌∙◌}
use pollycasso_back.Exec.{pure, ◌>>=◌, some_or_raise, raise_if, discard}
use pollycasso_back.Social.{
  FriendTable, BlockTable, Social, between, blocks, find_friendship, find_block_relation,
}
use pollycasso_back.Social.Blocks.{User, is_blocked, remove_friendship_if_exists}
use pollycasso_back.Social.Blocks
use pollycasso_back.Social.Friends.{
  send_request, validate_self_request, validate_block_status, validate_existing_friendship,
  no_friendship,
}
use pollycasso_back.Social.Refinement.{Request, IsSound, perform}
use pollycasso_back.Social.Refinement.Changes.{
  create_friendship_lem, delete_friendship_if_exists_lem, create_block_relation_lem,
  delete_block_relation_lem,
}
use pollycasso_back.Social.{delete_friendship_if_exists}
use pollycasso_back.Social.Refinement.Friendships.{
  Refines, status_cases, cancel_lem, remove_lem, decline_lem, accept_lem,
}

module _ {friend_table : FriendTable} {block_table : BlockTable} (find_user : ℕ → Option User)
    (now : ℕ) where
  unblock_lem :
      (user other : ℕ) (s : Social friend_table block_table)
      → IsSound s
      → Refines find_user now Request.unblock user other s
  unfolding perform Blocks.unblock find_block_relation ◌>>=◌ some_or_raise
  unblock_lem user other s sound =
      let found = block_table.find_first_rows (blocks user other) s.blocked in
      elim (Option-cases (find_user other)) [
        | inl u ↦ rw (u) (refl, ((λ a b. refl), λ a b. refl), sound)
        | inr (target, u) ↦
            elim (Option-cases (find (blocks user other) (block_table.rows s.blocked))) [
              | inl e ↦ rw (u, found, e) (refl, ((λ a b. refl), λ a b. refl), sound)
              | inr (k, e) ↦ rw (u, found, e) (delete_block_relation_lem user other k s sound e)
            ]
      ]

  block_lem :
      (user other : ℕ) (s : Social friend_table block_table)
      → IsSound s
      → Refines find_user now Request.block user other s
  unfolding perform Blocks.block remove_friendship_if_exists delete_friendship_if_exists
      find_block_relation ◌>>=◌ some_or_raise raise_if discard
  block_lem user other s sound =
      let found = block_table.find_first_rows (blocks user other) s.blocked in
      elim (Option-cases (find_user other)) [
        | inl u ↦ rw (u) (refl, ((λ a b. refl), λ a b. refl), sound)
        | inr (target, u) ↦ elim (Bool-cases (user == other)) [
          | inl q ↦ rw (u, q) (refl, ((λ a b. refl), λ a b. refl), sound)
          | inr q ↦ elim (Option-cases (find (blocks user other) (block_table.rows s.blocked))) [
            | inl e ↦
                let (agrees, sound') = delete_friendship_if_exists_lem user other s sound in
                let s' = (delete_friendship_if_exists user other s).1 in
                let (done, agrees', sound'') =
                  create_block_relation_lem now user other s' sound' e in
                rw (u, q, found, e, done)
                  (refl, ((λ a b. agrees'.0 a b ∙ agrees.0 a b), λ a b. agrees'.1 a b), sound'')
            | inr (k, e) ↦ rw (u, q, found, e) (refl, ((λ a b. refl), λ a b. refl), sound)
          ]
        ]
      ]

  send_lem :
      (user other : ℕ) (s : Social friend_table block_table)
      → IsSound s
      → Refines find_user now Request.send user other s
  unfolding perform send_request validate_self_request validate_block_status is_blocked pure
      validate_existing_friendship no_friendship find_friendship find_block_relation ◌>>=◌
      some_or_raise raise_if discard
  send_lem user other s sound =
      let blocked = block_table.find_first_rows (blocks other user) s.blocked in
      let blocking = block_table.find_first_rows (blocks user other) s.blocked in
      let found = friend_table.find_first_rows (between user other) s.friends in
      elim (Bool-cases (user == other)) [
        | inl q ↦ rw (q) (refl, ((λ a b. refl), λ a b. refl), sound)
        | inr q ↦ elim (Option-cases (find_user other)) [
          | inl u ↦ rw (q, u) (refl, ((λ a b. refl), λ a b. refl), sound)
          | inr (target, u) ↦
              elim (Option-cases (find (blocks other user) (block_table.rows s.blocked))) [
                | inr (k, b) ↦ rw (q, u, blocked, b) (refl, ((λ a b. refl), λ a b. refl), sound)
                | inl b ↦
                    elim (Option-cases (find (blocks user other) (block_table.rows s.blocked))) [
                      | inr (k, c) ↦
                          rw (q, u, blocked, blocking, b, c)
                            (refl, ((λ a b. refl), λ a b. refl), sound)
                      | inl c ↦
                          elim (Option-cases
                            (find (between user other) (friend_table.rows s.friends))) [
                              | inl e ↦
                                  let (done, agrees, sound') =
                                    create_friendship_lem now user other s sound e in
                                  rw (q, u, blocked, blocking, b, c, found, e, done)
                                    (refl, agrees, sound')
                              | inr (f, e) ↦ elim (status_cases f.status) [
                                | inl p ↦
                                    rw (q, u, blocked, blocking, b, c, found, e, p)
                                      (refl, ((λ a b. refl), λ a b. refl), sound)
                                | inr p ↦
                                    rw (q, u, blocked, blocking, b, c, found, e, p)
                                      (refl, ((λ a b. refl), λ a b. refl), sound)
                              ]
                            ]
                    ]
              ]
        ]
      ]

  -- On sound tables every request of a user about another one (asking for a friendship, cancelling,
  -- accepting or declining one, ending it, blocking and unblocking) is answered with the exception that
  -- the abstract view gives, or succeeds where the view permits it; the view then changes as the
  -- abstract request says, at every two users, or not at all where it is refused; and the tables stay
  -- sound.
  pub perform_lem :
      (request : Request) (user other : ℕ) (s : Social friend_table block_table)
      → IsSound s
      → Refines find_user now request user other s
  perform_lem Request.send = send_lem
  perform_lem Request.cancel = cancel_lem find_user now
  perform_lem Request.accept = accept_lem find_user now
  perform_lem Request.decline = decline_lem find_user now
  perform_lem Request.remove = remove_lem find_user now
  perform_lem Request.block = block_lem
  perform_lem Request.unblock = unblock_lem
