-- ===== src/Social/Refinement/Changes.antt =====
-- What each update of the repositories (src/friend/friend.repository.ts,
-- src/block/block.repository.ts) does to the view and to the soundness of the rows.
use pollycasso_back.Prelude.{
  List, [], any, ap, arith, false, filter, find, if_ap, if◌then◌else◌, is_some, none, not, ok, refl,
  some, true, ℕ, ◌++◌, ◌∙◌, ◌∷◌, ◌≡◌,
}
use pollycasso_back.Database.{updated}
use pollycasso_back.Social.Rows
use pollycasso_back.Social.{
  FriendTable, BlockTable, Social, FriendStatus, Friend, Block, between, blocks, friend_of,
  block_of, with_status, same_pair, same_order, same_request, same_block, create_friendship,
  update_friendship_status, delete_friendship_by_id, delete_friendship_if_exists,
  create_block_relation, delete_block_relation, delete_block_row,
}
use pollycasso_back.Social.Refinement.{
  bond_of, set_bond, set_blocked, Agrees, IsSound, FriendsDistinct, view, pair_left, pair_symm,
  order_left, order_symm,
}

no_request :
    (now a b id : ℕ) (rows : List Friend)
    → find (between a b) rows ≡ none
    → any (same_request (friend_of now a b id)) rows ≡ false
no_request now a b id [] h = refl
no_request now a b id (f ∷ rows) h = ground (arith, no_request now a b id rows)

no_block :
    (now a b id : ℕ) (rows : List Block)
    → find (blocks a b) rows ≡ none
    → any (same_block (block_of now a b id)) rows ≡ false
no_block now a b id [] h = refl
no_block now a b id (k ∷ rows) h = ground (arith, no_block now a b id rows)

bond-append :
    (now a b id c d : ℕ) (rows : List Friend)
    → find (between a b) rows ≡ none
    → bond_of (find (between c d) (rows ++ friend_of now a b id ∷ [])) ≡ (
        if same_pair a b c d
        then some (a, FriendStatus.pending)
        else bond_of (find (between c d) rows))
bond-append now a b id c d [] h = ground arith
bond-append now a b id c d (f ∷ rows) h = ground (
  arith,
  bond-append now a b id c d rows,
  pair_left f.requester_id f.receiver_id c d a b,
  pair_symm a b c d,
)

bond-filter :
    (a b c d : ℕ) (rows : List Friend)
    → bond_of (find (between c d) (filter (λ f. not (between a b f)) rows))
      ≡ (if same_pair a b c d then none else bond_of (find (between c d) rows))
bond-filter a b c d rows =
    ap bond_of (
      Rows.find-filter (λ f. f.id) (λ f. f.requester_id) (λ f. f.receiver_id) same_pair pair_left
        pair_symm a b c d rows)
    ∙ if_ap bond_of none (find (between c d) rows) (same_pair a b c d)

bond-update :
    (a b c d : ℕ) (status : FriendStatus) (f : Friend) (rows : List Friend)
    → FriendsDistinct rows
    → find (between a b) rows ≡ some f
    → bond_of (find (between c d) (updated (λ g. g.id) f.id (with_status status) rows)) ≡ (
        if same_pair a b c d
        then some (f.requester_id, status)
        else bond_of (find (between c d) rows))
bond-update a b c d status f rows distinct h =
    ap bond_of (
      Rows.update_found (λ f. f.id) (λ f. f.requester_id) (λ f. f.receiver_id) same_pair pair_left
        pair_symm (with_status status) (λ g. refl) (λ g. refl) (λ g. refl) a b c d f rows distinct
        h)
    ∙ if_ap bond_of (some (with_status status f)) (find (between c d) rows) (same_pair a b c d)

blocked-append :
    (now a b id c d : ℕ) (rows : List Block)
    → is_some (find (blocks c d) (rows ++ block_of now a b id ∷ []))
      ≡ (if same_order a b c d then true else is_some (find (blocks c d) rows))
blocked-append now a b id c d [] = ground arith
blocked-append now a b id c d (k ∷ rows) = ground (arith, blocked-append now a b id c d rows)

blocked-filter :
    (a b c d : ℕ) (rows : List Block)
    → is_some (find (blocks c d) (filter (λ k. not (blocks a b k)) rows))
      ≡ (if same_order a b c d then false else is_some (find (blocks c d) rows))
blocked-filter a b c d rows =
    ap is_some (
      Rows.find-filter (λ k. k.id) (λ k. k.user_id) (λ k. k.target_user_id) same_order order_left
        order_symm a b c d rows)
    ∙ if_ap is_some none (find (blocks c d) rows) (same_order a b c d)

module _ {friend_table : FriendTable} {block_table : BlockTable} where
  pub create_friendship_lem :
      (now a b : ℕ) (s : Social friend_table block_table)
      → IsSound s
      → find (between a b) (friend_table.rows s.friends) ≡ none
      → ((create_friendship now a b s).0 ≡ ok (friend_of now a b (friend_table.next_id s.friends)))
        × Agrees
            (create_friendship now a b s).1
            (set_bond a b (some (a, FriendStatus.pending)) (view s))
        × IsSound (create_friendship now a b s).1
  unfolding create_friendship
  create_friendship_lem now a b s sound h =
      let rows = friend_table.rows s.friends in
      let id = friend_table.next_id s.friends in
      let make = friend_of now a b in
      rw
        (
          friend_table.create_result make s.friends,
          friend_table.create_rows make s.friends,
          no_request now a b id rows h,
        )
        (
          refl,
          ((λ c d. bond-append now a b (friend_table.next_id s.friends) c d rows h), λ c d. refl),
          (
            Rows.append-Distinct (λ f. f.id) (λ f. f.requester_id) (λ f. f.receiver_id) same_pair
                pair_left pair_symm (make id) rows sound.0 (friend_table.next_id_fresh s.friends) h,
            sound.1,
          ),
        )

  pub delete_friendship_if_exists_lem :
      (a b : ℕ) (s : Social friend_table block_table)
      → IsSound s
      → Agrees (delete_friendship_if_exists a b s).1 (set_bond a b none (view s))
        × IsSound (delete_friendship_if_exists a b s).1
  unfolding delete_friendship_if_exists
  delete_friendship_if_exists_lem a b s sound =
      let rows = friend_table.rows s.friends in
      rw (friend_table.delete_many_rows (between a b) s.friends) (
        ((λ c d. bond-filter a b c d rows), λ c d. refl),
        (
          Rows.filter-Distinct (λ f. f.id) (λ f. f.requester_id) (λ f. f.receiver_id) same_pair
              pair_left pair_symm (λ f. not (between a b f)) rows sound.0,
          sound.1,
        ),
      )

  pub delete_friendship_by_id_lem :
      (a b : ℕ) (f : Friend) (s : Social friend_table block_table)
      → IsSound s
      → find (between a b) (friend_table.rows s.friends) ≡ some f
      → ((delete_friendship_by_id f.id s).0 ≡ ok tt)
        × Agrees (delete_friendship_by_id f.id s).1 (set_bond a b none (view s))
        × IsSound (delete_friendship_by_id f.id s).1
  unfolding delete_friendship_by_id
  delete_friendship_by_id_lem a b f s sound h =
      let rows = friend_table.rows s.friends in
      rw
        (
          friend_table.delete_result f.id s.friends,
          friend_table.delete_rows f.id s.friends,
          Rows.found_id (λ f. f.id) (λ f. f.requester_id) (λ f. f.receiver_id) same_pair pair_left
              pair_symm (between a b) f rows h,
          Rows.delete_found (λ f. f.id) (λ f. f.requester_id) (λ f. f.receiver_id) same_pair
              pair_left pair_symm a b f rows sound.0 h,
        )
        (
          refl,
          ((λ c d. bond-filter a b c d rows), λ c d. refl),
          (
            Rows.filter-Distinct (λ f. f.id) (λ f. f.requester_id) (λ f. f.receiver_id) same_pair
                pair_left pair_symm (λ g. not (between a b g)) rows sound.0,
            sound.1,
          ),
        )

  pub update_friendship_status_lem :
      (a b : ℕ) (status : FriendStatus) (f : Friend) (s : Social friend_table block_table)
      → IsSound s
      → find (between a b) (friend_table.rows s.friends) ≡ some f
      → ((update_friendship_status f.id status s).0 ≡ ok (with_status status f))
        × Agrees
            (update_friendship_status f.id status s).1
            (set_bond a b (some (f.requester_id, status)) (view s))
        × IsSound (update_friendship_status f.id status s).1
  unfolding update_friendship_status
  update_friendship_status_lem a b status f s sound h =
      let rows = friend_table.rows s.friends in
      rw
        (
          friend_table.update_result f.id (with_status status) s.friends,
          friend_table.update_rows f.id (with_status status) s.friends,
          Rows.updated_row (λ f. f.id) (λ f. f.requester_id) (λ f. f.receiver_id) same_pair
              pair_left pair_symm (with_status status) (λ g. refl) (λ g. refl) (λ g. refl)
              (between a b) f rows sound.0 h,
        )
        (
          refl,
          ((λ c d. bond-update a b c d status f rows sound.0 h), λ c d. refl),
          (
            Rows.updated-Distinct (λ f. f.id) (λ f. f.requester_id) (λ f. f.receiver_id) same_pair
                pair_left pair_symm (with_status status) (λ g. refl) (λ g. refl) (λ g. refl) f.id
                rows sound.0,
            sound.1,
          ),
        )

  pub create_block_relation_lem :
      (now a b : ℕ) (s : Social friend_table block_table)
      → IsSound s
      → find (blocks a b) (block_table.rows s.blocked) ≡ none
      → ((create_block_relation now a b s).0
          ≡ ok (block_of now a b (block_table.next_id s.blocked)))
        × Agrees (create_block_relation now a b s).1 (set_blocked a b true (view s))
        × IsSound (create_block_relation now a b s).1
  unfolding create_block_relation
  create_block_relation_lem now a b s sound h =
      let rows = block_table.rows s.blocked in
      let id = block_table.next_id s.blocked in
      let make = block_of now a b in
      rw
        (
          block_table.create_result make s.blocked,
          block_table.create_rows make s.blocked,
          no_block now a b id rows h,
        )
        (
          refl,
          ((λ c d. refl), λ c d. blocked-append now a b id c d rows),
          (
            sound.0,
            Rows.append-Distinct (λ k. k.id) (λ k. k.user_id) (λ k. k.target_user_id) same_order
                order_left order_symm (make id) rows sound.1 (block_table.next_id_fresh s.blocked)
                h,
          ),
        )

  pub delete_block_relation_lem :
      (a b : ℕ) (k : Block) (s : Social friend_table block_table)
      → IsSound s
      → find (blocks a b) (block_table.rows s.blocked) ≡ some k
      → ((delete_block_relation a b s).0 ≡ ok tt)
        × Agrees (delete_block_relation a b s).1 (set_blocked a b false (view s))
        × IsSound (delete_block_relation a b s).1
  unfolding delete_block_relation delete_block_row
  delete_block_relation_lem a b k s sound h =
      let rows = block_table.rows s.blocked in
      rw
        (
          block_table.find_first_rows (blocks a b) s.blocked,
          h,
          block_table.delete_result k.id s.blocked,
          block_table.delete_rows k.id s.blocked,
          Rows.found_id (λ k. k.id) (λ k. k.user_id) (λ k. k.target_user_id) same_order order_left
              order_symm (blocks a b) k rows h,
          Rows.delete_found (λ k. k.id) (λ k. k.user_id) (λ k. k.target_user_id) same_order
              order_left order_symm a b k rows sound.1 h,
        )
        (
          refl,
          ((λ c d. refl), λ c d. blocked-filter a b c d rows),
          (
            sound.0,
            Rows.filter-Distinct (λ k. k.id) (λ k. k.user_id) (λ k. k.target_user_id) same_order
                order_left order_symm (λ g. not (blocks a b g)) rows sound.1,
          ),
        )
