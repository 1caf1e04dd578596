-- ===== src/Social/Refinement/Friendships.antt =====
-- Cancelling, answering and ending a friendship (src/friend/friend.service.ts) against the abstract
-- view.
use pollycasso_back.Prelude.{
  ==_ne, ==_refl, Bool-cases, Option, Option-cases, find, inl, inr, refl, ℕ, ◌==◌, ◌≡◌, ◌⊎◌,
}
use pollycasso_back.Social.{FriendTable, BlockTable, Social, FriendStatus, between}
use pollycasso_back.Social.Blocks.{User}
use pollycasso_back.Social.Refinement.{
  Request, Agrees, IsSound, view, perform, permission, effect, outcome,
}
use pollycasso_back.Social.Refinement.Changes.{
  update_friendship_status_lem, delete_friendship_by_id_lem,
}
use native.Mathlib.Decide.{ℕ_discrete}
use pollycasso_back.Exec.{pure, ◌>>=◌, some_or_raise, raise_if, discard}
use pollycasso_back.Social.{find_friendship}
use pollycasso_back.Social.Friends.{
  cancel_request, get_friendship_or_throw, validate_requester, remove_friend,
  respond_friend_request, settle,
}

pub status_cases :
    (status : FriendStatus) → (status ≡ FriendStatus.pending) ⊎ (status ≡ FriendStatus.accepted)
status_cases FriendStatus.pending = inl refl
status_cases FriendStatus.accepted = inr refl

module _ {friend_table : FriendTable} {block_table : BlockTable} (find_user : ℕ → Option User)
    (now : ℕ) where
  -- One method call does to the view what the abstract request does, and answers the same.
  abbrev pub Refines : Request → ℕ → ℕ → Social friend_table block_table → Type 0
  Refines request user other s =
      ((perform find_user now request user other s).0
        ≡ permission find_user request user other (view s))
      × Agrees (perform find_user now request user other s).1 (
          outcome (permission find_user request user other (view s))
            (effect request user other (view s)) (view s))
      × IsSound (perform find_user now request user other s).1

  pub cancel_lem :
      (user other : ℕ) (s : Social friend_table block_table)
      → IsSound s
      → Refines Request.cancel user other s
  unfolding cancel_request perform get_friendship_or_throw find_friendship ◌>>=◌ some_or_raise
      raise_if validate_requester
  cancel_lem user other s sound =
      let found = friend_table.find_first_rows (between user other) s.friends in
      elim (Option-cases (find (between user other) (friend_table.rows s.friends))) [
        | inl e ↦ rw (found, e) (refl, ((λ a b. refl), λ a b. refl), sound)
        | inr (f, e) ↦ elim (status_cases f.status) [
          | inl p ↦ elim (Bool-cases (f.requester_id == user)) [
            | inl q ↦ rw (found, e, p, q) (delete_friendship_by_id_lem user other f s sound e)
            | inr q ↦ rw (found, e, p, q) (refl, ((λ a b. refl), λ a b. refl), sound)
          ]
          | inr p ↦ rw (found, e, p) (refl, ((λ a b. refl), λ a b. refl), sound)
        ]
      ]

  pub remove_lem :
      (user other : ℕ) (s : Social friend_table block_table)
      → IsSound s
      → Refines Request.remove user other s
  unfolding remove_friend perform get_friendship_or_throw find_friendship ◌>>=◌ some_or_raise
      raise_if validate_requester
  remove_lem user other s sound =
      let found = friend_table.find_first_rows (between user other) s.friends in
      elim (Option-cases (find (between user other) (friend_table.rows s.friends))) [
        | inl e ↦ rw (found, e) (refl, ((λ a b. refl), λ a b. refl), sound)
        | inr (f, e) ↦ elim (status_cases f.status) [
          | inl p ↦ rw (found, e, p) (refl, ((λ a b. refl), λ a b. refl), sound)
          | inr p ↦ rw (found, e, p) (delete_friendship_by_id_lem user other f s sound e)
        ]
      ]

  pub decline_lem :
      (user other : ℕ) (s : Social friend_table block_table)
      → IsSound s
      → Refines Request.decline user other s
  unfolding respond_friend_request discard settle pure perform get_friendship_or_throw
      find_friendship ◌>>=◌ some_or_raise raise_if validate_requester
  decline_lem user other s sound =
      let found = friend_table.find_first_rows (between other user) s.friends in
      elim (Option-cases (find (between other user) (friend_table.rows s.friends))) [
        | inl e ↦ rw (found, e) (refl, ((λ a b. refl), λ a b. refl), sound)
        | inr (f, e) ↦ elim (status_cases f.status) [
          | inl p ↦ elim (Bool-cases (f.requester_id == other)) [
            | inl q ↦
                let (done, agrees, sound') = delete_friendship_by_id_lem other user f s sound e in
                rw (found, e, p, q, done) (refl, agrees, sound')
            | inr q ↦ rw (found, e, p, q) (refl, ((λ a b. refl), λ a b. refl), sound)
          ]
          | inr p ↦ rw (found, e, p) (refl, ((λ a b. refl), λ a b. refl), sound)
        ]
      ]

  pub accept_lem :
      (user other : ℕ) (s : Social friend_table block_table)
      → IsSound s
      → Refines Request.accept user other s
  unfolding respond_friend_request discard settle pure perform get_friendship_or_throw
      find_friendship ◌>>=◌ some_or_raise raise_if validate_requester
  accept_lem user other s sound =
      let found = friend_table.find_first_rows (between other user) s.friends in
      elim (Option-cases (find (between other user) (friend_table.rows s.friends))) [
        | inl e ↦ rw (found, e) (refl, ((λ a b. refl), λ a b. refl), sound)
        | inr (f, e) ↦ elim (status_cases f.status) [
          | inl p ↦ elim (ℕ_discrete f.requester_id other) [
            | yes q ↦
                let (done, agrees, sound') =
                  update_friendship_status_lem other user FriendStatus.accepted f s sound e in
                rw (found, e, p, q, ==_refl other, done) (refl, rw q at agrees, sound')
            | no n ↦
                rw (found, e, p, ==_ne f.requester_id other n)
                  (refl, ((λ a b. refl), λ a b. refl), sound)
          ]
          | inr p ↦ rw (found, e, p) (refl, ((λ a b. refl), λ a b. refl), sound)
        ]
      ]
