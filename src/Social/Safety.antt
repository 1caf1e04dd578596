-- ===== src/Social/Safety.antt =====
-- Blocks against friendships: src/block/block.service.ts and src/friend/friend.service.ts over any
-- sequence of requests of any users.
use pollycasso_back.Prelude.{
  Bool-cases, List, Option, Result, [], arith, err, err-ne-ok, false, inl, inr, none, ok, refl,
  some, sym, true, ℕ, ◌∙◌, ◌∷◌, ◌≡◌, ◌⊎◌,
}
use pollycasso_back.Social.{FriendTable, BlockTable, Social, FriendStatus, same_pair, same_order}
use pollycasso_back.Social.Blocks.{User}
use pollycasso_back.Social.Refinement.{
  Request, View, IsSound, view, perform, permission, effect, outcome, set_bond,
}
use pollycasso_back.Social.Refinement.Blocking.{perform_lem}

-- Where one of two users blocks the other, there is no friendship and no request between them.
abbrev pub IsSafe : View → Type 0
IsSafe v = (a b : ℕ) → v.blocked a b ≡ true → (v.bond a b ≡ none) × (v.bond b a ≡ none)

unset-IsSafe : (a b : ℕ) (v : View) → IsSafe v → IsSafe (set_bond a b none v)
unset-IsSafe a b v safe c d h = let (e, f) = safe c d h in (ground (arith, e), ground (arith, f))

pair_cases : (a b c d : ℕ) → same_pair a b c d ≡ true → ((a ≡ c) × (b ≡ d)) ⊎ ((a ≡ d) × (b ≡ c))
pair_cases a b c d h = ground arith

-- Users of whom one blocks the other are not two who do not.
other_pair :
    (a b c d : ℕ) (v : View)
    → v.blocked a b ≡ false
    → v.blocked b a ≡ false
    → v.blocked c d ≡ true
    → same_pair a b c d ≡ false
other_pair a b c d v h k e = elim (Bool-cases (same_pair a b c d)) [
  | inr no_pair ↦ no_pair
  | inl pair ↦ elim (pair_cases a b c d pair) [ inl (p, q) ↦ cc | inr (p, q) ↦ cc ]
]

turned_pair : (a b c d : ℕ) → same_pair a b c d ≡ same_pair a b d c
turned_pair a b c d = ground arith

-- A bond may be set where neither of the two blocks the other.
set-IsSafe :
    (a b : ℕ) (bond : Option (ℕ × FriendStatus)) (v : View)
    → IsSafe v
    → v.blocked a b ≡ false
    → v.blocked b a ≡ false
    → IsSafe (set_bond a b bond v)
set-IsSafe a b bond v safe h k c d e =
    let p = other_pair a b c d v h k e in rw (p, sym (turned_pair a b c d), p) (safe c d e)

send_clear :
    (find_user : ℕ → Option User) (user other : ℕ) (v : View)
    → permission find_user Request.send user other v ≡ ok tt
    → (v.blocked user other ≡ false) × (v.blocked other user ≡ false)
send_clear find_user user other v h = (ground (arith, h), ground (arith, h))

accept_clear :
    (find_user : ℕ → Option User) (user other : ℕ) (v : View)
    → IsSafe v
    → permission find_user Request.accept user other v ≡ ok tt
    → (v.blocked other user ≡ false) × (v.blocked user other ≡ false)
accept_clear find_user user other v safe h = (
  elim (Bool-cases (v.blocked other user)) [
    | inr no_block ↦ no_block
    | inl b ↦ absurd (err-ne-ok (rw ((safe other user b).0) at h))
  ],
  elim (Bool-cases (v.blocked user other)) [
    | inr no_block ↦ no_block
    | inl b ↦ absurd (err-ne-ok (rw ((safe user other b).1) at h))
  ],
)

effect-IsSafe :
    (find_user : ℕ → Option User) (request : Request) (user other : ℕ) (v : View)
    → IsSafe v
    → permission find_user request user other v ≡ ok tt
    → IsSafe (effect request user other v)
effect-IsSafe find_user Request.send user other v safe h c d e =
    let (p, q) = send_clear find_user user other v h in
    set-IsSafe user other (some (user, FriendStatus.pending)) v safe p q c d e
effect-IsSafe find_user Request.cancel user other v safe h c d e =
    unset-IsSafe user other v safe c d e
effect-IsSafe find_user Request.accept user other v safe h c d e =
    let (p, q) = accept_clear find_user user other v safe h in
    set-IsSafe other user (some (other, FriendStatus.accepted)) v safe p q c d e
effect-IsSafe find_user Request.decline user other v safe h c d e =
    unset-IsSafe other user v safe c d e
effect-IsSafe find_user Request.remove user other v safe h c d e =
    unset-IsSafe user other v safe c d e
effect-IsSafe find_user Request.block user other v safe h c d e =
    elim (Bool-cases (same_order user other c d)) [
      | inl p ↦ (ground (arith, p), ground (arith, p))
      | inr p ↦ unset-IsSafe user other v safe c d (rw p at e)
    ]
effect-IsSafe find_user Request.unblock user other v safe h c d e = safe c d (ground (arith, e))

outcome-IsSafe :
    (r : Result (Unit {0})) (changed v : View)
    → (r ≡ ok tt → IsSafe changed)
    → IsSafe v
    → IsSafe (outcome r changed v)
outcome-IsSafe (ok _) changed v f safe = f refl
outcome-IsSafe (err _) changed v f safe = safe

module _ {friend_table : FriendTable} {block_table : BlockTable} (find_user : ℕ → Option User) where
  -- The requests, one after the other, each with its moment and its two users; a refused request
  -- leaves the state that it reached.
  abbrev pub run :
      List (Request × (ℕ × (ℕ × ℕ)))
      → Social friend_table block_table
      → Social friend_table block_table
  run [] s = s
  run ((request, (now, (user, other))) ∷ rest) s =
      run rest (perform find_user now request user other s).1

  perform-IsSafe :
      (now : ℕ) (request : Request) (user other : ℕ) (s : Social friend_table block_table)
      → IsSound s
      → IsSafe (view s)
      → IsSafe (view (perform find_user now request user other s).1)
  perform-IsSafe now request user other s sound safe =
      let (answer, agrees, _) = perform_lem find_user now request user other s sound in
      let safe' =
        outcome-IsSafe (permission find_user request user other (view s))
          (effect request user other (view s)) (view s)
          (λ h. effect-IsSafe find_user request user other (view s) safe h) safe in
      λ a b e. rw (agrees.0 a b, agrees.0 b a) (safe' a b (sym (agrees.1 a b) ∙ e))

  -- Whatever sequence of requests the users make, on sound tables in which no blocked pair is bound:
  -- the tables stay sound, and no two users of whom one blocks the other are ever friends or have a
  -- request pending.
  pub run-IsSafe :
      (requests : List (Request × (ℕ × (ℕ × ℕ)))) (s : Social friend_table block_table)
      → IsSound s
      → IsSafe (view s)
      → IsSound (run requests s) × IsSafe (view (run requests s))
  run-IsSafe [] s sound safe = (sound, safe)
  run-IsSafe ((request, (now, (user, other))) ∷ rest) s sound safe =
      run-IsSafe rest (perform find_user now request user other s).1
        (perform_lem find_user now request user other s sound).2
        (perform-IsSafe now request user other s sound safe)
