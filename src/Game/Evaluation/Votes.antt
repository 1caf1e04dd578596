-- ===== src/Game/Evaluation/Votes.antt =====
-- A submitted evaluation: `submitEvaluation` of src/game/evaluation/evaluation.service.ts. The
-- conversion `Number(text)` and the write of the vote (which may throw) are arguments.
use pollycasso_back.Prelude.{
  >>=-eq-ok, Bool, JsNumber, List, Option, Result, Text, [], arith, drawing_id_invalid,
  evaluation_context_invalid, false, if◌then◌else◌, includes, invalid_phase, invalid_score, lookup,
  none, not, not_finite, ok, or_throw, refl, round_missing, self_evaluation_not_allowed, show,
  show-ne_colon, some, split, split-append, split_last, throw_if, true, values, whole, ws_error, ℕ,
  ◌&&◌, ◌++◌, ◌==◌, ◌>>=◌, ◌>>◌, ◌||◌, ◌∷◌, ◌≡◌, ◌≢◌, ◌≤◌,
}
use pollycasso_back.GameState.{GameState, is_evaluating, GamePhase}
use pollycasso_back.Game.Evaluation.{validate_score, make_drawing_id, colon}

pub record EvaluationSubmitPayload : Type 0 where
  pub drawing_id : Text
  pub score : JsNumber

-- The parameters of `upsertVoteByDrawingKey`.
pub record Vote : Type 0 where
  pub match_id : ℕ
  pub round : ℕ
  pub room_member_id : ℕ
  pub voter_id : ℕ
  pub rating : ℕ

abbrev pub three_parts : List Text → Option (Text × Text × Text)
three_parts (a ∷ b ∷ c ∷ []) = some (a, b, c)
three_parts _ = none

abbrev pub is_finite : JsNumber → Bool
is_finite not_finite = false
is_finite _ = true

abbrev pub is_number : JsNumber → ℕ → Bool
is_number (whole n) m = n == m
is_number _ m = false

-- The member id, if it is one of the room's: those are natural numbers.
abbrev pub allowed : List (ℕ × ℕ) → JsNumber → Option ℕ
allowed members (whole n) = if includes (values members) n then some n else none
allowed members _ = none

-- The number that a valid score is.
abbrev rating_of : JsNumber → ℕ
rating_of (whole n) = n
rating_of _ = 0

-- The vote that is written, or the refusal.
pub vote_of : (Text → JsNumber) → GameState → ℕ → EvaluationSubmitPayload → Result Vote
vote_of to_number s user_id p = do
  throw_if (not (is_evaluating s.phase)) (ws_error 400 invalid_phase)
  throw_if (not (validate_score p.score)) (ws_error 400 invalid_score)
  round ← or_throw s.current_round (ws_error 400 round_missing)
  parts ← or_throw (three_parts (split colon p.drawing_id)) (ws_error 400 drawing_id_invalid)
  let match_id = to_number parts.0
  let room_member_id = to_number parts.1
  let drawing_round = to_number parts.2
  throw_if (not (is_finite match_id && is_finite room_member_id && is_finite drawing_round))
      (ws_error 400 drawing_id_invalid)
  throw_if (not (is_number match_id s.match_id) || not (is_number drawing_round round))
      (ws_error 400 drawing_id_invalid)
  mine ←
      or_throw (lookup user_id s.room_member_id_by_user_id)
        (ws_error 500 evaluation_context_invalid)
  throw_if (is_number room_member_id mine) (ws_error 400 self_evaluation_not_allowed)
  target ←
      or_throw (allowed s.room_member_id_by_user_id room_member_id)
        (ws_error 400 drawing_id_invalid)
  ok (record {
    match_id = s.match_id;
    round = round;
    room_member_id = target;
    voter_id = user_id;
    rating = rating_of p.score;
  })

unfoldable pub submit_evaluation {ℓ} :
    {S : Type ℓ}
    → (Text → JsNumber)
    → (Vote → S → Result S)
    → GameState
    → ℕ
    → EvaluationSubmitPayload
    → S
    → Result S
unfolding vote_of
submit_evaluation to_number upsert s user_id p votes = do
  vote ← vote_of to_number s user_id p
  upsert vote votes

-- A vote as the room's state admits it from this user.
pub record IsAdmissible (s : GameState) (user_id : ℕ) (v : Vote) : Type 0 where
  pub evaluates : s.phase ≡ GamePhase.evaluating
  pub match_of_room : v.match_id ≡ s.match_id
  pub round_of_room : s.current_round ≡ some v.round
  pub voter : v.voter_id ≡ user_id
  pub in_range : v.rating ≤ 10
  pub member : includes (values s.room_member_id_by_user_id) v.room_member_id ≡ true
  pub own : (n : ℕ) × (lookup user_id s.room_member_id_by_user_id ≡ some n) × (n ≢ v.room_member_id)

vote_of-IsAdmissible :
    (to_number : Text → JsNumber) (s : GameState) (user_id : ℕ) (p : EvaluationSubmitPayload)
    (v : Vote)
    → vote_of to_number s user_id p ≡ ok v
    → IsAdmissible s user_id v
unfolding vote_of validate_score
vote_of-IsAdmissible to_number s user_id p v h = ground arith

pub three_parts-make_drawing_id :
    (a b c : ℕ) → three_parts (split colon (make_drawing_id a b c)) ≡ some (show a, show b, show c)
unfolding make_drawing_id
three_parts-make_drawing_id a b c = rw (
  split-append 58 (show a) (show b ++ (58 ∷ show c)) (show-ne_colon a),
  split-append 58 (show b) (show c) (show-ne_colon b),
  split_last 58 (show c) (show-ne_colon c),
)

-- What is written is a vote that the room's state admits: the room is being evaluated, the match and
-- the round are the room's, the rating is a natural number of at most ten, and the drawing is a
-- member's, but not the voter's own.
pub submit_evaluation-IsAdmissible {ℓ} :
    {S : Type ℓ} (to_number : Text → JsNumber) (upsert : Vote → S → Result S) (s : GameState)
    (user_id : ℕ) (p : EvaluationSubmitPayload) (before after : S)
    → submit_evaluation to_number upsert s user_id p before ≡ ok after
    → (v : Vote) × IsAdmissible s user_id v × (upsert v before ≡ ok after)
unfolding submit_evaluation
submit_evaluation-IsAdmissible to_number upsert s user_id p before after h =
    let (v, e, f) = >>=-eq-ok (vote_of to_number s user_id p) _ h in
    (v, vote_of-IsAdmissible to_number s user_id p v e, f)

vote_of-make_drawing_id :
    (to_number : Text → JsNumber) (s : GameState) (user_id : ℕ) (v : Vote)
    → ((n : ℕ) → to_number (show n) ≡ whole n)
    → IsAdmissible s user_id v
    → vote_of to_number s user_id (record {
      drawing_id = make_drawing_id v.match_id v.room_member_id v.round;
      score = whole v.rating;
    })
      ≡ ok v
unfolding vote_of validate_score
vote_of-make_drawing_id to_number s user_id v reads a =
    let (n, mine, other) = a.own in
    ground (
      arith,
      three_parts-make_drawing_id v.match_id v.room_member_id v.round,
      reads v.match_id,
      reads v.room_member_id,
      reads v.round,
      mine,
      other,
    )

-- Every admissible vote gets through: submitted with the id that the server makes for the drawing,
-- it is written as it is, given that `Number` reads decimal digits back.
pub submit_evaluation-make_drawing_id {ℓ} :
    {S : Type ℓ} (to_number : Text → JsNumber) (upsert : Vote → S → Result S) (s : GameState)
    (user_id : ℕ) (v : Vote) (votes : S)
    → ((n : ℕ) → to_number (show n) ≡ whole n)
    → IsAdmissible s user_id v
    → submit_evaluation to_number upsert s user_id
        (record {
          drawing_id = make_drawing_id v.match_id v.room_member_id v.round;
          score = whole v.rating;
        })
        votes
      ≡ upsert v votes
unfolding submit_evaluation
submit_evaluation-make_drawing_id to_number upsert s user_id v votes reads a =
    rw (vote_of-make_drawing_id to_number s user_id v reads a) refl
