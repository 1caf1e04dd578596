-- ===== src/Waiting/Teams.antt =====
-- The sizes of the teams: where a new player goes, who may change sides, and how a change of mode
-- deals the teams anew (src/waiting/entities/waiting.entity.ts).
use native.Mathlib.Decide.{ℕ_discrete}
use mathlib.Core.Path.{subst}
use pollycasso_back.Prelude.{
  All, Bool, Bool-cases, List, Option, [], arith, count, false, if◌then◌else◌, inl, inr, leb, map,
  not, ok, refl, some, true, ℕ, ◌&&◌, ◌+◌, ◌/◌, ◌<◌, ◌==◌, ◌↔◌, ◌∷◌, ◌≡◌, ◌≢◌, ◌≤◌, ◌⊎◌,
}
use pollycasso_back.Waiting.{
  Waiting, WaitingPlayerState, Team, team_eq, team_count, get_initial_team, validate_team_change,
  TeamResetCommand, reset_commands, generate_team_reset_commands, red, RoomMode, blue, no_team,
}
use pollycasso_back.Waiting.Starting.{IsBalanced}
use pollycasso_back.Room.{team, solo}

-- The players with one more, on the team that `getInitialTeam` names.
abbrev pub seated : Waiting → WaitingPlayerState → List WaitingPlayerState
seated w p = record p { team = get_initial_team w } ∷ w.players

mode_cases : (mode : RoomMode) → (mode ≡ solo) ⊎ (mode ≡ team)
mode_cases solo = inl refl
mode_cases team = inr refl

-- The team of a new player: none in a solo game, and in a team game the one with fewer players, red on a
-- tie. Balanced teams stay balanced with the new player.
pub get_initial_team-IsBalanced :
    (w : Waiting) (p : WaitingPlayerState)
    → IsBalanced w.room.mode w.players
    → IsBalanced w.room.mode (seated w p)
      × (((w.room.mode ≡ solo) × (get_initial_team w ≡ no_team))
          ⊎ ((w.room.mode ≡ team)
              × (team_count red w.players ≤ team_count blue w.players)
              × (get_initial_team w ≡ red))
          ⊎ ((w.room.mode ≡ team)
              × (team_count blue w.players < team_count red w.players)
              × (get_initial_team w ≡ blue)))
unfolding get_initial_team
get_initial_team-IsBalanced w p h = (
  ground arith,
  elim (mode_cases w.room.mode) [
    | inl e ↦ inl (e, rw e refl)
    | inr e ↦ elim (Bool-cases (leb (team_count red w.players) (team_count blue w.players))) [
      | inl f ↦ inr (inl (e, ground (arith, f), rw (e, f) refl))
      | inr f ↦ inr (inr (e, ground (arith, f), rw (e, f) refl))
    ]
  ],
)

-- What the store's `changeTeam` makes of the players.
abbrev pub moved : ℕ → Team → List WaitingPlayerState → List WaitingPlayerState
moved u t = map (λ p. if p.user_id == u then record p { team = t } else p)

abbrev pub HasDistinctUsers : List WaitingPlayerState → Type 0
HasDistinctUsers [] = Unit
HasDistinctUsers (p ∷ ps) = All (λ q. q.user_id ≢ p.user_id) ps × HasDistinctUsers ps

abbrev others : ℕ → Team → List WaitingPlayerState → ℕ
others u t = count (λ p. team_eq p.team t && not (p.user_id == u))

moved-absent :
    (u : ℕ) (t : Team) (ps : List WaitingPlayerState)
    → All (λ q. q.user_id ≢ u) ps
    → team_count t (moved u t ps) ≡ others u t ps
moved-absent u t [] h = refl
moved-absent u t (p ∷ ps) h = ground (arith, moved-absent u t ps)

team_count-moved-le :
    (u : ℕ) (t : Team) (ps : List WaitingPlayerState)
    → HasDistinctUsers ps
    → team_count t (moved u t ps) ≤ others u t ps + 1
team_count-moved-le u t [] h = omega arith
team_count-moved-le u t (p ∷ ps) h = elim (ℕ_discrete p.user_id u) [
  | yes here ↦
      let away : All (λ q. q.user_id ≢ u) ps = subst (λ k. All (λ q. q.user_id ≢ k) ps) here h.0 in
      ground (arith, moved-absent u t ps away)
  | no there ↦ ground (arith, team_count-moved-le u t ps h.1)
]

-- A player who may change sides leaves the target team with at most half of the places, rounded
-- up; the game has teams, and the target is one of the two.
pub validate_team_change-bounds :
    (w : Waiting) (user_id : ℕ) (t : Team)
    → HasDistinctUsers w.players
    → validate_team_change w user_id t ≡ ok tt
    → (w.room.mode ≡ team)
      × (t ≢ no_team)
      × (team_count t (moved user_id t w.players) ≤ (w.room.max_players + 1) / 2)
unfolding validate_team_change
validate_team_change-bounds w user_id t distinct h =
    ground (arith, team_count-moved-le user_id t w.players distinct)

-- The player's record after a reset command.
abbrev pub reset : TeamResetCommand → WaitingPlayerState → WaitingPlayerState
reset c p = record p {
  team = c.new_team;
  is_ready = if c.should_reset_ready then false else p.is_ready;
}

abbrev pub reset_all : List TeamResetCommand → List WaitingPlayerState → List WaitingPlayerState
reset_all (c ∷ cs) (p ∷ ps) = reset c p ∷ reset_all cs ps
reset_all _ ps = ps

reset_commands-counts :
    (h : Option ℕ) (ps : List WaitingPlayerState)
    → (team_count red (reset_all (reset_commands h team true ps) ps)
        ≤ team_count blue (reset_all (reset_commands h team true ps) ps) + 1)
      × (team_count blue (reset_all (reset_commands h team true ps) ps)
          ≤ team_count red (reset_all (reset_commands h team true ps) ps))
      × (team_count blue (reset_all (reset_commands h team false ps) ps)
          ≤ team_count red (reset_all (reset_commands h team false ps) ps) + 1)
      × (team_count red (reset_all (reset_commands h team false ps) ps)
          ≤ team_count blue (reset_all (reset_commands h team false ps) ps))
unfolding reset_commands
reset_commands-counts h [] = omega arith
reset_commands-counts h (p ∷ ps) = ground (arith, reset_commands-counts h ps)

-- One command for each player, in the players' order, which takes readiness from all but the host.
abbrev pub Deals : Option ℕ → List TeamResetCommand → List WaitingPlayerState → Type 0
Deals h [] [] = Unit {0}
Deals h (c ∷ cs) (p ∷ ps) =
    (c.user_id ≡ p.user_id)
    × ((c.should_reset_ready ≡ false) ↔ (h ≡ some p.user_id))
    × Deals h cs ps
Deals h _ _ = ⊥

reset_commands-Deals :
    (h : Option ℕ) (m : RoomMode) (even : Bool) (ps : List WaitingPlayerState)
    → Deals h (reset_commands h m even ps) ps
unfolding reset_commands
reset_commands-Deals h m even [] = tt
reset_commands-Deals h m even (p ∷ ps) = ground (arith, reset_commands-Deals h m (not even) ps)

-- A change of mode deals one command to each player, in order, and takes readiness from everybody
-- but the host; obeyed, the commands leave balanced teams, whatever the teams were before.
pub generate_team_reset_commands-IsBalanced :
    (w : Waiting) (new_mode : RoomMode)
    → let commands = generate_team_reset_commands w new_mode in
      Deals w.host_id commands w.players × IsBalanced new_mode (reset_all commands w.players)
unfolding generate_team_reset_commands
generate_team_reset_commands-IsBalanced w solo =
    (reset_commands-Deals w.host_id solo true w.players, tt)
generate_team_reset_commands-IsBalanced w team =
    let counts = reset_commands-counts w.host_id w.players in
    (reset_commands-Deals w.host_id team true w.players, omega arith)
