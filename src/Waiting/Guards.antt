-- ===== src/Waiting/Guards.antt =====
-- Who may do what in the waiting room (src/waiting/entities/waiting.entity.ts).
use pollycasso_back.Prelude.{
  Any, Exception, List, [], arith, find, length, not_found, ok, or_throw, player_not_found, some, ℕ,
  ◌==◌, ◌>>=◌, ◌↔◌, ◌∷◌, ◌≡◌, ◌≢◌, ◌≤◌,
}
use pollycasso_back.Waiting.{
  Waiting, WaitingPlayerState, validate_kick, validate_toggle_ready, validate_settings_update,
  validate_player_exists, validate_max_players_update,
}

find_iff :
    (u : ℕ) (ps : List WaitingPlayerState) (e : Exception)
    → ((or_throw (find (λ p. p.user_id == u) ps) e >>= λ _. ok (tt {0})) ≡ ok tt)
      ↔ Any (λ p. p.user_id ≡ u) ps
find_iff u [] e = ground arith
find_iff u (p ∷ ps) e = ground (arith, find_iff u ps e)

-- The guards of the waiting room. A user may kick exactly as the host and not themself; the settings are
-- the host's alone; readiness is toggled by every player but the host; a player exists exactly if
-- listed; and a new player limit is let through exactly if everybody who is there fits in.
pub guards_iff :
    (w : Waiting) (user_id target_id limit : ℕ)
    → ((validate_kick w user_id target_id ≡ ok tt)
        ↔ ((w.host_id ≡ some user_id) × (user_id ≢ target_id)))
      × ((validate_settings_update w user_id ≡ ok tt) ↔ (w.host_id ≡ some user_id))
      × ((validate_toggle_ready w user_id ≡ ok tt)
          ↔ ((w.host_id ≢ some user_id) × Any (λ p. p.user_id ≡ user_id) w.players))
      × ((validate_player_exists w user_id ≡ ok tt) ↔ Any (λ p. p.user_id ≡ user_id) w.players)
      × ((validate_max_players_update w limit ≡ ok tt) ↔ (length w.players ≤ limit))
unfolding validate_kick validate_settings_update validate_toggle_ready validate_player_exists
    validate_max_players_update
guards_iff w user_id target_id limit =
    let exists = find_iff user_id w.players (not_found player_not_found) in
    (ground arith, ground arith, ground (arith, exists), exists, ground arith)
