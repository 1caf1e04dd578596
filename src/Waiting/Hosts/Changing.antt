-- ===== src/Waiting/Hosts/Changing.antt =====
-- The changes that waiting players make, which keep the host and the members: `toggleReady`,
-- `changeTeam`, `updatePageStatus`, `updateOutfit` and `updateSettings` of
-- src/waiting/waiting.service.ts.
use pollycasso_back.Prelude.{
  ==_ne, Bool, List, Option, Result-cases, [], false, inl, inr, is_some_eq, none, not, refl, some,
  true, ℕ, ◌∷◌,
}
use native.Mathlib.Decide.{ℕ_discrete}
use pollycasso_back.Exec.{◌>>=◌, lift, modify}
use pollycasso_back.Outfit.{OutfitIds}
use pollycasso_back.Room.{RoomMode, update}
use pollycasso_back.Waiting.{
  should_reset_teams_for_mode, WaitingPlayerState, Waiting, Team, PlayerPageStatus,
}
use pollycasso_back.Waiting.Store
use pollycasso_back.Waiting.Store.{flag, WaitingRedis, Hall, set_ready}
use pollycasso_back.Waiting.Service.{WaitingEnv, Settings}
use pollycasso_back.Waiting.Changes.{
  toggle_ready, change_team, update_page_status, update_outfit, update_settings, reset_teams,
  reset_teams_for_mode, update_room_while_waiting, update_of, persisted,
}
use pollycasso_back.Waiting.Hosts.{
  Preserves, pure-Preserves, lift-Preserves, gets-Preserves, >>=-Preserves, if-Preserves,
  hset-Preserves, load_waiting_entity-Preserves, get_player_responses-Preserves,
  find_room_or_throw-cases,
}

module _ {redis : WaitingRedis} where
  pub toggle_ready-Preserves : (k u : ℕ) → Preserves (toggle_ready {redis = redis} k u)
  unfolding toggle_ready Store.toggle_ready
  toggle_ready-Preserves k u = >>=-Preserves (load_waiting_entity-Preserves k) λ w.
      >>=-Preserves (lift-Preserves _) λ _. >>=-Preserves (gets-Preserves _) λ current.
        >>=-Preserves
          (hset-Preserves k u (λ h. record h { is_ready = some (flag (not current)) }) λ h. refl)
          λ _. pure-Preserves _

  team-Preserves : (k u : ℕ) (team : Team) → Preserves (Store.change_team {redis = redis} k u team)
  unfolding Store.change_team
  team-Preserves k u team = hset-Preserves k u (λ h. record h { team = some team }) λ h. refl

  pub change_team-Preserves :
      (k u : ℕ) (team : Team) → Preserves (change_team {redis = redis} k u team)
  unfolding change_team
  change_team-Preserves k u team =
      >>=-Preserves (load_waiting_entity-Preserves k)
        λ w. >>=-Preserves (lift-Preserves _) λ _. team-Preserves k u team

  pub update_page_status-Preserves :
      (k u : ℕ) (status : PlayerPageStatus)
      → Preserves (update_page_status {redis = redis} k u status)
  unfolding update_page_status Store.update_page_status
  update_page_status-Preserves k u status = >>=-Preserves (load_waiting_entity-Preserves k) λ w.
      >>=-Preserves (lift-Preserves _)
        λ _. hset-Preserves k u (λ h. record h { page_status = some status }) λ h. refl

  pub update_outfit-Preserves :
      (env : WaitingEnv) (k u : ℕ) (outfit : OutfitIds)
      → Preserves (update_outfit {redis = redis} env k u outfit)
  unfolding update_outfit Store.update_outfit
  update_outfit-Preserves env k u outfit = >>=-Preserves (load_waiting_entity-Preserves k) λ w.
      >>=-Preserves (lift-Preserves _) λ _. >>=-Preserves (lift-Preserves _) λ _.
        >>=-Preserves (lift-Preserves _)
          λ _. hset-Preserves k u (λ h. record h { outfit = some outfit }) λ h. refl

  reset_teams_for_mode-Preserves :
      (k : ℕ) (mode : RoomMode) (host_id : Option ℕ) (even : Bool)
      (players : List WaitingPlayerState)
      → Preserves (reset_teams_for_mode {redis = redis} k mode host_id even players)
  unfolding reset_teams_for_mode set_ready
  reset_teams_for_mode-Preserves k mode host_id even [] = pure-Preserves tt
  reset_teams_for_mode-Preserves k mode host_id even (p ∷ ps) =
      >>=-Preserves (team-Preserves k p.user_id _) λ _.
        >>=-Preserves
          (if-Preserves (is_some_eq host_id p.user_id) (pure-Preserves tt)
            (hset-Preserves k p.user_id (λ h. record h { is_ready = some (flag false) }) λ h. refl))
          λ _. reset_teams_for_mode-Preserves k mode host_id (not even) ps

  reset_teams-Preserves :
      (k : ℕ) (mode : Option RoomMode) (w : Waiting)
      → Preserves (reset_teams {redis = redis} k mode w)
  unfolding reset_teams
  reset_teams-Preserves k none w = pure-Preserves tt
  reset_teams-Preserves k (some mode) w =
      if-Preserves (should_reset_teams_for_mode w mode)
        (reset_teams_for_mode-Preserves k mode w.host_id true w.players) (pure-Preserves tt)

  -- A room is only written where it was read before.
  update_room-Preserves :
      (env : WaitingEnv) (k : ℕ) (settings : Settings)
      → Preserves (update_room_while_waiting {redis = redis} env k settings)
  unfolding update_room_while_waiting ◌>>=◌ lift modify
  update_room-Preserves env k settings = record {
    keeps = λ s well. elim (find_room_or_throw-cases k s) [
      | inl (thrown, _, e) ↦ rw e well
      | inr (room, there, e) ↦ elim (Result-cases (update (update_of env settings) room)) [
        | inr (thrown, f) ↦ rw (e, f) well
        | inl (updated, f) ↦
            rw (e, f)
              λ r h. elim (ℕ_discrete k r) [
                | yes p ↦ well r (rw p at there)
                | no n ↦
                    let row = persisted (redis.rooms.get k s.rooms) updated.props in
                    well r (rw (redis.rooms.get_set k r row s.rooms, ==_ne k r n) at h)
              ]
      ]
    ];
  }

  pub update_settings-Preserves :
      (env : WaitingEnv) (k requester : ℕ) (settings : Settings)
      → Preserves (update_settings {redis = redis} env k requester settings)
  unfolding update_settings
  update_settings-Preserves env k requester settings =
      >>=-Preserves (load_waiting_entity-Preserves k) λ w. >>=-Preserves (lift-Preserves _) λ _.
        >>=-Preserves (lift-Preserves _) λ _.
          >>=-Preserves (reset_teams-Preserves k settings.mode w) λ _.
            >>=-Preserves (update_room-Preserves env k settings)
              λ _. >>=-Preserves (get_player_responses-Preserves k) λ players. pure-Preserves _
