-- ===== src/Game/Service/Toggle.antt =====
-- Readiness in the round summary: `handleReadyToggle` of
-- src/game/round-summary/round-summary.service.ts.
use pollycasso_back.Prelude.{
  Bool, [], all, if◌then◌else◌, includes, keys, length, ltb, not, some, without, ℕ, ◌&&◌, ◌++◌, ◌∷◌,
}
use pollycasso_back.GameState.{
  GameState, PhaseContext, RoundSummaryPhaseContext, summary_context?, no_change, is_round_summary,
}
use pollycasso_back.GameState.Store.{Redis}
use pollycasso_back.Game.Disconnect.{became_ready}
use pollycasso_back.Game.Ready.{get_ready_summary_from_state}
use pollycasso_back.Game.Service.{
  M, Surroundings, Sent, ◌>>=◌, ◌>>◌, send, read, change, if_some, if_true,
}
use pollycasso_back.Game.Service.Summary.{advance_from_round_summary}

abbrev pub toggled : ℕ → RoundSummaryPhaseContext → RoundSummaryPhaseContext
toggled user_id c = record c {
  ready_user_ids =
      if includes c.ready_user_ids user_id
      then without user_id c.ready_user_ids
      else c.ready_user_ids ++ user_id ∷ [];
}

-- Every member is ready, and there is one.
abbrev pub all_members_ready : GameState → RoundSummaryPhaseContext → Bool
all_members_ready st c =
    let members = keys st.room_member_id_by_user_id in
    ltb 0 (length members) && all (includes c.ready_user_ids) members

module _ {redis : Redis} where
  -- After the write: the end of the summary, or the news for the players.
  unfoldable pub announce : Surroundings → ℕ → ℕ → Bool → GameState → M redis (Unit {0})
  announce env room_id user_id is_ready p = if_some (summary_context? p.phase_context) λ c.
      if all_members_ready p c then advance_from_round_summary env room_id else do
        send (Sent.player_update room_id (became_ready user_id is_ready))
        send (Sent.ready_summary room_id (get_ready_summary_from_state p))

  unfoldable pub handle_ready_toggle : Surroundings → ℕ → ℕ → M redis (Unit {0})
  unfolding announce
  handle_ready_toggle env room_id user_id = do
    found ← read room_id
    if_some found λ st.
        if_true (is_round_summary st.phase && includes (keys st.room_member_id_by_user_id) user_id)
          (if_some (summary_context? st.phase_context) λ c. do
            patched ← change room_id (record no_change {
              phase_context = some (some (PhaseContext.round_summary (toggled user_id c)));
            })
            if_some patched
                λ p. announce env room_id user_id (not (includes c.ready_user_ids user_id)) p)
