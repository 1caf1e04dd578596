-- ===== src/Tests/Finishing.antt =====
-- The end of a match in a room.
use pollycasso_back.Prelude.{
  [], arith, false, if◌then◌else◌, includes, ok, refl, some, ℕ, ◌==◌, ◌∷◌, ◌≡◌,
}
use pollycasso_back.GameState.{GameState}
use pollycasso_back.GameState.Store
use pollycasso_back.GameState.Store.{map_redis}
use pollycasso_back.Game.Service.Summary.{advance_from_round_summary}
use pollycasso_back.Game.Service.Finishing.{
  finished_of, results_of, Settles, advance_from_round_summary_lem,
}
use pollycasso_back.Game.Evaluation.{make_drawing_id}
use pollycasso_back.Tests.Fixtures.{calm, server_with}
use pollycasso_back.Tests.Rounds.{summary_game}

-- The summary of the third round, in which member 12 has scored.
abbrev last_summary : GameState
last_summary = record summary_game {
  current_round = some 3;
  total_scores = (make_drawing_id 7 12 3, 9) ∷ [];
}

finish_example :
    Settles 5 last_summary
      (results_of calm last_summary)
      (ok [])
      []
      (advance_from_round_summary calm 5 (server_with last_summary)).0
      (advance_from_round_summary calm 5 (server_with last_summary)).1.sent
    × ((j : ℕ)
        → Store.get map_redis j
            (advance_from_round_summary calm 5 (server_with last_summary)).1.store
          ≡ (if 5 == j
              then some (finished_of last_summary)
              else Store.get map_redis j (server_with last_summary).store))
    × ((advance_from_round_summary calm 5 (server_with last_summary)).1.timers ≡ [])
    × (includes
          (advance_from_round_summary calm 5 (server_with last_summary)).1.round_summary_exit_guard
          5
        ≡ false)
unfolding Store.get
finish_example =
    advance_from_round_summary_lem calm 5 (server_with last_summary) last_summary (ok []) refl refl
      refl (omega arith) (omega arith) refl
