-- ===== src/Tests.antt =====
-- The theorems applied to concrete rooms, games, votes and results.
mod Fixtures
mod Rooms
mod Phases
mod Scores
mod Events
mod Outcomes
mod Rounds
mod Finishing
use pollycasso_back.Prelude.{}
mod Social
mod Waiting
mod Items
mod Finalising
