-- ===== src/Game.antt =====
-- The running game (src/game): the session entity, the phases and what follows a match.
pub mod Session
pub mod Ready
pub mod Disconnect
pub mod Drawing
pub mod Topic
pub mod Items
pub mod Finalising
pub mod Evaluation
pub mod Service
pub mod Results
