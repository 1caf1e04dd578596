-- ===== src/Lib.antt =====
-- A verification library of pollycasso-back, the server of a drawing game: rooms that players join and
-- leave, a game of several rounds (choosing a theme, drawing, rating each other's drawings, a summary),
-- and the results of a match. It models the core logic of the server, the part that decides; the
-- database, Redis, sockets, timers and random numbers around it are arguments.
--
-- How the parts interact. A player waits in a room (src/room, src/waiting); the host starts a game, whose
-- state is one JSON value per room in Redis (src/game-state). The gateways (src/game/*.gateway.ts) pass the
-- messages of the players on to the services, which read the state, ask the entities, and write a new
-- state; the session service (src/game/session) owns the timers that end a phase, and moves the game from
-- phase to phase. The evaluation service computes the round summaries from the votes, and the session
-- service the final results from the totals.
--
-- Files and sources:
--   Outfit, Room          src/outfit/entities/outfit.entity.ts, src/room/entities/room.entity.ts (a class is its
--                         props record; a method that throws answers a Result)
--   Waiting               src/waiting/entities/waiting.entity.ts; validateX is validate_x
--   GameState             src/game-state/interfaces/game-state.interface.ts
--   GameState/Store       src/game-state/game-state.store.ts over a parameter Redis
--   Game/Session          src/game/entities/game-session.entity.ts, src/game/constants/game.constant.ts
--   Game/Ready            src/game/utils/game-phase-ready.util.ts
--   Game/Disconnect       src/game/interfaces/game-disconnect.interface.ts, game.interface.ts
--   Game/Drawing          src/game/drawing/entities/drawing.entity.ts, drawing.service.ts
--   Game/Topic            src/game/topic/topic.service.ts
--   Game/Evaluation       src/game/evaluation/evaluation.service.ts (Votes: submitEvaluation; Summary:
--                         mergeTotals, buildRankings, computeRoundSummary)
--   Game/Results          computeFinalScoresByUserId and buildFinalResults of
--                         src/game/session/game-session.service.ts, src/game/finished/policies
--   Game/Service          src/game/session/game-session.service.ts: the server's state (stored games,
--                         timers, guards, what was sent) and the monad of its methods; Drawing, Summary,
--                         Leaving and Toggle hold the methods, Events the messages and timeouts
--                         (src/game/game.gateway.ts, drawing.gateway.ts, topic.gateway.ts); Steps, Phases
--                         and Events/History hold the proofs about the phase diagram, Outcomes,
--                         Finishing and Events/Refusals those about single methods and messages
--   Game/Items            src/game/item: the decision of its domain and the two stores; Service has the methods
--                         of game-item.service.ts, Uses and Overlap the proofs
--   Game/Finalising       src/game/finished/match-finalize.service.ts, finished.repository.ts (Once: a second
--                         finalisation; Earnings: what the first one adds)
--   Exec                  methods as functions of a state that may throw
--   Database, Keys        a database table (Prisma) and the kinds of keys in Redis, with named laws
--   Waiting/Store         src/waiting/waiting.store.ts: members, hashes of players, hosts
--   Waiting/Service       src/waiting/waiting.service.ts: loading, joining; Changes has what players and
--                         the host change, Leaving the departures and the start of a game, with
--                         src/waiting/waiting.repository.ts and parts of src/room/room.service.ts
--   Waiting/Hosts         proofs about members and hosts: Joining, Changing, Dropping, Leaving, Departing
--                         for the methods, Requests for sequences, Outcomes for single methods
--   Social                src/friend/friend.repository.ts, src/block/block.repository.ts; Blocks and
--                         Friends are src/block/block.service.ts and src/friend/friend.service.ts, Chat
--                         src/chat; Rows and Refinement compare them with an abstract view, Safety has
--                         runs of requests
--   Tests                 concrete rooms, games and scores, to which the theorems are applied
--   Prelude               Boolean tests, lists, strings, results, JavaScript numbers, sorting
--
-- Conventions. Ids, scores and times are natural numbers; `Number(text)` is an argument, with the law
-- that it reads decimal digits back where a theorem needs it; for the hash of a waiting player, which holds
-- the digits that the store wrote, it is the value of the digits. JavaScript objects with number keys are
-- pair lists. `?.`, null and undefined are Option. An exception is an `err` with its class and code; state
-- that was changed before it stays changed. Recursion is structural but for the digits of a number, whose
-- fuel n + 1 is enough for n because each round divides by ten.
--
-- Bounds. A method of the session service runs from its call to its end without interruption: other
-- methods that run while it waits for Redis are not modelled. In it the outcomes of the drawing service,
-- the match finalisation and the vote repository are arguments, and may be exceptions. The methods of the
-- friend, block and waiting services and the finalisation run without interruption in the same way;
-- useItem of the item service is split at its await, and a second message may run there. Not modelled: the time to
-- live of Redis keys, log lines, the message test:setPhase (which writes any phase), the drawings sent to
-- each socket at the start of an evaluation, the gateways of the waiting room,
-- lists and searches of friends, shop, ranking and authentication.
mod Prelude
pub mod Outfit
pub mod Room
pub mod Waiting
pub mod GameState
pub mod Game
pub mod Tests
pub mod Exec
pub mod Database
pub mod Social
pub mod Keys
