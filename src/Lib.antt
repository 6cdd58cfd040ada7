-- ===== src/Lib.antt =====
-- A model of MurMesh, a library of replicated state machines in Rust: PBFT replicas and clients, an
-- unreplicated server with its clients, and the timers, keys and schedules that they stand on.
--
-- The parts and how they meet. A replica (src/pbft/replica.rs) is a state and one handler for each
-- event: a message from a peer or a client, a timer, or a message that the crypto worker has signed or
-- verified. A handler changes the state, sends messages, sets timers (src/timer.rs) and submits closures
-- to the worker, which signs and verifies (src/crypto.rs) and sends a further event back. A client
-- (src/pbft/client.rs) invokes one operation at a time, resends it by a timer, and waits for `f + 1` equal
-- results. The timers of the model are those of the model checker's schedule (src/model/search/state.rs).
-- The unreplicated clients and server (src/unreplicated.rs) are put together to a whole system, with a
-- network that keeps every message and with the clients' workloads (src/workload.rs): its states, events
-- and steps are what the model checker (src/model/search.rs) searches.
--
-- The files:
--   Exec: a handler is a function from a state to an outcome and a state, so that what was written before
--     an error stays written; Exec/Steps: rules to show that a handler obeys a relation, whatever its
--     outcome.
--   Map: `BTreeMap` with numeric keys, as a sorted association list; Map/Laws: its laws. OrderedSet:
--     `BTreeSet` as an ascending list; Laws, Removal and Pairs: its laws, and the order of pairs.
--   Event, Timer, Model/Schedule: src/event.rs (`ActiveTimer`, `ScheduleEvent`), src/timer.rs, and
--     `Schedule` of src/model/search/state.rs; Timer/Rounds: a timer that is set and unset.
--   Crypto: src/crypto.rs, signing and verifying; Crypto/Keys: what a key verifies.
--   Pbft/Parameters, Pbft/Messages: src/pbft/mod.rs and src/pbft/messages.rs.
--   Pbft/Client: src/pbft/client.rs; Pbft/Client/Matching: when a result is handed up.
--   Pbft/Replica: src/pbft/replica.rs. State (the fields, the context), Ordering (requests, batches,
--     PrePrepares), Prepare, Commit (and execution), ViewChange, NewView, Work (what the crypto worker
--     does with a closure), Event and Handle (the dispatch). A handler that calls a method and goes on is
--     cut into stages, one definition for each part that follows a call.
--   Pbft/Replica/Step: the assignments that the handlers make, as a step relation, the means of
--     induction over the handlers; Refine: every handler is a sequence of such steps.
--   Pbft/Replica/Invariant, Progress: what holds of the state at all times, and what only grows, by
--     induction on the steps. Invariant/Writes and ViewChange/Votes hold the lemmas. Ordering/Batch,
--     Ordering/Duplicates, Prepare/Drain, Commit/Drain, Commit/Batches, Commit/Execution (with
--     Commit/Frame) and ViewChange/Carry: one operation each. Work/Delivered: what one worker signs and another verifies.
--   Unreplicated: src/unreplicated.rs, the client and the server; Server/AtMostOnce: execution.
--   Unreplicated/Model: its module `model`, the whole system. A client's handler runs on the client alone;
--     what it sends and passes up, recorded in order, goes to the network and the workload when it is done.
--     Order: addresses, messages and their derived order. History: executions, and what they say of the
--     server and of the network. Growth: what the clients do to the network. Executions: what the server
--     does. AtMostOnce: the states that are reached. Idle: what waits in the senders, between the steps.
--     Turn, Asked, Turns, Rounds, Told: what a client's turn does, and the requests that are its own;
--     Answers: a reply that a client takes.
--   Net: src/net/combinators.rs; Net/Broadcast: a message to all.
--   Model/Network: `Network` of src/model/search/state.rs.
--   Model/Simulate: src/model/simulate.rs, the timers in the order of their times and the messages; Valid:
--     what holds of the timers; Runs: what each operation does.
--   Model/Search: src/model/search.rs, the breadth-first search. Entries: what holds of the map and of
--     the queues; Visits and Covers: the loops keep it; Trace: reports and traces; Bound: the depth limit.
--     Probe: one probe of the random search, and what it reports.
--   Workload, Workload/Iter, Workload/Record: src/workload.rs and src/workload/combinators.rs; Iter/Order:
--     a whole session of `Iter`. Workload/Codec: src/codec.rs, round an application and a workload.
--   Workload/Kvstore: src/workload/app/kvstore.rs, the key-value store and its endless workload, whose
--     random draws are arguments; Kvstore/Expected: the one against the other; Kvstore/App: the store as
--     an application of bytes; Kvstore/Session: what it answers over a session of requests.
--
-- Numbers and bounds. Numbers are native naturals; u32 additions on the code's counters are `% 2 ^ 32`
-- and usize subtraction `% 2 ^ 64`, as in a release build. `num_replica` is not 0 (the code's `%` would
-- panic there). Digests are numbers, byte strings are lists of numbers, durations are nanoseconds.
-- An out-of-bounds index, an `unwrap` of nothing and a failed assertion are the error `panic`; `bail` and
-- `ensure!` are the error `bail`.
--
-- Loops. The loops over pending votes run on fuel, one round for each pending vote and one more; the
-- execution loop on one round for each slot of the log and one more, since each round moves `commit_num`
-- on by one; the batch loop on one round for each op number up to its bound and one more, since each
-- round reserves a slot. The search runs on one round for each depth, and so does a probe; a trace on one
-- round for each depth up to that of its state. Fuel that is used up is the error `out_of_fuel`, which
-- the code does not have.
--
-- Parameters. The application (`App::execute`) is any function that may change its state, and may fail;
-- the curve libraries and the hash of a message are parameters, with what is asked of them named where it
-- is used, and so are the encoders of operations and results, the workloads of the clients and the random
-- choice of an event. The networks and the worker accept every message; what they are handed is recorded
-- in order.
--
-- Not modelled: the event loops and sockets (src/event/task.rs, src/net/task/, src/bin/), the adapters
-- between event types (src/event.rs, src/event/combinators.rs but for `Option`), the encoding of
-- messages (src/codec.rs, by bincode), the threads, the barrier and the time limit of the search (the
-- search is that of one worker, and `Timeout` is left out; so is the report of an exhausted space by
-- several workers while one still explores), the random choice of a message
-- (src/model/simulate.rs), batch verification and the hard-coded keys of src/crypto.rs, and the tests.
pub mod Prelude
pub mod Map
pub mod OrderedSet
pub mod Exec
pub mod Event
pub mod Net
pub mod Timer
pub mod Model
pub mod Crypto
pub mod Pbft
pub mod Unreplicated
pub mod Workload
mod Tests
