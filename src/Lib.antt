-- ===== src/Lib.antt =====
-- flow-backend: the execution of flows, and the values that their nodes exchange.
--
-- A flow is a graph of nodes, each with a command. A run starts every node that is ready, takes its
-- inputs off its incoming edges, and puts what its command returns on its outgoing edges, until no
-- node runs. Commands of Solana return instructions and wait; when all running nodes wait, the
-- instructions of each transaction are bundled, executed, and the nodes answered.
--
-- Values (lib/flow-value/src):
--   Value            lib.rs: `Value` and its map. A string is its UTF-8 bytes, an f64 its 64 bits.
--   Value.Crud       crud.rs: `get`, `get_mut`, `insert`, `remove`. A mutable reference is a `Ref`:
--                    what it points to, and what a write makes of the whole value.
--                    Child and Focus are about get_mut, RoundTrip about insert and remove.
--   Value.Path       crud/path.rs: the parser of JSON pointers. Its loop has one round more than the
--                    text has bytes; each round but the last takes a slash off it.
--   Value.Normalize  lib.rs: `Value::normalize`, with rust_decimal as a parameter.
--   Value.Json       lib.rs: the conversions between values and JSON, and from bytes, with the numbers of
--                    serde_json and rust_decimal as parameters.
--   Value.Meaning    lib.rs: what `Value::normalize` keeps.
--   Value.Tests, Value.JsonTests  values, and the theorems at them.
--
-- The execution of a flow (crates/flow/src/flow_graph.rs, lib/flow-lib/src):
--   Flow.Track       `TrackEdgeValue`: to which loop a value belongs.
--   Flow.Command     `CommandTrait` and `InstructionInfo` of command/mod.rs, and the descriptions of
--                    config/mod.rs. What `run` of a command returns is an event of the execution.
--   Flow.State       `FlowGraph`, `Node`, `Edge`, `State`, `RunningNodeInfo`, `PartialOutput`, and the
--                    events. A hash map is an association list. A channel is the list of what was
--                    sent; a oneshot sender is a number. The graph is its node weights and its edges.
--   Flow.Config      `FlowConfig::new` of lib/flow-lib/src/config/mod.rs.
--   Flow.Build       `from_cfg`, and `need_previous_outputs`. A key of the configuration that names no
--                    state of the graph (context, fees, permits) is left out.
--   Flow.Stop        `StopSignal`.
--   Flow.Ready       `ready`, `finished`, `submit_is_false`; the recursion of `finished` is on
--                    fuel, one more than there are indices: it visits none twice.
--   Flow.Inputs      `take_inputs`, `collect_array_input`, `start_node`.
--   Flow.Outputs     `save_outputs`, `save_missing_optional_outputs`, `node_finished`, the errors. Push
--                    has what goes to the edges, Agrees when the assertion before it holds.
--   Flow.Transactions  `sort_transactions`, from the order that petgraph's toposort returns; as many
--                    rounds as there are nodes, and one more.
--   Flow.Bundle      `push_signer`, `set_feepayer` and `combine` of solana.rs, and bundling.
--   Flow.Execute     `StopSignal::race` and `collect_and_execute_instructions`; a transaction has as
--                    many rounds as nodes that wait.
--   Flow.Result      `collect_flow_output`, and the end of `run`.
--   Flow.Partial     the fake node of a partial run, and `supply_partial_run_values`.
--   Flow.Run         `run`. Fake is about the fake node, which is removed at the end, Cycle about a graph
--                    with a cycle. What `State::wait` gathers between two rounds is a list of batches: there
--                    is one round for each, and a run that needs more is pending.
--   Flow.Invariant   what holds between the tables of a run, and that each operation keeps it (Start,
--                    Save, Finish, Execute).
--   Flow.Steps       the steps of a run as a relation: a node starts, an output arrives, a node ends,
--                    transactions are executed, a signal stops the run.
--   Flow.Tests, Flow.ExecuteTests, Flow.RunTests, Flow.BuildTests  small flows, and the theorems at them.
--
-- The actors of the server (crates/flow-server/src/db_worker, crates/utils/src):
--   Server.Token       token_worker.rs: the JWT of a user, and who waits for a new one.
--   Server.Events      flow_run_events.rs: the events of a run.
--   Server.RunWorker   flow_run_worker.rs: subscriptions, stops, the history of events.
--   Server.Strip, Server.RunLog  flow_run_worker.rs: `strip` and `save_to_db`.
--   Server.Signer      signer.rs: which wallet or keypair signs for a key.
--   Server.SameLogic   `is_same_message_logic` of lib/flow-lib/src/solana.rs.
--   Server.UserWorker  user_worker.rs: the requests for signatures.
--   Server.AddressBook  address_book.rs.
--   Server.DbWorker    mod.rs: finding and starting actors, passing signatures on, copying logs.
--   Server.Tests, Server.RunTests, Server.UserTests  workers, and the theorems at them.
-- A handler of an actor takes its state and returns the new one; the life of an actor is a relation
-- (Steps, History, Life). Timers, tasks and receivers are part of the state, so that a step can take
-- any of them at any time.
--
-- A state is passed through the operations. Where the code panics (an `expect`, an index), the
-- operation returns `none`; a result or an error of the code is a value of its own type. The build is
-- one with debug assertions: a `debug_assert!` of `save_outputs` or `start_node` that fails is a panic;
-- a build without them does the same as long as they hold. The other two of the graph are left out:
-- that a transaction to execute has a node (Flow.Transactions.Filled has what the caller gives), and
-- that an instruction failed only if there is an error, which `failed_instruction` reads off the error.
-- Arithmetic wraps as with overflow checks off, so also the u32 that counts the rounds of a node.
--
-- Not modelled: the network, the database, mailboxes of actors (I/O over third-party code); the commands
-- of single nodes; serde; tracing and spans. petgraph's order of nodes, rust_decimal, what the
-- network answers, how a race goes, the text of a UUID, what the tasks do and the conversions of
-- forms are parameters.
pub mod Prelude
pub mod Value
pub mod Flow
pub mod Server
