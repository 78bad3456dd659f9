-- ===== src/Flow/State.antt =====
-- The data of crates/flow/src/flow_graph.rs: the graph, its nodes and edges, and the state of a run.
-- A HashMap is an association list; the graph is its node weights by index and its edges, in the
-- order in which petgraph lists them. A channel is the list of what was sent through it; a oneshot
-- sender is the number of its channel.
use flow_backend.Prelude.{ℕ, Bool, Option, List, Str}
use flow_backend.Prelude.Assoc.{Assoc}
use flow_backend.Value.{Value, Map}
use flow_backend.Flow.Track.{TrackEdgeValue}
use flow_backend.Flow.Stop.{StopSignal}
use flow_backend.Flow.Command.{Name, Command, InstructionInfo}

abbrev pub NodeId : Type 0
NodeId = ℕ

abbrev pub NodeIndex : Type 0
NodeIndex = ℕ

abbrev pub EdgeIndex : Type 0
EdgeIndex = ℕ

pub record UsePreviousValue : Type 0 where
  pub node_id : NodeId
  pub output_name : Name
  pub foreach : Bool

pub record Node : Type 0 where
  pub id : NodeId
  pub command : Command
  pub form_inputs : Map
  pub idx : NodeIndex
  pub use_previous_values : Assoc Name UsePreviousValue

pub record EdgeValue : Type 0 where
  pub value : Option Value
  pub tracker : TrackEdgeValue

-- The weight of an edge, and its ends.
pub record Edge : Type 0 where
  pub id : EdgeIndex
  pub source : NodeIndex
  pub target : NodeIndex
  pub from : Name
  pub to : Name
  pub is_required_input : Bool
  pub is_optional_output : Bool
  pub values : List EdgeValue

-- An account key, and the part of a keypair that the graph looks at.
abbrev pub Pubkey : Type 0
Pubkey = ℕ

pub record Keypair : Type 0 where
  pub pubkey : Pubkey
  pub is_adapter_wallet : Bool

-- An instruction is opaque to the graph.
abbrev pub Instruction : Type 0
Instruction = ℕ

pub record Instructions : Type 0 where
  pub fee_payer : Pubkey
  pub signers : List Keypair
  pub instructions : List Instruction

pub record FlowGraph : Type 0 where
  pub weights : Assoc NodeIndex NodeId
  pub edges : List Edge
  pub nodes : Assoc NodeId Node

abbrev pub Channel : Type 0
Channel = ℕ

pub record Waiting : Type 0 where
  pub instructions : Instructions
  pub resp : Option Channel

pub record RunningNodeInfo : Type 0 where
  pub id : NodeId
  pub times : ℕ
  pub node_idx : NodeIndex
  pub command_name : Name
  pub tracker : TrackEdgeValue
  pub instruction_info : Option InstructionInfo
  pub passthrough : Map
  pub waiting : Option Waiting
  pub instruction_sent : Bool

-- The texts of the errors that the graph writes, by what they are made of.
pub data Message : Type 0 where
  command : Str → Message
  no_instruction_info : Message
  output_not_found : List Name → Message
  panicked : Str → Message
  task_canceled : Message
  no_value_for_port : Name → Message
  sort_transactions_failed cycle : Message
  nodes_failed : ℕ → Message
  build_failed : Str → Message

-- What the RPC client reports is opaque to the graph.
abbrev pub SolanaError : Type 0
SolanaError = ℕ

-- The errors that a node is answered with.
pub data ExecuteError : Type 0 where
  canceled : Option Str → ExecuteError
  tx_sim_failed tx_incomplete : ExecuteError
  -- the client's error, and how many instructions were put in front
  solana : SolanaError → ℕ → ExecuteError
  failed : Message → ExecuteError

-- Result<execute::Response, execute::Error>
pub data Response : Type 0 where
  signature : Option ℕ → Response
  error : ExecuteError → Response

pub data Event : Type 0 where
  flow_start : Event
  node_start : NodeId → ℕ → Map → Event
  node_output : NodeId → ℕ → Map → Event
  node_error : NodeId → ℕ → Message → Event
  node_finish : NodeId → ℕ → Event
  flow_error : Message → Event
  flow_finish : Map → List NodeId → Event

-- What a command returns through its service: instructions to run and outputs, or an error.
pub data Output : Type 0 where
  ok : Option Instructions → Map → Output
  err : Str → Output

pub record PartialOutput : Type 0 where
  pub node_id : NodeId
  pub times : ℕ
  pub output : Output
  -- `none` where the receiver is dropped at once
  pub resp : Option Channel

pub record FlowRunResult : Type 0 where
  pub output : Map
  pub node_outputs : Assoc NodeId (List Map)
  pub node_errors : Assoc (NodeId × ℕ) (List Message)
  pub not_run : List NodeId
  pub flow_errors : List Message
  pub instructions : Option Instructions

-- A spawned command: it owns its node until it finishes.
pub record Task : Type 0 where
  pub node : Node
  pub times : ℕ
  pub inputs : Map

pub record State : Type 0 where
  pub previous_values : Assoc NodeId (List Value)
  pub flow_inputs : Map
  pub events : List Event
  pub ran : Assoc NodeId ℕ
  pub running : List Task
  pub running_info : Assoc (NodeId × ℕ) RunningNodeInfo
  pub result : FlowRunResult
  pub stop : StopSignal
  pub stop_shared : StopSignal
  pub responses : List (Channel × Response)

-- Finished, or the JoinError of a task that panicked (with its text) or was cancelled.
pub data Joined : Type 0 where
  finished : Node → ℕ → Output → Joined
  panic : Str → Joined
  cancelled : Joined
