-- ===== src/Server/Events.antt =====
-- The events of a run: crates/flow/src/flow_run_events.rs. Times are numbers.
use flow_backend.Prelude.{ℕ, Bool, true, false, Option, List, Str}
use flow_backend.Value.{Value}
use flow_backend.Flow.State.{NodeId}

pub data LogLevel : Type 0 where
  trace debug info warn error : LogLevel

pub record NodeLog : Type 0 where
  pub time : ℕ
  pub node_id : NodeId
  pub times : ℕ
  pub level : LogLevel
  pub module_path : Option Str
  pub content : Str

pub record FlowLog : Type 0 where
  pub time : ℕ
  pub level : LogLevel
  pub module_path : Option Str
  pub content : Str

pub data Event : Type 0 where
  flow_start : (time : ℕ) → Event
  flow_error : (time : ℕ) (error : Str) → Event
  flow_log : FlowLog → Event
  flow_finish : (time : ℕ) (not_run : List NodeId) (output : Value) → Event
  node_start : (time : ℕ) (node_id : NodeId) (times : ℕ) (input : Value) → Event
  node_output : (time : ℕ) (node_id : NodeId) (times : ℕ) (output : Value) → Event
  node_error : (time : ℕ) (node_id : NodeId) (times : ℕ) (error : Str) → Event
  node_log : NodeLog → Event
  node_finish : (time : ℕ) (node_id : NodeId) (times : ℕ) → Event
  signature_request : (time : ℕ) (id : ℕ) → Event

-- matches!(item, Event::FlowFinish(_))
abbrev pub is_finish : Event → Bool
is_finish (flow_finish time not_run output) = true
is_finish _ = false
