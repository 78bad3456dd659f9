-- ===== src/Flow/Outputs.antt =====
-- `save_outputs`, `save_missing_optional_outputs`, `node_finished` and the error reports of
-- crates/flow/src/flow_graph.rs. `none` is a panic: of one of their
-- `expect`s, of an index, or of the `debug_assert!` that a build with debug assertions keeps.
pub mod Push
pub mod Agrees
pub mod Loop
use flow_backend.Prelude.{
  ℕ, suc, ◌%◌, ◌^◌, true, not, ◌&&◌, Option, none, some, List, [], ◌∷◌, ◌++◌, str_beq, nat_beq,
  nat_eq, pair_eq, map, all, get_elem?, set, if◌then◌else◌,
}
use flow_backend.Prelude.Assoc
use flow_backend.Value
use flow_backend.Value.{Value, Values, Map}
use flow_backend.Flow.Command.{Name, CmdOutputDescription, InstructionInfo}
use flow_backend.Flow.State.{
  NodeId, NodeIndex, Node, EdgeValue, Edge, FlowGraph, Channel, Response, Event, Message,
  ExecuteError, Instructions, RunningNodeInfo, Output, PartialOutput, FlowRunResult, State, Joined,
}
use flow_backend.Flow.Ready.{foreach}
use flow_backend.Flow.Inputs.{Run, or_empty}
use flow_backend.Flow.Outputs.Push.{push_outputs, tracker_agrees}

unfoldable pub node_error : State → NodeId → ℕ → Message → State
node_error s id times error = record s {
  events = s.events ++ Event.node_error id times error ∷ [];
  result = record s.result {
    node_errors =
        Assoc.insert s.result.node_errors (id, times)
          (or_empty (Assoc.get s.result.node_errors (id, times)) ++ error ∷ []);
  };
}

unfoldable pub flow_error : State → Message → State
flow_error s error = record s {
  events = s.events ++ Event.flow_error error ∷ [];
  result = record s.result { flow_errors = s.result.flow_errors ++ error ∷ [] };
}

-- A send to a receiver that is gone is ignored.
abbrev pub send : State → Option Channel → Response → State
send s none r = s
send s (some c) r = record s { responses = s.responses ++ (c, r) ∷ [] }

-- Names that the command left out take their passthrough value.
unfoldable pub fill : Map → List Name → Map → Map
fill passthrough [] values = values
fill passthrough (name ∷ names) values = fill passthrough names (
    if Value.contains_key values name
    then values
    else elim (Value.get passthrough name) [ none ↦ values | some v ↦ Value.insert values name v ])

unfoldable pub outgoing : RunningNodeInfo → Map → Map
unfolding fill
outgoing info values = elim info.instruction_info [
  | none ↦ Value.extend values info.passthrough
  | some ins_info ↦
      if info.instruction_sent
      then fill info.passthrough ins_info.after values
      else fill info.passthrough ins_info.before values
]

-- Instructions wait for their transaction; a node that declares none is refused.
unfoldable pub wait_or_refuse :
    State → PartialOutput → RunningNodeInfo → Instructions → Option InstructionInfo → State
unfolding node_error
wait_or_refuse s o info ins (some _) = record s {
  running_info =
      Assoc.insert s.running_info (o.node_id, o.times)
        (record info { waiting = some (record { instructions = ins; resp = o.resp }) });
}
wait_or_refuse s o info ins none =
    node_error (send s o.resp (Response.error (ExecuteError.failed Message.no_instruction_info)))
      info.id info.times Message.no_instruction_info

-- The answer to the node: at once, when its instructions have run, or an error.
unfoldable pub settle : State → PartialOutput → RunningNodeInfo → Option Instructions → State
unfolding wait_or_refuse
settle s o info none = send s o.resp (Response.signature none)
settle s o info (some ins) = wait_or_refuse s o info ins info.instruction_info

-- The record of a node that has sent its `before` outputs.
abbrev pub mark_sent : RunningNodeInfo → RunningNodeInfo
mark_sent info = elim info.instruction_info [
  | none ↦ info
  | some _ ↦ record info { instruction_sent = true }
]

-- `node_outputs[id][times].extend(values)`
unfoldable pub extend_outputs : FlowRunResult → NodeId → ℕ → Map → Option FlowRunResult
extend_outputs r id times values = elim (Assoc.get r.node_outputs id) [
  | none ↦ none
  | some runs ↦ elim (get_elem? runs times) [
    | none ↦ none
    | some old ↦ some (record r {
      node_outputs = Assoc.insert r.node_outputs id (set runs times (Value.extend old values));
    })
  ]
]

abbrev pub with_output : State → PartialOutput → RunningNodeInfo → Map → FlowRunResult → State
with_output s o info values result = record s {
  running_info = Assoc.insert s.running_info (o.node_id, o.times) info;
  events = s.events ++ Event.node_output info.id info.times values ∷ [];
  result = result;
}

unfoldable pub save_values :
    FlowGraph → State → PartialOutput → RunningNodeInfo → Option Instructions → Map → Option Run
unfolding push_outputs tracker_agrees extend_outputs settle
save_values f s o info ins values =
    let info' = mark_sent info in
    elim (extend_outputs s.result info.id info.times values) [
      | none ↦ none
      | some result ↦
          if all (tracker_agrees info values) f.edges
          then some (
            record f { edges = map (push_outputs info values) f.edges },
            settle (with_output s o info' values result) o info' ins,
          )
          else none
    ]

-- A result extends the outputs; an error is the node's answer.
unfoldable pub save_found :
    FlowGraph → State → PartialOutput → RunningNodeInfo → Output → Option Run
unfolding outgoing save_values node_error
save_found f s o info (Output.ok ins values) = save_values f s o info ins (outgoing info values)
save_found f s o info (Output.err error) = some (
  f,
  node_error (send s o.resp (Response.error (ExecuteError.failed (Message.command error)))) info.id
      info.times (Message.command error),
)

unfoldable pub save_outputs : FlowGraph → State → PartialOutput → Option Run
unfolding save_found
save_outputs f s o = elim (Assoc.get s.running_info (o.node_id, o.times)) [
  | none ↦ none
  | some info ↦ save_found f s o info o.output
]

-- What the run of a node has output so far.
abbrev pub output_of : State → NodeId → ℕ → Option Map
output_of s id times = elim (Assoc.get s.result.node_outputs id) [
  | none ↦ none
  | some runs ↦ get_elem? runs times
]

unfoldable pub push_missing : RunningNodeInfo → Map → Edge → Edge
push_missing info output e =
    if nat_beq e.source info.node_idx
      && (e.is_optional_output && not (Value.contains_key output e.from))
    then record e { values = e.values ++ record { value = none; tracker = info.tracker } ∷ [] }
    else e

unfoldable pub save_missing_optional_outputs : FlowGraph → State → NodeId → ℕ → Option FlowGraph
unfolding push_missing
save_missing_optional_outputs f s id times = elim (Assoc.get s.running_info (id, times)) [
  | none ↦ none
  | some info ↦ elim (output_of s id times) [
    | none ↦ none
    | some output ↦ some (record f { edges = map (push_missing info output) f.edges })
  ]
]

-- The required outputs that a finished node did not return.
unfoldable pub missing_outputs : List CmdOutputDescription → Map → List Name
missing_outputs [] output = []
missing_outputs (o ∷ os) output =
    let rest = missing_outputs os output in
    if not o.optional && not (Value.contains_key output o.name) then o.name ∷ rest else rest

unfoldable pub report_missing : State → NodeId → ℕ → List Name → State
unfolding node_error
report_missing s id times [] = s
report_missing s id times (n ∷ ns) = node_error s id times (Message.output_not_found (n ∷ ns))

-- The node goes back to the graph.
unfoldable pub retire : FlowGraph → State → Node → ℕ → Run
retire f s node times = (
  record f { nodes = Assoc.insert f.nodes node.id node },
  record s {
    events = s.events ++ Event.node_finish node.id times ∷ [];
    running_info = Assoc.remove s.running_info (node.id, times);
  },
)

abbrev without_instructions : Output → Output
without_instructions (Output.ok ins values) = Output.ok none values
without_instructions (Output.err e) = Output.err e

-- What the command returned in the end goes through `save_outputs`, with no instructions.
abbrev pub final_output : Node → ℕ → Output → PartialOutput
final_output node times output = record {
  node_id = node.id;
  times = times;
  output = without_instructions output;
  resp = none;
}

unfoldable pub close_node : FlowGraph → State → Node → ℕ → Option Run
unfolding save_missing_optional_outputs missing_outputs report_missing retire
close_node f s node times = elim (save_missing_optional_outputs f s node.id times) [
  | none ↦ none
  | some f' ↦ elim (output_of s node.id times) [
    | none ↦ none
    | some output ↦ some (
        retire f' (report_missing s node.id times (missing_outputs node.command.outputs output))
          node times)
  ]
]

-- The result of `node_finished`: the error of a task that did not return stops the flow.
pub data Ended : Type 0 where
  ok : Run → Ended
  err : Message → Run → Ended

unfoldable pub node_finished : FlowGraph → State → Joined → Option Ended
unfolding save_outputs close_node flow_error
node_finished f s (Joined.finished node times output) =
    elim (save_outputs f s (final_output node times output)) [
      | none ↦ none
      | some (f', s') ↦ elim (close_node f' s' node times) [
        | none ↦ none
        | some r ↦ some (Ended.ok r)
      ]
    ]
node_finished f s (Joined.panic text) =
    some (Ended.err (Message.panicked text) (f, flow_error s (Message.panicked text)))
node_finished f s Joined.cancelled =
    some (Ended.err Message.task_canceled (f, flow_error s Message.task_canceled))
