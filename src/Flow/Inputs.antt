-- ===== src/Flow/Inputs.antt =====
-- `take_inputs`, `collect_array_input` and `start_node` of crates/flow/src/flow_graph.rs.
pub mod Supply
use flow_backend.Prelude.{
  ℕ, length, Bool, ◌+◌, ◌%◌, ◌^◌, false, Option, none, some, List, [], ◌∷◌, ◌++◌, str, str_beq,
  nat_beq, nat_eq, pair_eq, if◌then◌else◌,
}
use flow_backend.Prelude.Assoc
use flow_backend.Prelude.Assoc.{Assoc}
use flow_backend.Value
use flow_backend.Value.{Value, Values, Map}
use flow_backend.Flow.Track.{TrackEdgeValue, is_array, zip}
use flow_backend.Flow.Command.{ReadAs, passthrough_outputs}
use flow_backend.Flow.State.{
  NodeId, NodeIndex, Node, EdgeValue, Edge, FlowGraph, RunningNodeInfo, State, Event,
}
use flow_backend.Flow.Ready.{collect, flow_input}

-- A node's inputs, their common tracker, and the edges that are left.
pub record Taken : Type 0 where
  pub values : Map
  pub tracker : TrackEdgeValue
  pub edges : List Edge

abbrev tail_of {ℓ} : {A : Type ℓ} → List A → List A
tail_of [] = []
tail_of (x ∷ xs) = xs

-- A value of a loop is taken off its edge; any other stays for the next run.
abbrev pub pop_front : Edge → EdgeValue → Edge
pop_front e v = if is_array v.tracker then record e { values = tail_of e.values } else e

unfoldable pub take_edge : Edge → Map → TrackEdgeValue → (Map × TrackEdgeValue) × Edge
take_edge e values tracker = elim e.values [
  | [] ↦ ((values, tracker), e)
  | v ∷ _ ↦ elim v.value [
    | none ↦ ((values, tracker), e)
    | some value ↦ ((Value.insert values e.to value, zip tracker v.tracker), pop_front e v)
  ]
]

abbrev keep_edge : Edge → Taken → Taken
keep_edge e t = record t { edges = e ∷ t.edges }

unfoldable pub take_edges : NodeIndex → List Edge → Map → TrackEdgeValue → Taken
unfolding take_edge
take_edges idx [] values tracker = record { values = values; tracker = tracker; edges = [] }
take_edges idx (e ∷ es) values tracker =
    let kept = keep_edge e (take_edges idx es values tracker) in
    let taken =
      (let ((values', tracker'), e') = take_edge e values tracker in
        keep_edge e' (take_edges idx es values' tracker')) in
    if nat_beq e.target idx then taken else kept

unfoldable pub take_inputs : FlowGraph → NodeIndex → Taken
unfolding take_edges
take_inputs f idx = take_edges idx f.edges Map.empty TrackEdgeValue.none

-- The values of a queue, in order.
unfoldable pub queue_values : List EdgeValue → Values
queue_values [] = Values.nil
queue_values (v ∷ vs) =
    let rest = queue_values vs in elim v.value [ none ↦ rest | some w ↦ Values.cons w rest ]

unfoldable pub collect_edges : NodeIndex → List Edge → Values × List Edge
unfolding queue_values
collect_edges idx [] = (Values.nil, [])
collect_edges idx (e ∷ es) =
    let (array, es') = collect_edges idx es in
    if nat_beq e.target idx
    then (queue_values e.values, record e { values = [] } ∷ es)
    else (array, e ∷ es')

unfoldable pub collect_array_input : FlowGraph → NodeIndex → Taken
unfolding collect_edges
collect_array_input f idx =
    let (array, edges) = collect_edges idx f.edges in
    record {
      values = Value.insert Map.empty (str "element") (Value.array array);
      tracker = TrackEdgeValue.none;
      edges = edges;
    }

unfoldable pub node_inputs : FlowGraph → State → Node → Taken
unfolding take_inputs collect_array_input
node_inputs f s node =
    if str_beq node.command.name flow_input
    then record { values = s.flow_inputs; tracker = TrackEdgeValue.none; edges = f.edges }
    else if str_beq node.command.name collect
    then collect_array_input f node.idx
    else take_inputs f node.idx

-- Form values serve where no edge supplies one.
unfoldable pub with_form : Map → Map → Map
with_form inputs Map.empty = inputs
with_form inputs (Map.entry name value form) =
    with_form (if Value.contains_key inputs name then inputs else Value.insert inputs name value)
      form

-- `times` is a u32.
unfoldable pub next_times : Option ℕ → ℕ
next_times none = 0
next_times (some t) = (t + 1) % 2 ^ 32

abbrev pub or_empty {ℓ} : {A : Type ℓ} → Option (List A) → List A
or_empty none = []
or_empty (some l) = l

abbrev new_info : ReadAs → Node → ℕ → Map → TrackEdgeValue → RunningNodeInfo
new_info read node times inputs tracker = record {
  id = node.id;
  times = times;
  node_idx = node.idx;
  command_name = node.command.name;
  tracker = tracker;
  instruction_info = node.command.instruction_info;
  passthrough = passthrough_outputs read node.command inputs;
  waiting = none;
  instruction_sent = false;
}

-- The spawned task runs `run_command`, which first sends the event NodeStart.
unfoldable pub spawn_node : ReadAs → State → Node → ℕ → Map → TrackEdgeValue → State
spawn_node read s node times inputs tracker = record s {
  ran = Assoc.insert s.ran node.id times;
  running_info =
      Assoc.insert s.running_info (node.id, times) (new_info read node times inputs tracker);
  result = record s.result {
    node_outputs =
        Assoc.insert s.result.node_outputs node.id
          (or_empty (Assoc.get s.result.node_outputs node.id) ++ Map.empty ∷ []);
  };
  events = s.events ++ Event.node_start node.id times inputs ∷ [];
  running = s.running ++ record { node = node; times = times; inputs = inputs } ∷ [];
}

abbrev pub Run : Type 0
Run = FlowGraph × State

unfoldable pub start_idle : ReadAs → FlowGraph → State → NodeId → Node → Run
unfolding node_inputs with_form next_times spawn_node
start_idle read f s id node =
    let taken = node_inputs f s node in
    (
      record f { nodes = Assoc.remove f.nodes id; edges = taken.edges },
      spawn_node read s node (next_times (Assoc.get s.ran node.id))
          (with_form taken.values node.form_inputs) taken.tracker,
    )

-- `debug_assert_eq!(outputs.len(), times as usize)`
unfoldable pub counts_agree : State → NodeId → Bool
unfolding next_times
counts_agree s id =
    nat_beq (length (or_empty (Assoc.get s.result.node_outputs id)))
      (next_times (Assoc.get s.ran id))

-- `none` is the panic of `self.nodes.remove(&id).unwrap()`, or of the assertion.
unfoldable pub start_node : ReadAs → FlowGraph → State → NodeId → Option Run
unfolding start_idle counts_agree
start_node read f s id = elim (Assoc.get f.nodes id) [
  | none ↦ none
  | some node ↦ if counts_agree s node.id then some (start_idle read f s id node) else none
]
