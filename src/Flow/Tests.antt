-- ===== src/Flow/Tests.antt =====
-- A flow of two nodes, and the theorems at it.
use flow_backend.Prelude.{
  ℕ, ◌≡◌, ◌↔◌, refl, true, false, none, some, List, [], ◌∷◌, Str, str, arith, All, nat_eq, ◌≢◌,
}
use flow_backend.Prelude.Assoc
use flow_backend.Value
use flow_backend.Value.{Value, Values, Map, empty, entry}
use flow_backend.Flow.Track.{TrackEdgeValue, is_array, nest}
use flow_backend.Flow.Stop
use flow_backend.Flow.Command.{Command, ReadAs}
use flow_backend.Flow.State.{
  Node, EdgeValue, Edge, FlowGraph, RunningNodeInfo, Output, PartialOutput, Task, State, Joined,
}
use flow_backend.Flow.Ready.{foreach, ready_node, finished, finished_recursive}
use flow_backend.Flow.Ready.Enough.{finished_enough}
use flow_backend.Flow.Ready.Once.{ready_once}
use flow_backend.Flow.Inputs.{Run, start_idle, start_node, take_inputs, collect_array_input}
use flow_backend.Flow.Inputs.Supply.{
  Supplies, take_inputs-edges, take_inputs-tracker, ready-take_inputs,
}
use flow_backend.Flow.Outputs.{save_outputs, node_finished, Ended}
use flow_backend.Flow.Outputs.Agrees.{Agrees}
use flow_backend.Flow.Outputs.Push.{push_outputs}
use flow_backend.Flow.Outputs.Loop.{IsLoopValue, collect-foreach}
use flow_backend.Flow.Invariant.{IsConsistent}
use flow_backend.Flow.Invariant.Start.{CanCount}
use flow_backend.Flow.Steps.{
  Step, Reach, IsKeyed, initial_state, run-IsConsistent, start_node_total, save_outputs_total,
  node_finished_total,
}

abbrev plain_command : Str → Command
plain_command name = record {
  name = name;
  inputs = record { name = str "x"; type_bounds = []; required = true; passthrough = true } ∷ [];
  outputs = [];
  instruction_info = none;
}

abbrev node_at : ℕ → ℕ → Str → Node
node_at id idx name = record {
  id = id;
  command = plain_command name;
  form_inputs = empty;
  idx = idx;
  use_previous_values = [];
}

abbrev source_node : Node
source_node = node_at 7 0 (str "const")

abbrev sink_node : Node
sink_node = node_at 9 1 (str "print")

abbrev scalar : EdgeValue
scalar = record { value = some (Value.u64 5); tracker = TrackEdgeValue.none }

abbrev looped : EdgeValue
looped = record { value = some (Value.u64 5); tracker = TrackEdgeValue.element 0 2 }

abbrev edge_with : List EdgeValue → Edge
edge_with values = record {
  id = 0;
  source = 0;
  target = 1;
  from = str "y";
  to = str "x";
  is_required_input = true;
  is_optional_output = false;
  values = values;
}

abbrev graph_with : List EdgeValue → FlowGraph
graph_with values = record {
  weights = (0, 7) ∷ (1, 9) ∷ [];
  edges = edge_with values ∷ [];
  nodes = (7, source_node) ∷ (9, sink_node) ∷ [];
}

abbrev no_conversion : ReadAs
no_conversion t v = some v

abbrev begin : State
begin = initial_state [] empty Stop.new Stop.new

graph-IsKeyed : IsKeyed (graph_with [])
unfolding Assoc.get
graph-IsKeyed id n h = ground arith

can_start : CanCount begin 7
unfolding initial_state Assoc.get
can_start t h = cc h

abbrev started : Run
started = start_idle no_conversion (graph_with []) begin 7 source_node

abbrev steps : Reach no_conversion (graph_with [], begin) started
unfolding Assoc.get
steps = Reach.next Reach.here (Step.start (graph_with []) begin 7 source_node refl can_start)

run-IsConsistent_example : IsConsistent started.0 started.1
run-IsConsistent_example =
    run-IsConsistent no_conversion (graph_with []) [] empty Stop.new Stop.new graph-IsKeyed steps

abbrev five : PartialOutput
five = record {
  node_id = 7;
  times = 0;
  output = Output.ok none (entry (str "y") (Value.u64 5) empty);
  resp = some 3;
}

can_start_sink : CanCount started.1 9
unfolding start_idle initial_state Assoc.get Assoc.insert
can_start_sink t h = cc h

start_node_total_example :
    start_node no_conversion started.0 started.1 9
    ≡ some (start_idle no_conversion started.0 started.1 9 sink_node)
unfolding start_idle initial_state Assoc.get Assoc.remove
start_node_total_example =
    start_node_total no_conversion (graph_with []) [] empty Stop.new Stop.new graph-IsKeyed 9
      sink_node steps refl can_start_sink

-- Nothing waits on the edge of the node.
five-Agrees : Agrees started.0 started.1 five
unfolding start_idle
five-Agrees info e = (λ v leaves has. tt, tt)

save_outputs_total_example :
    ((q : Run) × (save_outputs started.0 started.1 five ≡ some q)) ↔ Agrees started.0 started.1 five
unfolding start_idle initial_state Assoc.get Assoc.insert
save_outputs_total_example =
    save_outputs_total no_conversion (graph_with []) [] empty Stop.new Stop.new graph-IsKeyed five
      steps refl

five_saved : (q : Run) × (save_outputs started.0 started.1 five ≡ some q)
five_saved = save_outputs_total_example.1 five-Agrees

abbrev running_task : Task
running_task = record { node = source_node; times = 0; inputs = empty }

node_finished_total_example :
    (q : Run) × (node_finished started.0
        (record started.1 { running = [] })
        (Joined.finished source_node 0 (Output.ok none empty))
      ≡ some (Ended.ok q))
    × (Assoc.get q.0.nodes 7 ≡ some source_node)
unfolding start_idle initial_state Assoc.get Assoc.insert
node_finished_total_example =
    node_finished_total no_conversion (graph_with []) [] empty Stop.new Stop.new graph-IsKeyed []
      running_task [] (Output.ok none empty) steps refl (λ info e. (λ v leaves has. tt, tt))

take_inputs-edges_example :
    (take_inputs (graph_with (looped ∷ scalar ∷ [])) 1).edges ≡ edge_with (scalar ∷ []) ∷ []
take_inputs-edges_example = take_inputs-edges (graph_with (looped ∷ scalar ∷ [])) 1

take_inputs-tracker_example : is_array (take_inputs (graph_with (looped ∷ [])) 1).tracker ≡ true
take_inputs-tracker_example = take_inputs-tracker (graph_with (looped ∷ [])) 1

ready-take_inputs_example :
    All
      (Supplies 1 (take_inputs (graph_with (scalar ∷ [])) 1).values)
      (edge_with (scalar ∷ []) ∷ [])
unfolding ready_node initial_state Assoc.get Assoc.contains_key
ready-take_inputs_example = ready-take_inputs (graph_with (scalar ∷ [])) begin 1 sink_node refl refl

abbrev after_sink : State
after_sink = record begin { ran = (9, 0) ∷ [] }

edge_is_there : ◌≢◌ {A = List Edge} (edge_with (scalar ∷ []) ∷ []) []
edge_is_there e = cc e

ready_once_example : ready_node (graph_with (scalar ∷ [])) after_sink 1 sink_node ≡ false
unfolding Assoc.get Assoc.contains_key
ready_once_example =
    ready_once (graph_with (scalar ∷ [])) after_sink 1 sink_node refl refl edge_is_there

abbrev foreach_info : RunningNodeInfo
foreach_info = record {
  id = 7;
  times = 0;
  node_idx = 0;
  command_name = foreach;
  tracker = TrackEdgeValue.none;
  instruction_info = none;
  passthrough = empty;
  waiting = none;
  instruction_sent = false;
}

abbrev two_values : Values
two_values = Values.cons (Value.u64 1) (Values.cons (Value.u64 2) Values.nil)

abbrev returned_array : Map
returned_array = entry (str "y") (Value.array two_values) empty

abbrev pushed_edge : Edge
pushed_edge = push_outputs foreach_info returned_array (edge_with [])

abbrev pushed_graph : FlowGraph
pushed_graph = record (graph_with []) { edges = pushed_edge ∷ [] }

collect-foreach_example :
    All IsLoopValue pushed_edge.values
    × ((collect_array_input pushed_graph 1).values
        ≡ Value.insert empty (str "element") (Value.array two_values))
unfolding Value.get
collect-foreach_example =
    collect-foreach foreach_info returned_array (edge_with []) two_values pushed_graph [] refl refl
      refl refl refl

-- The two elements, with their positions.
pushed_values :
    pushed_edge.values
    ≡ record { value = some (Value.u64 1); tracker = TrackEdgeValue.element 0 0 }
      ∷ record { value = some (Value.u64 2); tracker = TrackEdgeValue.element 0 1 }
      ∷ []
unfolding push_outputs Value.get nest
pushed_values = refl

finished_enough_example :
    (finished_recursive (graph_with []) begin 8 1 []).0 ≡ finished (graph_with []) begin 1
finished_enough_example = finished_enough (graph_with []) begin 1 5
