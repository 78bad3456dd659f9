-- ===== src/Flow/Partial.antt =====
-- The values of a partial run: the fake node that `run` of crates/flow/src/flow_graph.rs adds, and
-- `supply_partial_run_values`. The text of a UUID is what the `uuid` crate writes and reads; the
-- graph gives the fake node a new index. `none` is a panic.
use flow_backend.Prelude.{
  ℕ, suc, ◌+◌, ◌%◌, ◌^◌, Bool, true, false, not, ltb, Option, none, some, List, [], ◌∷◌, ◌++◌, Str,
  str_eq, nat_eq, nat_beq, length, if◌then◌else◌, ◌>>=◌, or_default,
}
use flow_backend.Prelude.Assoc
use flow_backend.Prelude.Assoc.{Assoc}
use flow_backend.Value
use flow_backend.Value.{Value, Values, Map}
use flow_backend.Value.Path.{find_slash, slash}
use flow_backend.Flow.Track.{TrackEdgeValue}
use flow_backend.Flow.Stop.{cancel}
use flow_backend.Flow.Command.{Name, input_is_required}
use flow_backend.Flow.State.{
  NodeId, NodeIndex, UsePreviousValue, Node, EdgeValue, Edge, FlowGraph, Message, State,
}
use flow_backend.Flow.Inputs.{Run}
use flow_backend.Flow.Outputs.{flow_error}

pub record UuidText : Type 0 where
  pub display : NodeId → Str
  pub parse : Str → Option NodeId

-- The edge from the fake node to an input that uses a previous value.
unfoldable pub fake_edge : UuidText → NodeIndex → FlowGraph → Node → Name → UsePreviousValue → Edge
unfolding input_is_required
fake_edge uuid fake_node f n input_name previous =
    let is_required_input = or_default (input_is_required n.command input_name) true in
    record {
      id = length f.edges;
      source = fake_node;
      target = n.idx;
      from = uuid.display previous.node_id ++ slash ∷ previous.output_name;
      to = input_name;
      is_required_input = is_required_input;
      is_optional_output = not is_required_input;
      values = [];
    }

abbrev pub stop_run : State → State
stop_run s = record s { stop = cancel s.stop }

unfoldable pub add_fake_edge :
    UuidText → NodeIndex → Node → Name → UsePreviousValue → FlowGraph → State → Run
unfolding fake_edge flow_error
add_fake_edge uuid fake_node n input_name previous f s =
    if Assoc.contains_key s.previous_values previous.node_id
    then (record f { edges = fake_edge uuid fake_node f n input_name previous ∷ f.edges }, s)
    else (f, stop_run (flow_error s (Message.no_value_for_port input_name)))

unfoldable pub add_fake_edges :
    UuidText → NodeIndex → Node → Assoc Name UsePreviousValue → FlowGraph → State → Run
unfolding add_fake_edge
add_fake_edges uuid fake_node n [] f s = (f, s)
add_fake_edges uuid fake_node n ((input_name, previous) ∷ more) f s =
    let r = add_fake_edge uuid fake_node n input_name previous f s in
    add_fake_edges uuid fake_node n more r.0 r.1

unfoldable pub add_all_fake_edges :
    UuidText → NodeIndex → Assoc NodeId Node → FlowGraph → State → Run
unfolding add_fake_edges
add_all_fake_edges uuid fake_node [] f s = (f, s)
add_all_fake_edges uuid fake_node ((id, n) ∷ nodes) f s =
    let r = add_fake_edges uuid fake_node n n.use_previous_values f s in
    add_all_fake_edges uuid fake_node nodes r.0 r.1

abbrev element : NodeIndex → ℕ → Value → EdgeValue
element fake_node i v = record {
  value = some v;
  tracker = TrackEdgeValue.element fake_node (i % 2 ^ 32);
}

unfoldable pub elements : NodeIndex → ℕ → Values → List EdgeValue
elements fake_node i Values.nil = []
elements fake_node i (Values.cons v vs) = element fake_node i v ∷ elements fake_node (suc i) vs

abbrev output_named : Name → Value → Option Value
output_named name (Value.map m) = Value.get m name
output_named name _ = none

-- What one output of a node before adds to the edge.
unfoldable pub edge_part : NodeIndex → Bool → Bool → ℕ → Option Value → List EdgeValue
unfolding elements
edge_part fake_node foreach use_element i none = []
edge_part fake_node true use_element i (some (Value.array vs)) = elements fake_node i vs
edge_part fake_node true use_element i (some _) = []
edge_part fake_node false true i (some v) = element fake_node i v ∷ []
edge_part fake_node false false i (some v) =
    record { value = some v; tracker = TrackEdgeValue.none } ∷ []

-- `i` counts the values of the edge.
unfoldable pub edge_parts : NodeIndex → Name → Bool → Bool → ℕ → List Value → List EdgeValue
unfolding edge_part
edge_parts fake_node name foreach use_element i [] = []
edge_parts fake_node name foreach use_element i (output ∷ outputs) =
    let part = edge_part fake_node foreach use_element i (output_named name output) in
    part ++ edge_parts fake_node name foreach use_element (i + length part) outputs

unfoldable pub supply_edge : UuidText → NodeIndex → FlowGraph → State → Edge → Option Edge
unfolding edge_parts find_slash
supply_edge uuid fake_node f s e =
    let (node, behind) = find_slash e.from in
    behind >>= λ output_name. uuid.parse node >>= λ node_id.
    Assoc.get s.previous_values node_id >>= λ outputs. Assoc.get f.weights e.target >>= λ target_id.
    Assoc.get f.nodes target_id >>= λ n. Assoc.get n.use_previous_values e.to >>= λ previous.
    some (record e {
      values =
          e.values
          ++ edge_parts fake_node output_name previous.foreach (ltb 1 (length outputs)) 0 outputs;
    })

unfoldable pub supply_edges :
    UuidText → NodeIndex → FlowGraph → State → List Edge → Option (List Edge)
unfolding supply_edge
supply_edges uuid fake_node f s [] = some []
supply_edges uuid fake_node f s (e ∷ es) =
    (if nat_beq e.source fake_node then supply_edge uuid fake_node f s e else some e) >>= λ e'.
    supply_edges uuid fake_node f s es >>= λ es'. some (e' ∷ es')

unfoldable pub supply_partial_run_values :
    UuidText → NodeIndex → FlowGraph → State → Option FlowGraph
unfolding supply_edges
supply_partial_run_values uuid fake_node f s =
    supply_edges uuid fake_node f s f.edges >>= λ edges. some (record f { edges = edges })

-- What `run` does for the values of a partial run. The nil UUID is the id of the fake node.
unfoldable pub prepare_partial_run : UuidText → NodeIndex → NodeId → FlowGraph → State → Option Run
unfolding add_all_fake_edges supply_partial_run_values
prepare_partial_run uuid fake_node nil f s =
    let r =
      add_all_fake_edges uuid fake_node f.nodes
        (record f { weights = f.weights ++ (fake_node, nil) ∷ [] }) s in
    supply_partial_run_values uuid fake_node r.0 r.1 >>= λ g. some (g, r.1)
