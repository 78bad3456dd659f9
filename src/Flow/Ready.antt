-- ===== src/Flow/Ready.antt =====
-- When a node may start: `submit_is_false`, `ready` and `finished` of crates/flow/src/flow_graph.rs.
-- An index of the graph that is not there panics in petgraph; the ends of its edges always are.
pub mod Once
pub mod Enough
use flow_backend.Prelude.{
  ℕ, zero, suc, Bool, true, false, not, ◌&&◌, ◌||◌, Option, none, some, List, [], ◌∷◌, str, str_beq,
  nat_beq, filter, head?, all, any, length, contains, if◌then◌else◌, is_some, nat_eq,
}
use flow_backend.Prelude.Assoc.{get, contains_key}
use flow_backend.Value.{Value}
use flow_backend.Flow.Track.{is_array}
use flow_backend.Flow.Command.{Name}
use flow_backend.Flow.State.{NodeId, NodeIndex, Node, EdgeValue, Edge, FlowGraph, State}

abbrev pub collect : Name
collect = str "collect"

abbrev pub foreach : Name
foreach = str "foreach"

abbrev pub flow_input : Name
flow_input = str "flow_input"

abbrev pub flow_output : Name
flow_output = str "flow_output"

abbrev pub in_edges : FlowGraph → NodeIndex → List Edge
in_edges f idx = filter (λ e. nat_beq e.target idx) f.edges

abbrev pub out_edges : FlowGraph → NodeIndex → List Edge
out_edges f idx = filter (λ e. nat_beq e.source idx) f.edges

abbrev pub front : Edge → Option EdgeValue
front e = head? e.values

abbrev value_is_false : Option EdgeValue → Bool
value_is_false none = false
value_is_false (some v) = elim v.value [
  | some w ↦ elim w [ Value.bool b ↦ not b | _ ↦ false ]
  | none ↦ false
]

-- The front of the first `submit` edge.
unfoldable pub first_submit : List Edge → Option EdgeValue
first_submit [] = none
first_submit (e ∷ es) = if str_beq e.to (str "submit") then front e else first_submit es

unfoldable pub submit_is_false : FlowGraph → NodeIndex → Bool
unfolding first_submit
submit_is_false f idx = value_is_false (first_submit (in_edges f idx))

abbrev pub front_is_array : Edge → Bool
front_is_array e = elim (head? e.values) [ none ↦ false | some v ↦ is_array v.tracker ]

-- Is the node of an index idle, that is, in the graph's table of nodes?
abbrev idle : FlowGraph → NodeIndex → Bool
idle f nid = elim (get f.weights nid) [ none ↦ false | some id ↦ contains_key f.nodes id ]

abbrev has_run : FlowGraph → State → NodeIndex → Bool
has_run f s nid = elim (get f.weights nid) [ none ↦ false | some id ↦ contains_key s.ran id ]

-- The variables of the loop over the incoming edges.
pub record Scan : Type 0 where
  pub has_array_input : Bool
  pub filled : Bool
  pub all_sources_not_finished : Bool
  pub visited : List NodeIndex

abbrev Visit : Type 0
Visit = NodeIndex → List NodeIndex → Bool × List NodeIndex

-- What the front of an edge holds: a value, with whether it belongs to a loop.
abbrev front_value : Option EdgeValue → Option Bool
front_value none = none
front_value (some v) = elim v.value [ none ↦ none | some w ↦ some (is_array v.tracker) ]

scan_source : Scan → Bool × List NodeIndex → Scan
scan_source c (source_finished, visited) = record c {
  all_sources_not_finished = c.all_sources_not_finished && not source_finished;
  filled = false;
  visited = visited;
}

scan_edge : Visit → Scan → Edge → Scan
unfolding scan_source
scan_edge visit c e = elim (front_value (head? e.values)) [
  | some from_array ↦ record c { has_array_input = c.has_array_input || from_array }
  | none ↦ if e.is_required_input then scan_source c (visit e.source c.visited) else c
]

scan_edges : Visit → Scan → List Edge → Scan
scan_edges visit c [] = c
scan_edges visit c (e ∷ es) = scan_edges visit (scan_edge visit c e) es

verdict : Bool → Scan → Bool × List NodeIndex
verdict ran c =
    (if c.filled then not c.has_array_input && ran else not c.all_sources_not_finished, c.visited)

abbrev scan_start : List NodeIndex → Scan
scan_start visited = record {
  has_array_input = false;
  filled = true;
  all_sources_not_finished = true;
  visited = visited;
}

-- f.in_edges(nid).count() == 0
abbrev no_edges : List Edge → Bool × List NodeIndex → Bool × List NodeIndex → Bool × List NodeIndex
no_edges [] x y = x
no_edges (_ ∷ _) x y = y

-- The recursion visits no index twice, so its depth is below the number of indices, the fuel.
pub finished_recursive : FlowGraph → State → ℕ → Visit
unfolding scan_edge scan_edges verdict
finished_recursive f s zero nid visited = (false, visited)
finished_recursive f s (suc fuel) nid visited =
    let seen = nid ∷ visited in
    let rest =
      verdict (has_run f s nid)
        (scan_edges (finished_recursive f s fuel) (scan_start seen) (in_edges f nid)) in
    if contains visited nid
    then (false, visited)
    else if not (idle f nid)
    then (false, seen)
    else no_edges (in_edges f nid) (has_run f s nid, seen) rest

pub finished : FlowGraph → State → NodeIndex → Bool
unfolding finished_recursive
finished f s nid = (finished_recursive f s (suc (length f.weights)) nid []).0

-- An incoming edge lets its node start.
abbrev pub edge_filled : FlowGraph → State → Edge → Bool
edge_filled f s e = elim (head? e.values) [
  | some v ↦ is_some v.value || not e.is_required_input
  | none ↦ not e.is_required_input && finished f s e.source
]

abbrev collect_ready : FlowGraph → State → NodeId → Option Edge → Bool
collect_ready f s id none = true
collect_ready f s id (some e) = not (contains_key s.ran id) && finished f s e.source

unfoldable pub ready_node : FlowGraph → State → NodeIndex → Node → Bool
ready_node f s idx node =
    if is_some node.command.instruction_info && submit_is_false f idx
    then false
    else if str_beq node.command.name collect
    then collect_ready f s node.id (head? (in_edges f idx))
    else if not (all (edge_filled f s) (in_edges f idx))
    then false
    else if contains_key s.ran node.id
    then any front_is_array (in_edges f idx)
    else true

-- `self.nodes[&self.g[idx]]`: the caller has checked that the node is idle.
unfoldable pub ready : FlowGraph → State → NodeIndex → Bool
unfolding ready_node
ready f s idx = elim (get f.weights idx) [
  | none ↦ false
  | some id ↦ elim (get f.nodes id) [ none ↦ false | some node ↦ ready_node f s idx node ]
]
