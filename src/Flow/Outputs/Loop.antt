-- ===== src/Flow/Outputs/Loop.antt =====
-- A foreach spreads an array over an edge, and a collect gathers it.
use flow_backend.Prelude.{
  ℕ, suc, ◌≡◌, refl, ap, true, some, List, [], ◌∷◌, ◌++◌, str, str_beq, nat_beq, nat_beq_refl, All,
  ◌%◌, ◌^◌, is_some,
}
use flow_backend.Value
use flow_backend.Value.{Value, Values, Map}
use flow_backend.Flow.Track.{TrackEdgeValue, is_array, nest}
use flow_backend.Flow.State.{NodeIndex, EdgeValue, Edge, FlowGraph, RunningNodeInfo}
use flow_backend.Flow.Ready.{foreach}
use flow_backend.Flow.Inputs.{queue_values, collect_edges, collect_array_input}
use flow_backend.Flow.Outputs.Push.{element_values, edge_values, push_outputs}

queue_values-element_values :
    (tracker : TrackEdgeValue) (nid : NodeIndex) (i : ℕ) (vs : Values)
    → queue_values (element_values tracker nid i vs) ≡ vs
unfolding queue_values element_values
queue_values-element_values tracker nid i Values.nil = refl
queue_values-element_values tracker nid i (Values.cons v vs) =
    ap (Values.cons v) (queue_values-element_values tracker nid (suc i) vs)

is_array-nest : (t : TrackEdgeValue) (nid pos : ℕ) → is_array (nest t nid pos) ≡ true
unfolding nest
is_array-nest TrackEdgeValue.none nid pos = refl
is_array-nest (TrackEdgeValue.nested s) nid pos = refl
is_array-nest t nid pos = refl

-- A value that belongs to a loop.
abbrev pub IsLoopValue : EdgeValue → Type 0
IsLoopValue v = (is_some v.value ≡ true) × (is_array v.tracker ≡ true)

element_values-IsLoopValue :
    (tracker : TrackEdgeValue) (nid : NodeIndex) (i : ℕ) (vs : Values)
    → All IsLoopValue (element_values tracker nid i vs)
unfolding element_values
element_values-IsLoopValue tracker nid i Values.nil = tt
element_values-IsLoopValue tracker nid i (Values.cons v vs) = (
  (refl, is_array-nest tracker nid (i % 2 ^ 32)),
  element_values-IsLoopValue tracker nid (suc i) vs,
)

push_outputs-foreach :
    (info : RunningNodeInfo) (values : Map) (e : Edge) (vs : Values)
    → str_beq info.command_name foreach ≡ true
    → Value.get values e.from ≡ some (Value.array vs)
    → nat_beq e.source info.node_idx ≡ true
    → push_outputs info values e
      ≡ record e { values = e.values ++ element_values info.tracker info.node_idx 0 vs }
unfolding push_outputs edge_values
push_outputs-foreach info values e vs is_foreach returned leaves =
    rw (leaves, push_outputs, returned, edge_values, is_foreach)

-- What a foreach sends along an empty edge, when it returns an array under the edge's output, are
-- values of its loop, and a collect at the end of the edge, if that is the first edge of the graph,
-- gathers them into the same array.
pub collect-foreach :
    (info : RunningNodeInfo) (values : Map) (e : Edge) (vs : Values) (f : FlowGraph)
    (es : List Edge)
    → str_beq info.command_name foreach ≡ true
    → Value.get values e.from ≡ some (Value.array vs)
    → nat_beq e.source info.node_idx ≡ true
    → e.values ≡ []
    → f.edges ≡ push_outputs info values e ∷ es
    → All IsLoopValue (push_outputs info values e).values
      × ((collect_array_input f e.target).values
          ≡ Value.insert Map.empty (str "element") (Value.array vs))
unfolding collect_array_input collect_edges
collect-foreach info values e vs f es is_foreach returned leaves fresh edges =
    let sent = push_outputs-foreach info values e vs is_foreach returned leaves in
    rw (edges, sent, fresh, nat_beq_refl e.target)
      (
        element_values-IsLoopValue info.tracker info.node_idx 0 vs,
        rw (queue_values-element_values info.tracker info.node_idx 0 vs),
      )
