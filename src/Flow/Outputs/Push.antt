-- ===== src/Flow/Outputs/Push.antt =====
-- The edges that `save_outputs` of crates/flow/src/flow_graph.rs pushes values to.
use flow_backend.Prelude.{
  ℕ, suc, ◌%◌, ◌^◌, Bool, true, not, none, some, List, [], ◌∷◌, ◌++◌, str_beq, nat_beq,
  if◌then◌else◌,
}
use flow_backend.Value
use flow_backend.Value.{Value, Values, Map}
use flow_backend.Flow.Track.{TrackEdgeValue, is_array, nest}
use flow_backend.Flow.State.{NodeIndex, EdgeValue, Edge, RunningNodeInfo}
use flow_backend.Flow.Ready.{foreach}

-- A foreach sends each element of an array, with its position, a u32.
unfoldable pub element_values : TrackEdgeValue → NodeIndex → ℕ → Values → List EdgeValue
element_values tracker nid i Values.nil = []
element_values tracker nid i (Values.cons v vs) =
    record { value = some v; tracker = nest tracker nid (i % 2 ^ 32) }
    ∷ element_values tracker nid (suc i) vs

abbrev plain_value : RunningNodeInfo → Value → List EdgeValue
plain_value info v = record { value = some v; tracker = info.tracker } ∷ []

abbrev loop_values : RunningNodeInfo → Value → List EdgeValue
loop_values info (Value.array vs) = element_values info.tracker info.node_idx 0 vs
loop_values info v = plain_value info v

unfoldable pub edge_values : RunningNodeInfo → Value → List EdgeValue
unfolding element_values
edge_values info v =
    if str_beq info.command_name foreach then loop_values info v else plain_value info v

-- The push to an edge whose `debug_assert!`, which is `tracker_agrees`, holds.
unfoldable pub push_outputs : RunningNodeInfo → Map → Edge → Edge
unfolding edge_values
push_outputs info values e =
    if nat_beq e.source info.node_idx
    then elim (Value.get values e.from) [
      | none ↦ e
      | some v ↦ record e { values = e.values ++ edge_values info v }
    ]
    else e

-- The first value that waits on the edge.
abbrev pub front_agrees : TrackEdgeValue → List EdgeValue → Bool
front_agrees tracker [] = true
front_agrees tracker (front ∷ more) =
    if is_array tracker then is_array front.tracker else not (is_array front.tracker)

-- The `debug_assert!` of an edge that gets a value. A release build leaves it out.
unfoldable pub tracker_agrees : RunningNodeInfo → Map → Edge → Bool
tracker_agrees info values e =
    if nat_beq e.source info.node_idx
    then elim (Value.get values e.from) [
      | none ↦ true
      | some v ↦ front_agrees info.tracker e.values
    ]
    else true
