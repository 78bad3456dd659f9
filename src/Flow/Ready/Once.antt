-- ===== src/Flow/Ready/Once.antt =====
-- When a node is not ready.
use flow_backend.Prelude.{◌≡◌, true, false, all, any, str_beq, nat_eq, arith, [], ◌≢◌}
use flow_backend.Prelude.Assoc.{contains_key}
use flow_backend.Flow.State.{NodeIndex, Node, FlowGraph, State}
use flow_backend.Flow.Ready.{collect, in_edges, edge_filled, front_is_array, ready_node}

module _ (f : FlowGraph) (s : State) (idx : NodeIndex) (node : Node) where
  -- A ready node that is no collect has all its incoming edges filled.
  pub ready_filled :
      str_beq node.command.name collect ≡ false
      → ready_node f s idx node ≡ true
      → all (edge_filled f s) (in_edges f idx) ≡ true
  unfolding ready_node
  ready_filled plain h = ground arith

  -- A node that has run and has no input of a loop does not run again, whatever its command, but
  -- for a collect with no incoming edge.
  pub ready_once :
      contains_key s.ran node.id ≡ true
      → any front_is_array (in_edges f idx) ≡ false
      → in_edges f idx ≢ []
      → ready_node f s idx node ≡ false
  unfolding ready_node
  ready_once ran plain some_edge = ground arith
