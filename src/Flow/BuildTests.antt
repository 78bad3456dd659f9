-- ===== src/Flow/BuildTests.antt =====
-- A configuration of two nodes and a mock, and the theorem at it.
use flow_backend.Prelude.{
  ◌+◌, ℕ, ◌≡◌, refl, Bool, true, false, none, some, [], ◌∷◌, Str, str, All, nat_eq, str_eq, length,
  contains, inl, inr,
}
use flow_backend.Prelude.Assoc
use flow_backend.Value.{empty}
use flow_backend.Flow.Command.{Command, input_is_required, output_is_optional}
use flow_backend.Flow.State.{FlowGraph}
use flow_backend.Flow.Steps.{IsKeyed}
use flow_backend.Flow.Build.{
  BuildError, CfgEdge, NodeConfig, FlowConfig, Factory, Built, ok, failed, edges_same_target,
  from_cfg, need_previous_outputs,
}
use flow_backend.Flow.Config.{ClientNode, ClientConfig, new_config}
use flow_backend.Flow.Config.Mocks.{real_ids, StartsReal, new_config-Starts}
use flow_backend.Flow.Build.Targets.{Distinct}
use flow_backend.Flow.Build.Keyed.{Joins, from_cfg-IsKeyed}

abbrev plain : Str → Command
plain name = record { name = name; inputs = []; outputs = []; instruction_info = none }

abbrev factory : Factory ℕ
factory = record {
  new_command = λ n. some (plain n.command_name);
  read_form_data = λ command form. empty;
}

abbrev node : ℕ → Bool → NodeConfig ℕ
node id is_mock = record { id = id; command_name = str "const"; form_data = 0; is_mock = is_mock }

abbrev edge : ℕ → ℕ → Str → CfgEdge
edge i j to = ((i, str "x"), (j, to))

abbrev config : FlowConfig ℕ
config = record {
  nodes = node 7 false ∷ node 9 false ∷ node 5 true ∷ [];
  edges = edge 7 9 (str "b") ∷ edge 7 9 (str "a") ∷ edge 5 9 (str "c") ∷ [];
}

abbrev graph_or : FlowGraph → Built FlowGraph → FlowGraph
graph_or f (ok g) = g
graph_or f (failed e) = f

abbrev graph : FlowGraph
graph = graph_or (record { weights = []; edges = []; nodes = [] }) (from_cfg factory config none)

built : from_cfg factory config none ≡ ok graph
unfolding from_cfg Assoc.get Assoc.insert input_is_required output_is_optional
built = refl

two_edges : length graph.edges ≡ 2
unfolding from_cfg Assoc.get Assoc.insert input_is_required output_is_optional
two_edges = refl

-- Without the node 7, its value of an earlier run is needed.
needs_previous :
    need_previous_outputs (graph_or graph (from_cfg factory config (some (9 ∷ [])))) ≡ 7 ∷ 7 ∷ []
unfolding from_cfg need_previous_outputs Assoc.get Assoc.insert input_is_required output_is_optional
needs_previous = refl

abbrev twice : FlowConfig ℕ
twice = record config { edges = edge 7 9 (str "b") ∷ edge 9 9 (str "b") ∷ [] }

same_input_fails : from_cfg factory twice none ≡ failed edges_same_target
unfolding from_cfg Assoc.get Assoc.insert input_is_required output_is_optional
same_input_fails = refl

from_cfg-IsKeyed_example :
    IsKeyed graph × All (Joins graph.nodes) graph.edges × Distinct config.edges
from_cfg-IsKeyed_example = from_cfg-IsKeyed factory config none graph built

abbrev client_node : ℕ → Bool → ClientNode ℕ
client_node id is_mock = record {
  id = id;
  is_mock = is_mock;
  node_id = str "const";
  sources = (id, str "x") ∷ [];
  targets = (20 + id, str "a") ∷ [];
  form_data = 0;
}

-- From the first node to the second.
abbrev client : Bool → ClientConfig ℕ
client is_mock = record {
  nodes = client_node 5 is_mock ∷ client_node 9 false ∷ [];
  edges = record { source = 5; source_handle = 5; target = 9; target_handle = 29 } ∷ [];
}

abbrev client_graph : FlowGraph
client_graph = graph_or graph (from_cfg factory (new_config (client false)) none)

client_built : from_cfg factory (new_config (client false)) none ≡ ok client_graph
unfolding from_cfg new_config Assoc.get Assoc.insert input_is_required output_is_optional
client_built = refl

new_config-Starts_example : All (StartsReal (client false).nodes) (client false).edges
new_config-Starts_example = new_config-Starts factory (client false) none client_graph client_built

-- The handles of the edge are there.
starts_real : contains (real_ids (client false).nodes) 5 ≡ true
starts_real = new_config-Starts_example.0 (inl (inl refl)) (inr (inr (inr (inl (inl refl)))))

mock_fails :
    from_cfg factory (new_config (client true)) none ≡ failed (BuildError.edge_source_not_found 5)
unfolding from_cfg new_config Assoc.get Assoc.insert input_is_required output_is_optional
mock_fails = refl
