-- ===== src/Flow/Config.antt =====
-- `FlowConfig::new` of lib/flow-lib/src/config/mod.rs: the configuration of a flow as the editor saves
-- it, with the handles of its edges replaced by names.
pub mod Mocks
use flow_backend.Prelude.{
  ℕ, Bool, true, false, not, Option, none, some, List, [], ◌∷◌, ◌++◌, nat_eq, if◌then◌else◌, ◌>>=◌,
}
use flow_backend.Prelude.Assoc
use flow_backend.Prelude.Assoc.{Assoc}
use flow_backend.Flow.Command.{Name}
use flow_backend.Flow.State.{NodeId}
use flow_backend.Flow.Build.{Gate, CfgEdge, NodeConfig, FlowConfig}

-- The ID of an input or an output.
abbrev pub HandleId : Type 0
HandleId = ℕ

-- client::Node, with its NodeData
pub record ClientNode (Form : Type 0) : Type 0 where
  pub id : NodeId
  pub is_mock : Bool
  pub node_id : Name
  pub sources : List (HandleId × Name)
  pub targets : List (HandleId × Name)
  pub form_data : Form

-- client::Edge
pub record ClientEdge : Type 0 where
  pub source : NodeId
  pub source_handle : HandleId
  pub target : NodeId
  pub target_handle : HandleId

pub record ClientConfig (Form : Type 0) : Type 0 where
  pub nodes : List (ClientNode Form)
  pub edges : List ClientEdge

abbrev pub Names : Type 0
Names = Assoc HandleId Name

abbrev pub all_sources : {Form : Type 0} → List (ClientNode Form) → List (HandleId × Name)
all_sources [] = []
all_sources (n ∷ ns) = n.sources ++ all_sources ns

abbrev pub all_targets : {Form : Type 0} → List (ClientNode Form) → List (HandleId × Name)
all_targets [] = []
all_targets (n ∷ ns) = n.targets ++ all_targets ns

-- `collect` into a hash map: the last name of an ID counts.
abbrev pub collect_names : Names → List (HandleId × Name) → Names
collect_names names [] = names
collect_names names ((id, name) ∷ more) = collect_names (Assoc.insert names id name) more

abbrev pub names_of : {Form : Type 0} → List (ClientNode Form) → Names
names_of nodes = collect_names [] (all_sources nodes ++ all_targets nodes)

-- An edge is left out if one of its names is not found.
abbrev pub new_edge : Names → ClientEdge → Option CfgEdge
new_edge names e = Assoc.get names e.source_handle >>= λ from.
    Assoc.get names e.target_handle >>= λ to. some ((e.source, from), (e.target, to))

abbrev pub keep_edge : Option CfgEdge → List CfgEdge → List CfgEdge
keep_edge none rest = rest
keep_edge (some e) rest = e ∷ rest

abbrev pub new_edges : Names → List ClientEdge → List CfgEdge
new_edges names [] = []
new_edges names (e ∷ es) = keep_edge (new_edge names e) (new_edges names es)

abbrev pub new_node : {Form : Type 0} → ClientNode Form → NodeConfig Form
new_node n = record {
  id = n.id;
  command_name = n.node_id;
  form_data = n.form_data;
  is_mock = n.is_mock;
}

abbrev pub keep_node :
    {Form : Type 0} → Bool → NodeConfig Form → List (NodeConfig Form) → List (NodeConfig Form)
keep_node true n rest = rest
keep_node false n rest = n ∷ rest

abbrev pub new_nodes : {Form : Type 0} → List (ClientNode Form) → List (NodeConfig Form)
new_nodes [] = []
new_nodes (n ∷ ns) = keep_node n.is_mock (new_node n) (new_nodes ns)

-- FlowConfig::new
unfoldable pub new_config : {Form : Type 0} → ClientConfig Form → FlowConfig Form
new_config c = record { nodes = new_nodes c.nodes; edges = new_edges (names_of c.nodes) c.edges }
