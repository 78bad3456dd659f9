-- ===== src/Flow/Build.antt =====
-- `FlowGraph::from_cfg` of crates/flow/src/flow_graph.rs: the graph of a configuration, or the error
-- that it has. Making a command and reading its form are parameters. petgraph lists the edges of a
-- node beginning with the last that was added.
pub mod Order
pub mod Targets
pub mod Keyed
pub mod Sources
use flow_backend.Prelude.{
  ℕ, suc, Bool, true, false, not, ◌&&◌, ◌||◌, Option, none, some, List, [], ◌∷◌, ◌++◌, length, map,
  all, contains, Str, str_eq, str_beq, nat_eq, nat_beq, ltb, if◌then◌else◌, ◌>>=◌,
}
use flow_backend.Prelude.Assoc
use flow_backend.Prelude.Assoc.{Assoc}
use flow_backend.Value.{Map}
use flow_backend.Flow.Command.{Name, Command, input_is_required, output_is_optional}
use flow_backend.Flow.State.{NodeId, NodeIndex, UsePreviousValue, Node, Edge, FlowGraph}
use flow_backend.Flow.Ready.{foreach}

-- A node and the name of an input or output.
abbrev pub Gate : Type 0
Gate = NodeId × Name

-- From an output to an input.
abbrev pub CfgEdge : Type 0
CfgEdge = Gate × Gate

pub record NodeConfig (Form : Type 0) : Type 0 where
  pub id : NodeId
  pub command_name : Name
  pub form_data : Form
  -- client_node_data.type == CommandType::Mock
  pub is_mock : Bool

pub record FlowConfig (Form : Type 0) : Type 0 where
  pub nodes : List (NodeConfig Form)
  pub edges : List CfgEdge

-- CommandFactory::new_command, where `none` is an error, and CommandTrait::read_form_data
pub record Factory (Form : Type 0) : Type 0 where
  pub new_command : NodeConfig Form → Option Command
  pub read_form_data : Command → Form → Map

-- BuildGraphError, and the error of a command.
pub data BuildError : Type 0 where
  create_cmd edges_same_target : BuildError
  edge_source_not_found : NodeId → BuildError
  -- of which node depends on the order of a hash set
  node_not_found_in_partial_config : BuildError

pub data Built {ℓ} (A : Type ℓ) : Type ℓ where
  ok : A → Built A
  failed : BuildError → Built A

abbrev pub and_then {ℓ κ} : {A : Type ℓ} {B : Type κ} → Built A → (A → Built B) → Built B
and_then (ok a) f = f a
and_then (failed e) f = failed e

abbrev pub str_leb : Str → Str → Bool
str_leb [] t = true
str_leb (a ∷ s) [] = false
str_leb (a ∷ s) (b ∷ t) = ltb a b || nat_beq a b && str_leb s t

abbrev pub gate_leb : Gate → Gate → Bool
gate_leb (i, s) (j, t) = ltb i j || nat_beq i j && str_leb s t

abbrev pub gate_beq : Gate → Gate → Bool
gate_beq (i, s) (j, t) = nat_beq i j && str_beq s t

-- By (to, from)
abbrev pub edge_leb : CfgEdge → CfgEdge → Bool
edge_leb (from, to) (from2, to2) = if gate_beq to to2 then gate_leb from from2 else gate_leb to to2

abbrev pub insert_edge : CfgEdge → List CfgEdge → List CfgEdge
insert_edge e [] = e ∷ []
insert_edge e (d ∷ ds) =
    let rest = insert_edge e ds in if edge_leb e d then e ∷ d ∷ ds else d ∷ rest

-- `sort_by`
abbrev pub sort_edges : List CfgEdge → List CfgEdge
sort_edges [] = []
sort_edges (e ∷ es) = insert_edge e (sort_edges es)

pub record Building : Type 0 where
  pub weights : Assoc NodeIndex NodeId
  pub nodes : Assoc NodeId Node
  pub mocks : List NodeId
  pub excluded_foreach : List NodeId
  pub edges : List Edge

abbrev pub empty_building : Building
empty_building = record { weights = []; nodes = []; mocks = []; excluded_foreach = []; edges = [] }

module _ {Form : Type 0} (factory : Factory Form) where
  abbrev pub push_node : Building → NodeConfig Form → Command → Building
  push_node b n command = record b {
    weights = b.weights ++ (length b.weights, n.id) ∷ [];
    nodes = Assoc.insert b.nodes n.id (record {
      id = n.id;
      command = command;
      form_inputs = factory.read_form_data command n.form_data;
      idx = length b.weights;
      use_previous_values = [];
    });
  }

  abbrev pub push_command : Building → NodeConfig Form → Option Command → Built Building
  push_command b n none = failed create_cmd
  push_command b n (some command) = ok (push_node b n command)

  abbrev pub exclude : Building → NodeConfig Form → Building
  exclude b n =
      if str_beq n.command_name foreach
      then record b { excluded_foreach = n.id ∷ b.excluded_foreach }
      else b

  abbrev pub add_unless_mock : List NodeId → Building → NodeConfig Form → Bool → Built Building
  add_unless_mock only_nodes b n true = ok (record b { mocks = n.id ∷ b.mocks })
  add_unless_mock only_nodes b n false =
      if not (contains only_nodes n.id)
      then ok (exclude b n)
      else push_command b n (factory.new_command n)

  abbrev pub add_config_node : List NodeId → Building → NodeConfig Form → Built Building
  add_config_node only_nodes b n = add_unless_mock only_nodes b n n.is_mock

  abbrev pub add_config_nodes : List NodeId → Building → List (NodeConfig Form) → Built Building
  add_config_nodes only_nodes b [] = ok b
  add_config_nodes only_nodes b (n ∷ ns) =
      and_then (add_config_node only_nodes b n) (λ c. add_config_nodes only_nodes c ns)

abbrev pub or_else : Option Bool → Bool → Bool
or_else none d = d
or_else (some b) d = b

-- The target of an edge uses the previous value of a node that is left out.
abbrev pub use_previous : Building → Node → CfgEdge → Building
use_previous b target (from, to) = record b {
  nodes = Assoc.insert b.nodes to.0 (record target {
    use_previous_values = Assoc.insert target.use_previous_values to.1 (record {
      node_id = from.0;
      output_name = from.1;
      foreach = contains b.excluded_foreach from.0;
    });
  });
}

abbrev pub push_edge : Building → Node → Node → CfgEdge → Building
push_edge b source target (from, to) = record b {
  edges =
      record {
        id = length b.edges;
        source = source.idx;
        target = target.idx;
        from = from.1;
        to = to.1;
        is_required_input = or_else (input_is_required target.command to.1) true;
        is_optional_output = or_else (output_is_optional source.command from.1) false;
        values = [];
      }
      ∷ b.edges;
}

abbrev pub missing_source : List NodeId → Building → CfgEdge → Built Building → Built Building
missing_source all_nodes b (from, to) rest =
    if not (contains all_nodes from.0)
    then failed (edge_source_not_found from.0)
    else if contains b.mocks from.0
    then ok b
    else rest

abbrev pub add_between :
    List NodeId → Building → CfgEdge → Option Node → Option Node → Built Building
add_between all_nodes b e none source = missing_source all_nodes b e (ok b)
add_between all_nodes b e (some target) none =
    missing_source all_nodes b e (ok (use_previous b target e))
add_between all_nodes b e (some target) (some source) = ok (push_edge b source target e)

abbrev pub add_cfg_edge : List NodeId → Building → CfgEdge → Built Building
add_cfg_edge all_nodes b (from, to) =
    add_between all_nodes b (from, to) (Assoc.get b.nodes to.0) (Assoc.get b.nodes from.0)

-- The target of the edge before.
abbrev pub same_target : Option Gate → Gate → Bool
same_target none to = false
same_target (some before) to = gate_beq before to

abbrev pub add_cfg_edges : List NodeId → Option Gate → Building → List CfgEdge → Built Building
add_cfg_edges all_nodes before b [] = ok b
add_cfg_edges all_nodes before b ((from, to) ∷ es) =
    if same_target before to
    then failed edges_same_target
    else and_then (add_cfg_edge all_nodes b (from, to))
        (λ c. add_cfg_edges all_nodes (some to) c es)

abbrev pub only_of : Option (List NodeId) → List NodeId → List NodeId
only_of none all_nodes = all_nodes
only_of (some only) all_nodes = only

-- The partial configuration, if there is one, names the nodes that run.
unfoldable pub from_cfg :
    {Form : Type 0} → Factory Form → FlowConfig Form → Option (List NodeId) → Built FlowGraph
from_cfg factory c partial_config =
    let all_nodes = map (λ n. n.id) c.nodes in
    let only_nodes = only_of partial_config all_nodes in
    if not (all (λ id. contains all_nodes id) only_nodes)
    then failed node_not_found_in_partial_config
    else and_then (add_config_nodes factory only_nodes empty_building c.nodes) (λ b.
      and_then (add_cfg_edges all_nodes none b (sort_edges c.edges))
        (λ d. ok (record { weights = d.weights; edges = d.edges; nodes = d.nodes })))

abbrev pub previous_ids : Assoc Name UsePreviousValue → List NodeId
previous_ids [] = []
previous_ids ((name, u) ∷ us) = u.node_id ∷ previous_ids us

abbrev pub previous_of : Assoc NodeId Node → List NodeId
previous_of [] = []
previous_of ((id, n) ∷ ns) = previous_ids n.use_previous_values ++ previous_of ns

-- The nodes, as often as they are used; the code makes a set of them.
unfoldable pub need_previous_outputs : FlowGraph → List NodeId
need_previous_outputs f = previous_of f.nodes
