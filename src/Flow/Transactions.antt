-- ===== src/Flow/Transactions.antt =====
-- `sort_transactions` of crates/flow/src/flow_graph.rs: which nodes put their instructions into one
-- transaction. The order of the nodes is what petgraph's `toposort` returns.
pub mod Filled
pub mod Once
pub mod NoRepeat
pub mod Distinct
use flow_backend.Prelude.{
  ℕ, zero, suc, Bool, true, false, ◌||◌, Option, none, some, List, [], ◌∷◌, ◌++◌, Str, str_beq,
  nat_eq, nat_beq, contains, filter, all, any, map, length, if◌then◌else◌, ◌>>=◌,
}
use flow_backend.Prelude.Assoc
use flow_backend.Prelude.Assoc.{Assoc}
use flow_backend.Flow.Command.{Name, InstructionInfo}
use flow_backend.Flow.State.{NodeId, NodeIndex, EdgeIndex, Node, Edge, FlowGraph}
use flow_backend.Flow.Ready.{in_edges, out_edges}

pub record Sort : Type 0 where
  pub node_visited : List NodeId
  pub edge_visited : List EdgeIndex
  pub should_loop : Bool
  pub has_instructions : Assoc NodeId InstructionInfo

abbrev pub edge_id : Edge → EdgeIndex
edge_id e = e.id

abbrev pub has_name : List Name → Name → Bool
has_name names name = any (λ n. str_beq n name) names

-- The edges that a visited node opens at once.
unfoldable pub spread : FlowGraph → Node → List EdgeIndex
spread f n = elim n.command.instruction_info [
  | none ↦ map edge_id (out_edges f n.idx)
  | some info ↦ map edge_id (filter (λ e. has_name info.before e.from) (out_edges f n.idx))
]

unfoldable pub note_instructions :
    Node → Assoc NodeId InstructionInfo → Assoc NodeId InstructionInfo
note_instructions n m = elim n.command.instruction_info [
  | none ↦ m
  | some info ↦ Assoc.insert m n.id info
]

unfoldable pub all_visited : FlowGraph → List EdgeIndex → NodeIndex → Bool
all_visited f edges idx = all (λ e. contains edges e.id) (in_edges f idx)

unfoldable pub visit : FlowGraph → Node → NodeId → Sort → Sort
unfolding spread note_instructions
visit f n id s = record {
  node_visited = id ∷ s.node_visited;
  edge_visited = spread f n ++ s.edge_visited;
  should_loop = true;
  has_instructions = note_instructions n s.has_instructions;
}

-- `none` is the panic of an index by a node that is not in the table.
unfoldable pub sort_node : FlowGraph → NodeId → Sort → Option Sort
unfolding visit all_visited
sort_node f id s =
    if contains s.node_visited id
    then some s
    else (Assoc.get f.nodes id >>= λ n.
        if all_visited f s.edge_visited n.idx then some (visit f n id s) else some s)

unfoldable pub sort_pass : FlowGraph → List NodeId → Sort → Option Sort
sort_pass f [] s = some s
sort_pass f (id ∷ ids) s = sort_node f id s >>= λ t. sort_pass f ids t

-- The edges that open when a transaction has run.
unfoldable pub after_edges : FlowGraph → Assoc NodeId InstructionInfo → Option (List EdgeIndex)
after_edges f [] = some []
after_edges f ((id, info) ∷ more) = Assoc.get f.nodes id >>= λ n. after_edges f more >>= λ rest.
    some (
      map edge_id (
        filter (λ e. str_beq info.signature e.from || has_name info.after e.from)
          (out_edges f n.idx))
      ++ rest)

abbrev pub keys : Assoc NodeId InstructionInfo → List NodeId
keys m = map (λ p. p.0) m

abbrev pub push_tx : List (List NodeId) → List NodeId → List (List NodeId)
push_tx txs [] = txs
push_tx txs (id ∷ ids) = txs ++ (id ∷ ids) ∷ []

-- One round: a pass over the nodes from the sets of the rounds before.
unfoldable pub sort_round : FlowGraph → List NodeId → List NodeId → List EdgeIndex → Option Sort
unfolding sort_pass
sort_round f nodes visited edges = sort_pass f nodes (record {
  node_visited = visited;
  edge_visited = edges;
  should_loop = false;
  has_instructions = [];
})

unfoldable pub sort_loop :
    FlowGraph
    → List NodeId
    → ℕ
    → List NodeId
    → List EdgeIndex
    → List (List NodeId)
    → Option (List (List NodeId))
unfolding sort_round after_edges
sort_loop f nodes zero visited edges result = none
sort_loop f nodes (suc fuel) visited edges result = sort_round f nodes visited edges >>= λ s.
    after_edges f s.has_instructions >>= λ opened.
    let txs = push_tx result (keys s.has_instructions) in
    let more = sort_loop f nodes fuel s.node_visited (opened ++ s.edge_visited) txs in
    if s.should_loop then more else some txs

pub data Sorted : Type 0 where
  ok : List (List NodeId) → Sorted
  cycle : Sorted

-- `nodes` is what `toposort` returns, `none` where the graph has a cycle. Every round but the last
-- visits a node.
unfoldable pub sort_transactions : FlowGraph → Option (List NodeId) → Option Sorted
unfolding sort_loop
sort_transactions f none = some Sorted.cycle
sort_transactions f (some nodes) =
    sort_loop f nodes (suc (length nodes)) [] [] [] >>= λ txs. some (Sorted.ok txs)
