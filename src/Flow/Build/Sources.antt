-- ===== src/Flow/Build/Sources.antt =====
-- Every edge of a configuration that is accepted starts at a node of the configuration.
use flow_backend.Prelude.{
  ◌≡◌, refl, ◌∙◌, sym, ap, subst, Bool, true, false, ◌||◌, Option, none, some, List, [], ◌∷◌, map,
  all, contains, All, All-map, nat_beq, nat_beq_iff, nat_beq_refl, nat_eq, str_beq, Bool-cases, inl,
  inr, arith,
}
use flow_backend.Prelude.Assoc
use flow_backend.Prelude.Assoc.{Assoc}
use flow_backend.Flow.Command.{Command}
use flow_backend.Flow.State.{NodeId, Node, FlowGraph}
use flow_backend.Flow.Ready.{foreach}
use flow_backend.Flow.Build.{
  Gate, CfgEdge, NodeConfig, FlowConfig, Factory, Building, ok, and_then, empty_building,
  push_command, exclude, add_unless_mock, add_config_node, add_config_nodes, use_previous,
  missing_source, add_between, add_cfg_edge, same_target, add_cfg_edges, sort_edges, only_of,
  from_cfg,
}
use flow_backend.Flow.Build.Targets.{and_then-ok}
use flow_backend.Flow.Build.Order.{All-sort_edges}
use flow_backend.Flow.Build.Keyed.{ok_inj, graph_of}

-- The nodes that were made are nodes of the configuration.
abbrev IsKnown : List NodeId → Building → Type 0
IsKnown all_nodes b =
    (id : NodeId) (n : Node) → Assoc.get b.nodes id ≡ some n → contains all_nodes id ≡ true

abbrev pub Starts : List NodeId → CfgEdge → Type 0
Starts all_nodes e = contains all_nodes e.0.0 ≡ true

insert-IsKnown :
    (all_nodes : List NodeId) (nodes : Assoc NodeId Node) (id : NodeId) (m : Node)
    → contains all_nodes id ≡ true
    → ((i : NodeId) (n : Node) → Assoc.get nodes i ≡ some n → contains all_nodes i ≡ true)
    → (i : NodeId) (n : Node) → Assoc.get (Assoc.insert nodes id m) i ≡ some n
    → contains all_nodes i ≡ true
insert-IsKnown all_nodes nodes id m known h i n got = elim (Bool-cases (nat_beq id i)) [
  | inl same ↦ ap (contains all_nodes) (sym ((nat_beq_iff id i).0 same)) ∙ known
  | inr apart ↦ h i n (rw apart at (sym (Assoc.get-insert nodes id m i) ∙ got))
]

missing_source-Starts :
    (all_nodes : List NodeId) (b rest c : Building) (e : CfgEdge)
    → missing_source all_nodes b e (ok rest) ≡ ok c
    → IsKnown all_nodes b
    → IsKnown all_nodes rest
    → Starts all_nodes e × IsKnown all_nodes c
missing_source-Starts all_nodes b rest c (from, to) h own others =
    elim (Bool-cases (contains all_nodes from.0)) [
      | inr unknown ↦ absurd (cc (rw unknown at h))
      | inl known ↦ elim (Bool-cases (contains b.mocks from.0)) [
        | inl mock ↦ (known, subst (IsKnown all_nodes) (ok_inj (rw mock at (rw known at h))) own)
        | inr real ↦ (known, subst (IsKnown all_nodes) (ok_inj (rw real at (rw known at h))) others)
      ]
    ]

add_between-Starts :
    (all_nodes : List NodeId) (b c : Building) (e : CfgEdge) (target source : Option Node)
    → Assoc.get b.nodes e.1.0 ≡ target
    → Assoc.get b.nodes e.0.0 ≡ source
    → add_between all_nodes b e target source ≡ ok c
    → IsKnown all_nodes b
    → Starts all_nodes e × IsKnown all_nodes c
add_between-Starts all_nodes b c e none source t s h own =
    missing_source-Starts all_nodes b b c e h own own
add_between-Starts all_nodes b c (from, to) (some target) none t s h own =
    missing_source-Starts all_nodes b (use_previous b target (from, to)) c (from, to) h own
      (insert-IsKnown all_nodes b.nodes to.0 _ (own to.0 target t) own)
add_between-Starts all_nodes b c (from, to) (some target) (some source) t s h own =
    (own from.0 source s, subst (IsKnown all_nodes) (ok_inj h) own)

pub add_cfg_edges-Starts :
    (all_nodes : List NodeId) (es : List CfgEdge) (before : Option Gate) (b c : Building)
    → add_cfg_edges all_nodes before b es ≡ ok c
    → IsKnown all_nodes b
    → All (Starts all_nodes) es
add_cfg_edges-Starts all_nodes [] before b c h own = tt
add_cfg_edges-Starts all_nodes ((from, to) ∷ es) before b c h own =
    elim (Bool-cases (same_target before to)) [
      | inl same ↦ absurd (cc (rw same at h))
      | inr apart ↦
          let (d, e, rest) =
            and_then-ok (add_cfg_edge all_nodes b (from, to))
              (λ d. add_cfg_edges all_nodes (some to) d es) c (rw apart at h) in
          let (starts, known) =
            add_between-Starts all_nodes b d (from, to) (Assoc.get b.nodes to.0)
              (Assoc.get b.nodes from.0) refl refl e own in
          (starts, add_cfg_edges-Starts all_nodes es (some to) d c rest known)
    ]

module _ {Form : Type 0} (factory : Factory Form) (all_nodes : List NodeId) where
  abbrev IsListed : NodeConfig Form → Type 0
  IsListed n = contains all_nodes n.id ≡ true

  exclude-IsKnown :
      (b : Building) (n : NodeConfig Form)
      → IsKnown all_nodes b
      → IsKnown all_nodes (exclude factory b n)
  exclude-IsKnown b n h = elim (Bool-cases (str_beq n.command_name foreach)) [
    | inl loop ↦ rw loop h
    | inr other ↦ rw other h
  ]

  push_command-IsKnown :
      (b c : Building) (n : NodeConfig Form) (command : Option Command)
      → push_command factory b n command ≡ ok c
      → IsListed n
      → IsKnown all_nodes b
      → IsKnown all_nodes c
  push_command-IsKnown b c n none h listed own = absurd (cc h)
  push_command-IsKnown b c n (some command) h listed own =
      subst (IsKnown all_nodes) (ok_inj h) (insert-IsKnown all_nodes b.nodes n.id _ listed own)

  add_unless_mock-IsKnown :
      (only_nodes : List NodeId) (b c : Building) (n : NodeConfig Form) (mock : Bool)
      → add_unless_mock factory only_nodes b n mock ≡ ok c
      → IsListed n
      → IsKnown all_nodes b
      → IsKnown all_nodes c
  add_unless_mock-IsKnown only_nodes b c n true h listed own =
      subst (IsKnown all_nodes) (ok_inj h) own
  add_unless_mock-IsKnown only_nodes b c n false h listed own =
      elim (Bool-cases (contains only_nodes n.id)) [
        | inr out ↦ subst (IsKnown all_nodes) (ok_inj (rw out at h)) (exclude-IsKnown b n own)
        | inl in_run ↦
            push_command-IsKnown b c n (factory.new_command n) (rw in_run at h) listed own
      ]

  add_config_nodes-IsKnown :
      (only_nodes : List NodeId) (ns : List (NodeConfig Form)) (b c : Building)
      → add_config_nodes factory only_nodes b ns ≡ ok c
      → All IsListed ns
      → IsKnown all_nodes b
      → IsKnown all_nodes c
  add_config_nodes-IsKnown only_nodes [] b c h listed own = subst (IsKnown all_nodes) (ok_inj h) own
  add_config_nodes-IsKnown only_nodes (n ∷ ns) b c h listed own =
      let (d, e, rest) =
        and_then-ok (add_config_node factory only_nodes b n)
          (λ d. add_config_nodes factory only_nodes d ns) c h in
      add_config_nodes-IsKnown only_nodes ns d c rest listed.1
        (add_unless_mock-IsKnown only_nodes b d n n.is_mock e listed.0 own)

contains-more :
    (x : NodeId) (xs : List NodeId) (a : NodeId) → contains xs a ≡ true → contains (x ∷ xs) a ≡ true
contains-more x xs a h = ground arith

ids_listed :
    {Form : Type 0} (ns : List (NodeConfig Form))
    → All (λ (n : NodeConfig Form). contains (map (λ m. m.id) ns) n.id ≡ true) ns
ids_listed [] = tt
ids_listed (n ∷ ns) = (
  ap (λ b. b || contains (map (λ m. m.id) ns) n.id) (nat_beq_refl n.id),
  All-map (λ (m : NodeConfig _). contains (map (λ m. m.id) ns) m.id ≡ true) _
      (λ m h. contains-more n.id (map (λ m. m.id) ns) m.id h) ns (ids_listed ns),
)

-- If a configuration gives a graph, every edge of it starts at a node that it lists.
pub from_cfg-Starts :
    {Form : Type 0} (factory : Factory Form) (c : FlowConfig Form)
    (partial_config : Option (List NodeId)) (f : FlowGraph)
    → from_cfg factory c partial_config ≡ ok f
    → All (Starts (map (λ n. n.id) c.nodes)) c.edges
unfolding from_cfg Assoc.get
from_cfg-Starts factory c partial_config f h =
    let all_nodes = map (λ n. n.id) c.nodes in
    let only_nodes = only_of partial_config all_nodes in
    elim (Bool-cases (all (λ id. contains all_nodes id) only_nodes)) [
      | inr unknown ↦ absurd (cc (rw unknown at h))
      | inl known ↦
          let (b, nodes, later) =
            and_then-ok (add_config_nodes factory only_nodes empty_building c.nodes)
              (λ b.
                and_then (add_cfg_edges all_nodes none b (sort_edges c.edges))
                  (λ d. ok (graph_of d)))
              f (rw known at h) in
          let (d, edges, done) =
            and_then-ok (add_cfg_edges all_nodes none b (sort_edges c.edges)) (λ d. ok (graph_of d))
              f later in
          All-sort_edges (Starts all_nodes) c.edges (
            add_cfg_edges-Starts all_nodes (sort_edges c.edges) none b d edges (
              add_config_nodes-IsKnown factory all_nodes only_nodes c.nodes empty_building b nodes
                (ids_listed c.nodes) (λ id n got. absurd (cc got))))
    ]
