-- ===== src/Flow/Build/Keyed.antt =====
-- The graph of a configuration: its nodes are under their own ids, as the run needs them, and its
-- edges join its nodes.
use flow_backend.Prelude.{
  ◌≡◌, refl, ◌∙◌, sym, ap, subst, Bool, true, false, Option, none, some, some_inj, List, [], ◌∷◌,
  map, all, contains, All, All-map, nat_beq, nat_beq_iff, nat_eq, str_beq, Bool-cases, inl, inr,
}
use flow_backend.Prelude.Assoc
use flow_backend.Prelude.Assoc.{Assoc}
use flow_backend.Flow.Command.{Command}
use flow_backend.Flow.State.{NodeId, NodeIndex, Node, Edge, FlowGraph}
use flow_backend.Flow.Ready.{foreach}
use flow_backend.Flow.Build.{
  CfgEdge, NodeConfig, FlowConfig, Factory, Building, Built, ok, failed, and_then, empty_building,
  push_command, exclude, add_unless_mock, add_config_node, add_config_nodes, use_previous,
  push_edge, missing_source, add_between, add_cfg_edge, same_target, add_cfg_edges, sort_edges,
  only_of, from_cfg,
}
use flow_backend.Flow.Steps.{IsKeyed}
use flow_backend.Flow.Build.Targets.{Distinct, and_then-ok, add_cfg_edges-Distinct}

abbrev pub index_of : Option Node → Option NodeIndex
index_of none = none
index_of (some n) = some n.idx

abbrev pub Keyed : Assoc NodeId Node → Type 0
Keyed nodes = (id : NodeId) (n : Node) → Assoc.get nodes id ≡ some n → n.id ≡ id

-- An edge goes from one node to one node.
abbrev pub Joins : Assoc NodeId Node → Edge → Type 0
Joins nodes e =
    (i j : NodeId) × (index_of (Assoc.get nodes i) ≡ some e.source)
    × (index_of (Assoc.get nodes j) ≡ some e.target)

record IsBuilt (b : Building) : Type 0 where
  keyed : Keyed b.nodes
  joined : All (Joins b.nodes) b.edges

insert-Keyed :
    (nodes : Assoc NodeId Node) (n : Node) (id : NodeId)
    → n.id ≡ id
    → Keyed nodes
    → Keyed (Assoc.insert nodes id n)
insert-Keyed nodes n id own h i m got = elim (Bool-cases (nat_beq id i)) [
  | inl same ↦
      let is_n : n ≡ m = some_inj (rw same at (sym (Assoc.get-insert nodes id n i) ∙ got)) in
      ap (λ x. x.id) (sym is_n) ∙ own ∙ (nat_beq_iff id i).0 same
  | inr apart ↦ h i m (rw apart at (sym (Assoc.get-insert nodes id n i) ∙ got))
]

built_of : {A : Type 0} → A → Built A → A
built_of d (ok a) = a
built_of d (failed e) = d

pub ok_inj : {A : Type 0} {a b : A} → ok a ≡ ok b → a ≡ b
unfolding built_of
ok_inj {a = a} h = ap (built_of a) h

index_of-insert :
    (nodes : Assoc NodeId Node) (id : NodeId) (old n : Node) (i : NodeId)
    → Assoc.get nodes id ≡ some old
    → old.idx ≡ n.idx
    → index_of (Assoc.get (Assoc.insert nodes id n) i) ≡ index_of (Assoc.get nodes i)
index_of-insert nodes id old n i there same = elim (Bool-cases (nat_beq id i)) [
  | inl hit ↦
      ap index_of (Assoc.get-insert nodes id n i)
      ∙ rw hit (
          ap some (sym same)
          ∙ ap index_of (sym there)
          ∙ ap (λ k. index_of (Assoc.get nodes k)) ((nat_beq_iff id i).0 hit))
  | inr miss ↦ ap index_of (Assoc.get-insert nodes id n i) ∙ rw miss refl
]

use_previous-IsBuilt :
    (b : Building) (target : Node) (e : CfgEdge)
    → Assoc.get b.nodes e.1.0 ≡ some target
    → IsBuilt b
    → IsBuilt (use_previous b target e)
use_previous-IsBuilt b target (from, to) there h =
    let kept : (i : NodeId)
        → index_of (Assoc.get (use_previous b target (from, to)).nodes i)
          ≡ index_of (Assoc.get b.nodes i) =
      λ i. index_of-insert b.nodes to.0 target _ i there refl in
    record {
      keyed = insert-Keyed b.nodes _ to.0 (h.keyed to.0 target there) h.keyed;
      joined =
          All-map (Joins b.nodes) (Joins (use_previous b target (from, to)).nodes)
            (λ e (i, j, source, target). (i, j, kept i ∙ source, kept j ∙ target)) b.edges h.joined;
    }

push_edge-IsBuilt :
    (b : Building) (source target : Node) (e : CfgEdge)
    → Assoc.get b.nodes e.0.0 ≡ some source
    → Assoc.get b.nodes e.1.0 ≡ some target
    → IsBuilt b
    → IsBuilt (push_edge b source target e)
push_edge-IsBuilt b source target (from, to) s t h = record {
  keyed = h.keyed;
  joined = ((from.0, to.0, ap index_of s, ap index_of t), h.joined);
}

missing_source-IsBuilt :
    (all_nodes : List NodeId) (b c rest : Building) (e : CfgEdge)
    → missing_source all_nodes b e (ok rest) ≡ ok c
    → IsBuilt b
    → IsBuilt rest
    → IsBuilt c
missing_source-IsBuilt all_nodes b c rest (from, to) h own others =
    elim (Bool-cases (contains all_nodes from.0)) [
      | inr unknown ↦ absurd (cc (rw unknown at h))
      | inl known ↦ elim (Bool-cases (contains b.mocks from.0)) [
        | inl mock ↦ subst IsBuilt (ok_inj (rw mock at (rw known at h))) own
        | inr real ↦ subst IsBuilt (ok_inj (rw real at (rw known at h))) others
      ]
    ]

add_between-IsBuilt :
    (all_nodes : List NodeId) (b c : Building) (e : CfgEdge) (target source : Option Node)
    → Assoc.get b.nodes e.1.0 ≡ target
    → Assoc.get b.nodes e.0.0 ≡ source
    → add_between all_nodes b e target source ≡ ok c
    → IsBuilt b
    → IsBuilt c
add_between-IsBuilt all_nodes b c e none source t s h own =
    missing_source-IsBuilt all_nodes b c b e h own own
add_between-IsBuilt all_nodes b c e (some target) none t s h own =
    missing_source-IsBuilt all_nodes b c (use_previous b target e) e h own
      (use_previous-IsBuilt b target e t own)
add_between-IsBuilt all_nodes b c e (some target) (some source) t s h own =
    subst IsBuilt (ok_inj h) (push_edge-IsBuilt b source target e s t own)

add_cfg_edges-IsBuilt :
    (all_nodes : List NodeId) (es : List CfgEdge) (before : Option _) (b c : Building)
    → add_cfg_edges all_nodes before b es ≡ ok c
    → IsBuilt b
    → IsBuilt c
add_cfg_edges-IsBuilt all_nodes [] before b c h own = subst IsBuilt (ok_inj h) own
add_cfg_edges-IsBuilt all_nodes ((from, to) ∷ es) before b c h own =
    elim (Bool-cases (same_target before to)) [
      | inl same ↦ absurd (cc (rw same at h))
      | inr apart ↦
          let (d, e, rest) =
            and_then-ok (add_cfg_edge all_nodes b (from, to))
              (λ d. add_cfg_edges all_nodes (some to) d es) c (rw apart at h) in
          add_cfg_edges-IsBuilt all_nodes es (some to) d c rest (
            add_between-IsBuilt all_nodes b d (from, to) (Assoc.get b.nodes to.0)
              (Assoc.get b.nodes from.0) refl refl e own)
    ]

abbrev pub graph_of : Building → FlowGraph
graph_of d = record { weights = d.weights; edges = d.edges; nodes = d.nodes }

-- While nodes are added there is no edge.
record IsBare (b : Building) : Type 0 where
  keyed : Keyed b.nodes
  bare : b.edges ≡ []

module _ {Form : Type 0} (factory : Factory Form) where
  exclude-IsBare : (b : Building) (n : NodeConfig Form) → IsBare b → IsBare (exclude factory b n)
  exclude-IsBare b n h = elim (Bool-cases (str_beq n.command_name foreach)) [
    | inl loop ↦ rw loop (record { keyed = h.keyed; bare = h.bare })
    | inr other ↦ rw other h
  ]

  push_command-IsBare :
      (b c : Building) (n : NodeConfig Form) (command : Option Command)
      → push_command factory b n command ≡ ok c
      → IsBare b
      → IsBare c
  push_command-IsBare b c n none h own = absurd (cc h)
  push_command-IsBare b c n (some command) h own =
      subst IsBare (ok_inj h)
        (record { keyed = insert-Keyed b.nodes _ n.id refl own.keyed; bare = own.bare })

  add_unless_mock-IsBare :
      (only_nodes : List NodeId) (b c : Building) (n : NodeConfig Form) (mock : Bool)
      → add_unless_mock factory only_nodes b n mock ≡ ok c
      → IsBare b
      → IsBare c
  add_unless_mock-IsBare only_nodes b c n true h own =
      subst IsBare (ok_inj h) (record { keyed = own.keyed; bare = own.bare })
  add_unless_mock-IsBare only_nodes b c n false h own =
      elim (Bool-cases (contains only_nodes n.id)) [
        | inr out ↦ subst IsBare (ok_inj (rw out at h)) (exclude-IsBare b n own)
        | inl in_run ↦ push_command-IsBare b c n (factory.new_command n) (rw in_run at h) own
      ]

  add_config_nodes-IsBare :
      (only_nodes : List NodeId) (ns : List (NodeConfig Form)) (b c : Building)
      → add_config_nodes factory only_nodes b ns ≡ ok c
      → IsBare b
      → IsBare c
  add_config_nodes-IsBare only_nodes [] b c h own = subst IsBare (ok_inj h) own
  add_config_nodes-IsBare only_nodes (n ∷ ns) b c h own =
      let (d, e, rest) =
        and_then-ok (add_config_node factory only_nodes b n)
          (λ d. add_config_nodes factory only_nodes d ns) c h in
      add_config_nodes-IsBare only_nodes ns d c rest
        (add_unless_mock-IsBare only_nodes b d n n.is_mock e own)

  -- If a configuration gives a graph, its nodes are under their own ids, as a run needs them, each of
  -- its edges goes from one of its nodes to one of them, and no two edges of the configuration lead to
  -- one input.
  pub from_cfg-IsKeyed :
      (c : FlowConfig Form) (partial_config : Option (List NodeId)) (f : FlowGraph)
      → from_cfg factory c partial_config ≡ ok f
      → IsKeyed f × All (Joins f.nodes) f.edges × Distinct c.edges
  unfolding from_cfg Assoc.get
  from_cfg-IsKeyed c partial_config f h =
      let all_nodes = map (λ n. n.id) c.nodes in
      let only_nodes = only_of partial_config all_nodes in
      elim (Bool-cases (all (λ id. contains all_nodes id) only_nodes)) [
        | inr unknown ↦ absurd (cc (rw unknown at h))
        | inl known ↦
            let (b, nodes, later) =
              and_then-ok (add_config_nodes factory only_nodes empty_building c.nodes)
                (λ b.
                  and_then (add_cfg_edges all_nodes none b (sort_edges c.edges))
                    (λ d. ok (graph_of d)))
                f (rw known at h) in
            let (d, edges, done) =
              and_then-ok (add_cfg_edges all_nodes none b (sort_edges c.edges))
                (λ d. ok (graph_of d)) f later in
            let bare =
              add_config_nodes-IsBare only_nodes c.nodes empty_building b nodes
                (record { keyed = λ id n got. absurd (cc got); bare = refl }) in
            let built =
              add_cfg_edges-IsBuilt all_nodes (sort_edges c.edges) none b d edges (record {
                keyed = bare.keyed;
                joined = subst (All (Joins b.nodes)) (sym bare.bare) tt;
              }) in
            subst (λ g. IsKeyed g × All (Joins g.nodes) g.edges × Distinct c.edges) (ok_inj done)
              (built.keyed, built.joined, add_cfg_edges-Distinct all_nodes c.edges b d edges)
      ]
