-- ===== src/Flow/Config/Mocks.antt =====
-- The configuration of a flow has no mock nodes, so that no edge of it may start at one.
use flow_backend.Prelude.{
  ◌≡◌, refl, ◌∙◌, sym, ap, subst, Bool, true, false, false≢true, Option, none, some, List, [], ◌∷◌,
  ◌++◌, map, contains, All, nat_eq, nat_beq, nat_beq_iff, Bool-cases, ◌⊎◌, inl, inr,
}
use flow_backend.Prelude.Assoc
use flow_backend.Prelude.Assoc.{Assoc}
use flow_backend.Flow.Command.{Name}
use flow_backend.Flow.State.{NodeId, FlowGraph}
use flow_backend.Flow.Build.{NodeConfig, CfgEdge, Factory, ok, from_cfg}
use flow_backend.Flow.Build.Sources.{Starts, from_cfg-Starts}
use flow_backend.Flow.Config.{
  HandleId, ClientNode, ClientEdge, ClientConfig, all_sources, all_targets, collect_names, names_of,
  new_edge, keep_edge, new_edges, new_node, keep_node, new_nodes, new_config,
}

abbrev keep_id : Bool → NodeId → List NodeId → List NodeId
keep_id true id ids = ids
keep_id false id ids = id ∷ ids

-- The nodes that are no mocks.
abbrev pub real_ids : {Form : Type 0} → List (ClientNode Form) → List NodeId
real_ids [] = []
real_ids (n ∷ ns) = keep_id n.is_mock n.id (real_ids ns)

ids-keep_node :
    {Form : Type 0} (mock : Bool) (n : NodeConfig Form) (rest : List (NodeConfig Form))
    → map (λ m. m.id) (keep_node mock n rest) ≡ keep_id mock n.id (map (λ m. m.id) rest)
ids-keep_node true n rest = refl
ids-keep_node false n rest = refl

ids-new_nodes :
    {Form : Type 0} (ns : List (ClientNode Form))
    → map (λ (m : NodeConfig Form). m.id) (new_nodes ns) ≡ real_ids ns
ids-new_nodes [] = refl
ids-new_nodes (n ∷ ns) =
    ids-keep_node n.is_mock (new_node n) (new_nodes ns)
    ∙ ap (keep_id n.is_mock n.id) (ids-new_nodes ns)

-- The ID stands in the list.
abbrev Names : HandleId → List (HandleId × Name) → Type 0
Names id [] = ⊥
Names id ((j, name) ∷ more) = (j ≡ id) ⊎ Names id more

-- A source or a target of one of the nodes has the ID.
abbrev pub HasHandle : {Form : Type 0} → HandleId → List (ClientNode Form) → Type 0
HasHandle id [] = ⊥
HasHandle id (n ∷ ns) = Names id n.sources ⊎ (Names id n.targets ⊎ HasHandle id ns)

Names-left : (id : HandleId) (xs ys : List (HandleId × Name)) → Names id xs → Names id (xs ++ ys)
Names-left id [] ys h = elim h [ ]
Names-left id ((j, name) ∷ xs) ys (inl e) = inl e
Names-left id ((j, name) ∷ xs) ys (inr h) = inr (Names-left id xs ys h)

Names-right : (id : HandleId) (xs ys : List (HandleId × Name)) → Names id ys → Names id (xs ++ ys)
Names-right id [] ys h = h
Names-right id ((j, name) ∷ xs) ys h = inr (Names-right id xs ys h)

HasHandle-Names :
    {Form : Type 0} (id : HandleId) (ns : List (ClientNode Form))
    → HasHandle id ns
    → Names id (all_sources ns) ⊎ Names id (all_targets ns)
HasHandle-Names id [] h = elim h [ ]
HasHandle-Names id (n ∷ ns) (inl h) = inl (Names-left id n.sources (all_sources ns) h)
HasHandle-Names id (n ∷ ns) (inr (inl h)) = inr (Names-left id n.targets (all_targets ns) h)
HasHandle-Names id (n ∷ ns) (inr (inr h)) = elim (HasHandle-Names id ns h) [
  | inl source ↦ inl (Names-right id n.sources (all_sources ns) source)
  | inr target ↦ inr (Names-right id n.targets (all_targets ns) target)
]

insert-some :
    (names : Assoc HandleId Name) (j id : HandleId) (new : Name)
    → (j ≡ id) ⊎ ((name : Name) × (Assoc.get names id ≡ some name))
    → (name : Name) × (Assoc.get (Assoc.insert names j new) id ≡ some name)
insert-some names j id new h = elim (Bool-cases (nat_beq j id)) [
  | inl same ↦ (new, Assoc.get-insert names j new id ∙ rw same refl)
  | inr other ↦ elim h [
    | inl e ↦ absurd (false≢true (sym other ∙ (nat_beq_iff j id).1 e))
    | inr (name, e) ↦ (name, Assoc.get-insert names j new id ∙ rw other e)
  ]
]

collect_names-some :
    (id : HandleId) (names : Assoc HandleId Name) (l : List (HandleId × Name))
    → Names id l ⊎ ((name : Name) × (Assoc.get names id ≡ some name))
    → (name : Name) × (Assoc.get (collect_names names l) id ≡ some name)
collect_names-some id names [] (inl h) = elim h [ ]
collect_names-some id names [] (inr h) = h
collect_names-some id names ((j, new) ∷ l) (inl (inl e)) =
    collect_names-some id (Assoc.insert names j new) l (inr (insert-some names j id new (inl e)))
collect_names-some id names ((j, new) ∷ l) (inl (inr h)) =
    collect_names-some id (Assoc.insert names j new) l (inl h)
collect_names-some id names ((j, new) ∷ l) (inr h) =
    collect_names-some id (Assoc.insert names j new) l (inr (insert-some names j id new (inr h)))

names_of-some :
    {Form : Type 0} (id : HandleId) (ns : List (ClientNode Form))
    → HasHandle id ns
    → (name : Name) × (Assoc.get (names_of ns) id ≡ some name)
names_of-some id ns h = collect_names-some id [] (all_sources ns ++ all_targets ns) (
    inl (elim (HasHandle-Names id ns h) [
      | inl source ↦ Names-left id (all_sources ns) (all_targets ns) source
      | inr target ↦ Names-right id (all_sources ns) (all_targets ns) target
    ]))

-- If the editor's nodes have the handles of the edge, one that is no mock is its source.
abbrev pub StartsReal : {Form : Type 0} → List (ClientNode Form) → ClientEdge → Type 0
StartsReal nodes e =
    HasHandle e.source_handle nodes
    → HasHandle e.target_handle nodes
    → contains (real_ids nodes) e.source ≡ true

kept_rest :
    {Form : Type 0} (nodes : List (ClientNode Form)) (o : Option CfgEdge) (rest : List CfgEdge)
    → All (Starts (real_ids nodes)) (keep_edge o rest)
    → All (Starts (real_ids nodes)) rest
kept_rest nodes none rest h = h
kept_rest nodes (some e) rest h = h.1

new_edges-StartsReal :
    {Form : Type 0} (nodes : List (ClientNode Form)) (es : List ClientEdge)
    → All (Starts (real_ids nodes)) (new_edges (names_of nodes) es)
    → All (StartsReal nodes) es
new_edges-StartsReal nodes [] h = tt
new_edges-StartsReal nodes (e ∷ es) h =
    let names = names_of nodes in
    let rest = new_edges names es in
    (
      λ source target.
          let (from, from_there) = names_of-some e.source_handle nodes source in
          let (to, to_there) = names_of-some e.target_handle nodes target in
          let made : new_edge names e ≡ some ((e.source, from), (e.target, to)) =
            rw (from_there, to_there) refl in
          (subst (λ o. All (Starts (real_ids nodes)) (keep_edge o rest)) made h).0,
      new_edges-StartsReal nodes es (kept_rest nodes (new_edge names e) rest h),
    )

-- If a flow as the editor saves it gives a graph, each of its edges, if its two handles are ones of
-- the flow's nodes, has the ID of a node that is no mock for its source.
pub new_config-Starts :
    {Form : Type 0} (factory : Factory Form) (c : ClientConfig Form)
    (partial_config : Option (List NodeId)) (f : FlowGraph)
    → from_cfg factory (new_config c) partial_config ≡ ok f
    → All (StartsReal c.nodes) c.edges
unfolding new_config
new_config-Starts factory c partial_config f h = new_edges-StartsReal c.nodes c.edges (
    subst (λ ids. All (Starts ids) (new_edges (names_of c.nodes) c.edges)) (ids-new_nodes c.nodes)
      (from_cfg-Starts factory (new_config c) partial_config f h))
