-- ===== src/Flow/Run/Fake.antt =====
-- The fake node of a partial run, of `run` of crates/flow/src/flow_graph.rs: once it is removed the
-- graph is what it was before.
use flow_backend.Prelude.{
  ◌≡◌, ◌≢◌, refl, ◌∙◌, sym, ap, ap₂, Bool, true, false, not, ◌&&◌, some, List, [], ◌∷◌, ◌++◌, All,
  filter, nat_beq, nat_beq_ne, nat_beq_refl, nat_beq_iff, nat_eq, str_eq, Bool-cases, inl, inr,
  >>=-eq-some, some_inj, if◌then◌else◌,
}
use flow_backend.Prelude.Assoc
use flow_backend.Prelude.Assoc.{Assoc}
use flow_backend.Value.Path.{find_slash}
use flow_backend.Flow.Command.{Name}
use flow_backend.Flow.State.{NodeId, NodeIndex, UsePreviousValue, Node, Edge, FlowGraph, State}
use flow_backend.Flow.Inputs.{Run}
use flow_backend.Flow.Partial.{
  UuidText, fake_edge, add_fake_edge, add_fake_edges, add_all_fake_edges, supply_edge, supply_edges,
  supply_partial_run_values, prepare_partial_run,
}
use flow_backend.Flow.Run.{remove_node}

abbrev IsOther : NodeIndex → NodeIndex × NodeId → Type 0
IsOther idx w = w.0 ≢ idx

abbrev IsApart : NodeIndex → Edge → Type 0
IsApart idx e = (e.source ≢ idx) × (e.target ≢ idx)

-- No node has the index, and no edge is at it.
abbrev pub IsFresh : NodeIndex → FlowGraph → Type 0
IsFresh idx f = All (IsOther idx) f.weights × All (IsApart idx) f.edges

abbrev keeps_edge : NodeIndex → Edge → Bool
keeps_edge idx e = not (nat_beq e.source idx) && not (nat_beq e.target idx)

from_node-dropped : (idx : NodeIndex) (e : Edge) → e.source ≡ idx → keeps_edge idx e ≡ false
from_node-dropped idx e h = rw ((nat_beq_iff e.source idx).1 h) refl

filter-dropped :
    {A : Type 0} (p : A → Bool) (x : A) (xs : List A)
    → p x ≡ false
    → filter p (x ∷ xs) ≡ filter p xs
filter-dropped p x xs h = rw h refl

remove_node-add_fake_edge :
    (uuid : UuidText) (idx : NodeIndex) (n : Node) (name : Name) (previous : UsePreviousValue)
    (f : FlowGraph) (s : State)
    → remove_node idx (add_fake_edge uuid idx n name previous f s).0 ≡ remove_node idx f
unfolding add_fake_edge remove_node fake_edge
remove_node-add_fake_edge uuid idx n name previous f s =
    elim (Bool-cases (Assoc.contains_key s.previous_values previous.node_id)) [
      | inl there ↦ rw there (
          ap
            (λ (es : List Edge). record f {
              weights = filter (λ w. not (nat_beq w.0 idx)) f.weights;
              edges = es;
            })
            (filter-dropped (keeps_edge idx) (fake_edge uuid idx f n name previous) f.edges
              (from_node-dropped idx (fake_edge uuid idx f n name previous) refl)))
      | inr gone ↦ rw gone refl
    ]

remove_node-add_fake_edges :
    (uuid : UuidText) (idx : NodeIndex) (n : Node) (inputs : Assoc Name UsePreviousValue)
    (f : FlowGraph) (s : State)
    → remove_node idx (add_fake_edges uuid idx n inputs f s).0 ≡ remove_node idx f
unfolding add_fake_edges
remove_node-add_fake_edges uuid idx n [] f s = refl
remove_node-add_fake_edges uuid idx n ((name, previous) ∷ more) f s =
    let r = add_fake_edge uuid idx n name previous f s in
    remove_node-add_fake_edges uuid idx n more r.0 r.1
    ∙ remove_node-add_fake_edge uuid idx n name previous f s

remove_node-add_all_fake_edges :
    (uuid : UuidText) (idx : NodeIndex) (nodes : Assoc NodeId Node) (f : FlowGraph) (s : State)
    → remove_node idx (add_all_fake_edges uuid idx nodes f s).0 ≡ remove_node idx f
unfolding add_all_fake_edges
remove_node-add_all_fake_edges uuid idx [] f s = refl
remove_node-add_all_fake_edges uuid idx ((id, n) ∷ nodes) f s =
    let r = add_fake_edges uuid idx n n.use_previous_values f s in
    remove_node-add_all_fake_edges uuid idx nodes r.0 r.1
    ∙ remove_node-add_fake_edges uuid idx n n.use_previous_values f s

supply_edge-source :
    (uuid : UuidText) (idx : NodeIndex) (f : FlowGraph) (s : State) (e e' : Edge)
    → supply_edge uuid idx f s e ≡ some e'
    → e'.source ≡ e.source
unfolding supply_edge
supply_edge-source uuid idx f s e e' h =
    let (a, ea, h1) = >>=-eq-some (find_slash e.from).1 _ h in
    let (b, eb, h2) = >>=-eq-some (uuid.parse (find_slash e.from).0) _ h1 in
    let (c, ec, h3) = >>=-eq-some (Assoc.get s.previous_values b) _ h2 in
    let (d, ed, h4) = >>=-eq-some (Assoc.get f.weights e.target) _ h3 in
    let (n, en, h5) = >>=-eq-some (Assoc.get f.nodes d) _ h4 in
    let (p, ep, h6) = >>=-eq-some (Assoc.get n.use_previous_values e.to) _ h5 in
    ap (λ (x : Edge). x.source) (sym (some_inj h6))

filter-supply_edges :
    (uuid : UuidText) (idx : NodeIndex) (f : FlowGraph) (s : State) (es es' : List Edge)
    → supply_edges uuid idx f s es ≡ some es'
    → filter (keeps_edge idx) es' ≡ filter (keeps_edge idx) es
unfolding supply_edges
filter-supply_edges uuid idx f s [] es' h = ap (filter (keeps_edge idx)) (sym (some_inj h))
filter-supply_edges uuid idx f s (e ∷ es) es' h =
    let (e1, h1, rest) =
      >>=-eq-some (if nat_beq e.source idx then supply_edge uuid idx f s e else some e) _ h in
    let (es1, h2, last) = >>=-eq-some (supply_edges uuid idx f s es) _ rest in
    let same = filter-supply_edges uuid idx f s es es1 h2 in
    let keep = keeps_edge idx in
    ap (filter keep) (sym (some_inj last)) ∙ elim (Bool-cases (nat_beq e.source idx)) [
      | inl there ↦
          let source = (nat_beq_iff e.source idx).0 there in
          let supplied : supply_edge uuid idx f s e ≡ some e1 = rw there at h1 in
          let source1 = supply_edge-source uuid idx f s e e1 supplied ∙ source in
          filter-dropped keep e1 es1 (from_node-dropped idx e1 source1)
          ∙ same
          ∙ sym (filter-dropped keep e es (from_node-dropped idx e source))
      | inr other ↦
          let left : some e ≡ some e1 = rw other at h1 in
          ap (λ (x : Edge). filter keep (x ∷ es1)) (sym (some_inj left))
          ∙ ap (λ (r : List Edge). if keep e then e ∷ r else r) same
    ]

filter-keep :
    {A : Type 0} (p : A → Bool) (xs : List A) → All (λ a. p a ≡ true) xs → filter p xs ≡ xs
filter-keep p [] h = refl
filter-keep p (x ∷ xs) h = rw h.0 (ap (λ r. x ∷ r) (filter-keep p xs h.1))

filter-end :
    {A : Type 0} (p : A → Bool) (xs : List A) (x : A)
    → p x ≡ false
    → filter p (xs ++ x ∷ []) ≡ filter p xs
filter-end p [] x h = filter-dropped p x [] h
filter-end p (y ∷ xs) x h = ap (λ r. if p y then y ∷ r else r) (filter-end p xs x h)

others-kept :
    (idx : NodeIndex) (ws : List (NodeIndex × NodeId))
    → All (IsOther idx) ws
    → All (λ w. not (nat_beq w.0 idx) ≡ true) ws
others-kept idx [] h = tt
others-kept idx (w ∷ ws) h = (rw (nat_beq_ne w.0 idx h.0) refl, others-kept idx ws h.1)

apart-kept :
    (idx : NodeIndex) (es : List Edge)
    → All (IsApart idx) es
    → All (λ e. keeps_edge idx e ≡ true) es
apart-kept idx [] h = tt
apart-kept idx (e ∷ es) h =
    (rw (nat_beq_ne e.source idx h.0.0, nat_beq_ne e.target idx h.0.1) refl, apart-kept idx es h.1)

remove_node-fresh :
    (idx : NodeIndex) (nil : NodeId) (f : FlowGraph)
    → IsFresh idx f
    → remove_node idx (record f { weights = f.weights ++ (idx, nil) ∷ [] }) ≡ f
unfolding remove_node
remove_node-fresh idx nil f h =
    ap₂ (λ ws es. record f { weights = ws; edges = es })
      (filter-end (λ (w : NodeIndex × NodeId). not (nat_beq w.0 idx)) f.weights (idx, nil)
          (rw (nat_beq_refl idx) refl)
        ∙ filter-keep (λ w. not (nat_beq w.0 idx)) f.weights (others-kept idx f.weights h.0))
      (filter-keep (keeps_edge idx) f.edges (apart-kept idx f.edges h.1))

remove_node-supply_edges :
    (idx : NodeIndex) (f : FlowGraph) (es : List Edge)
    → filter (keeps_edge idx) es ≡ filter (keeps_edge idx) f.edges
    → remove_node idx (record f { edges = es }) ≡ remove_node idx f
unfolding remove_node
remove_node-supply_edges idx f es h =
    ap
      (λ (kept : List Edge). record f {
        weights = filter (λ w. not (nat_beq w.0 idx)) f.weights;
        edges = kept;
      })
      h

-- What `prepare_partial_run` adds to the graph is removed with the fake node.
pub remove_node-prepare_partial_run :
    (uuid : UuidText) (idx : NodeIndex) (nil : NodeId) (f : FlowGraph) (s : State) (g : FlowGraph)
    (t : State)
    → prepare_partial_run uuid idx nil f s ≡ some (g, t)
    → IsFresh idx f
    → remove_node idx g ≡ f
unfolding prepare_partial_run supply_partial_run_values
remove_node-prepare_partial_run uuid idx nil f s g t e fresh =
    let h : FlowGraph = record f { weights = f.weights ++ (idx, nil) ∷ [] } in
    let r = add_all_fake_edges uuid idx f.nodes h s in
    let (q, found, same) =
      >>=-eq-some (supply_partial_run_values uuid idx r.0 r.1) (λ (q : FlowGraph). some (q, r.1))
        e in
    let (es, supplied, made) =
      >>=-eq-some (supply_edges uuid idx r.0 r.1 r.0.edges)
        (λ (es : List Edge). some (record r.0 { edges = es })) found in
    ap (λ (p : Run). remove_node idx p.0) (sym (some_inj same))
    ∙ ap (remove_node idx) (sym (some_inj made))
    ∙ remove_node-supply_edges idx r.0 es
        (filter-supply_edges uuid idx r.0 r.1 r.0.edges es supplied)
    ∙ remove_node-add_all_fake_edges uuid idx f.nodes h s
    ∙ remove_node-fresh idx nil f fresh
