-- ===== src/Flow/Transactions/Distinct.antt =====
-- Whether a node is in two transactions.
use flow_backend.Prelude.{
  ℕ, zero, suc, ◌≡◌, refl, ◌∙◌, sym, ap, subst, true, false, some, Option-cases, Bool-cases, inl,
  inr, List, [], ◌∷◌, ◌++◌, All, contains, nat_eq, nat_beq, nat_beq_iff, nat_beq_refl, arith,
  length, >>=-eq-some, if-true, if-false, some_inj, ◌⊎◌,
}
use flow_backend.Prelude.Assoc
use flow_backend.Prelude.Assoc.{Assoc}
use flow_backend.Flow.State.{NodeId, EdgeIndex, Node, FlowGraph}
use flow_backend.Flow.Transactions.Once.{InTable, sort_transactions_total}
use flow_backend.Flow.Transactions.{
  Sort, all_visited, note_instructions, visit, sort_node, sort_pass, after_edges, keys, push_tx,
  sort_round, sort_loop, Sorted, sort_transactions,
}
use flow_backend.Flow.Transactions.NoRepeat.{
  NoRepeat, concat, contains-append, NoRepeat-append, concat-push_tx, keys-insert,
}

-- In a round that begins with these nodes visited: the nodes of its transaction are visited now and
-- were not before, and none is there twice.
record Fresh (v : List NodeId) (s : Sort) : Type 0 where
  grows : (x : NodeId) → contains v x ≡ true → contains s.node_visited x ≡ true
  now :
      (x : NodeId) → contains (keys s.has_instructions) x ≡ true → contains s.node_visited x ≡ true
  before : (x : NodeId) → contains (keys s.has_instructions) x ≡ true → contains v x ≡ false
  single : NoRepeat (keys s.has_instructions)

Fresh-plain :
    (v : List NodeId) (s t : Sort) (id : NodeId)
    → t.node_visited ≡ id ∷ s.node_visited
    → keys t.has_instructions ≡ keys s.has_instructions
    → Fresh v s
    → Fresh v t
Fresh-plain v s t id visited same h = record {
  grows = λ x p. rw visited (ground (arith, h.grows x p));
  now = λ x p. rw visited (ground (arith, h.now x (rw same at p)));
  before = λ x p. h.before x (rw same at p);
  single = rw same h.single;
}

-- The node that a visit adds was not visited when the round began.
apart :
    (v w : List NodeId) (id x : NodeId)
    → contains w id ≡ false
    → contains w x ≡ true
    → nat_beq id x ≡ false
apart v w id x new old = elim (Bool-cases (nat_beq id x)) [
  | inl e ↦ let same = (nat_beq_iff id x).0 e in absurd (cc (new, old, ap (contains w) same))
  | inr e ↦ e
]

last_or :
    (xs : List NodeId) (id x : NodeId)
    → contains (xs ++ id ∷ []) x ≡ true
    → (contains xs x ≡ true) ⊎ (id ≡ x)
last_or xs id x p = elim (Bool-cases (contains xs x)) [
  | inl e ↦ inl e
  | inr e ↦ elim (Bool-cases (nat_beq id x)) [
    | inl b ↦ inr ((nat_beq_iff id x).0 b)
    | inr b ↦ absurd (cc (rw (contains-append xs (id ∷ []) x, e, b) at p))
  ]
]

not_before :
    (v w : List NodeId) (id : NodeId)
    → (contains v id ≡ true → contains w id ≡ true)
    → contains w id ≡ false
    → contains v id ≡ false
not_before v w id grows new = elim (Bool-cases (contains v id)) [
  | inl e ↦ absurd (cc (grows e, new))
  | inr e ↦ e
]

Fresh-noted :
    (v : List NodeId) (s t : Sort) (id : NodeId)
    → t.node_visited ≡ id ∷ s.node_visited
    → keys t.has_instructions ≡ keys s.has_instructions ++ id ∷ []
    → contains s.node_visited id ≡ false
    → Fresh v s
    → Fresh v t
Fresh-noted v s t id visited more new h = record {
  grows = λ x p. rw visited (ground (arith, h.grows x p));
  now = λ x p. rw visited (elim (last_or (keys s.has_instructions) id x (rw more at p)) [
    | inl q ↦ ground (arith, h.now x q)
    | inr e ↦ subst (λ y. contains (id ∷ s.node_visited) y ≡ true) e (rw (nat_beq_refl id))
  ]);
  before = λ x p. elim (last_or (keys s.has_instructions) id x (rw more at p)) [
    | inl q ↦ h.before x q
    | inr e ↦ subst (λ y. contains v y ≡ false) e (not_before v s.node_visited id (h.grows id) new)
  ];
  single = rw more (
      NoRepeat-append (keys s.has_instructions) (id ∷ []) h.single (refl, tt)
        (λ x q. ground (arith, apart v s.node_visited id x new (h.now x q))));
}

Fresh-visit :
    (f : FlowGraph) (v : List NodeId) (n : Node) (id : NodeId) (s : Sort)
    → n.id ≡ id
    → contains s.node_visited id ≡ false
    → Fresh v s
    → Fresh v (visit f n id s)
unfolding visit note_instructions
Fresh-visit f v n id s same new h = elim (Option-cases n.command.instruction_info) [
  | inl e ↦ Fresh-plain v s (visit f n id s) id refl (rw (visit, note_instructions, e)) h
  | inr (info, e) ↦
      Fresh-noted v s (visit f n id s) id refl
        (rw (visit, note_instructions, e, same)
          (keys-insert s.has_instructions id info
            (not_before (keys s.has_instructions) s.node_visited id (h.now id) new)))
        new h
]

abbrev OwnId : FlowGraph → Type 0
OwnId f = (id : NodeId) (n : Node) → Assoc.get f.nodes id ≡ some n → n.id ≡ id

Fresh-sort_node :
    (f : FlowGraph) (v : List NodeId) (id : NodeId) (s t : Sort)
    → OwnId f
    → sort_node f id s ≡ some t
    → Fresh v s
    → Fresh v t
unfolding sort_node
Fresh-sort_node f v id s t own e h = elim (Bool-cases (contains s.node_visited id)) [
  | inl old ↦ subst (Fresh v) (some_inj (sym (if-true _ _ _ old) ∙ e)) h
  | inr new ↦
      let (n, found, rest) = >>=-eq-some (Assoc.get f.nodes id) _ (sym (if-false _ _ _ new) ∙ e) in
      elim (Bool-cases (all_visited f s.edge_visited n.idx)) [
        | inl free ↦
            subst (Fresh v) (some_inj (sym (if-true _ _ _ free) ∙ rest))
              (Fresh-visit f v n id s (own id n found) new h)
        | inr shut ↦ subst (Fresh v) (some_inj (sym (if-false _ _ _ shut) ∙ rest)) h
      ]
]

Fresh-sort_pass :
    (f : FlowGraph) (v ids : List NodeId) (s t : Sort)
    → OwnId f
    → sort_pass f ids s ≡ some t
    → Fresh v s
    → Fresh v t
unfolding sort_pass
Fresh-sort_pass f v [] s t own e h = subst (Fresh v) (some_inj e) h
Fresh-sort_pass f v (id ∷ ids) s t own e h =
    let (u, one, rest) = >>=-eq-some (sort_node f id s) _ e in
    Fresh-sort_pass f v ids u t own rest (Fresh-sort_node f v id s u own one h)

append_cases :
    (xs ys : List NodeId) (x : NodeId)
    → contains (xs ++ ys) x ≡ true
    → (contains xs x ≡ true) ⊎ (contains ys x ≡ true)
append_cases xs ys x p = elim (Bool-cases (contains xs x)) [
  | inl e ↦ inl e
  | inr e ↦ inr (rw (contains-append xs ys x, e) at p)
]

-- The nodes of the transactions so far are visited, and none is there twice.
record Settled (v : List NodeId) (txs : List (List NodeId)) : Type 0 where
  visited : (x : NodeId) → contains (concat txs) x ≡ true → contains v x ≡ true
  single : NoRepeat (concat txs)

Settled-push_tx :
    (v : List NodeId) (s : Sort) (txs : List (List NodeId))
    → Settled v txs
    → Fresh v s
    → Settled s.node_visited (push_tx txs (keys s.has_instructions))
Settled-push_tx v s txs h new = record {
  visited = λ x p.
      elim (append_cases (concat txs) (keys s.has_instructions) x
        (rw (concat-push_tx txs (keys s.has_instructions)) at p)) [
          | inl q ↦ new.grows x (h.visited x q)
          | inr q ↦ new.now x q
        ];
  single = rw (concat-push_tx txs (keys s.has_instructions)) (
      NoRepeat-append (concat txs) (keys s.has_instructions) h.single new.single (λ x q.
        elim (Bool-cases (contains (keys s.has_instructions) x)) [
          | inl e ↦ absurd (cc (h.visited x q, new.before x e))
          | inr e ↦ e
        ]));
}

sort_loop-NoRepeat :
    (f : FlowGraph) (nodes : List NodeId) (fuel : ℕ) (v : List NodeId) (edges : List EdgeIndex)
    (txs result : List (List NodeId))
    → OwnId f
    → Settled v txs
    → sort_loop f nodes fuel v edges txs ≡ some result
    → NoRepeat (concat result)
unfolding sort_loop sort_round
sort_loop-NoRepeat f nodes zero v edges txs result own h e = absurd (cc e)
sort_loop-NoRepeat f nodes (suc fuel) v edges txs result own h e =
    let begin : Sort = record {
      node_visited = v;
      edge_visited = edges;
      should_loop = false;
      has_instructions = [];
    } in
    let start : Fresh v begin = record {
      grows = λ x p. p;
      now = λ x p. absurd (cc p);
      before = λ x p. absurd (cc p);
      single = tt;
    } in
    let (s, ran, rest) = >>=-eq-some (sort_pass f nodes begin) _ e in
    let (opened, opens, last) = >>=-eq-some (after_edges f s.has_instructions) _ rest in
    let settled = Settled-push_tx v s txs h (Fresh-sort_pass f v nodes begin s own ran start) in
    elim (Bool-cases s.should_loop) [
      | inl c ↦
          sort_loop-NoRepeat f nodes fuel s.node_visited (opened ++ s.edge_visited)
            (push_tx txs (keys s.has_instructions)) result own settled
            (sym (if-true _ _ _ c) ∙ last)
      | inr c ↦
          subst (λ r. NoRepeat (concat r)) (some_inj (sym (if-false _ _ _ c) ∙ last)) settled.single
    ]

abbrev txs_of : Sorted → List (List NodeId)
txs_of (Sorted.ok txs) = txs
txs_of Sorted.cycle = []

-- If every node of the topological order is in the table of nodes, and every node of the table is
-- under its own id, sorting the transactions returns, within the rounds that the model allows and
-- without a panic, transactions in which no node is twice, in one or in two of them.
pub sort_transactions-NoRepeat :
    (f : FlowGraph) (nodes : List NodeId)
    → ((id : NodeId) (n : Node) → Assoc.get f.nodes id ≡ some n → n.id ≡ id)
    → All (InTable f) nodes
    → (txs : List (List NodeId)) × (sort_transactions f (some nodes) ≡ some (Sorted.ok txs))
      × NoRepeat (concat txs)
unfolding sort_transactions
sort_transactions-NoRepeat f nodes own h =
    let (txs, e) = sort_transactions_total f nodes h in
    let (found, loops, same) =
      >>=-eq-some (sort_loop f nodes (suc (length nodes)) [] [] [])
        (λ (r : List (List NodeId)). some (Sorted.ok r)) e in
    let begun : Settled [] [] = record { visited = λ x p. absurd (cc p); single = tt } in
    (
      txs,
      e,
      subst (λ r. NoRepeat (concat r)) (ap txs_of (some_inj same))
          (sort_loop-NoRepeat f nodes (suc (length nodes)) [] [] [] found own begun loops),
    )
