-- ===== src/Flow/Transactions/Once.antt =====
-- Sorting the transactions ends.
use flow_backend.Prelude.{
  ℕ, zero, suc, ◌+◌, ◌≤◌, ◌<◌, ◌≡◌, refl, ◌∙◌, ap, true, false, Option, some, List, [], ◌∷◌, ◌++◌,
  length, contains, arith, Option-cases, Bool-cases, inl, inr, nat_eq, nat_beq, nat_beq_iff,
  nat_beq_refl, All, if◌then◌else◌, bind-some, if-false, if-true,
}
use flow_backend.Prelude.Assoc
use flow_backend.Prelude.Assoc.{Assoc, get-insert}
use flow_backend.Flow.Command.{InstructionInfo}
use flow_backend.Flow.State.{NodeId, EdgeIndex, Node, FlowGraph}
use flow_backend.Flow.Transactions.{
  Sort, all_visited, note_instructions, visit, sort_node, sort_pass, after_edges, keys, push_tx,
  sort_round, sort_loop, Sorted, sort_transactions,
}

-- How many of the nodes were not visited.
abbrev pub unvisited : List NodeId → List NodeId → ℕ
unvisited v [] = 0
unvisited v (n ∷ ns) = (if contains v n then 0 else 1) + unvisited v ns

pub unvisited-le : (v ns : List NodeId) (id : NodeId) → unvisited (id ∷ v) ns ≤ unvisited v ns
unvisited-le v [] id = omega arith
unvisited-le v (n ∷ ns) id = ground (arith, unvisited-le v ns id)

pub unvisited-lt :
    (v ns : List NodeId) (id : NodeId)
    → contains ns id ≡ true
    → contains v id ≡ false
    → unvisited (id ∷ v) ns < unvisited v ns
unvisited-lt v [] id h new = absurd (cc h)
unvisited-lt v (n ∷ ns) id h new = elim (Bool-cases (nat_beq n id)) [
  | inl e ↦
      let same = (nat_beq_iff n id).0 e in
      let le = unvisited-le v ns id in rw (same, new, nat_beq_refl id) (omega (arith, le))
  | inr e ↦ ground (arith, unvisited-lt v ns id (rw e at h) new)
]

pub unvisited-length : (ns : List NodeId) → unvisited [] ns ≤ length ns
unvisited-length [] = omega arith
unvisited-length (n ∷ ns) = omega (arith, unvisited-length ns)

-- A node of the table, under its own id.
abbrev pub InTable : FlowGraph → NodeId → Type 0
InTable f id = (n : Node) × (Assoc.get f.nodes id ≡ some n) × (n.id ≡ id)

abbrev KeysIn : FlowGraph → Assoc NodeId InstructionInfo → Type 0
KeysIn f m = All (λ (p : NodeId × InstructionInfo). InTable f p.0) m

KeysIn-insert :
    (f : FlowGraph) (m : Assoc NodeId InstructionInfo) (id : NodeId) (info : InstructionInfo)
    → InTable f id
    → KeysIn f m
    → KeysIn f (Assoc.insert m id info)
unfolding Assoc.insert
KeysIn-insert f [] id info h all = (h, tt)
KeysIn-insert f ((j, w) ∷ m) id info h all = elim (Bool-cases (nat_beq j id)) [
  | inl e ↦ rw e (h, all.1)
  | inr e ↦ rw e (all.0, KeysIn-insert f m id info h all.1)
]

-- What visiting nodes does to the state of a round.
record Passed (f : FlowGraph) (nodes : List NodeId) (s t : Sort) : Type 0 where
  fewer : unvisited t.node_visited nodes ≤ unvisited s.node_visited nodes
  looped :
      s.should_loop ≡ false
      → t.should_loop ≡ true
      → unvisited t.node_visited nodes < unvisited s.node_visited nodes
  known : KeysIn f s.has_instructions → KeysIn f t.has_instructions

Passed-refl : (f : FlowGraph) (nodes : List NodeId) (s : Sort) → Passed f nodes s s
Passed-refl f nodes s = record {
  fewer = omega arith;
  looped = λ a b. absurd (cc (a, b));
  known = λ h. h;
}

Passed-trans :
    (f : FlowGraph) (nodes : List NodeId) (s t u : Sort)
    → Passed f nodes s t
    → Passed f nodes t u
    → Passed f nodes s u
Passed-trans f nodes s t u p q = record {
  fewer = omega (arith, p.fewer, q.fewer);
  looped = λ a b. elim (Bool-cases t.should_loop) [
    | inl c ↦ omega (arith, p.looped a c, q.fewer)
    | inr c ↦ omega (arith, p.fewer, q.looped c b)
  ];
  known = λ h. q.known (p.known h);
}

known_after :
    (f : FlowGraph) (n : Node) (m : Assoc NodeId InstructionInfo)
    → InTable f n.id
    → KeysIn f m
    → KeysIn f (note_instructions n m)
unfolding note_instructions
known_after f n m h all = elim (Option-cases n.command.instruction_info) [
  | inl e ↦ rw e all
  | inr (info, e) ↦ rw e (KeysIn-insert f m n.id info h all)
]

Passed-visit :
    (f : FlowGraph) (nodes : List NodeId) (n : Node) (id : NodeId) (s : Sort)
    → InTable f n.id
    → contains nodes id ≡ true
    → contains s.node_visited id ≡ false
    → Passed f nodes s (visit f n id s)
unfolding visit
Passed-visit f nodes n id s h there new =
    let less = unvisited-lt s.node_visited nodes id there new in
    record {
      fewer = omega (arith, less);
      looped = λ a b. less;
      known = known_after f n s.has_instructions h;
    }

abbrev Passes : FlowGraph → List NodeId → Sort → Option Sort → Type 0
Passes f nodes s o = (t : Sort) × (o ≡ some t) × Passed f nodes s t

sort_node-Passes :
    (f : FlowGraph) (nodes : List NodeId) (id : NodeId) (s : Sort)
    → InTable f id
    → contains nodes id ≡ true
    → Passes f nodes s (sort_node f id s)
unfolding sort_node
sort_node-Passes f nodes id s (n, found, same) there =
    elim (Bool-cases (contains s.node_visited id)) [
      | inl old ↦ (s, if-true _ _ _ old, Passed-refl f nodes s)
      | inr new ↦ elim (Bool-cases (all_visited f s.edge_visited n.idx)) [
        | inl opens ↦ (
          visit f n id s,
          if-false _ _ _ new ∙ bind-some _ _ found ∙ if-true _ _ _ opens,
          Passed-visit f nodes n id s (n, ap (Assoc.get f.nodes) same ∙ found, refl) there new,
        )
        | inr shut ↦ (
          s,
          if-false _ _ _ new ∙ bind-some _ _ found ∙ if-false _ _ _ shut,
          Passed-refl f nodes s,
        )
      ]
    ]

sort_pass-Passes :
    (f : FlowGraph) (nodes ids : List NodeId) (s : Sort)
    → All (λ id. InTable f id × (contains nodes id ≡ true)) ids
    → Passes f nodes s (sort_pass f ids s)
unfolding sort_pass
sort_pass-Passes f nodes [] s h = (s, refl, Passed-refl f nodes s)
sort_pass-Passes f nodes (id ∷ ids) s h =
    let (t, one, p) = sort_node-Passes f nodes id s h.0.0 h.0.1 in
    let (u, more, q) = sort_pass-Passes f nodes ids t h.1 in
    (u, bind-some _ _ one ∙ more, Passed-trans f nodes s t u p q)

after_edges_total :
    (f : FlowGraph) (m : Assoc NodeId InstructionInfo)
    → KeysIn f m
    → (edges : List EdgeIndex) × (after_edges f m ≡ some edges)
unfolding after_edges
after_edges_total f [] h = ([], refl)
after_edges_total f ((id, info) ∷ m) h =
    let (n, found, same) = h.0 in
    let (rest, more) = after_edges_total f m h.1 in (_, bind-some _ _ found ∙ bind-some _ _ more)

sort_loop_total :
    (f : FlowGraph) (nodes : List NodeId) (fuel : ℕ) (visited : List NodeId)
    (edges : List EdgeIndex) (result : List (List NodeId))
    → All (λ id. InTable f id × (contains nodes id ≡ true)) nodes
    → unvisited visited nodes < fuel
    → (txs : List (List NodeId)) × (sort_loop f nodes fuel visited edges result ≡ some txs)
unfolding sort_loop sort_round
sort_loop_total f nodes zero visited edges result h enough = absurd (omega arith)
sort_loop_total f nodes (suc fuel) visited edges result h enough =
    let begin : Sort = record {
      node_visited = visited;
      edge_visited = edges;
      should_loop = false;
      has_instructions = [];
    } in
    let (s, ran, p) = sort_pass-Passes f nodes nodes begin h in
    let (opened, opens) = after_edges_total f s.has_instructions (p.known tt) in
    elim (Bool-cases s.should_loop) [
      | inl c ↦
          let (txs, more) =
            sort_loop_total f nodes fuel s.node_visited (opened ++ s.edge_visited)
              (push_tx result (keys s.has_instructions)) h
              (omega (arith, p.looped refl c, enough)) in
          (txs, bind-some _ _ ran ∙ bind-some _ _ opens ∙ if-true _ _ _ c ∙ more)
      | inr c ↦ (_, bind-some _ _ ran ∙ bind-some _ _ opens ∙ if-false _ _ _ c)
    ]

-- The nodes of a list are in it.
contains_later :
    (n : NodeId) (ns ids : List NodeId)
    → All (λ i. contains ns i ≡ true) ids
    → All (λ i. contains (n ∷ ns) i ≡ true) ids
contains_later n ns [] h = tt
contains_later n ns (id ∷ ids) h = (ground (arith, h.0), contains_later n ns ids h.1)

contains_self : (ns : List NodeId) → All (λ i. contains ns i ≡ true) ns
contains_self [] = tt
contains_self (n ∷ ns) = (rw (nat_beq_refl n), contains_later n ns ns (contains_self ns))

All-zip :
    (f : FlowGraph) (ns ids : List NodeId)
    → All (InTable f) ids
    → All (λ i. contains ns i ≡ true) ids
    → All (λ i. InTable f i × (contains ns i ≡ true)) ids
All-zip f ns [] p q = tt
All-zip f ns (id ∷ ids) p q = ((p.0, q.0), All-zip f ns ids p.1 q.1)

-- Sorting returns the transactions.
pub sort_transactions_total :
    (f : FlowGraph) (nodes : List NodeId)
    → All (InTable f) nodes
    → (txs : List (List NodeId)) × (sort_transactions f (some nodes) ≡ some (Sorted.ok txs))
unfolding sort_transactions
sort_transactions_total f nodes h =
    let (txs, e) =
      sort_loop_total f nodes (suc (length nodes)) [] [] []
        (All-zip f nodes nodes h (contains_self nodes)) (omega (arith, unvisited-length nodes)) in
    (txs, bind-some _ _ e)
