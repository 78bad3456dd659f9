-- ===== src/Flow/Transactions/Filled.antt =====
-- Why `collect_and_execute_instructions` of crates/flow/src/flow_graph.rs may assert that a transaction
-- has a node: `sort_transactions` pushes no empty one.
use flow_backend.Prelude.{
  ℕ, zero, suc, ◌≡◌, ◌≢◌, none, some, some_inj, subst, List, [], ◌∷◌, ◌++◌, All, All-append,
  Bool-cases, inl, inr, Option, >>=-eq-some, nat_eq, length,
}
use flow_backend.Flow.State.{NodeId, EdgeIndex, FlowGraph}
use flow_backend.Flow.Transactions.{
  keys, push_tx, sort_round, after_edges, sort_loop, Sorted, sort_transactions,
}

abbrev pub IsFilled : List NodeId → Type 0
IsFilled ids = ids ≢ []

push_tx-IsFilled :
    (txs : List (List NodeId)) (ids : List NodeId)
    → All IsFilled txs
    → All IsFilled (push_tx txs ids)
push_tx-IsFilled txs [] h = h
push_tx-IsFilled txs (id ∷ ids) h =
    All-append IsFilled txs h ((id ∷ ids) ∷ []) ((λ e. absurd (cc e)), tt)

sort_loop-IsFilled :
    (f : FlowGraph) (nodes : List NodeId) (fuel : ℕ) (visited : List NodeId)
    (edges : List EdgeIndex) (result txs : List (List NodeId))
    → sort_loop f nodes fuel visited edges result ≡ some txs
    → All IsFilled result
    → All IsFilled txs
unfolding sort_loop
sort_loop-IsFilled f nodes zero visited edges result txs h filled = absurd (cc h)
sort_loop-IsFilled f nodes (suc fuel) visited edges result txs h filled =
    let (s, es, rest) = >>=-eq-some (sort_round f nodes visited edges) _ h in
    let (opened, eo, last) = >>=-eq-some (after_edges f s.has_instructions) _ rest in
    let pushed = push_tx result (keys s.has_instructions) in
    let so_far = push_tx-IsFilled result (keys s.has_instructions) filled in
    elim (Bool-cases s.should_loop) [
      | inl loops ↦
          let more : sort_loop f nodes fuel s.node_visited (opened ++ s.edge_visited) pushed
              ≡ some txs =
            rw loops at last in
          sort_loop-IsFilled f nodes fuel s.node_visited (opened ++ s.edge_visited) pushed txs more
            so_far
      | inr ends ↦
          let same : some pushed ≡ some txs = rw ends at last in
          subst (All IsFilled) (some_inj same) so_far
    ]

abbrev pub AreFilled : Sorted → Type 0
AreFilled (Sorted.ok txs) = All IsFilled txs
AreFilled Sorted.cycle = Unit

-- No transaction that `sort_transactions` returns is empty.
sort_transactions-AreFilled :
    (f : FlowGraph) (order : Option (List NodeId)) (sorted : Sorted)
    → sort_transactions f order ≡ some sorted
    → AreFilled sorted
unfolding sort_transactions
sort_transactions-AreFilled f none sorted h = subst AreFilled (some_inj h) tt
sort_transactions-AreFilled f (some nodes) sorted h =
    let (txs, e, last) =
      >>=-eq-some (sort_loop f nodes (suc (length nodes)) [] [] []) (λ txs. some (Sorted.ok txs))
        h in
    subst AreFilled (some_inj last)
      (sort_loop-IsFilled f nodes (suc (length nodes)) [] [] [] txs e tt)
