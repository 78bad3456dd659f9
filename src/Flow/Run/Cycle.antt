-- ===== src/Flow/Run/Cycle.antt =====
-- A run of a graph with a cycle.
use flow_backend.Prelude.{
  ◌≡◌, refl, ◌∙◌, sym, ap, true, none, some, List, [], ◌∷◌, ◌++◌, bind-some, >>=-eq-some, some_inj,
  subst, if-true, nat_eq, str_eq, All,
}
use flow_backend.Flow.Stop.{cancel}
use flow_backend.Flow.Command.{ReadAs}
use flow_backend.Flow.State.{NodeId, NodeIndex, FlowGraph, State, Message}
use flow_backend.Flow.Outputs.{flow_error}
use flow_backend.Flow.Inputs.{Run}
use flow_backend.Flow.Transactions.{sort_transactions, Sorted}
use flow_backend.Flow.Execute.{Execution}
use flow_backend.Flow.Execute.Total.{HasOutput}
use flow_backend.Flow.Partial.{
  UuidText, stop_run, add_all_fake_edges, supply_partial_run_values, prepare_partial_run,
}
use flow_backend.Flow.Run.{Batch, Round, round, Progress, run_loop, begin_run, end_run, run}
use flow_backend.Flow.Run.Fake.{IsFresh, remove_node-prepare_partial_run}
use flow_backend.Flow.Run.Idle.{
  Idles, Idles-trans, Idles-stop_run, Idles-add_all_fake_edges, Idles-finish_run,
}

round-left :
    (read : ReadAs) (e : Execution) (txs : Sorted) (f : FlowGraph) (s : State)
    → s.stop.cancelled ≡ true
    → round read e txs f s ≡ some (Round.left (f, s))
unfolding round
round-left read e txs f s h = if-true _ _ _ h

run_loop-left :
    (read : ReadAs) (e : Execution) (txs : Sorted) (f : FlowGraph) (s : State)
    (batches : List Batch)
    → s.stop.cancelled ≡ true
    → run_loop read e txs f s batches ≡ some (Progress.done (f, s))
unfolding run_loop
run_loop-left read e txs f s [] h = bind-some _ _ (round-left read e txs f s h)
run_loop-left read e txs f s (b ∷ batches) h = bind-some _ _ (round-left read e txs f s h)

prepared-Idles :
    (uuid : UuidText) (fake_node : NodeIndex) (nil : NodeId) (f : FlowGraph) (s : State)
    (g : FlowGraph) (t : State)
    → prepare_partial_run uuid fake_node nil f (begin_run Sorted.cycle s) ≡ some (g, t)
    → Idles s t × (t.stop.cancelled ≡ true)
unfolding prepare_partial_run begin_run cancel
prepared-Idles uuid fake_node nil f s g t e =
    let begun : State = stop_run (flow_error s Message.sort_transactions_failed) in
    let h : FlowGraph = record f { weights = f.weights ++ (fake_node, nil) ∷ [] } in
    let r = add_all_fake_edges uuid fake_node f.nodes h begun in
    let (q, found, same) =
      >>=-eq-some (supply_partial_run_values uuid fake_node r.0 r.1)
        (λ (q : FlowGraph). some (q, r.1)) e in
    let there = Idles-add_all_fake_edges uuid fake_node f.nodes h begun in
    let last : r.1 ≡ t = ap (λ (p : Run). p.1) (some_inj same) in
    (
      subst (Idles s) last
          (Idles-trans s begun r.1 (Idles-stop_run s Message.sort_transactions_failed) there),
      ap (λ (x : State). x.stop.cancelled) (sym last) ∙ there.stopped refl,
    )

-- A run of a graph with a cycle ends at once, whatever its tasks would do: if the index of the fake
-- node is new, the values of a partial run can be supplied and the flow_output nodes of the graph have
-- an output, it returns a result and the graph as it was, and it has started no node.
pub run-cycle :
    (read : ReadAs) (e : Execution) (uuid : UuidText) (fake_node : NodeIndex) (nil : NodeId)
    (f : FlowGraph) (s : State) (batches : List Batch) (g : FlowGraph) (t : State)
    → prepare_partial_run uuid fake_node nil f (begin_run Sorted.cycle s) ≡ some (g, t)
    → All HasOutput g.nodes
    → IsFresh fake_node f
    → (u : State) × (run read e uuid fake_node nil none f s batches ≡ some (Progress.done (f, u)))
      × (u.ran ≡ s.ran)
      × (u.running ≡ s.running)
unfolding run sort_transactions begin_run end_run
run-cycle read e uuid fake_node nil f s batches g t prepared h fresh =
    let begun = begin_run Sorted.cycle s in
    let (idles, stopped) = prepared-Idles uuid fake_node nil f s g t prepared in
    let (u, finished, kept) = Idles-finish_run e.build g t h in
    let restored = remove_node-prepare_partial_run uuid fake_node nil f begun g t prepared fresh in
    (
      u,
      bind-some _ _ prepared
          ∙ bind-some _ _ (run_loop-left read e Sorted.cycle g t batches stopped)
          ∙ bind-some _ _ finished
          ∙ ap (λ (q : FlowGraph). some (Progress.done (q, u))) restored,
      kept.ran ∙ idles.ran,
      kept.running ∙ idles.running,
    )
