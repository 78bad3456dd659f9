-- ===== src/Flow/Execute/Answer.antt =====
-- Every node that waits is answered once.
use flow_backend.Prelude.{
  ℕ, zero, suc, ◌≤◌, ◌≡◌, refl, ◌∙◌, sym, ap, subst, false, Option, some, List, [], ◌∷◌, ◌++◌,
  length, length-append, arith, Bool-cases, inl, inr, bind-some, if-false, nat_eq, All,
}
use flow_backend.Flow.State.{FlowGraph, Channel, Waiting, ExecuteError, Response, State}
use flow_backend.Flow.Bundle.{bundle}
use flow_backend.Flow.Bundle.Slice.{bundle-Bundles}
use flow_backend.Flow.Execute.{
  Execution, after_bundle, failed_instruction, answer_all, ControlFlow, execute_tx, Tx, waiting_of,
  is_complete, execute_one, execute_txs,
}
use flow_backend.Flow.Execute.Sent.{
  channels, senders, Answers, Answers-refl, Answers-trans, Answers-answer_all, Answers-refuse_all,
  senders-AllStand, channels-append,
}
use flow_backend.Flow.Execute.Total.{HasOutput, execute_bundle-Runs, with_fees_total}

abbrev Continues : State → Option ControlFlow → List Channel → Type 0
Continues s o cs = (t : State) × (o ≡ some (ControlFlow.continue_with t)) × Answers s t cs

after_bundle-Continues :
    (later : Option ControlFlow) (s : State) (rest : List Waiting) (r : Response)
    → Continues s later (channels rest)
    → Continues s (after_bundle later s rest r) (channels rest)
unfolding after_bundle
after_bundle-Continues later s rest (Response.error error) h =
    (_, refl, Answers-refuse_all error s rest)
after_bundle-Continues later s rest (Response.signature signature) h = h

execute_tx-Continues :
    (e : Execution) (f : FlowGraph) (fuel : ℕ) (s : State) (ws : List Waiting)
    → e.output_instructions ≡ false
    → All HasOutput f.nodes
    → length ws ≤ fuel
    → Continues s (execute_tx e f fuel s ws) (channels ws)
unfolding execute_tx
execute_tx-Continues e f fuel s [] pure h enough = (s, refl, Answers-refl s s refl)
execute_tx-Continues e f zero s (w ∷ ws) pure h enough = absurd (omega arith)
execute_tx-Continues e f (suc fuel) s (w ∷ ws) pure h enough =
    let b = bundle e.overwrite_feepayer w ws in
    let cut = bundle-Bundles e.overwrite_feepayer w ws in
    let (paid, paying) = with_fees_total e e.fees b.ins in
    let (ran, running, kept) = execute_bundle-Runs e f s paid h in
    let failed = failed_instruction e ran.1 in
    let answered = answer_all failed ran.1 ran.0 b.resp in
    let short : length b.rest ≤ fuel =
      omega (arith, ap length cut.split, length-append cut.more b.rest, enough) in
    let (t, rest, after) =
      after_bundle-Continues (execute_tx e f fuel answered b.rest) answered b.rest ran.1
        (execute_tx-Continues e f fuel answered b.rest pure h short) in
    let first : Answers ran.0 answered (senders b.resp) =
      Answers-answer_all failed ran.1 ran.0 b.resp in
    let all =
      Answers-trans s ran.0 t _ _ (Answers-refl s ran.0 kept)
        (Answers-trans ran.0 answered t _ _ first after) in
    let same : senders b.resp ++ channels b.rest ≡ channels (w ∷ ws) =
      ap (λ l. l ++ channels b.rest)
        (senders-AllStand b.ins.instructions (w ∷ cut.more) b.resp cut.stands)
      ∙ sym (channels-append (w ∷ cut.more) b.rest)
      ∙ ap (λ l. channels (w ∷ l)) (sym cut.split) in
    (
      t,
      bind-some _ _ paying ∙ if-false _ _ _ pure ∙ bind-some _ _ running ∙ rest,
      subst (Answers s t) same all,
    )

execute_one-Continues :
    (e : Execution) (f : FlowGraph) (s : State) (tx : Tx)
    → e.output_instructions ≡ false
    → All HasOutput f.nodes
    → Continues s (execute_one e f s tx) (channels (waiting_of tx))
unfolding execute_one
execute_one-Continues e f s tx pure h = elim (Bool-cases (is_complete f tx)) [
  | inl c ↦
      rw c
        (execute_tx-Continues e f (length (waiting_of tx)) s (waiting_of tx) pure h (omega arith))
  | inr c ↦ rw c (_, refl, Answers-refuse_all ExecuteError.tx_incomplete s (waiting_of tx))
]

abbrev pub all_waiting : List Tx → List Waiting
all_waiting [] = []
all_waiting (tx ∷ txs) = waiting_of tx ++ all_waiting txs

-- If the graph does not only output its instructions, and its flow_output nodes have an output,
-- execution returns, whatever fails on the network, in a race or at a stop, and every node that
-- waits in a transaction, and whose receiver is there, is answered exactly once, in the order of the
-- transactions and of the nodes in them, whether its transaction is complete or not; nothing else is
-- sent.
pub execute_txs-Continues :
    (e : Execution) (f : FlowGraph) (s : State) (txs : List Tx)
    → e.output_instructions ≡ false
    → All HasOutput f.nodes
    → (t : State) × (execute_txs e f s txs ≡ some (ControlFlow.continue_with t))
      × Answers s t (channels (all_waiting txs))
unfolding execute_txs
execute_txs-Continues e f s [] pure h = (s, refl, Answers-refl s s refl)
execute_txs-Continues e f s (tx ∷ txs) pure h =
    let (t, one, first) = execute_one-Continues e f s tx pure h in
    let (u, more, rest) = execute_txs-Continues e f t txs pure h in
    (
      u,
      bind-some _ _ one ∙ more,
      subst (Answers s u) (sym (channels-append (waiting_of tx) (all_waiting txs)))
          (Answers-trans s t u _ _ first rest),
    )
