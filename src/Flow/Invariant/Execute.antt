-- ===== src/Flow/Invariant/Execute.antt =====
-- `collect_and_execute_instructions` keeps the bookkeeping: it only takes what waits, and answers.
use flow_backend.Prelude.{
  ℕ, zero, suc, ◌≡◌, refl, ◌∙◌, ap, Option, none, some, List, [], ◌∷◌, length, nat_eq, pair_eq,
  pair_beq, Bool-cases, inl, inr,
}
use flow_backend.Prelude.Assoc
use flow_backend.Prelude.Assoc.{Assoc}
use flow_backend.Value.{Map}
use flow_backend.Flow.State.{
  NodeId, FlowGraph, Instruction, Instructions, Waiting, ExecuteError, Response, RunningNodeInfo,
  State,
}
use flow_backend.Flow.Bundle.{bundle}
use flow_backend.Flow.Result.{collect_flow_output}
use flow_backend.Flow.Execute.{
  Execution, with_fees, execute_parent, execute_instructions, execute_bundle, failed_instruction,
  answer_all, ControlFlow, after_bundle, execute_tx, Tx, waiting_of, is_complete, execute_one,
  execute_txs, empty_txs, place_all, take_all, collect_and_execute_instructions,
}
use flow_backend.Flow.Invariant.{key_of, Keeps}
use flow_backend.Flow.Invariant.Held.{
  Held, Held-refl, Held-trans, Held-answer_all, Held-refuse_all, Leaves, Leaves-some, Leaves-bind,
  Leaves-if, Leaves-collect_flow_output,
}

abbrev ran_state : State × Response → State
ran_state r = r.0

Leaves-execute_parent :
    (e : Execution) (f : FlowGraph) (o : Option (Instructions → Map → Response)) (s : State)
    (ins : Instructions)
    → Leaves ran_state s (execute_parent e f o s ins)
unfolding execute_parent
Leaves-execute_parent e f none s ins = Leaves-some ran_state s _ (Held-refl s)
Leaves-execute_parent e f (some exec) s ins =
    Leaves-bind ran_state s (collect_flow_output e.build f s) _
      (λ t p. Leaves-some ran_state s _ (Leaves-collect_flow_output e.build f s t p))

Leaves-execute_instructions :
    (e : Execution) (f : FlowGraph) (s : State) (ins : Instructions) (l : List Instruction)
    → Leaves ran_state s (execute_instructions e f s ins l)
unfolding execute_instructions
Leaves-execute_instructions e f s ins [] = Leaves-some ran_state s _ (Held-refl s)
Leaves-execute_instructions e f s ins (i ∷ is) =
    Leaves-execute_parent e f e.parent_flow_execute s ins

Leaves-execute_bundle :
    (e : Execution) (f : FlowGraph) (s : State) (ins : Instructions)
    → Leaves ran_state s (execute_bundle e f s ins)
unfolding execute_bundle
Leaves-execute_bundle e f s ins =
    Leaves-if ran_state s s.stop.cancelled _ _ (Leaves-some ran_state s _ (Held-refl s)) (
      Leaves-if ran_state s s.stop_shared.cancelled _ _ (Leaves-some ran_state s _ (Held-refl s))
        (Leaves-execute_instructions e f s ins ins.instructions))

abbrev state_of : ControlFlow → State
state_of (ControlFlow.continue_with t) = t
state_of (ControlFlow.break_with t ins) = t

Leaves-after_bundle :
    (later : Option ControlFlow) (s : State) (rest : List Waiting) (r : Response)
    → Leaves state_of s later
    → Leaves state_of s (after_bundle later s rest r)
unfolding after_bundle
Leaves-after_bundle later s rest (Response.error error) h =
    Leaves-some state_of s _ (Held-refuse_all error s rest)
Leaves-after_bundle later s rest (Response.signature signature) h = h

Leaves-execute_tx :
    (e : Execution) (f : FlowGraph) (fuel : ℕ) (s : State) (ws : List Waiting)
    → Leaves state_of s (execute_tx e f fuel s ws)
unfolding execute_tx
Leaves-execute_tx e f fuel s [] = Leaves-some state_of s _ (Held-refl s)
Leaves-execute_tx e f zero s (w ∷ ws) = λ a p. absurd (cc p)
Leaves-execute_tx e f (suc fuel) s (w ∷ ws) =
    let b = bundle e.overwrite_feepayer w ws in
    Leaves-bind state_of s (with_fees e e.fees b.ins) _ (λ ins paid.
      Leaves-if state_of s e.output_instructions _ _
        (Leaves-some state_of s _ (Held-answer_all none _ s b.resp))
        (Leaves-bind state_of s (execute_bundle e f s ins) _ (λ ran p.
          let failed = failed_instruction e ran.1 in
          let answered = answer_all failed ran.1 ran.0 b.resp in
          let here =
            Held-trans s ran.0 answered (Leaves-execute_bundle e f s ins ran p)
              (Held-answer_all failed ran.1 ran.0 b.resp) in
          λ c q. Held-trans s answered (state_of c) here (
            Leaves-after_bundle (execute_tx e f fuel answered b.rest) answered b.rest ran.1
              (Leaves-execute_tx e f fuel answered b.rest) c q))))

Leaves-execute_one :
    (e : Execution) (f : FlowGraph) (s : State) (tx : Tx) → Leaves state_of s (execute_one e f s tx)
unfolding execute_one
Leaves-execute_one e f s tx =
    Leaves-if state_of s (is_complete f tx) _ _
      (Leaves-execute_tx e f (length (waiting_of tx)) s (waiting_of tx))
      (Leaves-some state_of s _ (Held-refuse_all ExecuteError.tx_incomplete s (waiting_of tx)))

after_one :
    (e : Execution) (f : FlowGraph) (s : State) (txs : List Tx) (c : ControlFlow)
    → ((t : State) → Leaves state_of t (execute_txs e f t txs))
    → Held s (state_of c)
    → Leaves state_of s (elim c [
      | ControlFlow.continue_with t ↦ execute_txs e f t txs
      | ControlFlow.break_with t ins ↦ some (ControlFlow.break_with t ins)
    ])
after_one e f s txs (ControlFlow.continue_with t) more h =
    λ d q. Held-trans s t (state_of d) h (more t d q)
after_one e f s txs (ControlFlow.break_with t ins) more h =
    Leaves-some state_of s (ControlFlow.break_with t ins) h

Leaves-execute_txs :
    (e : Execution) (f : FlowGraph) (s : State) (txs : List Tx)
    → Leaves state_of s (execute_txs e f s txs)
unfolding execute_txs
Leaves-execute_txs e f s [] = Leaves-some state_of s _ (Held-refl s)
Leaves-execute_txs e f s (tx ∷ txs) = Leaves-bind state_of s (execute_one e f s tx) _ (λ c p.
    after_one e f s txs c (λ t. Leaves-execute_txs e f t txs) (Leaves-execute_one e f s tx c p))

key-take_all :
    (m : Assoc (NodeId × ℕ) RunningNodeInfo) (k : NodeId × ℕ)
    → key_of (Assoc.get (take_all m) k) ≡ key_of (Assoc.get m k)
unfolding Assoc.get
key-take_all [] k = refl
key-take_all ((j, i) ∷ m) k = elim (Bool-cases (pair_beq j k)) [
  | inl e ↦ rw e
  | inr e ↦ rw e (key-take_all m k)
]

-- Executing the transactions starts and ends nothing.
pub Keeps-collect_and_execute_instructions :
    (e : Execution) (f : FlowGraph) (s : State) (txs : List (List NodeId)) (t : State)
    → collect_and_execute_instructions e f s txs ≡ some (ControlFlow.continue_with t)
    → Keeps s t
unfolding collect_and_execute_instructions
Keeps-collect_and_execute_instructions e f s txs t returns =
    let begun : State = record s { running_info = take_all s.running_info } in
    let held =
      Leaves-bind state_of begun (place_all s.running_info (empty_txs txs)) _
        (λ placed p. Leaves-execute_txs e f begun placed) (ControlFlow.continue_with t) returns in
    record {
      infos = λ k.
          ap (λ (m : Assoc (NodeId × ℕ) RunningNodeInfo). key_of (Assoc.get m k)) held.infos
          ∙ key-take_all s.running_info k;
      counts = λ id. rw held.outputs;
      ran = held.ran;
      running = held.running;
    }
