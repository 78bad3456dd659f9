-- ===== src/Flow/Execute/Total.antt =====
-- Executing a bundle returns, and answers nobody.
use flow_backend.Prelude.{
  ℕ, ◌≡◌, refl, Bool, true, false, Option, none, some, List, [], ◌∷◌, Option-cases, Bool-cases, inl,
  inr, str, nat_beq_refl, head?, if◌then◌else◌, bind-some, str_beq, nat_eq, All,
}
use flow_backend.Prelude.Assoc
use flow_backend.Prelude.Assoc.{Assoc}
use flow_backend.Value.{Map, contains_key}
use flow_backend.Flow.Command.{CmdOutputDescription}
use flow_backend.Flow.State.{NodeId, Node, FlowGraph, Instruction, Instructions, Response, State}
use flow_backend.Flow.Ready.{flow_output}
use flow_backend.Flow.Outputs.{flow_error}
use flow_backend.Flow.Bundle.{combine}
use flow_backend.Flow.Result.{
  Action, collect_flow_output, output_node, output_nodes, output_transaction, take_instructions,
  put_action, put_outputs,
}
use flow_backend.Flow.Execute.{
  Execution, with_fees, execute_parent, execute_instructions, execute_bundle,
}

-- Each flow_output node of the graph has an output.
abbrev pub HasOutput : NodeId × Node → Type 0
HasOutput (id, n) =
    str_beq n.command.name flow_output ≡ true
    → (d : CmdOutputDescription) × (head? n.command.outputs ≡ some d)

output_node_total :
    (outputs : Assoc NodeId (List Map)) (id : NodeId) (n : Node) (m : Map)
    → HasOutput (id, n)
    → (q : Map) × (output_node outputs id n m ≡ some q)
unfolding output_node
output_node_total outputs id n m h = elim (Bool-cases (str_beq n.command.name flow_output)) [
  | inr e ↦ (m, rw e)
  | inl e ↦ let (d, first) = h e in (put_outputs m d.name (Assoc.get outputs id), rw (e, first))
]

pub output_nodes_total :
    (outputs : Assoc NodeId (List Map)) (nodes : Assoc NodeId Node) (m : Map)
    → All HasOutput nodes
    → (q : Map) × (output_nodes outputs nodes m ≡ some q)
unfolding output_nodes
output_nodes_total outputs [] m h = (m, refl)
output_nodes_total outputs ((id, n) ∷ more) m h =
    let (q, e) = output_node_total outputs id n m h.0 in
    let (r, es) = output_nodes_total outputs more q h.1 in (r, rw e es)

responses-put_action : (a : Action) (s : State) → (put_action a s).responses ≡ s.responses
unfolding put_action flow_error
responses-put_action (Action.built text) s = refl
responses-put_action (Action.failed error) s = refl

responses-output_transaction :
    (build : Instructions → Action) (ins : Instructions) (s : State)
    → (output_transaction build ins s).responses ≡ s.responses
unfolding output_transaction
responses-output_transaction build ins s =
    elim (Bool-cases (contains_key s.result.output (str "transaction"))) [
      | inl e ↦ rw e
      | inr e ↦ rw e (responses-put_action (build ins) s)
    ]

responses-take_instructions :
    (build : Instructions → Action) (o : Option Instructions) (s : State)
    → (take_instructions build o s).responses ≡ s.responses
unfolding take_instructions
responses-take_instructions build none s = refl
responses-take_instructions build (some ins) s = responses-output_transaction build ins _

responses-collect_flow_output :
    (build : Instructions → Action) (f : FlowGraph) (s : State)
    → All HasOutput f.nodes
    → (t : State) × (collect_flow_output build f s ≡ some t) × (t.responses ≡ s.responses)
unfolding collect_flow_output
responses-collect_flow_output build f s h =
    let (q, e) = output_nodes_total s.result.node_outputs f.nodes s.result.output h in
    (_, bind-some _ _ e, responses-take_instructions build s.result.instructions _)

execute_parent_total :
    (e : Execution) (f : FlowGraph) (o : Option (Instructions → Map → Response)) (s : State)
    (ins : Instructions)
    → All HasOutput f.nodes
    → (ran : State × Response) × (execute_parent e f o s ins ≡ some ran)
      × (ran.0.responses ≡ s.responses)
unfolding execute_parent
execute_parent_total e f none s ins h = (_, refl, refl)
execute_parent_total e f (some exec) s ins h =
    let (t, same, kept) = responses-collect_flow_output e.build f s h in
    (_, bind-some _ _ same, kept)

abbrev pub Runs : State → Option (State × Response) → Type 0
Runs s o = (ran : State × Response) × (o ≡ some ran) × (ran.0.responses ≡ s.responses)

if-Runs :
    (s : State) (b : Bool) (x y : Option (State × Response))
    → Runs s x
    → Runs s y
    → Runs s (if b then x else y)
if-Runs s true x y hx hy = hx
if-Runs s false x y hx hy = hy

execute_instructions-Runs :
    (e : Execution) (f : FlowGraph) (s : State) (ins : Instructions) (l : List Instruction)
    → All HasOutput f.nodes
    → Runs s (execute_instructions e f s ins l)
unfolding execute_instructions
execute_instructions-Runs e f s ins [] h = (_, refl, refl)
execute_instructions-Runs e f s ins (i ∷ is) h =
    execute_parent_total e f e.parent_flow_execute s ins h

pub execute_bundle-Runs :
    (e : Execution) (f : FlowGraph) (s : State) (ins : Instructions)
    → All HasOutput f.nodes
    → Runs s (execute_bundle e f s ins)
unfolding execute_bundle
execute_bundle-Runs e f s ins h =
    if-Runs s s.stop.cancelled _ _ (_, refl, refl)
      (if-Runs s s.stop_shared.cancelled _ _ (_, refl, refl)
        (execute_instructions-Runs e f s ins ins.instructions h))

pub with_fees_total :
    (e : Execution) (fees : List (ℕ × ℕ)) (ins : Instructions)
    → (paid : Instructions) × (with_fees e fees ins ≡ some paid)
unfolding with_fees combine
with_fees_total e [] ins = (ins, refl)
with_fees_total e (fee ∷ fees) ins = elim (Option-cases (with_fees e (fee ∷ fees) ins)) [
  | inl e0 ↦ absurd (cc (rw (nat_beq_refl ins.fee_payer) at e0))
  | inr found ↦ found
]
