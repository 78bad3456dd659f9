-- ===== src/Flow/Execute.antt =====
-- `StopSignal::race` and `collect_and_execute_instructions` of crates/flow/src/flow_graph.rs: the
-- waiting nodes of each transaction are bundled, executed and answered. `none` is a panic, or the
-- end of the fuel.
pub mod Sent
pub mod Total
pub mod Answer
pub mod Blame
use flow_backend.Prelude.{
  ℕ, zero, suc, ◌-◌, Bool, true, false, ◌&&◌, Option, none, some, is_some, List, [], ◌∷◌, ◌++◌,
  nat_eq, nat_beq, ltb, leb, length, if◌then◌else◌, ◌>>=◌,
}
use flow_backend.Prelude.Assoc
use flow_backend.Prelude.Assoc.{Assoc}
use flow_backend.Value.{Map}
use flow_backend.Flow.Stop.{StopSignal}
use flow_backend.Flow.State.{
  NodeId, FlowGraph, Channel, Pubkey, Keypair, Instruction, Instructions, Waiting, SolanaError,
  ExecuteError, Response, RunningNodeInfo, State,
}
use flow_backend.Flow.Ready.{submit_is_false}
use flow_backend.Flow.Outputs.{send}
use flow_backend.Flow.Bundle.{combine, Responder, Bundle, bundle}
use flow_backend.Flow.Result.{Action, collect_flow_output}

-- How a race goes: the task is first, or the signal is, as it stands then; in the time that is left
-- the task may still end.
pub data Raced : Type 0 where
  task_first : Raced
  stop_first : (signal : StopSignal) (in_time : Bool) → Raced

unfoldable pub race : Raced → Response → Response
race Raced.task_first result = result
race (Raced.stop_first signal in_time) result =
    if nat_beq signal.timeout_millies 0
    then Response.error (ExecuteError.canceled signal.reason)
    else if in_time
    then result
    else Response.error (ExecuteError.canceled signal.reason)

-- The configuration of the graph, and what is not code of the graph: the transfers that pay the
-- fees, the execution by the parent flow or the network, how the races with the two signals go,
-- and the position that an error of the client names.
pub record Execution : Type 0 where
  pub overwrite_feepayer : Option Keypair
  pub fees : List (Pubkey × ℕ)
  pub output_instructions : Bool
  pub transfer_many : Pubkey → List (Pubkey × ℕ) → List Instruction
  pub parent_flow_execute : Option (Instructions → Map → Response)
  pub execute : State → Instructions → Response
  pub race_stop : State → Raced
  pub race_shared : State → Raced
  pub find_failed_instruction : SolanaError → Option ℕ
  pub build : Instructions → Action

-- `none` is the panic of `expect("same fee payer")`.
unfoldable pub with_fees : Execution → List (Pubkey × ℕ) → Instructions → Option Instructions
unfolding combine
with_fees e [] ins = some ins
with_fees e (fee ∷ fees) ins = combine ins (record {
  fee_payer = ins.fee_payer;
  signers = [];
  instructions = e.transfer_many ins.fee_payer (fee ∷ fees);
})

abbrev pub both_races : Execution → State → Response → Response
both_races e s r = race (e.race_stop s) (race (e.race_shared s) r)

abbrev canceled : StopSignal → Response
canceled signal = Response.error (ExecuteError.canceled signal.reason)

unfoldable pub execute_parent :
    Execution
    → FlowGraph
    → Option (Instructions → Map → Response)
    → State
    → Instructions
    → Option (State × Response)
unfolding collect_flow_output race
execute_parent e f (some exec) s ins =
    collect_flow_output e.build f s >>= λ t. some (t, both_races e t (exec ins t.result.output))
execute_parent e f none s ins = some (s, both_races e s (e.execute s ins))

unfoldable pub execute_instructions :
    Execution → FlowGraph → State → Instructions → List Instruction → Option (State × Response)
unfolding execute_parent
execute_instructions e f s ins [] = some (s, Response.signature none)
execute_instructions e f s ins (_ ∷ _) = execute_parent e f e.parent_flow_execute s ins

unfoldable pub execute_bundle :
    Execution → FlowGraph → State → Instructions → Option (State × Response)
unfolding execute_instructions
execute_bundle e f s ins =
    if s.stop.cancelled
    then some (s, canceled s.stop)
    else if s.stop_shared.cancelled
    then some (s, canceled s.stop_shared)
    else execute_instructions e f s ins ins.instructions

-- The position of the failed instruction among those of the nodes.
unfoldable pub failed_instruction : Execution → Response → Option ℕ
failed_instruction e (Response.error (ExecuteError.solana error inserted)) =
    e.find_failed_instruction error >>= λ pos.
    if ltb pos inserted then none else some (pos - inserted)
failed_instruction e _ = none

abbrev pub answer : Option ℕ → Response → Responder → Response
answer none res r = res
answer (some pos) res r =
    if leb r.start pos && ltb pos r.end then res else Response.error ExecuteError.tx_sim_failed

unfoldable pub answer_all : Option ℕ → Response → State → List Responder → State
answer_all failed res s [] = s
answer_all failed res s (r ∷ rs) = answer_all failed res (send s r.sender (answer failed res r)) rs

unfoldable pub refuse_all : ExecuteError → State → List Waiting → State
refuse_all error s [] = s
refuse_all error s (w ∷ ws) = refuse_all error (send s w.resp (Response.error error)) ws

pub data ControlFlow : Type 0 where
  continue_with : State → ControlFlow
  break_with : State → Instructions → ControlFlow

-- An error ends the transaction: the nodes that are left are answered with it.
unfoldable pub after_bundle :
    Option ControlFlow → State → List Waiting → Response → Option ControlFlow
unfolding refuse_all
after_bundle later s rest (Response.error error) =
    some (ControlFlow.continue_with (refuse_all error s rest))
after_bundle later s rest (Response.signature signature) = later

-- A complete transaction; each round executes a bundle.
unfoldable pub execute_tx : Execution → FlowGraph → ℕ → State → List Waiting → Option ControlFlow
unfolding bundle with_fees execute_bundle failed_instruction answer_all after_bundle
execute_tx e f fuel s [] = some (ControlFlow.continue_with s)
execute_tx e f zero s (w ∷ ws) = none
execute_tx e f (suc fuel) s (w ∷ ws) =
    let b = bundle e.overwrite_feepayer w ws in
    with_fees e e.fees b.ins >>= λ ins.
    if e.output_instructions
    then some (
        ControlFlow.break_with
          (answer_all none (Response.error (ExecuteError.canceled none)) s b.resp) ins)
    else (execute_bundle e f s ins >>= λ ran.
        let answered = answer_all (failed_instruction e ran.1) ran.1 ran.0 b.resp in
        after_bundle (execute_tx e f fuel answered b.rest) answered b.rest ran.1)

-- A transaction: its nodes, with those that wait.
abbrev pub Tx : Type 0
Tx = Assoc NodeId (Option Waiting)

abbrev pub empty_tx : List NodeId → Tx
empty_tx [] = []
empty_tx (id ∷ ids) = (id, none) ∷ empty_tx ids

-- `none` is the panic of `expect("bug in sort_transactions")`.
unfoldable pub place : List Tx → NodeId → Waiting → Option (List Tx)
place [] id w = none
place (tx ∷ txs) id w =
    let rest = place txs id w in
    if Assoc.contains_key tx id
    then some (Assoc.insert tx id (some w) ∷ txs)
    else (rest >>= λ more. some (tx ∷ more))

unfoldable pub place_all : Assoc (NodeId × ℕ) RunningNodeInfo → List Tx → Option (List Tx)
unfolding place
place_all [] txs = some txs
place_all ((key, info) ∷ more) txs =
    info.waiting >>= λ w. place txs info.id w >>= λ next. place_all more next

abbrev pub without_waiting : RunningNodeInfo → RunningNodeInfo
without_waiting info = record info { waiting = none }

abbrev pub take_all : Assoc (NodeId × ℕ) RunningNodeInfo → Assoc (NodeId × ℕ) RunningNodeInfo
take_all [] = []
take_all ((key, info) ∷ more) = (key, without_waiting info) ∷ take_all more

unfoldable pub is_complete : FlowGraph → Tx → Bool
unfolding submit_is_false
is_complete f [] = true
is_complete f ((id, wait) ∷ tx) =
    elim (Assoc.get f.nodes id) [ some n ↦ submit_is_false f n.idx | none ↦ is_some wait ]
    && is_complete f tx

abbrev pub waiting_of : Tx → List Waiting
waiting_of [] = []
waiting_of ((id, none) ∷ tx) = waiting_of tx
waiting_of ((id, some w) ∷ tx) = w ∷ waiting_of tx

unfoldable pub execute_one : Execution → FlowGraph → State → Tx → Option ControlFlow
unfolding execute_tx is_complete
execute_one e f s tx =
    if is_complete f tx
    then execute_tx e f (length (waiting_of tx)) s (waiting_of tx)
    else some (ControlFlow.continue_with (refuse_all ExecuteError.tx_incomplete s (waiting_of tx)))

unfoldable pub execute_txs : Execution → FlowGraph → State → List Tx → Option ControlFlow
unfolding execute_one
execute_txs e f s [] = some (ControlFlow.continue_with s)
execute_txs e f s (tx ∷ txs) = execute_one e f s tx >>= λ c. elim c [
  | ControlFlow.continue_with t ↦ execute_txs e f t txs
  | ControlFlow.break_with t ins ↦ some (ControlFlow.break_with t ins)
]

abbrev pub empty_txs : List (List NodeId) → List Tx
empty_txs [] = []
empty_txs (tx ∷ txs) = empty_tx tx ∷ empty_txs txs

unfoldable pub collect_and_execute_instructions :
    Execution → FlowGraph → State → List (List NodeId) → Option ControlFlow
unfolding place_all execute_txs
collect_and_execute_instructions e f s txs = place_all s.running_info (empty_txs txs) >>= λ placed.
    execute_txs e f (record s { running_info = take_all s.running_info }) placed
