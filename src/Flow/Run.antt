-- ===== src/Flow/Run.antt =====
-- The loop of `run` of crates/flow/src/flow_graph.rs. What the tasks do between two rounds, which
-- `State::wait` gathers, is a parameter: the outputs that arrived, the tasks that were joined,
-- the tasks that still run, and the two signals as they stand then.
pub mod Idle
pub mod Fake
pub mod Cycle
use flow_backend.Prelude.{
  Bool, true, false, not, ◌&&◌, ◌||◌, is_some, Option, none, some, List, [], ◌∷◌, all, filter, map,
  nat_beq, nat_eq, if◌then◌else◌, ◌>>=◌,
}
use flow_backend.Prelude.Assoc
use flow_backend.Flow.Stop.{StopSignal}
use flow_backend.Flow.Steps.{initial_state}
use flow_backend.Flow.Partial.{UuidText, stop_run, prepare_partial_run}
use flow_backend.Flow.Transactions.{sort_transactions}
use flow_backend.Value.{Value, Map}
use flow_backend.Flow.Command.{ReadAs}
use flow_backend.Flow.State.{
  NodeId, NodeIndex, FlowGraph, Message, Instructions, RunningNodeInfo, PartialOutput, Task, State,
  Joined,
}
use flow_backend.Flow.Ready.{ready}
use flow_backend.Flow.Inputs.{Run, start_node}
use flow_backend.Flow.Outputs.{flow_error, save_outputs, Ended, node_finished}
use flow_backend.Flow.Transactions.{Sorted}
use flow_backend.Flow.Execute.{Execution, ControlFlow, collect_and_execute_instructions}
use flow_backend.Flow.Result.{finish_run}

pub record Batch : Type 0 where
  pub outputs : List PartialOutput
  pub finished : List Joined
  pub running : List Task
  pub stop : StopSignal
  pub stop_shared : StopSignal

-- The nodes that are idle and ready start, in the order of their indices; is there one?
unfoldable pub start_ready : ReadAs → FlowGraph → State → List NodeIndex → Option (Run × Bool)
unfolding ready start_node
start_ready read f s [] = some ((f, s), false)
start_ready read f s (idx ∷ more) = Assoc.get f.weights idx >>= λ id.
    if Assoc.contains_key f.nodes id && ready f s idx
    then (start_node read f s id >>= λ r.
        start_ready read r.0 r.1 more >>= λ rest. some (rest.0, true))
    else start_ready read f s more

-- How a round ends: the loop is left, or it goes on with `continue` once the token is cancelled,
-- which leaves it at the head of the next round, or the run waits for its tasks.
pub data Round : Type 0 where
  left stopped waits : Run → Round

abbrev all_waiting : State → Bool
all_waiting s = all (λ p. is_some p.1.waiting) s.running_info

abbrev executed : FlowGraph → ControlFlow → Round
executed f (ControlFlow.continue_with s) = Round.waits (f, s)
executed f (ControlFlow.break_with s ins) =
    Round.stopped (f, stop_run (record s { result = record s.result { instructions = some ins } }))

unfoldable pub execute_waiting : Execution → Sorted → FlowGraph → State → Option Round
unfolding collect_and_execute_instructions flow_error
execute_waiting e Sorted.cycle f s = some (Round.stopped (f, stop_run (flow_error s Message.cycle)))
execute_waiting e (Sorted.ok txs) f s =
    collect_and_execute_instructions e f s txs >>= λ c. some (executed f c)

unfoldable pub round : ReadAs → Execution → Sorted → FlowGraph → State → Option Round
unfolding start_ready execute_waiting
round read e txs f s =
    if s.stop.cancelled
    then some (Round.left (f, s))
    else (start_ready read f s (map (λ p. p.0) f.weights) >>= λ begun.
        let ((g, t), started_new_nodes) = begun in
        elim t.running [
          | [] ↦ some (Round.left (g, t))
          | _ ∷ _ ↦
              if not started_new_nodes && all_waiting t
              then execute_waiting e txs g t
              else some (Round.waits (g, t))
        ])

unfoldable pub save_all : FlowGraph → State → List PartialOutput → Option Run
unfolding save_outputs
save_all f s [] = some (f, s)
save_all f s (o ∷ outputs) = save_outputs f s o >>= λ r. save_all r.0 r.1 outputs

-- `Ended.err` leaves the loop.
unfoldable pub join_all : FlowGraph → State → List Joined → Option Ended
unfolding node_finished
join_all f s [] = some (Ended.ok (f, s))
join_all f s (j ∷ finished) = node_finished f s j >>= λ ended. elim ended [
  | Ended.ok r ↦ join_all r.0 r.1 finished
  | Ended.err error r ↦ some (Ended.err error r)
]

unfoldable pub handle_batch : FlowGraph → State → Batch → Option Ended
unfolding save_all join_all
handle_batch f s b =
    save_all f (record s { running = b.running; stop = b.stop; stop_shared = b.stop_shared })
      b.outputs
    >>= λ r. join_all r.0 r.1 b.finished

-- The rounds of a run while the batches last; a pending run waits for more.
pub data Progress : Type 0 where
  pending done : Run → Progress

unfoldable pub run_loop :
    ReadAs → Execution → Sorted → FlowGraph → State → List Batch → Option Progress
unfolding round handle_batch
run_loop read e txs f s [] = round read e txs f s >>= λ r. elim r [
  | Round.left q ↦ some (Progress.done q)
  | Round.stopped q ↦ some (Progress.done q)
  | Round.waits q ↦ some (Progress.pending q)
]
run_loop read e txs f s (b ∷ batches) = round read e txs f s >>= λ r. elim r [
  | Round.left q ↦ some (Progress.done q)
  | Round.stopped q ↦ some (Progress.done q)
  | Round.waits q ↦ handle_batch q.0 q.1 b >>= λ ended. elim ended [
    | Ended.ok p ↦ run_loop read e txs p.0 p.1 batches
    | Ended.err error p ↦ some (Progress.done p)
  ]
]

-- A graph with a cycle is stopped at once.
unfoldable pub begin_run : Sorted → State → State
unfolding flow_error
begin_run Sorted.cycle s = stop_run (flow_error s Message.sort_transactions_failed)
begin_run (Sorted.ok txs) s = s

-- StableGraph::remove_node: the node goes with its edges, the other indices stay.
unfoldable pub remove_node : NodeIndex → FlowGraph → FlowGraph
remove_node idx f = record f {
  weights = filter (λ w. not (nat_beq w.0 idx)) f.weights;
  edges = filter (λ e. not (nat_beq e.source idx) && not (nat_beq e.target idx)) f.edges;
}

unfoldable pub end_run : Execution → NodeIndex → Progress → Option Progress
unfolding finish_run remove_node
end_run e fake_node (Progress.pending r) = some (Progress.pending r)
end_run e fake_node (Progress.done r) =
    finish_run e.build r.0 r.1 >>= λ s. some (Progress.done (remove_node fake_node r.0, s))

-- `order` is what petgraph's `toposort` returns.
unfoldable pub run :
    ReadAs
    → Execution
    → UuidText
    → NodeIndex
    → NodeId
    → Option (List NodeId)
    → FlowGraph
    → State
    → List Batch
    → Option Progress
unfolding sort_transactions begin_run prepare_partial_run run_loop end_run
run read e uuid fake_node nil order f s batches = sort_transactions f order >>= λ txs.
    prepare_partial_run uuid fake_node nil f (begin_run txs s) >>= λ r.
    run_loop read e txs r.0 r.1 batches >>= λ p. end_run e fake_node p
