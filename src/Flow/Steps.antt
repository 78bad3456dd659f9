-- ===== src/Flow/Steps.antt =====
-- The steps of a run between two rounds of `FlowGraph::run`, in whatever order the tasks choose:
-- an idle node starts, the output of a running node is saved, a task is joined, the transactions are
-- executed, a signal stops the run.
use flow_backend.Prelude.{
  ◌≡◌, ◌↔◌, refl, ◌∙◌, sym, none, some, List, [], ◌∷◌, ◌++◌, ap, subst, some_inj, nat_eq, pair_eq,
}
use flow_backend.Prelude.Assoc
use flow_backend.Flow.Command.{ReadAs}
use flow_backend.Flow.State.{
  NodeId, Node, FlowGraph, Output, PartialOutput, Task, State, Joined, Event,
}
use flow_backend.Flow.Stop.{StopSignal}
use flow_backend.Value.{Value, Map}
use flow_backend.Flow.Inputs.{Run, start_idle, start_node}
use flow_backend.Flow.Outputs.{save_outputs, final_output, Ended, node_finished}
use flow_backend.Flow.Outputs.Agrees.{Agrees, save_outputs-Agrees, node_finished-Agrees}
use flow_backend.Flow.Invariant.{info_key, IsConsistent, Keeps-IsConsistent}
use flow_backend.Flow.Execute.{Execution, ControlFlow, collect_and_execute_instructions}
use flow_backend.Flow.Invariant.Execute.{Keeps-collect_and_execute_instructions}
use flow_backend.Flow.Invariant.Save.{save_outputs-Saves}
use flow_backend.Flow.Invariant.Start.{CanCount, start_idle-IsConsistent, start_node-returns}
use flow_backend.Flow.Invariant.Finish.{node_finished-IsConsistent}

-- A command sends outputs only while it runs; the u32 that counts its rounds has not run out. The
-- graph starts a node when it is `ready`; the
-- bookkeeping holds even if any idle node may start.
pub data Step (read : ReadAs) : Run → Run → Type 0 where
  start :
      (f : FlowGraph) (s : State) (id : NodeId) (node : Node)
      → Assoc.get f.nodes id ≡ some node
      → CanCount s id
      → Step read (f, s) (start_idle read f s id node)
  save :
      (f : FlowGraph) (s : State) (o : PartialOutput) (r : Run)
      → info_key s (o.node_id, o.times) ≡ some (o.node_id, o.times)
      → save_outputs f s o ≡ some r
      → Step read (f, s) r
  finish :
      (f : FlowGraph) (s : State) (xs : List Task) (k : Task) (ys : List Task) (output : Output)
      (r : Run)
      → s.running ≡ xs ++ k ∷ ys
      → node_finished f (record s { running = xs ++ ys }) (Joined.finished k.node k.times output)
        ≡ some (Ended.ok r)
      → Step read (f, s) r
  execute :
      (e : Execution) (f : FlowGraph) (s : State) (txs : List (List NodeId)) (t : State)
      → collect_and_execute_instructions e f s txs ≡ some (ControlFlow.continue_with t)
      → Step read (f, s) (f, t)
  signal :
      (f : FlowGraph) (s : State) (own shared : StopSignal)
      → Step read (f, s) (f, record s { stop = own; stop_shared = shared })

pub data Reach (read : ReadAs) (a : Run) : Run → Type 0 where
  here : Reach read a a
  next : {b c : Run} → Reach read a b → Step read b c → Reach read a c

-- The state in which `FlowGraph::run` begins.
unfoldable pub initial_state :
    Assoc.Assoc NodeId (List Value) → Map → StopSignal → StopSignal → State
initial_state previous_values flow_inputs stop stop_shared = record {
  previous_values = previous_values;
  flow_inputs = flow_inputs;
  events = Event.flow_start ∷ [];
  ran = [];
  running = [];
  running_info = [];
  result = record {
    output = Map.empty;
    node_outputs = [];
    node_errors = [];
    not_run = [];
    flow_errors = [];
    instructions = none;
  };
  stop = stop;
  stop_shared = stop_shared;
  responses = [];
}

-- Every node of the graph is kept under its own id.
abbrev pub IsKeyed : FlowGraph → Type 0
IsKeyed f = (id : NodeId) (n : Node) → Assoc.get f.nodes id ≡ some n → n.id ≡ id

IsConsistent-initial_state :
    (f : FlowGraph) (values : Assoc.Assoc NodeId (List Value)) (inputs : Map) (a b : StopSignal)
    → IsKeyed f
    → IsConsistent f (initial_state values inputs a b)
unfolding initial_state Assoc.get
IsConsistent-initial_state f values inputs a b keyed = record {
  idle = keyed;
  info = λ k p h. absurd (cc h);
  outputs = λ id. refl;
  tasks = tt;
  distinct = tt;
}

abbrev run_of : Ended → Run
run_of (Ended.ok r) = r
run_of (Ended.err m r) = r

Step-IsConsistent :
    {read : ReadAs} {a b : Run} → Step read a b → IsConsistent a.0 a.1 → IsConsistent b.0 b.1
Step-IsConsistent {read} (start f s id node idle can) c =
    start_idle-IsConsistent read f s id node idle can c
Step-IsConsistent (save f s o r active e) c =
    let v = save_outputs-Saves f s o c active (save_outputs-Agrees f s o r e) in
    subst (λ (q : Run). IsConsistent q.0 q.1) (some_inj (sym v.returns ∙ e))
      (Keeps-IsConsistent f v.out.0 s v.out.1 v.nodes v.keeps c)
Step-IsConsistent (finish f s xs k ys output r e done) c =
    let agrees =
      node_finished-Agrees f (record s { running = xs ++ ys }) k.node k.times output r done in
    let (q, returns, kept, back) = node_finished-IsConsistent f s xs k ys output e c agrees in
    subst (λ (q : Run). IsConsistent q.0 q.1) (ap run_of (some_inj (sym returns ∙ done))) kept
Step-IsConsistent (execute e f s txs t returns) c =
    Keeps-IsConsistent f f s t refl (Keeps-collect_and_execute_instructions e f s txs t returns) c
Step-IsConsistent (signal f s own shared) c =
    Keeps-IsConsistent f f s (record s { stop = own; stop_shared = shared }) refl
      (record { infos = λ k. refl; counts = λ id. refl; ran = refl; running = refl }) c

Reach-IsConsistent :
    {read : ReadAs} {a b : Run} → Reach read a b → IsConsistent a.0 a.1 → IsConsistent b.0 b.1
Reach-IsConsistent here c = c
Reach-IsConsistent (next r st) c = Step-IsConsistent st (Reach-IsConsistent r c)

module _ (read : ReadAs) (f : FlowGraph) (values : Assoc.Assoc NodeId (List Value)) (inputs : Map)
    (stop stop_shared : StopSignal) (keyed : IsKeyed f) where
  -- After any steps (starts, outputs, ends, executions, signals) from the state in which a run
  -- begins, with every node under its own id, if no node starts 2 ^ 32 times, an idle node is under
  -- its id, an entry of `running_info` is under its own key, its node is not idle and its round is
  -- the last that the node started, a node has one output map for each start, every task has its
  -- entry, and no two tasks are of one node.
  pub run-IsConsistent :
      {r : Run}
      → Reach read (f, initial_state values inputs stop stop_shared) r
      → IsConsistent r.0 r.1
  run-IsConsistent steps =
      Reach-IsConsistent steps (IsConsistent-initial_state f values inputs stop stop_shared keyed)

  -- After any steps from the state in which a run begins, with every node under its own id, if no
  -- node starts 2 ^ 32 times, `start_node` starts an idle node and does not panic: the node has as
  -- many output maps as the number of the round that begins, which the code asserts.
  pub start_node_total :
      {r : Run} (id : NodeId) (node : Node)
      → Reach read (f, initial_state values inputs stop stop_shared) r
      → Assoc.get r.0.nodes id ≡ some node
      → CanCount r.1 id
      → start_node read r.0 r.1 id ≡ some (start_idle read r.0 r.1 id node)
  start_node_total {r} id node steps idle can =
      start_node-returns read r.0 r.1 id node idle can (run-IsConsistent steps)

  -- After any steps from the state in which a run begins, with every node under its own id, if no
  -- node starts 2 ^ 32 times, `save_outputs` returns for an output of a node that is running exactly
  -- if the output is an error, or each edge that a value of it leaves by has nothing waiting, or a
  -- first value that is of a loop exactly if the run is; otherwise the debug assertion panics.
  pub save_outputs_total :
      {r : Run} (o : PartialOutput)
      → Reach read (f, initial_state values inputs stop stop_shared) r
      → info_key r.1 (o.node_id, o.times) ≡ some (o.node_id, o.times)
      → ((q : Run) × (save_outputs r.0 r.1 o ≡ some q)) ↔ Agrees r.0 r.1 o
  save_outputs_total {r} o steps active = (
    λ (q, e). save_outputs-Agrees r.0 r.1 o q e,
    λ agrees.
        let v = save_outputs-Saves r.0 r.1 o (run-IsConsistent steps) active agrees in
        (v.out, v.returns),
  )

  -- After any steps from the state in which a run begins, with every node under its own id, if no
  -- node starts 2 ^ 32 times, `node_finished` returns for every running task whose final output
  -- passes the debug assertion of `save_outputs`, be it a result or an error, and the graph has the
  -- node of the task again.
  pub node_finished_total :
      {r : Run} (xs : List Task) (k : Task) (ys : List Task) (output : Output)
      → Reach read (f, initial_state values inputs stop stop_shared) r
      → r.1.running ≡ xs ++ k ∷ ys
      → Agrees r.0 r.1 (final_output k.node k.times output)
      → (q : Run) × (node_finished r.0
            (record r.1 { running = xs ++ ys })
            (Joined.finished k.node k.times output)
          ≡ some (Ended.ok q))
        × (Assoc.get q.0.nodes k.node.id ≡ some k.node)
  node_finished_total {r} xs k ys output steps e agrees =
      let (q, returns, kept, back) =
        node_finished-IsConsistent r.0 r.1 xs k ys output e (run-IsConsistent steps) agrees in
      (q, returns, back)
