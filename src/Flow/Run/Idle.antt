-- ===== src/Flow/Run/Idle.antt =====
-- The parts of a run that start and end no node.
use flow_backend.Prelude.{
  ◌≡◌, refl, ◌∙◌, ap, Bool, true, false, Option, none, some, [], ◌∷◌, ◌++◌, if◌then◌else◌,
  bind-some, str, nat_eq, str_eq, All, ltb, length, filter,
}
use flow_backend.Prelude.Assoc
use flow_backend.Prelude.Assoc.{Assoc}
use flow_backend.Value.{contains_key}
use flow_backend.Flow.Stop.{cancel}
use flow_backend.Flow.Command.{Name}
use flow_backend.Flow.State.{
  NodeId, NodeIndex, UsePreviousValue, Node, FlowGraph, Instructions, State, Message,
}
use flow_backend.Flow.Outputs.{flow_error}
use flow_backend.Flow.Inputs.{Run}
use flow_backend.Flow.Execute.Total.{HasOutput, output_nodes_total}
use flow_backend.Flow.Result.{
  Action, put_action, output_transaction, take_instructions, collect_flow_output, send_finish,
  idle_not_run, has_errors, report_failed, finish_run,
}
use flow_backend.Flow.Partial.{
  UuidText, stop_run, add_fake_edge, add_fake_edges, add_all_fake_edges,
}

-- No node started or ended between two states, and a run that was stopped stays so.
pub record Idles (s t : State) : Type 0 where
  pub ran : t.ran ≡ s.ran
  pub running : t.running ≡ s.running
  pub stopped : s.stop.cancelled ≡ true → t.stop.cancelled ≡ true

Idles-refl : (s : State) → Idles s s
Idles-refl s = record { ran = refl; running = refl; stopped = λ h. h }

Idles-same : (s t : State) → t.ran ≡ s.ran → t.running ≡ s.running → t.stop ≡ s.stop → Idles s t
Idles-same s t ran running stop = record {
  ran = ran;
  running = running;
  stopped = λ h. ap (λ x. x.cancelled) stop ∙ h;
}

pub Idles-trans : (s t u : State) → Idles s t → Idles t u → Idles s u
Idles-trans s t u a b = record {
  ran = b.ran ∙ a.ran;
  running = b.running ∙ a.running;
  stopped = λ h. b.stopped (a.stopped h);
}

Idles-if :
    (b : Bool) (s : State) (x y : Run) → Idles s x.1 → Idles s y.1 → Idles s (if b then x else y).1
Idles-if true s x y hx hy = hx
Idles-if false s x y hx hy = hy

pub Idles-stop_run : (s : State) (m : Message) → Idles s (stop_run (flow_error s m))
unfolding flow_error cancel
Idles-stop_run s m = record { ran = refl; running = refl; stopped = λ h. refl }

Idles-add_fake_edges :
    (uuid : UuidText) (fake_node : NodeIndex) (n : Node) (inputs : Assoc Name UsePreviousValue)
    (f : FlowGraph) (s : State)
    → Idles s (add_fake_edges uuid fake_node n inputs f s).1
unfolding add_fake_edges add_fake_edge
Idles-add_fake_edges uuid fake_node n [] f s = Idles-refl s
Idles-add_fake_edges uuid fake_node n ((input_name, previous) ∷ more) f s =
    let r = add_fake_edge uuid fake_node n input_name previous f s in
    Idles-trans s r.1 _
      (Idles-if (Assoc.contains_key s.previous_values previous.node_id) s _ _ (Idles-refl s)
        (Idles-stop_run s (Message.no_value_for_port input_name)))
      (Idles-add_fake_edges uuid fake_node n more r.0 r.1)

pub Idles-add_all_fake_edges :
    (uuid : UuidText) (fake_node : NodeIndex) (nodes : Assoc NodeId Node) (f : FlowGraph)
    (s : State)
    → Idles s (add_all_fake_edges uuid fake_node nodes f s).1
unfolding add_all_fake_edges
Idles-add_all_fake_edges uuid fake_node [] f s = Idles-refl s
Idles-add_all_fake_edges uuid fake_node ((id, n) ∷ nodes) f s =
    let r = add_fake_edges uuid fake_node n n.use_previous_values f s in
    Idles-trans s r.1 _ (Idles-add_fake_edges uuid fake_node n n.use_previous_values f s)
      (Idles-add_all_fake_edges uuid fake_node nodes r.0 r.1)

Idles-put_action : (a : Action) (s : State) → Idles s (put_action a s)
unfolding put_action flow_error
Idles-put_action (Action.built text) s = Idles-same _ _ refl refl refl
Idles-put_action (Action.failed error) s = Idles-same _ _ refl refl refl

Idles-either : (b : Bool) (s x y : State) → Idles s x → Idles s y → Idles s (if b then x else y)
Idles-either true s x y hx hy = hx
Idles-either false s x y hx hy = hy

Idles-output_transaction :
    (build : Instructions → Action) (ins : Instructions) (s : State)
    → Idles s (output_transaction build ins s)
unfolding output_transaction
Idles-output_transaction build ins s =
    Idles-either (contains_key s.result.output (str "transaction")) s s _ (Idles-refl s)
      (Idles-put_action (build ins) s)

Idles-take_instructions :
    (build : Instructions → Action) (o : Option Instructions) (s : State)
    → Idles s (take_instructions build o s)
unfolding take_instructions
Idles-take_instructions build none s = Idles-refl s
Idles-take_instructions build (some ins) s =
    let t : State = record s { result = record s.result { instructions = none } } in
    Idles-trans s t _ (Idles-same s t refl refl refl) (Idles-output_transaction build ins t)

Idles-report_failed : (s : State) → Idles s (report_failed s)
unfolding report_failed flow_error
Idles-report_failed s =
    Idles-either (ltb 0 (length (filter has_errors s.result.node_errors))) s _ s
      (Idles-same _ _ refl refl refl) (Idles-refl s)

Idles-collect_flow_output :
    (build : Instructions → Action) (f : FlowGraph) (s : State)
    → All HasOutput f.nodes
    → (t : State) × (collect_flow_output build f s ≡ some t) × Idles s t
unfolding collect_flow_output
Idles-collect_flow_output build f s h =
    let (q, e) = output_nodes_total s.result.node_outputs f.nodes s.result.output h in
    let t : State = record s { result = record s.result { output = q } } in
    (
      take_instructions build s.result.instructions t,
      bind-some _ _ e,
      Idles-trans s t _ (Idles-same s t refl refl refl)
          (Idles-take_instructions build s.result.instructions t),
    )

pub Idles-finish_run :
    (build : Instructions → Action) (f : FlowGraph) (s : State)
    → All HasOutput f.nodes
    → (t : State) × (finish_run build f s ≡ some t) × Idles s t
unfolding finish_run
Idles-finish_run build f s h =
    let begun : State = record s {
      result = record s.result { not_run = s.result.not_run ++ idle_not_run f s };
    } in
    let (t, e, kept) = Idles-collect_flow_output build f begun h in
    let sent = send_finish (report_failed t) in
    (
      sent,
      bind-some _ _ e,
      Idles-trans s begun sent (Idles-same s begun refl refl refl) (
          Idles-trans begun t sent kept (
            Idles-trans t (report_failed t) sent (Idles-report_failed t)
              (Idles-same (report_failed t) sent refl refl refl))),
    )
