-- ===== src/Flow/Result.antt =====
-- `collect_flow_output` of crates/flow/src/flow_graph.rs, and what `run` writes into its result at
-- the end.
use flow_backend.Prelude.{
  ℕ, Bool, ltb, not, Option, none, some, List, [], ◌∷◌, ◌++◌, Str, str, str_beq, nat_eq, pair_eq,
  length, filter, map, head?, if◌then◌else◌, ◌>>=◌,
}
use flow_backend.Prelude.Assoc
use flow_backend.Prelude.Assoc.{Assoc}
use flow_backend.Value
use flow_backend.Value.{Value, Values, Map}
use flow_backend.Flow.Command.{Name}
use flow_backend.Flow.State.{
  NodeId, Node, FlowGraph, Message, Event, Instructions, FlowRunResult, State,
}
use flow_backend.Flow.Ready.{flow_output}
use flow_backend.Flow.Outputs.{flow_error}

abbrev pub values_named : Name → List Map → Values
values_named name [] = Values.nil
values_named name (o ∷ os) = elim (Value.get o name) [
  | none ↦ values_named name os
  | some v ↦ Values.cons v (values_named name os)
]

-- No value, the only one, or all of them in an array.
unfoldable pub gathered : Values → Option Value
gathered Values.nil = none
gathered (Values.cons v Values.nil) = some v
gathered (Values.cons v (Values.cons w vs)) = some (Value.array (Values.cons v (Values.cons w vs)))

unfoldable pub put_output : Map → Name → Option Value → Map
put_output output name none = output
put_output output name (some v) = Value.insert output name v

unfoldable pub put_outputs : Map → Name → Option (List Map) → Map
unfolding put_output gathered
put_outputs output name none = output
put_outputs output name (some maps) = put_output output name (gathered (values_named name maps))

-- `none` is the panic of `outputs()[0]`.
unfoldable pub output_node : Assoc NodeId (List Map) → NodeId → Node → Map → Option Map
unfolding put_outputs
output_node outputs id n output =
    if str_beq n.command.name flow_output
    then (head? n.command.outputs >>= λ d. some (put_outputs output d.name (Assoc.get outputs id)))
    else some output

unfoldable pub output_nodes : Assoc NodeId (List Map) → Assoc NodeId Node → Map → Option Map
unfolding output_node
output_nodes outputs [] output = some output
output_nodes outputs ((id, n) ∷ more) output =
    output_node outputs id n output >>= λ next. output_nodes outputs more next

-- What `build_for_solana_action` and the encoders make of instructions: a text, or an error's text.
pub data Action : Type 0 where
  built failed : Str → Action

abbrev with_result : State → FlowRunResult → State
with_result s r = record s { result = r }

unfoldable pub put_action : Action → State → State
unfolding flow_error
put_action (Action.built text) s = with_result s (record s.result {
  output = Value.insert s.result.output (str "transaction") (Value.string text);
})
put_action (Action.failed error) s = flow_error s (Message.build_failed error)

unfoldable pub output_transaction : (Instructions → Action) → Instructions → State → State
unfolding put_action
output_transaction build ins s =
    if Value.contains_key s.result.output (str "transaction") then s else put_action (build ins) s

unfoldable pub take_instructions : (Instructions → Action) → Option Instructions → State → State
unfolding output_transaction
take_instructions build none s = s
take_instructions build (some ins) s =
    output_transaction build ins (with_result s (record s.result { instructions = none }))

unfoldable pub collect_flow_output : (Instructions → Action) → FlowGraph → State → Option State
unfolding output_nodes take_instructions
collect_flow_output build f s =
    output_nodes s.result.node_outputs f.nodes s.result.output >>= λ output. some (
      take_instructions build s.result.instructions
        (with_result s (record s.result { output = output })))

abbrev pub has_errors : (NodeId × ℕ) × List Message → Bool
has_errors (key, errors) = ltb 0 (length errors)

abbrev pub idle_not_run : FlowGraph → State → List NodeId
idle_not_run f s =
    map (λ p. p.0) (filter (λ (p : NodeId × Node). not (Assoc.contains_key s.ran p.0)) f.nodes)

unfoldable pub report_failed : State → State
unfolding flow_error
report_failed s =
    let failed = length (filter has_errors s.result.node_errors) in
    if ltb 0 failed then flow_error s (Message.nodes_failed failed) else s

abbrev pub send_finish : State → State
send_finish s = record s {
  events = s.events ++ Event.flow_finish s.result.output s.result.not_run ∷ [];
}

-- What `run` does after its loop.
unfoldable pub finish_run : (Instructions → Action) → FlowGraph → State → Option State
unfolding collect_flow_output report_failed
finish_run build f s =
    collect_flow_output build f
      (with_result s (record s.result { not_run = s.result.not_run ++ idle_not_run f s }))
    >>= λ t. some (send_finish (report_failed t))
