-- ===== src/Flow/RunTests.antt =====
-- A run of a graph with a cycle.
use flow_backend.Prelude.{◌≡◌, refl, false, none, some, [], ◌∷◌, str, str_eq, nat_eq, arith}
use flow_backend.Value.{empty}
use flow_backend.Flow.Stop
use flow_backend.Flow.Command.{ReadAs}
use flow_backend.Flow.State.{Node, FlowGraph, Response, State}
use flow_backend.Flow.Result.{Action}
use flow_backend.Flow.Execute.{Execution, Raced}
use flow_backend.Flow.Partial.{UuidText, prepare_partial_run}
use flow_backend.Flow.Transactions.{Sorted}
use flow_backend.Flow.Steps.{initial_state}
use flow_backend.Flow.Run.{Progress, begin_run, run}
use flow_backend.Flow.Run.Fake.{IsFresh}
use flow_backend.Flow.Run.Cycle.{run-cycle}

abbrev looping_node : Node
looping_node = record {
  id = 7;
  command = record { name = str "wait"; inputs = []; outputs = []; instruction_info = none };
  form_inputs = empty;
  idx = 0;
  use_previous_values = [];
}

-- The node feeds itself.
abbrev looping : FlowGraph
looping = record {
  weights = (0, 7) ∷ [];
  edges =
      record {
        id = 0;
        source = 0;
        target = 0;
        from = str "y";
        to = str "x";
        is_required_input = false;
        is_optional_output = false;
        values = [];
      }
      ∷ [];
  nodes = (7, looping_node) ∷ [];
}

abbrev looping_prepared : FlowGraph
looping_prepared = record looping { weights = (0, 7) ∷ (1, 0) ∷ [] }

abbrev plain_execution : Execution
plain_execution = record {
  overwrite_feepayer = none;
  fees = [];
  output_instructions = false;
  transfer_many = λ payer fees. [];
  parent_flow_execute = none;
  execute = λ s ins. Response.signature (some 1);
  race_stop = λ s. Raced.task_first;
  race_shared = λ s. Raced.task_first;
  find_failed_instruction = λ error. none;
  build = λ ins. Action.failed (str "no signer");
}

abbrev digits_text : UuidText
digits_text = record { display = λ id. id ∷ []; parse = λ s. none }

abbrev keep_value : ReadAs
keep_value t v = some v

abbrev fresh : State
fresh = initial_state [] empty Stop.new Stop.new

new_index : IsFresh 1 looping
new_index =
    (((λ h. omega (arith, h)), tt), (((λ h. omega (arith, h)), (λ h. omega (arith, h))), tt))

run-cycle_example :
    (u : State) × (run keep_value plain_execution digits_text 1 0 none looping fresh []
      ≡ some (Progress.done (looping, u)))
    × (u.ran ≡ fresh.ran)
    × (u.running ≡ fresh.running)
unfolding prepare_partial_run begin_run
run-cycle_example =
    run-cycle keep_value plain_execution digits_text 1 0 looping fresh [] looping_prepared
      (begin_run Sorted.cycle fresh) refl ((λ h. cc h), tt) new_index
