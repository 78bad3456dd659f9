-- ===== src/Flow/ExecuteTests.antt =====
-- Two transactions of waiting nodes, and the theorems at them.
use flow_backend.Prelude.{
  ℕ, nat_eq, ◌≡◌, refl, true, false, none, some, List, [], ◌∷◌, Str, str, All, Option, arith,
}
use flow_backend.Prelude.Assoc
use flow_backend.Value.{empty}
use flow_backend.Flow.Stop
use flow_backend.Flow.Stop.{stop}
use flow_backend.Flow.Command.{Command}
use flow_backend.Flow.State.{Node, FlowGraph, Waiting, Response, ExecuteError, State}
use flow_backend.Flow.Bundle.{bundle, combine, combine_all, overwrite}
use flow_backend.Flow.Bundle.Slice.{Bundles, bundle-Bundles}
use flow_backend.Flow.Result.{Action}
use flow_backend.Flow.Execute.Blame.{Blames, bundle-Blames}
use flow_backend.Flow.Execute.{Execution, Raced, ControlFlow, continue_with, Tx, execute_txs}
use flow_backend.Flow.Execute.Sent.{Answers, channels}
use flow_backend.Flow.Execute.Answer.{all_waiting, execute_txs-Continues}
use flow_backend.Flow.Transactions.{Sorted, sort_node, sort_transactions}
use flow_backend.Flow.Transactions.Once.{InTable}
use flow_backend.Flow.Transactions.NoRepeat.{NoRepeat, concat}
use flow_backend.Flow.Transactions.Distinct.{sort_transactions-NoRepeat}
use flow_backend.Flow.Steps.{initial_state}

abbrev signing : Str → Command
signing name = record {
  name = name;
  inputs = [];
  outputs = [];
  instruction_info = some (record { before = []; signature = str "signature"; after = [] });
}

abbrev signing_node : ℕ → ℕ → Node
signing_node id idx = record {
  id = id;
  command = signing (str "transfer");
  form_inputs = empty;
  idx = idx;
  use_previous_values = [];
}

-- The second node waits for the signature of the first.
abbrev chained : FlowGraph
chained = record {
  weights = (0, 7) ∷ (1, 9) ∷ [];
  edges =
      record {
        id = 0;
        source = 0;
        target = 1;
        from = str "signature";
        to = str "x";
        is_required_input = true;
        is_optional_output = false;
        values = [];
      }
      ∷ [];
  nodes = (7, signing_node 7 0) ∷ (9, signing_node 9 1) ∷ [];
}

in_table : All (InTable chained) (7 ∷ 9 ∷ [])
unfolding Assoc.get
in_table = ((signing_node 7 0, refl, refl), ((signing_node 9 1, refl, refl), tt))

own_ids : (id : ℕ) (n : Node) → Assoc.get chained.nodes id ≡ some n → n.id ≡ id
unfolding Assoc.get
own_ids id n h = ground arith

sort_transactions-NoRepeat_example :
    (txs : List (List ℕ)) × (sort_transactions chained (some (7 ∷ 9 ∷ [])) ≡ some (Sorted.ok txs))
    × NoRepeat (concat txs)
sort_transactions-NoRepeat_example =
    sort_transactions-NoRepeat chained (7 ∷ 9 ∷ []) own_ids in_table

-- Two transactions, one after the other.
two_transactions :
    sort_transactions chained (some (7 ∷ 9 ∷ [])) ≡ some (Sorted.ok ((7 ∷ []) ∷ (9 ∷ []) ∷ []))
unfolding sort_transactions sort_node Assoc.get Assoc.insert
two_transactions = refl

abbrev wait_with : ℕ → List ℕ → ℕ → Waiting
wait_with payer ins c = record {
  instructions = record { fee_payer = payer; signers = []; instructions = ins };
  resp = some c;
}

abbrev first_wait : Waiting
first_wait = wait_with 1 (11 ∷ 12 ∷ []) 100

abbrev same_payer : Waiting
same_payer = wait_with 1 (13 ∷ []) 101

abbrev other_payer : Waiting
other_payer = wait_with 2 (14 ∷ []) 102

bundle-Bundles_example :
    Bundles first_wait
      (same_payer ∷ other_payer ∷ [])
      (bundle none first_wait (same_payer ∷ other_payer ∷ []))
bundle-Bundles_example = bundle-Bundles none first_wait (same_payer ∷ other_payer ∷ [])

-- The third instruction fails on the network.
abbrev failing : Execution
failing = record {
  overwrite_feepayer = none;
  fees = [];
  output_instructions = false;
  transfer_many = λ payer fees. [];
  parent_flow_execute = none;
  execute = λ s ins. Response.error (ExecuteError.solana 2 0);
  race_stop = λ s. Raced.task_first;
  race_shared = λ s. Raced.task_first;
  find_failed_instruction = λ error. some error;
  build = λ ins. Action.failed (str "no signer");
}

-- All of these nodes are running.
abbrev no_idle : FlowGraph
no_idle = record { weights = []; edges = []; nodes = [] }

abbrev begun : State
begun = initial_state [] empty Stop.new Stop.new

abbrev one_tx : List Tx
one_tx = ((7, some first_wait) ∷ (9, some same_payer) ∷ (10, some other_payer) ∷ []) ∷ []

execute_txs-Continues_example :
    (t : State) × (execute_txs failing no_idle begun one_tx ≡ some (ControlFlow.continue_with t))
    × Answers begun t (channels (all_waiting one_tx))
execute_txs-Continues_example = execute_txs-Continues failing no_idle begun one_tx refl tt

abbrev responses_of : Option ControlFlow → List (ℕ × Response)
responses_of (some (continue_with t)) = t.responses
responses_of _ = []

-- Only the node with the failing instruction, and the one that is not executed after it, get the
-- error itself.
failing_responses :
    responses_of (execute_txs failing no_idle begun one_tx)
    ≡ (100, Response.error ExecuteError.tx_sim_failed)
      ∷ (101, Response.error (ExecuteError.solana 2 0))
      ∷ (102, Response.error (ExecuteError.solana 2 0))
      ∷ []
unfolding execute_txs combine_all overwrite initial_state Assoc.get
failing_responses = refl

bundle-Blames_example :
    Blames 2
      (Response.error (ExecuteError.solana 2 0))
      (bundle none first_wait (same_payer ∷ other_payer ∷ [])).resp
unfolding bundle combine_all combine overwrite
bundle-Blames_example =
    bundle-Blames none first_wait (same_payer ∷ other_payer ∷ []) 2
      (Response.error (ExecuteError.solana 2 0)) (omega arith)
