-- ===== src/Server/UserTests.antt =====
-- A wallet that signs, and the theorems at it.
use flow_backend.Prelude.{
  All, ap, sym, some_inj, ℕ, ◌≡◌, ◌↔◌, refl, Bool, true, false, Option, none, some, List, [], ◌∷◌,
  str, str_beq, nat_eq, str_eq, pair_eq,
}
use flow_backend.Prelude.Assoc
use flow_backend.Server.SameLogic.{Codec, Message, is_same_message_logic}
use flow_backend.Server.SameLogic.Exactly.{Accepts, is_same_message_logic-Accepts}
use flow_backend.Server.Signer.{Curve, Wallet, fetch}
use flow_backend.Server.Signer.Candidates.{candidates}
use flow_backend.Server.Signer.Fetch.{IsFetched, fetch-best}
use flow_backend.Server.UserWorker
use flow_backend.Server.UserWorker.{
  RequestId, Bytes, Channel, SignatureRequest, UserWorker, SubmitSignature, process_sigreq, submit,
  register, wait,
}
use flow_backend.Server.UserWorker.Pending.{count}
use flow_backend.Server.UserWorker.Answers.{answered, given, IsSound}
use flow_backend.Server.UserWorker.Life
use flow_backend.Server.UserWorker.Life.{user_worker-IsSound, fire_all, fire_all-answers}
use flow_backend.Server.UserWorker.Submit.{Outcome, submit-Outcome}
use flow_backend.Server.DbWorker.{Workers, submit_each}
use flow_backend.Server.DbWorker.Routing.{IsOwn, Routed, submit_each-Routed}
use flow_backend.Server.AddressBook
use flow_backend.Server.AddressBook.{TypeId, ActorId, AddressBook}
use flow_backend.Server.AddressBook.Lookup.{
  Op, starts, inserts, gets_or_starts, run_ops, spec_ops, vacant, address_book-Refines,
}

abbrev small : Message
small = record {
  header = record {
    num_required_signatures = 1;
    num_readonly_signed_accounts = 0;
    num_readonly_unsigned_accounts = 1;
  };
  account_keys = str "payer" ∷ str "program" ∷ [];
  recent_blockhash = str "hash";
  instructions = record { program_id_index = 1; accounts = 0 ∷ []; ix_data = 5 ∷ [] } ∷ [];
}

-- Every text is the same message.
abbrev codec : Codec
codec = record {
  deserialize = λ bytes. some small;
  sanitize = λ m. true;
  program_id = λ m i. some (str "program");
}

is_same_message_logic-Accepts_example :
    (is_same_message_logic codec (1 ∷ []) (2 ∷ []) ≡ some small)
    ↔ Accepts codec (some small) (some small) small
is_same_message_logic-Accepts_example = is_same_message_logic-Accepts codec (1 ∷ []) (2 ∷ []) small

accepted : is_same_message_logic codec (1 ∷ []) (2 ∷ []) ≡ some small
unfolding is_same_message_logic
accepted = refl

abbrev curve : Curve ℕ
curve = record {
  is_on_curve = λ pk. str_beq pk (str "a");
  is_consistent = λ bytes. true;
  from_bytes = λ bytes. some 0;
  sign_message = λ k message. message;
}

abbrev wallets : ℕ → Option (List Wallet)
wallets user_id = some (
    record { id = 0; pubkey = str "b"; keypair_bytes = none }
    ∷ record { id = 1; pubkey = str "a"; keypair_bytes = none }
    ∷ record { id = 2; pubkey = str "a"; keypair_bytes = some (1 ∷ []) }
    ∷ [])

fetch-best_example :
    IsFetched curve (candidates curve wallets ((7, 20) ∷ [])) (fetch curve wallets ((7, 20) ∷ []))
fetch-best_example = fetch-best curve wallets ((7, 20) ∷ [])

-- A signature is good if it is the message.
abbrev verify : Bytes → Bytes → Bytes → Bool
verify pubkey message signature = str_beq message signature

abbrev request : SignatureRequest
request = record {
  id = none;
  time = 0;
  pubkey = str "a";
  message = 1 ∷ 2 ∷ [];
  timeout = 60;
  flow_run_id = some 3;
  signatures = none;
}

abbrev begun : UserWorker
begun = UserWorker.new 7 0

abbrev asked : UserWorker
asked = register begun 40 (record request { id = some 40 })

abbrev submission : SubmitSignature
submission = record { user_id = 7; id = 40; signature = 1 ∷ 2 ∷ []; new_msg = some (1 ∷ 2 ∷ []) }

submit-Outcome_example :
    let s = submit codec verify asked submission true in
    Outcome codec verify asked submission s.0 s.1
submit-Outcome_example = submit-Outcome codec verify asked submission true

asked_registers : process_sigreq begun (some 40) [] request ≡ some (asked, wait 0)
unfolding process_sigreq UserWorker.register_new UserWorker.new Assoc.contains_key Assoc.get
asked_registers = refl

begun_asked : Life.Reach codec verify begun asked
begun_asked =
    Life.Reach.next (Life.Reach.here begun)
      (Life.Step.requested begun (some 40) [] request asked (wait 0) asked_registers)

user_worker-IsSound_example : IsSound asked
user_worker-IsSound_example = user_worker-IsSound codec verify 7 0 asked begun_asked

fire_all-answers_example :
    ((fire_all codec verify asked asked.timers).sigreg ≡ [])
    × ((c : Channel)
        → count c (answered (fire_all codec verify asked asked.timers)) ≡ given c asked)
fire_all-answers_example = fire_all-answers codec verify 7 0 asked begun_asked

abbrev ops : List Op
ops = starts 1 5 100 ∷ inserts 1 5 101 ∷ gets_or_starts (λ addr. false) 1 5 102 ∷ []

address_book-Refines_example :
    (book : AddressBook) × (run_ops AddressBook.new ops ≡ some (book, (spec_ops vacant ops).1))
    × ((type_id : TypeId) (id : ActorId)
        → AddressBook.get book type_id id ≡ some ((spec_ops vacant ops).0 type_id id))
address_book-Refines_example = address_book-Refines ops

abbrev workers : Workers
workers = (100, begun) ∷ (101, record asked { user_id = 8 }) ∷ []

workers-IsOwn : All (IsOwn workers) ((7, 100) ∷ (8, 101) ∷ [])
unfolding UserWorker.new Assoc.get
workers-IsOwn = (
  λ w e. ap (λ (u : UserWorker). u.user_id) (sym (some_inj e)),
  (λ w e. ap (λ (u : UserWorker). u.user_id) (sym (some_inj e)), tt),
)

submit_each-Routed_example :
    Routed codec verify workers submission true
      ((7, 100) ∷ (8, 101) ∷ [])
      (submit_each codec verify ((7, 100) ∷ (8, 101) ∷ []) submission true workers)
submit_each-Routed_example =
    submit_each-Routed codec verify ((7, 100) ∷ (8, 101) ∷ []) submission true workers workers-IsOwn
