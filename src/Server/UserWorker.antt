-- ===== src/Server/UserWorker.antt =====
-- `UserWorker` of crates/flow-server/src/db_worker/user_worker.rs: the requests for signatures that a
-- user's wallet is to answer. A oneshot channel is a number, given out in order; a sender that is
-- dropped answers that it was. A timer of `run_later` is an entry of `timers` until it fires.
pub mod Pending
pub mod Answers
pub mod Life
pub mod Submit
use flow_backend.Prelude.{
  ℕ, suc, ◌%◌, ◌^◌, Bool, true, false, not, Option, none, some, List, [], ◌∷◌, ◌++◌, Str, str,
  str_beq, nat_beq, nat_eq, is_some, if◌then◌else◌,
}
use flow_backend.Prelude.Assoc
use flow_backend.Prelude.Assoc.{Assoc}
use flow_backend.Server.RunWorker.{UserId, FlowRunId, SubscriptionId, next}
use flow_backend.Server.SameLogic.{Codec, is_same_message_logic}

abbrev pub RequestId : Type 0
RequestId = ℕ

abbrev pub Channel : Type 0
Channel = ℕ

abbrev pub Bytes : Type 0
Bytes = List ℕ

pub record Presigner : Type 0 where
  pub pubkey : Bytes
  pub signature : Bytes

pub record SignatureRequest : Type 0 where
  pub id : Option RequestId
  pub time : ℕ
  pub pubkey : Bytes
  pub message : Bytes
  pub timeout : ℕ
  pub flow_run_id : Option FlowRunId
  pub signatures : Option (List Presigner)

-- Result<SignatureResponse, signer::Error>
pub data Response : Type 0 where
  signed : (signature : Bytes) (new_message : Option Bytes) → Response
  timed_out : Response
  other : Str → Response

pub record SigReq : Type 0 where
  pub resp : Channel
  pub req : SignatureRequest

pub record Watcher : Type 0 where
  pub sent : List SignatureRequest
  pub connected : Bool

pub record UserWorker : Type 0 where
  pub user_id : UserId
  pub counter : ℕ
  pub sigreg : Assoc RequestId SigReq
  pub subs : Assoc SubscriptionId Watcher
  pub next_channel : Channel
  pub responses : List (Channel × Response)
  pub timers : List RequestId
  -- SigReqEvent
  pub to_runs : List (FlowRunId × SignatureRequest)

unfoldable pub new : UserId → ℕ → UserWorker
new user_id counter = record {
  user_id = user_id;
  counter = counter;
  sigreg = [];
  subs = [];
  next_channel = 0;
  responses = [];
  timers = [];
  to_runs = [];
}

-- Handler<SubscribeSigReq>
unfoldable pub subscribe : UserWorker → UserWorker × SubscriptionId
subscribe w = (
  record w {
    counter = next w.counter;
    subs = Assoc.insert w.subs w.counter (record { sent = []; connected = true });
  },
  w.counter,
)

abbrev pub retain : SignatureRequest → Assoc SubscriptionId Watcher → Assoc SubscriptionId Watcher
retain req [] = []
retain req ((id, sub) ∷ subs) =
    let rest = retain req subs in
    if sub.connected then (id, record sub { sent = sub.sent ++ req ∷ [] }) ∷ rest else rest

abbrev pub connected_subs : Assoc SubscriptionId Watcher → Assoc SubscriptionId Watcher
connected_subs [] = []
connected_subs ((id, sub) ∷ subs) =
    let rest = connected_subs subs in if sub.connected then (id, sub) ∷ rest else rest

abbrev pub is_nil : Assoc SubscriptionId Watcher → Bool
is_nil [] = true
is_nil (_ ∷ _) = false

-- Actor::stopping: whether the worker stops.
unfoldable pub stopping : UserWorker → UserWorker × Bool
stopping w = let subs = connected_subs w.subs in (record w { subs = subs }, is_nil subs)

abbrev pub run_event : Option FlowRunId → SignatureRequest → List (FlowRunId × SignatureRequest)
run_event none req = []
run_event (some run_id) req = (run_id, req) ∷ []

-- A request with the ID that the database gave it: it is kept, shown to the subscribers, sent to the
-- worker of its run, and a timer starts.
abbrev pub register : UserWorker → RequestId → SignatureRequest → UserWorker
register w id req = record w {
  sigreg = Assoc.insert w.sigreg id (record { resp = w.next_channel; req = req });
  subs = retain req w.subs;
  next_channel = suc w.next_channel;
  timers = w.timers ++ id ∷ [];
  to_runs = w.to_runs ++ run_event req.flow_run_id req;
}

-- `none` is `expect("DB's ID is unique")`; the channel is the one to wait for.
unfoldable pub register_new :
    UserWorker → RequestId → SignatureRequest → Option (UserWorker × Channel)
register_new w id req =
    if Assoc.contains_key w.sigreg id then none else some (register w id req, w.next_channel)

-- What the future of a request returns.
pub data Waiting : Type 0 where
  wait : Channel → Waiting
  failed : Response → Waiting

abbrev pub waits : UserWorker × Channel → UserWorker × Waiting
waits (w, channel) = (w, wait channel)

-- The result of the database is an ID or an error.
unfoldable pub process_sigreq :
    UserWorker → Option RequestId → Str → SignatureRequest → Option (UserWorker × Waiting)
unfolding register_new
process_sigreq w (some id) error req = elim (register_new w id (record req { id = some id })) [
  | none ↦ none
  | some p ↦ some (waits p)
]
process_sigreq w none error req = some (w, failed (other error))

-- Handler<SigReqExists>
unfoldable pub exists : UserWorker → RequestId → Bool
exists w id = Assoc.contains_key w.sigreg id

abbrev pub answer : UserWorker → RequestId → SigReq → Response → UserWorker
answer w id r response = record w {
  sigreg = Assoc.remove w.sigreg id;
  responses = w.responses ++ (r.resp, response) ∷ [];
}

abbrev pub expire_found : UserWorker → RequestId → Option SigReq → UserWorker
expire_found w id none = w
expire_found w id (some r) = answer w id r timed_out

-- The timer of a request fires.
unfoldable pub expire : UserWorker → RequestId → UserWorker
expire w id = expire_found w id (Assoc.get w.sigreg id)

pub record SubmitSignature : Type 0 where
  pub user_id : UserId
  pub id : RequestId
  pub signature : Bytes
  pub new_msg : Option Bytes

pub data SubmitError : Type 0 where
  unauthorized not_found not_allow_change_tx tx_changed wrong_signature db : SubmitError

pub data Submitted : Type 0 where
  ok : Submitted
  error : SubmitError → Submitted

-- The message that the signature is for, and the one to send back; or why there is none.
pub data Changed : Type 0 where
  use_message : (message : Bytes) (new_msg : Option Bytes) → Changed
  not_allowed : Changed
  differs : Changed

abbrev pub is_unsigned : Option (List Presigner) → Bool
is_unsigned none = true
is_unsigned (some []) = true
is_unsigned (some (_ ∷ _)) = false

abbrev pub tx_dropped : Response
tx_dropped = other (str "tx dropped")

-- A request that goes back to where it was.
abbrev pub put_back : UserWorker → RequestId → SigReq → UserWorker
put_back w id r = record w { sigreg = Assoc.insert (Assoc.remove w.sigreg id) id r }

module _ (codec : Codec) (verify : (pubkey message signature : Bytes) → Bool) where
  abbrev pub change : SignatureRequest → Option Bytes → Changed
  change req none = use_message req.message none
  change req (some m) =
      if str_beq m req.message
      then use_message req.message none
      else if not (is_unsigned req.signatures)
      then not_allowed
      else if is_some (is_same_message_logic codec req.message m)
      then use_message m (some m)
      else differs

  -- `saved` tells whether the database saves the signature, after the answer.
  abbrev pub submit_message :
      UserWorker → SubmitSignature → Bool → SigReq → Changed → UserWorker × Submitted
  submit_message w msg saved r not_allowed =
      (answer w msg.id r tx_dropped, error not_allow_change_tx)
  submit_message w msg saved r differs = (put_back w msg.id r, error tx_changed)
  submit_message w msg saved r (use_message message new_msg) =
      if not (verify r.req.pubkey message msg.signature)
      then (put_back w msg.id r, error wrong_signature)
      else (answer w msg.id r (signed msg.signature new_msg), if saved then ok else error db)

  abbrev pub submit_found :
      UserWorker → SubmitSignature → Bool → Option SigReq → UserWorker × Submitted
  submit_found w msg saved none = (w, error not_found)
  submit_found w msg saved (some r) = submit_message w msg saved r (change r.req msg.new_msg)

  -- Handler<SubmitSignature>
  unfoldable pub submit : UserWorker → SubmitSignature → Bool → UserWorker × Submitted
  submit w msg saved =
      if not (nat_beq w.user_id msg.user_id)
      then (w, error unauthorized)
      else submit_found w msg saved (Assoc.get w.sigreg msg.id)
