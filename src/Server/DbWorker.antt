-- ===== src/Server/DbWorker.antt =====
-- `DBWorker` of crates/flow-server/src/db_worker/mod.rs: it finds and starts the other actors, passes
-- signatures on to the user who has the request, and copies logs to the database. Between its two
-- sends no other message reaches the workers here; an actor that is gone is no key of `workers`.
pub mod Routing
use flow_backend.Prelude.{
  ℕ, Bool, true, false, not, Option, none, some, List, [], ◌∷◌, ◌++◌, nat_eq, if◌then◌else◌, ◌>>=◌,
}
use flow_backend.Prelude.Assoc
use flow_backend.Prelude.Assoc.{Assoc}
use flow_backend.Server.RunWorker.{UserId, FlowRunId}
use flow_backend.Server.RunLog.{FlowRunLogsRow}
use flow_backend.Server.RunLog.Numbering.{flatten}
use flow_backend.Server.AddressBook
use flow_backend.Server.AddressBook.{TypeId, ActorId, Addr, AddressBook, upgrade}
use flow_backend.Server.SameLogic.{Codec}
use flow_backend.Server.UserWorker
use flow_backend.Server.UserWorker.{
  Bytes, UserWorker, SubmitSignature, SubmitError, Submitted, ok, error, not_found, unauthorized,
  not_allow_change_tx, tx_changed, wrong_signature, db, submit,
}

-- The types of the actors that are kept.
abbrev pub user_worker : TypeId
user_worker = 0

abbrev pub token_worker : TypeId
token_worker = 1

abbrev pub flow_run_worker : TypeId
flow_run_worker = 2

-- Handler<GetUserWorker>; `addr` is the address that a new actor would have.
unfoldable pub get_user_worker :
    (Addr → Bool) → AddressBook → UserId → Addr → Option (AddressBook × Addr)
get_user_worker alive actors user_id addr =
    AddressBook.get_or_start alive actors user_worker user_id addr

pub data DbPool : Type 0 where
  real proxied : DbPool

pub data TokenReply : Type 0 where
  worker : Addr → TokenReply
  not_allowed stopped : TokenReply

abbrev pub proxied_token : (Addr → Bool) → Option Addr → TokenReply
proxied_token alive none = not_allowed
proxied_token alive (some addr) = if alive addr then worker addr else stopped

-- Handler<GetTokenWorker>; `none` is a panic.
unfoldable pub get_token_worker :
    (Addr → Bool) → DbPool → AddressBook → UserId → Addr → Option (AddressBook × TokenReply)
get_token_worker alive real actors user_id addr =
    AddressBook.get_or_start alive actors token_worker user_id addr >>= λ r. some (r.0, worker r.1)
get_token_worker alive proxied actors user_id addr =
    AddressBook.get actors token_worker user_id >>= λ found.
    some (actors, proxied_token alive found)

-- Handler<StartFlowRunWorker>
unfoldable pub start_flow_run_worker : AddressBook → FlowRunId → Addr → AddressBook × Option Addr
start_flow_run_worker actors id addr = AddressBook.try_start actors flow_run_worker id addr

-- Handler<FindActor>
unfoldable pub find_actor : (Addr → Bool) → AddressBook → TypeId → ActorId → Option (Option Addr)
find_actor alive actors type_id id =
    AddressBook.get actors type_id id >>= λ found. some (upgrade alive found)

abbrev pub Workers : Type 0
Workers = Assoc Addr UserWorker

module _ (codec : Codec) (verify : (pubkey message signature : Bytes) → Bool) where
  -- What comes after the answer of one actor; `rest` asks the others.
  abbrev pub after_answer :
      (Workers → Workers × Submitted) → Workers → Submitted → Workers × Submitted
  after_answer rest workers (error not_found) = rest workers
  after_answer rest workers ok = (workers, ok)
  after_answer rest workers (error unauthorized) = (workers, error unauthorized)
  after_answer rest workers (error not_allow_change_tx) = (workers, error not_allow_change_tx)
  after_answer rest workers (error tx_changed) = (workers, error tx_changed)
  after_answer rest workers (error wrong_signature) = (workers, error wrong_signature)
  after_answer rest workers (error db) = (workers, error db)

  -- An actor that is gone is passed over.
  unfoldable pub submit_to :
      (Workers → Workers × Submitted)
      → Addr
      → Workers
      → SubmitSignature
      → Bool
      → Option UserWorker
      → Workers × Submitted
  unfolding submit
  submit_to rest addr workers msg saved none = rest workers
  submit_to rest addr workers msg saved (some w) =
      let r = submit codec verify w msg saved in
      after_answer rest (Assoc.insert workers addr r.0) r.1

  unfoldable pub submit_each :
      List (UserId × Addr) → SubmitSignature → Bool → Workers → Workers × Submitted
  unfolding submit_to
  submit_each [] msg saved workers = (workers, ok)
  submit_each ((user_id, addr) ∷ users) msg saved workers =
      submit_to (submit_each users msg saved) addr workers (record msg { user_id = user_id }) saved
        (Assoc.get workers addr)

  -- Handler<SubmitSignature>
  unfoldable pub submit_signature :
      (Addr → Bool) → AddressBook → Workers → SubmitSignature → Bool → Workers × Submitted
  unfolding submit_each
  submit_signature alive actors workers msg saved =
      submit_each (AddressBook.iter alive actors user_worker) msg saved workers

-- db_copy_in: the chunks of what was sent to the worker, and whether a connection could be had and
-- the copy succeeded; what is copied in the end.
unfoldable pub db_copy_in : List (Bool × Bool × List (List FlowRunLogsRow)) → List FlowRunLogsRow
db_copy_in [] = []
db_copy_in ((connected, copied, events) ∷ chunks) =
    let rest = db_copy_in chunks in
    if not connected then rest else if copied then flatten events ++ rest else rest

-- db_copy_in_proxied: each push, with the user whose connection it takes.
abbrev pub push_rows :
    Bool
    → Bool
    → List FlowRunLogsRow
    → List (UserId × List FlowRunLogsRow)
    → List (UserId × List FlowRunLogsRow)
push_rows connected pushed [] rest = rest
push_rows connected pushed (row ∷ rows) rest =
    if not connected then rest else if pushed then (row.user_id, row ∷ rows) ∷ rest else rest

unfoldable pub db_copy_in_proxied :
    List (Bool × Bool × List (List FlowRunLogsRow)) → List (UserId × List FlowRunLogsRow)
db_copy_in_proxied [] = []
db_copy_in_proxied ((connected, pushed, events) ∷ chunks) =
    push_rows connected pushed (flatten events) (db_copy_in_proxied chunks)
