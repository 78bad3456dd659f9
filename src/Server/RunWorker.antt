-- ===== src/Server/RunWorker.antt =====
-- `FlowRunWorker` of crates/flow-server/src/db_worker/flow_run_worker.rs: it keeps the events of a
-- run, sends them on to those who subscribed, and stops the run. An unbounded channel is a `Stream`:
-- what was sent, whether its receiver is there, and whether it was closed. A stream whose sender is
-- dropped goes to `ended`, where its receiver still reads it.
pub mod History
pub mod Stop
use flow_backend.Prelude.{
  ℕ, suc, ◌%◌, ◌^◌, Bool, true, false, not, ◌&&◌, ◌||◌, Option, none, some, List, [], ◌∷◌, ◌++◌,
  Str, str, nat_beq, nat_eq, any, contains, if◌then◌else◌,
}
use flow_backend.Prelude.Assoc
use flow_backend.Prelude.Assoc.{Assoc}
use flow_backend.Flow.Stop.{StopSignal, stop}
use flow_backend.Server.Events.{Event, is_finish}

abbrev pub UserId : Type 0
UserId = ℕ

abbrev pub FlowRunId : Type 0
FlowRunId = ℕ

abbrev pub SubscriptionId : Type 0
SubscriptionId = ℕ

-- TokenType of crates/flow-server/src/middleware/auth.rs
pub data TokenType : Type 0 where
  jwt api_key : UserId → TokenType
  flow_run : FlowRunId → TokenType

abbrev pub is_user : UserId → TokenType → Bool
is_user user_id (jwt id) = nat_beq id user_id
is_user user_id (api_key id) = nat_beq id user_id
is_user user_id (flow_run id) = false

abbrev pub is_flow_run : FlowRunId → TokenType → Bool
is_flow_run run_id (jwt id) = false
is_flow_run run_id (api_key id) = false
is_flow_run run_id (flow_run id) = nat_beq id run_id

pub record Stream : Type 0 where
  pub sent : List Event
  pub connected : Bool
  pub closed : Bool

abbrev pub open_stream : List Event → Stream
open_stream sent = record { sent = sent; connected = true; closed = false }

abbrev pub accepts : Stream → Bool
accepts s = s.connected && not s.closed

-- unbounded_send: an error changes nothing.
unfoldable pub unbounded_send : Stream → Event → Stream
unbounded_send s e = if accepts s then record s { sent = s.sent ++ e ∷ [] } else s

abbrev pub close_channel : Stream → Stream
close_channel s = record s { closed = true }

pub record FlowRunWorker : Type 0 where
  pub user_id : UserId
  pub shared_with : List UserId
  pub run_id : FlowRunId
  pub stop_signal : StopSignal
  pub stop_shared_signal : StopSignal
  pub counter : ℕ
  pub tx : Stream
  pub subs : Assoc SubscriptionId Stream
  pub all_events : List Event
  pub ended : List (SubscriptionId × Stream)

unfoldable pub new : FlowRunId → UserId → List UserId → ℕ → StopSignal → StopSignal → FlowRunWorker
new run_id user_id shared_with counter stop_signal stop_shared_signal = record {
  user_id = user_id;
  shared_with = shared_with;
  run_id = run_id;
  stop_signal = stop_signal;
  stop_shared_signal = stop_shared_signal;
  counter = counter;
  tx = open_stream [];
  subs = [];
  all_events = [];
  ended = [];
}

-- Counter::next
abbrev pub next : ℕ → ℕ
next n = suc n % 2 ^ 64

pub data Subscribed : Type 0 where
  ok : SubscriptionId → Subscribed
  unauthorized : Subscribed

abbrev pub can_read : FlowRunWorker → List TokenType → Bool
can_read w tokens = any (λ t. is_user w.user_id t || is_flow_run w.run_id t) tokens

abbrev pub send_events : Stream → List Event → Stream
send_events s [] = s
send_events s (e ∷ es) = send_events (unbounded_send s e) es

-- Handler<SubscribeEvents>
unfoldable pub subscribe : FlowRunWorker → List TokenType → FlowRunWorker × Subscribed
unfolding unbounded_send
subscribe w tokens = if not (can_read w tokens) then (w, unauthorized) else (
  record w {
    counter = next w.counter;
    subs = Assoc.insert w.subs w.counter (send_events (open_stream []) w.all_events);
  },
  ok w.counter,
)

pub data Stopped : Type 0 where
  ok not_found : Stopped
  unauthorized : UserId → Stopped

-- Handler<StopFlow>
unfoldable pub stop_flow :
    FlowRunWorker → UserId → FlowRunId → ℕ → Option Str → FlowRunWorker × Stopped
unfolding stop
stop_flow w user_id run_id timeout_millies reason =
    if not (nat_beq w.user_id user_id)
    then (if contains w.shared_with user_id
        then (
          record w { stop_shared_signal = stop w.stop_shared_signal timeout_millies reason },
          Stopped.ok,
        )
        else (w, Stopped.unauthorized user_id))
    else if not (nat_beq w.run_id run_id)
    then (w, Stopped.not_found)
    else (record w { stop_signal = stop w.stop_signal timeout_millies reason }, Stopped.ok)

-- The subscriptions that are kept, and those that are dropped.
pub record Retained : Type 0 where
  pub kept : Assoc SubscriptionId Stream
  pub dropped : List (SubscriptionId × Stream)

abbrev pub retain_sub : Event → SubscriptionId → Stream → Retained → Retained
retain_sub item id sub rest =
    let sent = unbounded_send sub item in
    if accepts sub && not (is_finish item)
    then record rest { kept = (id, sent) ∷ rest.kept }
    else record rest {
      dropped = (id, if is_finish item then close_channel sent else sent) ∷ rest.dropped;
    }

unfoldable pub retain : Event → Assoc SubscriptionId Stream → Retained
unfolding unbounded_send
retain item [] = record { kept = []; dropped = [] }
retain item ((id, sub) ∷ subs) = retain_sub item id sub (retain item subs)

-- StreamHandler<Event>
unfoldable pub handle_event : FlowRunWorker → Event → FlowRunWorker
unfolding unbounded_send retain
handle_event w item =
    let tx = unbounded_send w.tx item in
    let r = retain item w.subs in
    record w {
      tx = if is_finish item then close_channel tx else tx;
      subs = r.kept;
      ended = w.ended ++ r.dropped;
      all_events = w.all_events ++ item ∷ [];
    }

-- StreamHandler::finished
unfoldable pub finished : FlowRunWorker → FlowRunWorker
finished w = record w { tx = close_channel w.tx }

-- Actor::stopped
unfoldable pub stopped : FlowRunWorker → FlowRunWorker
unfolding stop
stopped w = record w { stop_signal = stop w.stop_signal 0 (some (str "stopping FlowRunWorker")) }

abbrev drop_stream : SubscriptionId → SubscriptionId → Stream → Stream
drop_stream id key s = if nat_beq key id then record s { connected = false } else s

-- A subscriber goes away.
unfoldable pub disconnect :
    SubscriptionId → Assoc SubscriptionId Stream → Assoc SubscriptionId Stream
disconnect id [] = []
disconnect id ((key, s) ∷ subs) = (key, drop_stream id key s) ∷ disconnect id subs
