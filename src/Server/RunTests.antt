-- ===== src/Server/RunTests.antt =====
-- A run with two subscribers and a few logs, and the theorems at it.
use flow_backend.Prelude.{
  ℕ, ◌≡◌, ◌≢◌, refl, ◌++◌, true, false, Option, none, List, [], ◌∷◌, Str, str, All, nat_eq,
}
use flow_backend.Prelude.Assoc
use flow_backend.Value.{Value, Values}
use flow_backend.Flow.Stop.{StopSignal, stop}
use flow_backend.Server.Events.{Event, flow_start, flow_log, flow_finish, info}
use flow_backend.Server.RunWorker
use flow_backend.Server.RunWorker.{
  FlowRunWorker, TokenType, jwt, flow_run, Stream, SubscriptionId, subscribe, stop_flow,
  handle_event,
}
use flow_backend.Server.RunWorker.History
use flow_backend.Server.RunWorker.History.{
  IsComplete, IsDelivered, ids, run_worker-IsComplete, handle_event-finish,
}
use flow_backend.Server.RunWorker.Stop.{IsAuthorized, InTime, stop_flow-IsAuthorized, Reach-Safe}
use flow_backend.Server.Strip.{Fits, strip, strip-Fits}
use flow_backend.Server.RunLog.{Chunk, save_to_db}
use flow_backend.Server.RunLog.Numbering.{calls_of, kept, flatten, numbered, save_to_db-numbered}

abbrev quiet : StopSignal
quiet = record { cancelled = false; timeout_millies = 0; reason = none }

abbrev no_reason : Option Str
no_reason = none

abbrev begun : FlowRunWorker
begun = RunWorker.new 3 7 (8 ∷ []) 10 quiet quiet

abbrev heard : FlowRunWorker
heard = (subscribe begun (jwt 7 ∷ [])).0

abbrev running : FlowRunWorker
running = handle_event heard (flow_start 100)

abbrev stopped_shared : FlowRunWorker
stopped_shared = (stop_flow running 8 3 1000 no_reason).0

abbrev late : FlowRunWorker
late = (subscribe stopped_shared (flow_run 3 ∷ [])).0

begun_late : History.Reach begun late
begun_late =
    History.Reach.next
      (History.Reach.next
        (History.Reach.next
          (History.Reach.next History.Reach.here (History.Step.subscribed begun (jwt 7 ∷ [])))
          (History.Step.event heard (flow_start 100)))
        (History.Step.stopping running 8 3 1000 no_reason))
      (History.Step.subscribed stopped_shared (flow_run 3 ∷ []))

run_worker-IsComplete_example : IsComplete late
run_worker-IsComplete_example = run_worker-IsComplete 3 7 (8 ∷ []) 10 quiet quiet late begun_late

abbrev finish : Event
finish = flow_finish 200 [] (Value.u64 5)

handle_event-finish_example :
    ((handle_event late finish).subs ≡ [])
    × ((handle_event late finish).tx.closed ≡ true)
    × ((streams : List (SubscriptionId × Stream)) × ((handle_event late finish).ended
          ≡ late.ended ++ streams)
        × (ids streams ≡ ids late.subs)
        × All (IsDelivered (handle_event late finish).all_events) streams)
handle_event-finish_example =
    handle_event-finish 3 7 (8 ∷ []) 10 quiet quiet late finish begun_late refl

two_subscribers : ids late.subs ≡ 10 ∷ 11 ∷ []
unfolding subscribe handle_event stop_flow RunWorker.new RunWorker.retain RunWorker.unbounded_send
    Assoc.insert stop
two_subscribers = refl

stop_flow-IsAuthorized_example :
    let r = stop_flow running 8 4 1000 no_reason in IsAuthorized running 8 4 1000 no_reason r.0 r.1
stop_flow-IsAuthorized_example = stop_flow-IsAuthorized running 8 4 1000 no_reason

Reach-Safe_example :
    (begun.stop_signal.cancelled ≡ true → late.stop_signal ≡ begun.stop_signal)
    × (InTime begun.stop_signal → InTime late.stop_signal)
    × (begun.stop_shared_signal.cancelled ≡ true
        → late.stop_shared_signal ≡ begun.stop_shared_signal)
    × (InTime begun.stop_shared_signal → InTime late.stop_shared_signal)
Reach-Safe_example = Reach-Safe begun late begun_late

abbrev nested : Value
nested =
    Value.array (Values.cons (Value.string (str "abc")) (Values.cons (Value.b32 []) Values.nil))

strip-Fits_example : Fits (strip nested) × (Fits nested → strip nested ≡ nested)
strip-Fits_example = strip-Fits nested

abbrev log : ℕ → Event
log time = flow_log (record { time = time; level = info; module_path = none; content = str "hi" })

abbrev chunks : List Chunk
chunks = (true, flow_start 1 ∷ log 2 ∷ []) ∷ (false, log 3 ∷ []) ∷ (true, log 4 ∷ finish ∷ []) ∷ []

save_to_db-numbered_example :
    let s = save_to_db 7 3 chunks in
    (s.calls ≡ calls_of 7 3 (kept chunks))
    × (flatten s.copies ≡ numbered 7 3 0 (kept chunks))
    × All (λ rows. rows ≢ []) s.copies
save_to_db-numbered_example = save_to_db-numbered 7 3 chunks
