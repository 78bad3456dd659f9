-- ===== src/Server/RunWorker/History.antt =====
-- Who subscribes to a run gets all of its events, those before the subscription included.
use flow_backend.Prelude.{
  ℕ, true, false, ◌≡◌, refl, ◌∙◌, sym, ap, Option, List, [], ◌∷◌, ◌++◌, append-nil, append_assoc,
  All, All-append, All-map, nat_beq, Bool-cases, inl, inr, Str, contains, nat_eq, map, false≢true,
}
use flow_backend.Prelude.Assoc
use flow_backend.Prelude.Assoc.{Assoc}
use flow_backend.Flow.Stop.{StopSignal}
use flow_backend.Server.Events.{Event, is_finish}
use flow_backend.Server.RunWorker.{
  UserId, FlowRunId, SubscriptionId, TokenType, Stream, open_stream, accepts, unbounded_send,
  FlowRunWorker, new, can_read, send_events, subscribe, stop_flow, Retained, retain_sub, retain,
  handle_event, finished, disconnect,
}

-- The life of a run worker; `counted` is the counter that all workers share.
pub data Step : FlowRunWorker → FlowRunWorker → Type 0 where
  subscribed : (w : FlowRunWorker) (tokens : List TokenType) → Step w (subscribe w tokens).0
  stopping :
      (w : FlowRunWorker) (user_id : UserId) (run_id : FlowRunId) (timeout_millies : ℕ)
      (reason : Option Str)
      → Step w (stop_flow w user_id run_id timeout_millies reason).0
  event : (w : FlowRunWorker) (item : Event) → Step w (handle_event w item)
  disconnected :
      (w : FlowRunWorker) (id : SubscriptionId) → Step w (record w { subs = disconnect id w.subs })
  counted : (w : FlowRunWorker) (counter : ℕ) → Step w (record w { counter = counter })
  ends : (w : FlowRunWorker) → Step w (finished w)

pub data Reach (w : FlowRunWorker) : FlowRunWorker → Type 0 where
  here : Reach w w
  next : {u v : FlowRunWorker} → Reach w u → Step u v → Reach w v

abbrev pub Begins : List Event → List Event → Type 0
Begins sent events = (later : List Event) × (sent ++ later ≡ events)

abbrev pub IsCurrent : List Event → SubscriptionId × Stream → Type 0
IsCurrent events (id, s) = (s.sent ≡ events) × (s.closed ≡ false)

abbrev pub IsPast : List Event → SubscriptionId × Stream → Type 0
IsPast events (id, s) = Begins s.sent events

-- Every subscription that is kept was sent all events, in order; every one that was dropped was sent
-- the first of them.
pub record IsComplete (w : FlowRunWorker) : Type 0 where
  pub current : All (IsCurrent w.all_events) w.subs
  pub past : All (IsPast w.all_events) w.ended

send_events-open :
    (sent es : List Event) → send_events (open_stream sent) es ≡ open_stream (sent ++ es)
unfolding unbounded_send
send_events-open sent [] = ap open_stream (sym (append-nil sent))
send_events-open sent (e ∷ es) =
    send_events-open (sent ++ e ∷ []) es ∙ ap open_stream (append_assoc sent (e ∷ []) es)

All-insert :
    (events : List Event) (subs : Assoc SubscriptionId Stream) (id : SubscriptionId) (s : Stream)
    → All (IsCurrent events) subs
    → IsCurrent events (id, s)
    → All (IsCurrent events) (Assoc.insert subs id s)
unfolding Assoc.insert
All-insert events [] id s h c = (c, tt)
All-insert events ((j, t) ∷ subs) id s h c = elim (Bool-cases (nat_beq j id)) [
  | inl e ↦ rw e (c, h.1)
  | inr e ↦ rw e (h.0, All-insert events subs id s h.1 c)
]

All-disconnect :
    (events : List Event) (id : SubscriptionId) (subs : Assoc SubscriptionId Stream)
    → All (IsCurrent events) subs
    → All (IsCurrent events) (disconnect id subs)
unfolding disconnect
All-disconnect events id [] h = h
All-disconnect events id ((j, t) ∷ subs) h = elim (Bool-cases (nat_beq j id)) [
  | inl e ↦ rw e (h.0, All-disconnect events id subs h.1)
  | inr e ↦ rw e (h.0, All-disconnect events id subs h.1)
]

abbrev Sorted : List Event → Retained → Type 0
Sorted events r = All (IsCurrent events) r.kept × All (IsPast events) r.dropped

retain_sub-Sorted :
    (events : List Event) (item : Event) (id : SubscriptionId) (s : Stream) (rest : Retained)
    → IsCurrent events (id, s)
    → Sorted (events ++ item ∷ []) rest
    → Sorted (events ++ item ∷ []) (retain_sub item id s rest)
unfolding unbounded_send
retain_sub-Sorted events item id s rest c h = elim (Bool-cases (accepts s)) [
  | inl heard ↦ elim (Bool-cases (is_finish item)) [
    | inl fin ↦ rw heard (rw fin (h.0, (([], append-nil _ ∙ ap (λ l. l ++ item ∷ []) c.0), h.1)))
    | inr more ↦ rw heard (rw more (((ap (λ l. l ++ item ∷ []) c.0, c.1), h.0), h.1))
  ]
  | inr gone ↦ elim (Bool-cases (is_finish item)) [
    | inl fin ↦ rw gone (rw fin (h.0, ((item ∷ [], ap (λ l. l ++ item ∷ []) c.0), h.1)))
    | inr more ↦ rw gone (rw more (h.0, ((item ∷ [], ap (λ l. l ++ item ∷ []) c.0), h.1)))
  ]
]

retain-Sorted :
    (events : List Event) (item : Event) (subs : Assoc SubscriptionId Stream)
    → All (IsCurrent events) subs
    → Sorted (events ++ item ∷ []) (retain item subs)
unfolding retain
retain-Sorted events item [] h = (tt, tt)
retain-Sorted events item ((id, s) ∷ subs) h =
    retain_sub-Sorted events item id s (retain item subs) h.0 (retain-Sorted events item subs h.1)

IsPast-append :
    (events : List Event) (item : Event) (p : SubscriptionId × Stream)
    → IsPast events p
    → IsPast (events ++ item ∷ []) p
IsPast-append events item (id, s) (later, e) =
    (later ++ item ∷ [], sym (append_assoc s.sent later (item ∷ [])) ∙ ap (λ l. l ++ item ∷ []) e)

subscribe-IsComplete :
    (w : FlowRunWorker) (tokens : List TokenType) → IsComplete w → IsComplete (subscribe w tokens).0
unfolding subscribe
subscribe-IsComplete w tokens h = elim (Bool-cases (can_read w tokens)) [
  | inl heard ↦ rw heard (record {
    current =
        All-insert w.all_events w.subs w.counter (send_events (open_stream []) w.all_events)
          h.current (rw (send_events-open [] w.all_events) (refl, refl));
    past = h.past;
  })
  | inr gone ↦ rw gone h
]

handle_event-IsComplete :
    (w : FlowRunWorker) (item : Event) → IsComplete w → IsComplete (handle_event w item)
unfolding handle_event
handle_event-IsComplete w item h =
    let (kept, dropped) = retain-Sorted w.all_events item w.subs h.current in
    record {
      current = kept;
      past =
          All-append (IsPast (w.all_events ++ item ∷ [])) w.ended
            (All-map (IsPast w.all_events) _ (IsPast-append w.all_events item) w.ended h.past)
            (retain item w.subs).dropped dropped;
    }

stop_flow-IsComplete :
    (w : FlowRunWorker) (user_id : UserId) (run_id : FlowRunId) (timeout_millies : ℕ)
    (reason : Option Str)
    → IsComplete w
    → IsComplete (stop_flow w user_id run_id timeout_millies reason).0
unfolding stop_flow
stop_flow-IsComplete w user_id run_id timeout_millies reason h =
    elim (Bool-cases (nat_beq w.user_id user_id)) [
      | inl owner ↦ rw owner (elim (Bool-cases (nat_beq w.run_id run_id)) [
        | inl same ↦ rw same (record { current = h.current; past = h.past })
        | inr other ↦ rw other h
      ])
      | inr guest ↦ rw guest (elim (Bool-cases (contains w.shared_with user_id)) [
        | inl shared ↦ rw shared (record { current = h.current; past = h.past })
        | inr refused ↦ rw refused h
      ])
    ]

Step-IsComplete : {u v : FlowRunWorker} → Step u v → IsComplete u → IsComplete v
unfolding finished
Step-IsComplete (subscribed w tokens) h = subscribe-IsComplete w tokens h
Step-IsComplete (stopping w user_id run_id timeout_millies reason) h =
    stop_flow-IsComplete w user_id run_id timeout_millies reason h
Step-IsComplete (event w item) h = handle_event-IsComplete w item h
Step-IsComplete (disconnected w id) h = record {
  current = All-disconnect w.all_events id w.subs h.current;
  past = h.past;
}
Step-IsComplete (counted w counter) h = record { current = h.current; past = h.past }
Step-IsComplete (ends w) h = record { current = h.current; past = h.past }

module _ (run_id : FlowRunId) (user_id : UserId) (shared_with : List UserId) (counter : ℕ)
    (stop_signal stop_shared_signal : StopSignal) where
  abbrev begun : FlowRunWorker
  begun = new run_id user_id shared_with counter stop_signal stop_shared_signal

  Reach-IsComplete : {w : FlowRunWorker} → Reach begun w → IsComplete w
  unfolding new
  Reach-IsComplete here = record { current = tt; past = tt }
  Reach-IsComplete (next r st) = Step-IsComplete st (Reach-IsComplete r)

  -- After any events, subscriptions, stops and receivers that go away, every subscription that a run
  -- worker keeps was sent all events of the run, in order, and is open; every one that it dropped was
  -- sent the first of them.
  pub run_worker-IsComplete : (w : FlowRunWorker) → Reach begun w → IsComplete w
  run_worker-IsComplete w r = Reach-IsComplete r

-- A stream that has ended was sent all events, if its receiver was there, and is closed.
abbrev pub IsDelivered : List Event → SubscriptionId × Stream → Type 0
IsDelivered events (id, s) = (s.connected ≡ true → s.sent ≡ events) × (s.closed ≡ true)

abbrev pub ids : List (SubscriptionId × Stream) → List SubscriptionId
ids subs = map (λ p. p.0) subs

accepts-connected : (s : Stream) → s.closed ≡ false → s.connected ≡ true → accepts s ≡ true
accepts-connected s unclosed there = rw unclosed (rw there refl)

retain-finish :
    (events : List Event) (item : Event)
    → is_finish item ≡ true
    → (subs : Assoc SubscriptionId Stream) → All (IsCurrent events) subs
    → ((retain item subs).kept ≡ [])
      × (ids (retain item subs).dropped ≡ ids subs)
      × All (IsDelivered (events ++ item ∷ [])) (retain item subs).dropped
unfolding retain
retain-finish events item fin [] h = (refl, refl, tt)
retain-finish events item fin ((id, s) ∷ subs) h =
    let (none_kept, same, rest) = retain-finish events item fin subs h.1 in
    let more = ap (λ l. l ++ item ∷ []) h.0.0 in
    elim (Bool-cases (accepts s)) [
      | inl heard ↦ rw heard (rw fin (none_kept, ap (◌∷◌ id) same, ((λ there. more, refl), rest)))
      | inr gone ↦
          let missing : s.connected ≡ true → s.sent ≡ events ++ item ∷ [] =
            λ there. absurd (false≢true (sym gone ∙ accepts-connected s h.0.1 there)) in
          rw gone (rw fin (none_kept, ap (◌∷◌ id) same, ((missing, refl), rest)))
    ]

module _ (run_id : FlowRunId) (user_id : UserId) (shared_with : List UserId) (counter : ℕ)
    (stop_signal stop_shared_signal : StopSignal) where
  -- When the finish of a run arrives, after any steps of its worker, each stream that the worker kept
  -- ends: it is closed, and if its receiver is there it was sent all events of the run, the finish
  -- included; no stream is kept, and the channel to the database is closed.
  pub handle_event-finish :
      (w : FlowRunWorker) (item : Event)
      → Reach (begun run_id user_id shared_with counter stop_signal stop_shared_signal) w
      → is_finish item ≡ true
      → ((handle_event w item).subs ≡ [])
        × ((handle_event w item).tx.closed ≡ true)
        × ((streams : List (SubscriptionId × Stream)) × ((handle_event w item).ended
              ≡ w.ended ++ streams)
            × (ids streams ≡ ids w.subs)
            × All (IsDelivered (handle_event w item).all_events) streams)
  unfolding handle_event
  handle_event-finish w item r fin =
      let h =
        Reach-IsComplete run_id user_id shared_with counter stop_signal stop_shared_signal r in
      let (none_kept, same, rest) = retain-finish w.all_events item fin w.subs h.current in
      (none_kept, rw fin refl, ((retain item w.subs).dropped, refl, same, rest))
