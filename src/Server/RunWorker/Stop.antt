-- ===== src/Server/RunWorker/Stop.antt =====
-- Who may stop a run: its owner all of it, those with whom it is shared their part.
use flow_backend.Prelude.{
  ℕ, ◌≤◌, true, false, ◌≡◌, refl, Option, contains, nat_beq, nat_beq_iff, nat_eq, Bool-cases, inl,
  inr, Str, arith, ◌⊎◌, ap, subst, sym, ◌∙◌, false≢true,
}
use flow_backend.Flow.Stop.{StopSignal, stop, max_stop_timeout}
use flow_backend.Server.RunWorker.History.{
  Step, subscribed, stopping, event, disconnected, counted, ends, Reach, here, next,
}
use flow_backend.Server.RunWorker.{
  UserId, FlowRunId, FlowRunWorker, Stopped, stop_flow, ok, not_found, unauthorized, subscribe,
  handle_event, finished, can_read, disconnect,
}

-- What stopping may change, and who may: the signal of the run if the owner names the run, the shared
-- signal if the run is shared with the user, whatever the run that is named, and nothing else.
abbrev pub IsAuthorized :
    FlowRunWorker → UserId → FlowRunId → ℕ → Option Str → FlowRunWorker → Stopped → Type 0
IsAuthorized w user_id run_id timeout_millies reason v ok =
    ((w.user_id ≡ user_id)
      × (w.run_id ≡ run_id)
      × (v ≡ record w { stop_signal = stop w.stop_signal timeout_millies reason }))
    ⊎ ((w.user_id ≡ user_id → ⊥)
        × (contains w.shared_with user_id ≡ true)
        × (v ≡ record w { stop_shared_signal = stop w.stop_shared_signal timeout_millies reason }))
IsAuthorized w user_id run_id timeout_millies reason v not_found =
    (w.user_id ≡ user_id) × (w.run_id ≡ run_id → ⊥) × (v ≡ w)
IsAuthorized w user_id run_id timeout_millies reason v (unauthorized id) =
    (id ≡ user_id) × (w.user_id ≡ user_id → ⊥) × (contains w.shared_with user_id ≡ false) × (v ≡ w)

differs : (a b : ℕ) → nat_beq a b ≡ false → a ≡ b → ⊥
differs a b apart e = false≢true (sym apart ∙ (nat_beq_iff a b).1 e)

-- A stop by the owner is of the run that it names, or is not found; a stop by one with whom the run
-- is shared reaches the shared signal only; every other stop is unauthorized, and an error changes
-- nothing.
pub stop_flow-IsAuthorized :
    (w : FlowRunWorker) (user_id : UserId) (run_id : FlowRunId) (timeout_millies : ℕ)
    (reason : Option Str)
    → let r = stop_flow w user_id run_id timeout_millies reason in
      IsAuthorized w user_id run_id timeout_millies reason r.0 r.1
unfolding stop_flow
stop_flow-IsAuthorized w user_id run_id timeout_millies reason =
    elim (Bool-cases (nat_beq w.user_id user_id)) [
      | inl owner ↦ rw owner (elim (Bool-cases (nat_beq w.run_id run_id)) [
        | inl same ↦ rw same (
            inl
              ((nat_beq_iff w.user_id user_id).0 owner, (nat_beq_iff w.run_id run_id).0 same, refl))
        | inr other ↦
            rw other ((nat_beq_iff w.user_id user_id).0 owner, differs w.run_id run_id other, refl)
      ])
      | inr guest ↦ rw guest (elim (Bool-cases (contains w.shared_with user_id)) [
        | inl shared ↦ rw shared (inr (differs w.user_id user_id guest, shared, refl))
        | inr refused ↦ rw refused (refl, differs w.user_id user_id guest, refused, refl)
      ])
    ]

-- A signal that was given stays as it is.
abbrev Keeps : StopSignal → StopSignal → Type 0
Keeps s t = s.cancelled ≡ true → t ≡ s

stop-Keeps :
    (s : StopSignal) (timeout_millies : ℕ) (reason : Option Str)
    → Keeps s (stop s timeout_millies reason)
unfolding stop
stop-Keeps s timeout_millies reason given = rw given refl

-- A signal that was given is never more than the longest timeout away.
abbrev pub InTime : StopSignal → Type 0
InTime s = s.timeout_millies ≤ max_stop_timeout

stop-InTime :
    (s : StopSignal) (timeout_millies : ℕ) (reason : Option Str)
    → InTime s
    → InTime (stop s timeout_millies reason)
unfolding stop
stop-InTime s timeout_millies reason h = ground arith

abbrev Safe : FlowRunWorker → FlowRunWorker → Type 0
Safe w v =
    Keeps w.stop_signal v.stop_signal
    × (InTime w.stop_signal → InTime v.stop_signal)
    × Keeps w.stop_shared_signal v.stop_shared_signal
    × (InTime w.stop_shared_signal → InTime v.stop_shared_signal)

stays :
    (w v : FlowRunWorker)
    → v.stop_signal ≡ w.stop_signal
    → v.stop_shared_signal ≡ w.stop_shared_signal
    → Safe w v
stays w v e f = (λ g. e, λ h. subst InTime (sym e) h, λ g. f, λ h. subst InTime (sym f) h)

stop_flow-Safe :
    (w : FlowRunWorker) (user_id : UserId) (run_id : FlowRunId) (timeout_millies : ℕ)
    (reason : Option Str)
    → Safe w (stop_flow w user_id run_id timeout_millies reason).0
unfolding stop_flow
stop_flow-Safe w user_id run_id timeout_millies reason =
    elim (Bool-cases (nat_beq w.user_id user_id)) [
      | inl owner ↦ rw owner (elim (Bool-cases (nat_beq w.run_id run_id)) [
        | inl same ↦ rw same (
          stop-Keeps w.stop_signal timeout_millies reason,
          stop-InTime w.stop_signal timeout_millies reason,
          λ g. refl,
          λ h. h,
        )
        | inr other ↦ rw other (stays w w refl refl)
      ])
      | inr guest ↦ rw guest (elim (Bool-cases (contains w.shared_with user_id)) [
        | inl shared ↦ rw shared (
          λ g. refl,
          λ h. h,
          stop-Keeps w.stop_shared_signal timeout_millies reason,
          stop-InTime w.stop_shared_signal timeout_millies reason,
        )
        | inr refused ↦ rw refused (stays w w refl refl)
      ])
    ]

Step-Safe : {u v : FlowRunWorker} → Step u v → Safe u v
unfolding subscribe handle_event finished
Step-Safe (subscribed w tokens) = elim (Bool-cases (can_read w tokens)) [
  | inl heard ↦ rw heard (λ g. refl, λ h. h, λ g. refl, λ h. h)
  | inr refused ↦ rw refused (λ g. refl, λ h. h, λ g. refl, λ h. h)
]
Step-Safe (stopping w user_id run_id timeout_millies reason) =
    stop_flow-Safe w user_id run_id timeout_millies reason
Step-Safe (event w item) = stays w (handle_event w item) refl refl
Step-Safe (disconnected w id) = stays w (record w { subs = disconnect id w.subs }) refl refl
Step-Safe (counted w counter) = stays w (record w { counter = counter }) refl refl
Step-Safe (ends w) = stays w (finished w) refl refl

Keeps-trans : (s t u : StopSignal) → Keeps s t → Keeps t u → Keeps s u
Keeps-trans s t u a b given = b (ap (λ x. x.cancelled) (a given) ∙ given) ∙ a given

-- However long a run worker goes on, a stop that was given, to the run or to its shared part, is not
-- changed by a later one, and no timeout is over the longest that is allowed.
pub Reach-Safe :
    (w v : FlowRunWorker)
    → Reach w v
    → (w.stop_signal.cancelled ≡ true → v.stop_signal ≡ w.stop_signal)
      × (InTime w.stop_signal → InTime v.stop_signal)
      × (w.stop_shared_signal.cancelled ≡ true → v.stop_shared_signal ≡ w.stop_shared_signal)
      × (InTime w.stop_shared_signal → InTime v.stop_shared_signal)
Reach-Safe w v here = stays w w refl refl
Reach-Safe w v (next {u = u} r st) =
    let (a, b, c, d) = Reach-Safe w u r in
    let (e, f, g, h) = Step-Safe st in
    (
      Keeps-trans w.stop_signal u.stop_signal v.stop_signal a e,
      λ i. f (b i),
      Keeps-trans w.stop_shared_signal u.stop_shared_signal v.stop_shared_signal c g,
      λ i. h (d i),
    )
