-- ===== src/Server/Token/Answers.antt =====
-- Everyone who asks a token worker is answered.
use flow_backend.Prelude.{
  ℕ, zero, suc, ◌+◌, ◌≤◌, ◌≡◌, refl, ◌∙◌, sym, ap, Option, none, some, some_inj, Bool-cases, inl,
  inr, List, [], ◌∷◌, ◌++◌, append-nil, append_assoc, map, nat_beq, ltb_false→le, subst, Str,
}
use flow_backend.Server.Token.{
  UserId, Channel, Jwt, Fetched, Response, access_token, TokenState, empty, available, fetching,
  LocalDb, Task, TokenWorker, Reply, ready, five_minutes, expires_soon, new, restore, started,
  send_all, settle, process_result, spawn, handle_state, handle,
}
use flow_backend.Server.Token.Steps.{ended, Step, request, fetched, Reach, here, next}

abbrev pub waiting : TokenState → List Channel
waiting empty = []
waiting (available jwt) = []
waiting (fetching vec) = vec

-- The channels that were given out, in order.
abbrev pub upto : ℕ → List Channel
upto zero = []
upto (suc n) = upto n ++ n ∷ []

abbrev pub HasTasks : TokenState → List Task → Type 0
HasTasks empty tasks = tasks ≡ []
HasTasks (available jwt) tasks = tasks ≡ []
HasTasks (fetching vec) tasks = (task : Task) × (tasks ≡ task ∷ [])

abbrev pub answered : List (Channel × Response) → List Channel
answered responses = map (λ p. p.0) responses

-- Each channel that was given out has one answer or waits for it, in the order of the requests; one
-- task runs while some wait, and none otherwise.
pub record IsSound {Store : Type 0} (w : TokenWorker Store) : Type 0 where
  pub counted : answered w.responses ++ waiting w.state ≡ upto w.next_channel
  pub busy : HasTasks w.state w.tasks

answered-append :
    (xs ys : List (Channel × Response)) → answered (xs ++ ys) ≡ answered xs ++ answered ys
answered-append [] ys = refl
answered-append (x ∷ xs) ys = ap (◌∷◌ x.0) (answered-append xs ys)

answered-send_all :
    (vec : List Channel) (r : Response) (sent : List (Channel × Response))
    → answered (send_all vec r sent) ≡ answered sent ++ vec
answered-send_all [] r sent = sym (append-nil (answered sent))
answered-send_all (tx ∷ vec) r sent =
    answered-send_all vec r (sent ++ (tx, r) ∷ [])
    ∙ ap (λ l. l ++ vec) (answered-append sent ((tx, r) ∷ []))
    ∙ append_assoc (answered sent) (tx ∷ []) vec

-- The list around its only element is empty.
only :
    (before : List Task) (task : Task) (after : List Task) (t : Task)
    → before ++ task ∷ after ≡ t ∷ []
    → before ++ after ≡ []
only [] task [] t e = refl
only [] task (u ∷ after) t e = absurd (cc e)
only (b ∷ []) task after t e = absurd (cc e)
only (b ∷ c ∷ before) task after t e = absurd (cc e)

nowhere : (before : List Task) (task : Task) (after : List Task) → ¬ (before ++ task ∷ after ≡ [])
nowhere [] task after e = cc e
nowhere (b ∷ before) task after e = cc e

module _ {Store : Type 0} (db : LocalDb Store) where
  spawn-IsSound :
      (w : TokenWorker Store) (task : Task)
      → waiting w.state ≡ []
      → w.tasks ≡ []
      → IsSound w
      → IsSound (spawn w task).0
  unfolding spawn
  spawn-IsSound w task none_waits idle c = record {
    counted =
        ap (λ l. l ++ w.next_channel ∷ [])
          (sym (append-nil (answered w.responses))
            ∙ ap (◌++◌ (answered w.responses)) (sym none_waits)
            ∙ c.counted);
    busy = (task, ap (λ l. l ++ task ∷ []) idle);
  }

  handle_state-IsSound :
      (now : ℕ) (w : TokenWorker Store) (state : TokenState)
      → w.state ≡ state
      → IsSound w
      → IsSound (handle_state db now w state).0
  unfolding handle_state
  handle_state-IsSound now w empty e c =
      spawn-IsSound w Task.claim (ap waiting e) (rw e at c.busy) c
  handle_state-IsSound now w (available jwt) e c = elim (Bool-cases (expires_soon now jwt)) [
    | inl soon ↦
        rw soon (spawn-IsSound w (Task.refresh jwt.refresh_token) (ap waiting e) (rw e at c.busy) c)
    | inr later ↦ rw later c
  ]
  handle_state-IsSound now w (fetching vec) e c = record {
    counted =
        sym (append_assoc (answered w.responses) vec (w.next_channel ∷ []))
        ∙ ap (λ l. l ++ w.next_channel ∷ []) (rw e at c.counted);
    busy = rw e at c.busy;
  }

  handle-IsSound :
      (now : ℕ) (w : TokenWorker Store) (user_id : UserId)
      → IsSound w
      → IsSound (handle db now w user_id).0
  unfolding handle
  handle-IsSound now w user_id c = elim (Bool-cases (nat_beq w.user_id user_id)) [
    | inl e ↦ rw e (handle_state-IsSound now w w.state refl c)
    | inr e ↦ rw e c
  ]

  settle-IsSound :
      (w : TokenWorker Store) (vec : List Channel) (res : Fetched)
      → answered w.responses ++ vec ≡ upto w.next_channel
      → w.tasks ≡ []
      → IsSound (settle db w vec res)
        × (answered (settle db w vec res).responses ≡ upto (settle db w vec res).next_channel)
        × ((settle db w vec res).tasks ≡ [])
  unfolding settle
  settle-IsSound w vec (Fetched.ok jwt) counted idle =
      let all = answered-send_all vec (access_token jwt.access_token) w.responses ∙ counted in
      (record { counted = append-nil _ ∙ all; busy = idle }, all, idle)
  settle-IsSound w vec (Fetched.err e) counted idle =
      let all = answered-send_all vec (Response.error e) w.responses ∙ counted in
      (record { counted = append-nil _ ∙ all; busy = idle }, all, idle)

  process_result-IsSound :
      (w : TokenWorker Store) (state : TokenState) (before : List Task) (task : Task)
      (after : List Task) (res : Fetched)
      → w.state ≡ state
      → w.tasks ≡ before ++ task ∷ after
      → IsSound w
      → (v : TokenWorker Store) × (process_result db (ended w (before ++ after)) res ≡ some v)
        × IsSound v
        × (answered v.responses ≡ upto v.next_channel)
        × (v.tasks ≡ [])
  unfolding process_result
  process_result-IsSound w empty before task after res e there c =
      absurd (nowhere before task after (sym there ∙ rw e at c.busy))
  process_result-IsSound w (available jwt) before task after res e there c =
      absurd (nowhere before task after (sym there ∙ rw e at c.busy))
  process_result-IsSound w (fetching vec) before task after res e there c =
      let (t, one) : HasTasks (fetching vec) w.tasks = rw e at c.busy in
      let idle = only before task after t (sym there ∙ one) in
      let (sound, all, none_left) =
        settle-IsSound (ended w (before ++ after)) vec res (rw e at c.counted) idle in
      (settle db (ended w (before ++ after)) vec res, rw e, sound, all, none_left)

  restore-IsSound :
      (user_id : UserId) (store : Store) (found : Option (Option Jwt))
      → IsSound (restore db (new user_id store) found)
  unfolding restore new
  restore-IsSound user_id store none = record { counted = refl; busy = refl }
  restore-IsSound user_id store (some none) = record { counted = refl; busy = refl }
  restore-IsSound user_id store (some (some jwt)) = record { counted = refl; busy = refl }

  Step-IsSound : {w v : TokenWorker Store} → Step db w v → IsSound w → IsSound v
  Step-IsSound (request now w user_id) c = handle-IsSound now w user_id c
  Step-IsSound (fetched w before task after res v there done) c =
      let (u, same, sound, all, idle) =
        process_result-IsSound w w.state before task after res refl there c in
      subst IsSound (some_inj (sym same ∙ done)) sound

  Reach-IsSound :
      (user_id : UserId) (store : Store) {w : TokenWorker Store}
      → Reach db user_id store w
      → IsSound w
  unfolding started new
  Reach-IsSound user_id store here = restore-IsSound user_id store (db.get_jwt store user_id)
  Reach-IsSound user_id store (next r st) = Step-IsSound st (Reach-IsSound user_id store r)

  -- After any requests and results, each channel that was given out has one answer or waits for it,
  -- in the order of the requests; one task runs while some wait, and none otherwise.
  pub worker-IsSound :
      (user_id : UserId) (store : Store) (w : TokenWorker Store)
      → Reach db user_id store w
      → IsSound w
  worker-IsSound user_id store w r = Reach-IsSound user_id store r

  -- After any requests and results, when a task ends, whatever its result, `process_result` returns
  -- and does not reach `unreachable!`, and then everyone who asked has been answered, once and in the
  -- order of the requests, and no task is left.
  pub process_result_total :
      (user_id : UserId) (store : Store) (w : TokenWorker Store) (before : List Task) (task : Task)
      (after : List Task) (res : Fetched)
      → Reach db user_id store w
      → w.tasks ≡ before ++ task ∷ after
      → (v : TokenWorker Store) × (process_result db (ended w (before ++ after)) res ≡ some v)
        × (answered v.responses ≡ upto v.next_channel)
        × (v.tasks ≡ [])
  process_result_total user_id store w before task after res r there =
      let (v, same, sound, all, idle) =
        process_result-IsSound w w.state before task after res refl there
          (Reach-IsSound user_id store r) in
      (v, same, all, idle)

abbrev token_of : Reply → Str
token_of (ready (access_token t)) = t
token_of _ = []

ready_state :
    {Store : Type 0} (db : LocalDb Store) (now : ℕ) (w : TokenWorker Store) (state : TokenState)
    (token : Str)
    → (handle_state db now w state).1 ≡ ready (access_token token)
    → (jwt : Jwt) × (state ≡ available jwt)
      × (jwt.access_token ≡ token)
      × (now + five_minutes ≤ jwt.expires_at)
unfolding handle_state spawn
ready_state db now w empty token h = absurd (cc h)
ready_state db now w (fetching vec) token h = absurd (cc h)
ready_state db now w (available jwt) token h = elim (Bool-cases (expires_soon now jwt)) [
  | inl e ↦ absurd (cc (rw e at h))
  | inr e ↦ (jwt, refl, ap token_of (rw e at h), ltb_false→le jwt.expires_at (now + five_minutes) e)
]

-- A token that the worker gives out at once is the one it keeps, and is good for five minutes more.
pub ready_lem :
    {Store : Type 0} (db : LocalDb Store) (now : ℕ) (w : TokenWorker Store) (user_id : UserId)
    (token : Str)
    → (handle db now w user_id).1 ≡ ready (access_token token)
    → (jwt : Jwt) × (w.state ≡ available jwt)
      × (jwt.access_token ≡ token)
      × (now + five_minutes ≤ jwt.expires_at)
unfolding handle
ready_lem db now w user_id token h = elim (Bool-cases (nat_beq w.user_id user_id)) [
  | inl e ↦ ready_state db now w w.state token (rw e at h)
  | inr e ↦ absurd (cc (rw e at h))
]
