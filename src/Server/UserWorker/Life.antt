-- ===== src/Server/UserWorker/Life.antt =====
-- The life of a user worker: requests arrive, signatures are submitted, and timers fire.
use flow_backend.Prelude.{
  ℕ, ◌+◌, ◌≡◌, refl, ◌∙◌, sym, ap, subst, Bool, Option, none, some, some_inj, List, [], ◌∷◌, ◌++◌,
  ltb, Str, nat_beq, nat_eq, contains, Bool-cases, Option-cases, inl, inr, arith, if◌then◌else◌,
  false≢true,
}
use flow_backend.Prelude.Assoc
use flow_backend.Prelude.Assoc.Keys.{no_keys}
use flow_backend.Server.RunWorker.{UserId}
use flow_backend.Server.SameLogic.{Codec}
use flow_backend.Server.UserWorker.{
  RequestId, Channel, Bytes, SignatureRequest, SigReq, UserWorker, new, subscribe, stopping,
  register_new, Waiting, process_sigreq, expire, SubmitSignature, Changed, use_message, not_allowed,
  differs, change, submit_message, submit_found, submit, tx_dropped, signed,
}
use flow_backend.Server.UserWorker.Pending.{count, pending}
use flow_backend.Server.UserWorker.Answers.{
  answered, given, IsSound, fire, register-IsSound, answer-IsSound, put_back-IsSound, fire-IsSound,
}

module _ (codec : Codec) (verify : (pubkey message signature : Bytes) → Bool) where
  pub data Step : UserWorker → UserWorker → Type 0 where
    requested :
        (w : UserWorker) (id : Option RequestId) (msg : Str) (req : SignatureRequest)
        (v : UserWorker) (waiting : Waiting)
        → process_sigreq w id msg req ≡ some (v, waiting)
        → Step w v
    submitted :
        (w : UserWorker) (msg : SubmitSignature) (saved : Bool)
        → Step w (submit codec verify w msg saved).0
    fired :
        (w : UserWorker) (before : List RequestId) (id : RequestId) (after : List RequestId)
        → w.timers ≡ before ++ id ∷ after
        → Step w (fire w (before ++ after) id)
    subscribed : (w : UserWorker) → Step w (subscribe w).0
    stops : (w : UserWorker) → Step w (stopping w).0

  pub data Reach : UserWorker → UserWorker → Type 0 where
    here : (w : UserWorker) → Reach w w
    next : {u v w : UserWorker} → Reach u v → Step v w → Reach u w

  submit_message-IsSound :
      (w : UserWorker) (msg : SubmitSignature) (saved : Bool) (r : SigReq) (changed : Changed)
      → Assoc.get w.sigreg msg.id ≡ some r
      → IsSound w
      → IsSound (submit_message codec verify w msg saved r changed).0
  submit_message-IsSound w msg saved r not_allowed there h =
      answer-IsSound w w.timers msg.id r tx_dropped there (λ j apart c. c) h
  submit_message-IsSound w msg saved r differs there h = put_back-IsSound w msg.id r there h
  submit_message-IsSound w msg saved r (use_message message new_msg) there h =
      elim (Bool-cases (verify r.req.pubkey message msg.signature)) [
        | inl good ↦ rw good (
            answer-IsSound w w.timers msg.id r (signed msg.signature new_msg) there (λ j apart c. c)
              h)
        | inr bad ↦ rw bad (put_back-IsSound w msg.id r there h)
      ]

  submit_found-IsSound :
      (w : UserWorker) (msg : SubmitSignature) (saved : Bool) (found : Option SigReq)
      → Assoc.get w.sigreg msg.id ≡ found
      → IsSound w
      → IsSound (submit_found codec verify w msg saved found).0
  submit_found-IsSound w msg saved none there h = h
  submit_found-IsSound w msg saved (some r) there h =
      submit_message-IsSound w msg saved r (change codec verify r.req msg.new_msg) there h

  submit-IsSound :
      (w : UserWorker) (msg : SubmitSignature) (saved : Bool)
      → IsSound w
      → IsSound (submit codec verify w msg saved).0
  unfolding submit
  submit-IsSound w msg saved h = elim (Bool-cases (nat_beq w.user_id msg.user_id)) [
    | inl same ↦ rw same (submit_found-IsSound w msg saved (Assoc.get w.sigreg msg.id) refl h)
    | inr other ↦ rw other h
  ]

  process_sigreq-IsSound :
      (w : UserWorker) (id : Option RequestId) (msg : Str) (req : SignatureRequest)
      (p : UserWorker × Waiting)
      → process_sigreq w id msg req ≡ some p
      → IsSound w
      → IsSound p.0
  unfolding process_sigreq register_new Assoc.contains_key
  process_sigreq-IsSound w none msg req p e h = subst (λ q. IsSound q.0) (some_inj e) h
  process_sigreq-IsSound w (some id) msg req p e h = elim (Option-cases (Assoc.get w.sigreg id)) [
    | inl absent ↦
        subst (λ q. IsSound q.0) (some_inj (rw (process_sigreq, register_new, absent) at e))
          (register-IsSound w id (record req { id = some id }) absent h)
    | inr (r, there) ↦ absurd (cc (rw (process_sigreq, register_new, there) at e))
  ]

  Step-IsSound : {v w : UserWorker} → Step v w → IsSound v → IsSound w
  unfolding expire subscribe stopping
  Step-IsSound (requested w id msg req v waiting e) h =
      process_sigreq-IsSound w id msg req (v, waiting) e h
  Step-IsSound (submitted w msg saved) h = submit-IsSound w msg saved h
  Step-IsSound (fired w before id after there) h =
      fire-IsSound w before id after (Assoc.get w.sigreg id) refl there h
  Step-IsSound (subscribed w) h = record { counted = h.counted; timed = h.timed; unique = h.unique }
  Step-IsSound (stops w) h = record { counted = h.counted; timed = h.timed; unique = h.unique }

  Reach-IsSound :
      (user_id : UserId) (counter : ℕ) (w : UserWorker) → Reach (new user_id counter) w → IsSound w
  unfolding new Assoc.get
  Reach-IsSound user_id counter w (here _) = record {
    counted = λ c. ground arith;
    timed = λ id r got. absurd (cc got);
    unique = tt;
  }
  Reach-IsSound user_id counter w (next {v = v} r st) =
      Step-IsSound st (Reach-IsSound user_id counter v r)

  -- After any requests, submissions and timers, each channel that a user worker gave out has one answer
  -- or one request that is kept, each request that is kept has a timer, and no two have one ID.
  pub user_worker-IsSound :
      (user_id : UserId) (counter : ℕ) (w : UserWorker) → Reach (new user_id counter) w → IsSound w
  user_worker-IsSound user_id counter w r = Reach-IsSound user_id counter w r

  -- The timers fire, one after the other.
  abbrev pub fire_all : UserWorker → List RequestId → UserWorker
  fire_all w [] = w
  fire_all w (id ∷ ids) = fire_all (fire w ids id) ids

  fire-timers :
      (w : UserWorker) (ids : List RequestId) (id : RequestId) → (fire w ids id).timers ≡ ids
  unfolding expire
  fire-timers w ids id = elim (Option-cases (Assoc.get w.sigreg id)) [
    | inl absent ↦ rw absent refl
    | inr (r, there) ↦ rw there refl
  ]

  fire-channels :
      (w : UserWorker) (ids : List RequestId) (id : RequestId)
      → (fire w ids id).next_channel ≡ w.next_channel
  unfolding expire
  fire-channels w ids id = elim (Option-cases (Assoc.get w.sigreg id)) [
    | inl absent ↦ rw absent refl
    | inr (r, there) ↦ rw there refl
  ]

  fire_all-IsSound :
      (w : UserWorker) (ids : List RequestId)
      → w.timers ≡ ids
      → IsSound w
      → IsSound (fire_all w ids)
        × ((fire_all w ids).timers ≡ [])
        × ((fire_all w ids).next_channel ≡ w.next_channel)
  fire_all-IsSound w [] e h = (h, e, refl)
  fire_all-IsSound w (id ∷ ids) e h =
      let (sound, none_left, same) =
        fire_all-IsSound (fire w ids id) ids (fire-timers w ids id)
          (Step-IsSound (fired w [] id ids e) h) in
      (sound, none_left, same ∙ fire-channels w ids id)

  nothing_kept : (w : UserWorker) → w.timers ≡ [] → IsSound w → w.sigreg ≡ []
  nothing_kept w idle h = no_keys w.sigreg (λ id. elim (Option-cases (Assoc.get w.sigreg id)) [
    | inl absent ↦ absent
    | inr (r, there) ↦ absurd (false≢true (ap (λ l. contains l id) (sym idle) ∙ h.timed id r there))
  ])

  -- After any requests, submissions and timers, once the timers that are left have fired, no request
  -- is kept, and each channel that was given out has exactly one answer.
  pub fire_all-answers :
      (user_id : UserId) (counter : ℕ) (w : UserWorker)
      → Reach (new user_id counter) w
      → ((fire_all w w.timers).sigreg ≡ [])
        × ((c : Channel) → count c (answered (fire_all w w.timers)) ≡ given c w)
  fire_all-answers user_id counter w r =
      let v = fire_all w w.timers in
      let (sound, idle, same) =
        fire_all-IsSound w w.timers refl (Reach-IsSound user_id counter w r) in
      let empty = nothing_kept v idle sound in
      (
        empty,
        λ c.
            let counted : count c (answered v) + count c (pending v.sigreg) ≡ given c v =
              sound.counted c in
            let none_left : count c (pending v.sigreg) ≡ 0 = ap (λ l. count c (pending l)) empty in
            let unchanged : given c v ≡ given c w = ap (λ n. if ltb c n then 1 else 0) same in
            omega (arith, counted, none_left, unchanged),
      )
