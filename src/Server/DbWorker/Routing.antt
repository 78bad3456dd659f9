-- ===== src/Server/DbWorker/Routing.antt =====
-- Who answers a submitted signature: the first user who has the request, and nobody is an answer too.
use flow_backend.Prelude.{
  ◌≡◌, ◌⊎◌, refl, ◌∙◌, sym, ap, subst, Bool, true, false, none, some, some_inj, List, [], ◌∷◌, ◌++◌,
  All, nat_eq, nat_beq, nat_beq_iff, Bool-cases, Option-cases, inl, inr, if◌then◌else◌, false≢true,
}
use flow_backend.Prelude.Assoc
use flow_backend.Server.RunWorker.{UserId}
use flow_backend.Server.AddressBook.{Addr}
use flow_backend.Server.SameLogic.{Codec}
use flow_backend.Server.UserWorker.{
  Bytes, SigReq, UserWorker, SubmitSignature, Submitted, ok, error, not_found, unauthorized,
  not_allow_change_tx, tx_changed, wrong_signature, db, Changed, use_message, not_allowed, differs,
  change, submit_message, submit, submit_found,
}
use flow_backend.Server.DbWorker.{Workers, after_answer, submit_to, submit_each}

-- An actor is that of its user.
abbrev pub IsOwn : Workers → UserId × Addr → Type 0
IsOwn workers (user_id, addr) =
    (w : UserWorker) → Assoc.get workers addr ≡ some w → w.user_id ≡ user_id

-- No request of this ID is kept by the actor, or it is gone.
abbrev pub Lacks : Workers → SubmitSignature → UserId × Addr → Type 0
Lacks workers msg (user_id, addr) =
    (w : UserWorker) → Assoc.get workers addr ≡ some w → Assoc.get w.sigreg msg.id ≡ none

abbrev pub Same : Workers → Workers → Type 0
Same workers after = (addr : Addr) → Assoc.get after addr ≡ Assoc.get workers addr

insert-Same :
    (workers : Workers) (addr : Addr) (w : UserWorker)
    → Assoc.get workers addr ≡ some w
    → Same workers (Assoc.insert workers addr w)
insert-Same workers addr w there a = elim (Bool-cases (nat_beq addr a)) [
  | inl hit ↦
      Assoc.get-insert workers addr w a
      ∙ rw hit (sym there ∙ ap (Assoc.get workers) ((nat_beq_iff addr a).0 hit))
  | inr miss ↦ Assoc.get-insert workers addr w a ∙ rw miss refl
]

module _ (codec : Codec) (verify : (pubkey message signature : Bytes) → Bool) where
  submit-lacks :
      (w : UserWorker) (msg : SubmitSignature) (saved : Bool)
      → w.user_id ≡ msg.user_id
      → Assoc.get w.sigreg msg.id ≡ none
      → submit codec verify w msg saved ≡ (w, error not_found)
  unfolding submit
  submit-lacks w msg saved own lacks =
      rw ((nat_beq_iff w.user_id msg.user_id).1 own)
        (ap (submit_found codec verify w msg saved) lacks)

abbrev is_answer : Submitted → Bool
is_answer (error not_found) = false
is_answer _ = true

module _ (codec : Codec) (verify : (pubkey message signature : Bytes) → Bool) where
  message_answers :
      (w : UserWorker) (msg : SubmitSignature) (saved : Bool) (r : SigReq) (changed : Changed)
      → is_answer (submit_message codec verify w msg saved r changed).1 ≡ true
  message_answers w msg saved r not_allowed = refl
  message_answers w msg saved r differs = refl
  message_answers w msg saved r (use_message message new_msg) =
      elim (Bool-cases (verify r.req.pubkey message msg.signature)) [
        | inr bad ↦ rw bad refl
        | inl good ↦
            rw good (elim (Bool-cases saved) [ inl done ↦ rw done refl | inr lost ↦ rw lost refl ])
      ]

  submit_answers :
      (w : UserWorker) (msg : SubmitSignature) (saved : Bool) (r : SigReq)
      → w.user_id ≡ msg.user_id
      → Assoc.get w.sigreg msg.id ≡ some r
      → is_answer (submit codec verify w msg saved).1 ≡ true
  unfolding submit
  submit_answers w msg saved r own has =
      rw ((nat_beq_iff w.user_id msg.user_id).1 own)
        (rw has (message_answers w msg saved r (change codec verify r.req msg.new_msg)))

  answer_ends :
      (rest : Workers → Workers × Submitted) (workers : Workers) (r : Submitted)
      → is_answer r ≡ true
      → after_answer codec verify rest workers r ≡ (workers, r)
  answer_ends rest workers ok h = refl
  answer_ends rest workers (error not_found) h = absurd (false≢true h)
  answer_ends rest workers (error unauthorized) h = refl
  answer_ends rest workers (error not_allow_change_tx) h = refl
  answer_ends rest workers (error tx_changed) h = refl
  answer_ends rest workers (error wrong_signature) h = refl
  answer_ends rest workers (error db) h = refl

  -- The first user who has the request answers, and only that actor changes.
  abbrev pub FirstAnswers :
      Workers → SubmitSignature → Bool → List (UserId × Addr) → Workers × Submitted → Type 0
  FirstAnswers workers msg saved users result =
      (before : List (UserId × Addr)) × (user_id : UserId) × (addr : Addr) × (after : List
        (UserId × Addr))
      × (w : UserWorker) × (r : SigReq) × (users ≡ before ++ (user_id, addr) ∷ after)
      × All (Lacks workers msg) before
      × (Assoc.get workers addr ≡ some w)
      × (Assoc.get w.sigreg msg.id ≡ some r)
      × (result.1 ≡ (submit codec verify w (record msg { user_id = user_id }) saved).1)
      × ((a : Addr)
          → Assoc.get result.0 a ≡ (
              if nat_beq addr a
              then some (submit codec verify w (record msg { user_id = user_id }) saved).0
              else Assoc.get workers a))

  abbrev pub Routed :
      Workers → SubmitSignature → Bool → List (UserId × Addr) → Workers × Submitted → Type 0
  Routed workers msg saved users result =
      (All (Lacks workers msg) users × (result.1 ≡ ok) × Same workers result.0)
      ⊎ FirstAnswers workers msg saved users result

  later-Routed :
      (workers : Workers) (msg : SubmitSignature) (saved : Bool) (user : UserId × Addr)
      (users : List (UserId × Addr)) (result : Workers × Submitted)
      → Lacks workers msg user
      → Routed workers msg saved users result
      → Routed workers msg saved (user ∷ users) result
  later-Routed workers msg saved user users result lacks (inl (none_has, nobody, same)) =
      inl ((lacks, none_has), nobody, same)
  later-Routed workers msg saved user users result lacks
        (inr (before, user_id, addr, after, w, r, split, others, there, has, answer, changes)) =
      inr (
        user ∷ before,
        user_id,
        addr,
        after,
        w,
        r,
        ap (◌∷◌ user) split,
        (lacks, others),
        there,
        has,
        answer,
        changes,
      )

  found-Routed :
      (users : List (UserId × Addr)) (msg : SubmitSignature) (saved : Bool) (user_id : UserId)
      (addr : Addr) (workers now : Workers) (w : UserWorker) (r : SigReq)
      → Same workers now
      → Assoc.get workers addr ≡ some w
      → w.user_id ≡ user_id
      → Assoc.get w.sigreg msg.id ≡ some r
      → Routed workers msg saved ((user_id, addr) ∷ users) (
          submit_to codec verify
            (submit_each codec verify users msg saved)
            addr
            now
            (record msg { user_id = user_id })
            saved
            (some w))
  unfolding submit_to
  found-Routed users msg saved user_id addr workers now w r same there own has =
      let s = submit codec verify w (record msg { user_id = user_id }) saved in
      subst (Routed workers msg saved ((user_id, addr) ∷ users))
        (sym (
          answer_ends (submit_each codec verify users msg saved) (Assoc.insert now addr s.0) s.1
            (submit_answers w (record msg { user_id = user_id }) saved r own has)))
        (inr (
          [],
          user_id,
          addr,
          users,
          w,
          r,
          refl,
          tt,
          there,
          has,
          refl,
          λ a.
              Assoc.get-insert now addr s.0 a
              ∙ ap (λ o. if nat_beq addr a then some s.0 else o) (same a),
        ))

  each-Routed :
      (users : List (UserId × Addr)) (msg : SubmitSignature) (saved : Bool) (workers now : Workers)
      → Same workers now
      → All (IsOwn workers) users
      → Routed workers msg saved users (submit_each codec verify users msg saved now)
  unfolding submit_each submit_to
  each-Routed [] msg saved workers now same own = inl (tt, refl, same)
  each-Routed ((user_id, addr) ∷ users) msg saved workers now same own =
      elim (Option-cases (Assoc.get now addr)) [
        | inl gone ↦ rw gone (
            later-Routed workers msg saved (user_id, addr) users _
              (λ v e. absurd (cc (sym gone ∙ same addr ∙ e)))
              (each-Routed users msg saved workers now same own.1))
        | inr (w, there) ↦
            let kept : Assoc.get workers addr ≡ some w = sym (same addr) ∙ there in
            rw there (elim (Option-cases (Assoc.get w.sigreg msg.id)) [
              | inr (r, has) ↦
                  found-Routed users msg saved user_id addr workers now w r same kept (own.0 w kept)
                    has
              | inl absent ↦
                  rw
                    (submit-lacks codec verify w (record msg { user_id = user_id }) saved
                      (own.0 w kept) absent)
                    (later-Routed workers msg saved (user_id, addr) users _
                      (λ v e.
                        subst (λ u. Assoc.get u.sigreg msg.id ≡ none) (some_inj (sym kept ∙ e))
                          absent)
                      (each-Routed users msg saved workers (Assoc.insert now addr w)
                        (λ a. insert-Same now addr w there a ∙ same a) own.1))
            ])
      ]

  -- Of the users whose actors are asked, each actor that of its user, the first one that is there and
  -- has the request answers the signature, and no other actor changes; if none has it, the result is ok
  -- all the same and no actor changes.
  pub submit_each-Routed :
      (users : List (UserId × Addr)) (msg : SubmitSignature) (saved : Bool) (workers : Workers)
      → All (IsOwn workers) users
      → Routed workers msg saved users (submit_each codec verify users msg saved workers)
  submit_each-Routed users msg saved workers own =
      each-Routed users msg saved workers workers (λ a. refl) own
