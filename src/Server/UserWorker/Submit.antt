-- ===== src/Server/UserWorker/Submit.antt =====
-- What a submitted signature does: whose it must be, and which errors leave the request as it was.
use flow_backend.Prelude.{
  ◌≡◌, ◌≢◌, refl, ◌∙◌, sym, ap, Bool, true, false, Option, none, some, str_beq, str_beq_iff,
  nat_beq, nat_beq_iff, nat_eq, is_some, Bool-cases, inl, inr, false≢true,
}
use flow_backend.Prelude.Assoc
use flow_backend.Server.SameLogic.{Codec, is_same_message_logic}
use flow_backend.Server.UserWorker.{
  RequestId, Bytes, SignatureRequest, SigReq, UserWorker, answer, SubmitSignature, Submitted,
  Changed, ok, error, unauthorized, not_found, not_allow_change_tx, tx_changed, wrong_signature, db,
  use_message, not_allowed, differs, is_unsigned, change, submit_message, submit_found, submit,
  put_back, tx_dropped, signed,
}

module _ (codec : Codec) (verify : (pubkey message signature : Bytes) → Bool) where
  -- The message that a signature is for: the one of the request, or one of the same logic, if the
  -- request bears no signatures.
  abbrev pub IsFor : SignatureRequest → Bytes → Option Bytes → Type 0
  IsFor req message none = message ≡ req.message
  IsFor req message (some m) =
      (m ≡ message)
      × (m ≢ req.message)
      × (is_unsigned req.signatures ≡ true)
      × (is_some (is_same_message_logic codec req.message m) ≡ true)

  -- The request is answered with a signature that is good for its key.
  abbrev pub IsSigned : UserWorker → SubmitSignature → UserWorker → Type 0
  IsSigned w msg v =
      (r : SigReq) × (message : Bytes) × (new_msg : Option Bytes) × (w.user_id ≡ msg.user_id)
      × (Assoc.get w.sigreg msg.id ≡ some r)
      × IsFor r.req message new_msg
      × (verify r.req.pubkey message msg.signature ≡ true)
      × (v ≡ answer w msg.id r (signed msg.signature new_msg))

  -- No request and no answer is different.
  abbrev pub IsKept : UserWorker → UserWorker → Type 0
  IsKept w v =
      ((id : RequestId) → Assoc.get v.sigreg id ≡ Assoc.get w.sigreg id)
      × (v.responses ≡ w.responses)

  abbrev pub Outcome : UserWorker → SubmitSignature → UserWorker → Submitted → Type 0
  Outcome w msg v ok = IsSigned w msg v
  Outcome w msg v (error db) = IsSigned w msg v
  Outcome w msg v (error unauthorized) = (w.user_id ≢ msg.user_id) × (v ≡ w)
  Outcome w msg v (error not_found) = (Assoc.get w.sigreg msg.id ≡ none) × (v ≡ w)
  Outcome w msg v (error tx_changed) = IsKept w v
  Outcome w msg v (error wrong_signature) = IsKept w v
  Outcome w msg v (error not_allow_change_tx) =
      (r : SigReq) × (Assoc.get w.sigreg msg.id ≡ some r)
      × (is_unsigned r.req.signatures ≡ false)
      × (v ≡ answer w msg.id r tx_dropped)

  put_back-IsKept :
      (w : UserWorker) (id : RequestId) (r : SigReq)
      → Assoc.get w.sigreg id ≡ some r
      → IsKept w (put_back w id r)
  put_back-IsKept w id r there = (
    λ j. elim (Bool-cases (nat_beq id j)) [
      | inl same ↦
          Assoc.get-insert (Assoc.remove w.sigreg id) id r j
          ∙ rw same (sym there ∙ ap (Assoc.get w.sigreg) ((nat_beq_iff id j).0 same))
      | inr apart ↦
          Assoc.get-insert (Assoc.remove w.sigreg id) id r j
          ∙ rw apart (Assoc.get-remove w.sigreg id j ∙ rw apart refl)
    ],
    refl,
  )

  -- What `change` returns is what it says.
  abbrev IsChange : SignatureRequest → Changed → Type 0
  IsChange req (use_message message new_msg) = IsFor req message new_msg
  IsChange req not_allowed = is_unsigned req.signatures ≡ false
  IsChange req differs = Unit

  change-IsChange :
      (req : SignatureRequest) (new_msg : Option Bytes)
      → IsChange req (change codec verify req new_msg)
  change-IsChange req none = refl
  change-IsChange req (some m) = elim (Bool-cases (str_beq m req.message)) [
    | inl same ↦ rw same refl
    | inr other ↦ rw other (elim (Bool-cases (is_unsigned req.signatures)) [
      | inr bears ↦ rw bears bears
      | inl unsigned ↦
          rw unsigned (elim (Bool-cases (is_some (is_same_message_logic codec req.message m))) [
            | inr changes ↦ rw changes tt
            | inl logic ↦ rw logic (
              refl,
              λ e. false≢true (sym other ∙ (str_beq_iff m req.message).1 e),
              unsigned,
              logic,
            )
          ])
    ])
  ]

  message-Outcome :
      (w : UserWorker) (msg : SubmitSignature) (saved : Bool) (r : SigReq) (changed : Changed)
      → w.user_id ≡ msg.user_id
      → Assoc.get w.sigreg msg.id ≡ some r
      → IsChange r.req changed
      → let s = submit_message codec verify w msg saved r changed in Outcome w msg s.0 s.1
  message-Outcome w msg saved r not_allowed owner there c = (r, there, c, refl)
  message-Outcome w msg saved r differs owner there c = put_back-IsKept w msg.id r there
  message-Outcome w msg saved r (use_message message new_msg) owner there c =
      elim (Bool-cases (verify r.req.pubkey message msg.signature)) [
        | inr bad ↦ rw bad (put_back-IsKept w msg.id r there)
        | inl good ↦ rw good (elim (Bool-cases saved) [
          | inl done ↦ rw done (r, message, new_msg, owner, there, c, good, refl)
          | inr lost ↦ rw lost (r, message, new_msg, owner, there, c, good, refl)
        ])
      ]

  found-Outcome :
      (w : UserWorker) (msg : SubmitSignature) (saved : Bool) (found : Option SigReq)
      → w.user_id ≡ msg.user_id
      → Assoc.get w.sigreg msg.id ≡ found
      → let s = submit_found codec verify w msg saved found in Outcome w msg s.0 s.1
  found-Outcome w msg saved none owner there = (there, refl)
  found-Outcome w msg saved (some r) owner there =
      message-Outcome w msg saved r (change codec verify r.req msg.new_msg) owner there
        (change-IsChange r.req msg.new_msg)

  -- A signature is taken only from the user of the worker, for a request that is kept, if it is good
  -- for the key of the request and for its message, or for another message of the same logic when the
  -- request bears no signatures; then the request is answered with it, even if the database does not
  -- save it. An error leaves all requests and answers as they were, but for one: a changed message for
  -- a request that bears signatures ends the request, which is answered with an error.
  pub submit-Outcome :
      (w : UserWorker) (msg : SubmitSignature) (saved : Bool)
      → let s = submit codec verify w msg saved in Outcome w msg s.0 s.1
  unfolding submit
  submit-Outcome w msg saved = elim (Bool-cases (nat_beq w.user_id msg.user_id)) [
    | inl same ↦ rw same (
        found-Outcome w msg saved (Assoc.get w.sigreg msg.id)
          ((nat_beq_iff w.user_id msg.user_id).0 same) refl)
    | inr other ↦
        rw other (λ e. false≢true (sym other ∙ (nat_beq_iff w.user_id msg.user_id).1 e), refl)
  ]
