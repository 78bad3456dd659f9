-- ===== src/Flow/Bundle/Slice.antt =====
-- Where the instructions of each node are in a bundle.
use flow_backend.Prelude.{
  ◌+◌, ◌≡◌, refl, ◌∙◌, sym, ap, Option, none, some, List, [], ◌∷◌, ◌++◌, length, length-append,
  append_assoc, append-nil, arith, Option-cases, inl, inr, some_inj, nat_beq, nat_beq_iff,
  Bool-cases, subst,
}
use flow_backend.Flow.State.{Keypair, Instruction, Instructions, Waiting}
use flow_backend.Flow.Bundle.{
  set_feepayer, combine, Responder, Bundle, combine_all, overwrite, bundle,
}

-- At the range of a responder stand the instructions of the node that it answers, in full.
pub record StandsAt (all : List Instruction) (w : Waiting) (r : Responder) : Type 0 where
  pub answers : r.sender ≡ w.resp
  pub before : List Instruction
  pub after : List Instruction
  pub around : all ≡ before ++ (w.instructions.instructions ++ after)
  pub starts : length before ≡ r.start
  pub ends : r.start + length w.instructions.instructions ≡ r.end

-- Each node with its responder, in order.
abbrev pub AllStand : List Instruction → List Waiting → List Responder → Type 0
AllStand all [] [] = Unit
AllStand all [] (r ∷ rs) = ⊥
AllStand all (w ∷ ws) [] = ⊥
AllStand all (w ∷ ws) (r ∷ rs) = StandsAt all w r × AllStand all ws rs

StandsAt-grow :
    (all more : List Instruction) (w : Waiting) (r : Responder)
    → StandsAt all w r
    → StandsAt (all ++ more) w r
StandsAt-grow all more w r h = record {
  answers = h.answers;
  before = h.before;
  after = h.after ++ more;
  around =
      ap (λ l. l ++ more) h.around
      ∙ append_assoc h.before (w.instructions.instructions ++ h.after) more
      ∙ ap (◌++◌ h.before) (append_assoc w.instructions.instructions h.after more);
  starts = h.starts;
  ends = h.ends;
}

AllStand-grow :
    (all more : List Instruction) (ws : List Waiting) (rs : List Responder)
    → AllStand all ws rs
    → AllStand (all ++ more) ws rs
AllStand-grow all more [] [] h = h
AllStand-grow all more [] (r ∷ rs) h = elim h [ ]
AllStand-grow all more (w ∷ ws) [] h = elim h [ ]
AllStand-grow all more (w ∷ ws) (r ∷ rs) h =
    (StandsAt-grow all more w r h.0, AllStand-grow all more ws rs h.1)

AllStand-snoc :
    (all : List Instruction) (ws : List Waiting) (rs : List Responder) (w : Waiting) (r : Responder)
    → AllStand all ws rs
    → StandsAt all w r
    → AllStand all (ws ++ w ∷ []) (rs ++ r ∷ [])
AllStand-snoc all [] [] w r h last = (last, tt)
AllStand-snoc all [] (q ∷ rs) w r h last = elim h [ ]
AllStand-snoc all (v ∷ ws) [] w r h last = elim h [ ]
AllStand-snoc all (v ∷ ws) (q ∷ rs) w r h last = (h.0, AllStand-snoc all ws rs w r h.1 last)

-- What bundling does to the nodes that wait: the first ones are in the bundle, with all of their
-- instructions where its responders say, and the others are left.
pub record Bundles (w : Waiting) (tx : List Waiting) (b : Bundle) : Type 0 where
  pub more : List Waiting
  pub split : tx ≡ more ++ b.rest
  pub stands : AllStand b.ins.instructions (w ∷ more) b.resp

pub combine-some :
    (ins next combined : Instructions)
    → combine ins next ≡ some combined
    → (next.fee_payer ≡ ins.fee_payer)
      × (combined.fee_payer ≡ ins.fee_payer)
      × (combined.instructions ≡ ins.instructions ++ next.instructions)
unfolding combine
combine-some ins next combined h = elim (Bool-cases (nat_beq next.fee_payer ins.fee_payer)) [
  | inl e ↦
      let same = some_inj (rw e at h) in
      (
        (nat_beq_iff _ _).0 e,
        sym (ap (λ (i : Instructions). i.fee_payer) same),
        sym (ap (λ (i : Instructions). i.instructions) same),
      )
  | inr e ↦ absurd (cc (rw e at h))
]

combine_all-Bundles :
    (ins : Instructions) (resp : List Responder) (tx done : List Waiting)
    → AllStand ins.instructions done resp
    → (taken : List Waiting) × (tx ≡ taken ++ (combine_all ins resp tx).rest)
      × AllStand
          (combine_all ins resp tx).ins.instructions
          (done ++ taken)
          (combine_all ins resp tx).resp
unfolding combine_all
combine_all-Bundles ins resp [] done h =
    ([], refl, subst (λ d. AllStand ins.instructions d resp) (sym (append-nil done)) h)
combine_all-Bundles ins resp (w ∷ tx) done h = elim (Option-cases (combine ins w.instructions)) [
  | inl e ↦ (
    [],
    rw (combine_all, e),
    rw (combine_all, e) (subst (λ d. AllStand ins.instructions d resp) (sym (append-nil done)) h),
  )
  | inr (combined, e) ↦
      let (payer, kept, joined) = combine-some ins w.instructions combined e in
      let here : Responder = record {
        sender = w.resp;
        start = length ins.instructions;
        end = length combined.instructions;
      } in
      let stand : StandsAt combined.instructions w here = record {
        answers = refl;
        before = ins.instructions;
        after = [];
        around = joined ∙ ap (◌++◌ ins.instructions) (sym (append-nil w.instructions.instructions));
        starts = refl;
        ends =
            sym (length-append ins.instructions w.instructions.instructions)
            ∙ ap length (sym joined);
      } in
      let grown =
        subst (λ l. AllStand l done resp) (sym joined)
          (AllStand-grow ins.instructions w.instructions.instructions done resp h) in
      let (taken, split, stands) =
        combine_all-Bundles combined (resp ++ here ∷ []) tx (done ++ w ∷ [])
          (AllStand-snoc combined.instructions done resp w here grown stand) in
      (
        w ∷ taken,
        rw (combine_all, e) (ap (◌∷◌ w) split),
        rw (combine_all, e)
            (subst
              (λ d.
                AllStand (combine_all combined (resp ++ here ∷ []) tx).ins.instructions d
                  (combine_all combined (resp ++ here ∷ []) tx).resp)
              (append_assoc done (w ∷ []) taken) stands),
      )
]

overwrite-instructions :
    (o : Option Keypair) (ins : Instructions) → (overwrite o ins).instructions ≡ ins.instructions
unfolding overwrite set_feepayer
overwrite-instructions none ins = refl
overwrite-instructions (some signer) ins = refl

-- A bundle takes the first nodes that wait, beginning with the node given, and leaves the others in
-- their order; at the range of each responder stand all the instructions of the node that it
-- answers, in the order in which the nodes waited.
pub bundle-Bundles :
    (o : Option Keypair) (w : Waiting) (tx : List Waiting) → Bundles w tx (bundle o w tx)
unfolding bundle
bundle-Bundles o w tx =
    let ins : Instructions = overwrite o w.instructions in
    let same = overwrite-instructions o w.instructions in
    let first : Responder = record { sender = w.resp; start = 0; end = length ins.instructions } in
    let stand : StandsAt ins.instructions w first = record {
      answers = refl;
      before = [];
      after = [];
      around = same ∙ sym (append-nil w.instructions.instructions);
      starts = refl;
      ends = omega (arith, ap length same);
    } in
    let (taken, split, stands) = combine_all-Bundles ins (first ∷ []) tx (w ∷ []) (stand, tt) in
    record { more = taken; split = split; stands = stands }
