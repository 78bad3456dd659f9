-- ===== src/Server/UserWorker/Answers.antt =====
-- Every request for a signature is answered once.
use flow_backend.Prelude.{
  ℕ, ◌+◌, ◌≡◌, refl, ◌∙◌, sym, ap, true, false, Option, none, some, List, [], ◌∷◌, ◌++◌, ltb, map,
  nat_beq, nat_beq_iff, nat_beq_refl, nat_eq, contains, Bool-cases, inl, inr, arith, if◌then◌else◌,
}
use flow_backend.Prelude.Assoc
use flow_backend.Prelude.Assoc.Keys.{Unique, Unique-insert, Unique-remove}
use flow_backend.Server.UserWorker.{
  RequestId, Channel, SignatureRequest, Response, timed_out, SigReq, UserWorker, register, answer,
  expire_found, expire, put_back,
}
use flow_backend.Server.UserWorker.Pending.{one, count, pending, count-insert, count-remove}

abbrev pub answered : UserWorker → List Channel
answered w = map (λ p. p.0) w.responses

-- One for a channel that was given out.
abbrev pub given : Channel → UserWorker → ℕ
given c w = if ltb c w.next_channel then 1 else 0

-- Each channel that was given out has one answer or one request that is kept; each request that is
-- kept has a timer, and no two have one ID.
pub record IsSound (w : UserWorker) : Type 0 where
  pub counted : (c : Channel) → count c (answered w) + count c (pending w.sigreg) ≡ given c w
  pub timed :
      (id : RequestId) (r : SigReq) → Assoc.get w.sigreg id ≡ some r → contains w.timers id ≡ true
  pub unique : Unique w.sigreg

-- A timer that fires is no longer there.
abbrev pub fire : UserWorker → List RequestId → RequestId → UserWorker
fire w timers id = expire (record w { timers = timers }) id

answered-push :
    (responses : List (Channel × Response)) (ch : Channel) (r : Response) (c : Channel)
    → count c (map (λ p. p.0) (responses ++ (ch, r) ∷ []))
      ≡ one ch c + count c (map (λ p. p.0) responses)
answered-push [] ch r c = refl
answered-push ((x, y) ∷ rest) ch r c = omega (arith, answered-push rest ch r c)

contains-append :
    (xs ys : List RequestId) (id : RequestId)
    → contains (xs ++ ys) id ≡ (if contains xs id then true else contains ys id)
contains-append [] ys id = refl
contains-append (x ∷ xs) ys id = ground (arith, contains-append xs ys id)

abbrev new_req : UserWorker → SignatureRequest → SigReq
new_req w req = record { resp = w.next_channel; req = req }

pub register-IsSound :
    (w : UserWorker) (id : RequestId) (req : SignatureRequest)
    → Assoc.get w.sigreg id ≡ none
    → IsSound w
    → IsSound (register w id req)
register-IsSound w id req absent h = record {
  counted = λ c.
      let inserted = count-insert c w.sigreg id (new_req w req) absent in
      let before = h.counted c in ground (arith, inserted, before);
  timed = λ j r got. elim (Bool-cases (nat_beq id j)) [
    | inl same ↦ contains-append w.timers (id ∷ []) j ∙ rw same (ground arith)
    | inr apart ↦
        contains-append w.timers (id ∷ []) j
        ∙ rw
            (h.timed j r (sym (rw apart at (Assoc.get-insert w.sigreg id (new_req w req) j)) ∙ got))
            refl
  ];
  unique = Unique-insert w.sigreg id (new_req w req) h.unique;
}

-- An answer takes its request away.
pub answer-IsSound :
    (w : UserWorker) (timers : List RequestId) (id : RequestId) (r : SigReq) (response : Response)
    → Assoc.get w.sigreg id ≡ some r
    → ((j : RequestId)
        → nat_beq id j ≡ false
        → contains w.timers j ≡ true
        → contains timers j ≡ true)
    → IsSound w
    → IsSound (answer (record w { timers = timers }) id r response)
answer-IsSound w timers id r response there later h = record {
  counted = λ c. omega (
    arith,
    answered-push w.responses r.resp response c,
    count-remove c w.sigreg id r h.unique there,
    h.counted c,
  );
  timed = λ j t got. elim (Bool-cases (nat_beq id j)) [
    | inl same ↦ absurd (cc (rw same at (sym (Assoc.get-remove w.sigreg id j) ∙ got)))
    | inr apart ↦
        later j apart (h.timed j t (sym (rw apart at (Assoc.get-remove w.sigreg id j)) ∙ got))
  ];
  unique = Unique-remove w.sigreg id h.unique;
}

pub put_back-IsSound :
    (w : UserWorker) (id : RequestId) (r : SigReq)
    → Assoc.get w.sigreg id ≡ some r
    → IsSound w
    → IsSound (put_back w id r)
put_back-IsSound w id r there h =
    let gone : Assoc.get (Assoc.remove w.sigreg id) id ≡ none =
      Assoc.get-remove w.sigreg id id ∙ rw (nat_beq_refl id) refl in
    record {
      counted = λ c. omega (
        arith,
        count-insert c (Assoc.remove w.sigreg id) id r gone,
        count-remove c w.sigreg id r h.unique there,
        h.counted c,
      );
      timed = λ j t got. elim (Bool-cases (nat_beq id j)) [
        | inl same ↦ ap (contains w.timers) (sym ((nat_beq_iff id j).0 same)) ∙ h.timed id r there
        | inr apart ↦ h.timed j t (
            sym (rw apart at (Assoc.get-remove w.sigreg id j))
            ∙ sym (rw apart at (Assoc.get-insert (Assoc.remove w.sigreg id) id r j))
            ∙ got)
      ];
      unique = Unique-insert (Assoc.remove w.sigreg id) id r (Unique-remove w.sigreg id h.unique);
    }

contains-mid :
    (before : List RequestId) (id : RequestId) (after : List RequestId) (j : RequestId)
    → nat_beq id j ≡ false
    → contains (before ++ id ∷ after) j ≡ true
    → contains (before ++ after) j ≡ true
contains-mid [] id after j apart h = ground arith
contains-mid (x ∷ before) id after j apart h = ground (arith, contains-mid before id after j apart)

pub fire-IsSound :
    (w : UserWorker) (before : List RequestId) (id : RequestId) (after : List RequestId)
    (found : Option SigReq)
    → Assoc.get w.sigreg id ≡ found
    → w.timers ≡ before ++ id ∷ after
    → IsSound w
    → IsSound (expire_found (record w { timers = before ++ after }) id found)
fire-IsSound w before id after none absent there h = record {
  counted = h.counted;
  timed = λ j r got. elim (Bool-cases (nat_beq id j)) [
    | inl same ↦
        absurd (cc (sym absent ∙ ap (Assoc.get w.sigreg) ((nat_beq_iff id j).0 same) ∙ got))
    | inr apart ↦
        contains-mid before id after j apart (ap (λ l. contains l j) (sym there) ∙ h.timed j r got)
  ];
  unique = h.unique;
}
fire-IsSound w before id after (some r) found there h =
    answer-IsSound w (before ++ after) id r timed_out found
      (λ j apart c. contains-mid before id after j apart (ap (λ l. contains l j) (sym there) ∙ c)) h
