-- ===== src/Server/UserWorker/Pending.antt =====
-- Requests that are kept and their channels: how adding and removing one counts.
use flow_backend.Prelude.{
  ℕ, ◌+◌, ◌≡◌, refl, ◌∙◌, sym, ap, none, some, some_inj, List, [], ◌∷◌, ◌++◌, nat_beq, nat_beq_iff,
  nat_eq, Bool-cases, inl, inr, arith, if◌then◌else◌,
}
use flow_backend.Prelude.Assoc
use flow_backend.Prelude.Assoc.{Assoc}
use flow_backend.Prelude.Assoc.Keys.{Unique, remove_absent}
use flow_backend.Server.UserWorker.{RequestId, Channel, SigReq}

abbrev pub one : Channel → Channel → ℕ
one x c = if nat_beq x c then 1 else 0

-- How often a channel is in a list.
abbrev pub count : Channel → List Channel → ℕ
count c [] = 0
count c (x ∷ xs) = one x c + count c xs

abbrev pub pending : Assoc RequestId SigReq → List Channel
pending [] = []
pending ((id, r) ∷ reqs) = r.resp ∷ pending reqs

pub count-append :
    (c : Channel) (xs ys : List Channel) → count c (xs ++ ys) ≡ count c xs + count c ys
count-append c [] ys = omega arith
count-append c (x ∷ xs) ys = omega (arith, count-append c xs ys)

pub count-insert :
    (c : Channel) (reqs : Assoc RequestId SigReq) (id : RequestId) (r : SigReq)
    → Assoc.get reqs id ≡ none
    → count c (pending (Assoc.insert reqs id r)) ≡ one r.resp c + count c (pending reqs)
unfolding Assoc.insert Assoc.get
count-insert c [] id r h = refl
count-insert c ((j, t) ∷ reqs) id r h = elim (Bool-cases (nat_beq j id)) [
  | inl same ↦ absurd (cc (rw same at h))
  | inr apart ↦ rw apart (omega (arith, count-insert c reqs id r (rw apart at h)))
]

pub count-remove :
    (c : Channel) (reqs : Assoc RequestId SigReq) (id : RequestId) (r : SigReq)
    → Unique reqs
    → Assoc.get reqs id ≡ some r
    → count c (pending reqs) ≡ one r.resp c + count c (pending (Assoc.remove reqs id))
unfolding Assoc.remove Assoc.get
count-remove c [] id r u h = absurd (cc h)
count-remove c ((j, t) ∷ reqs) id r u h = elim (Bool-cases (nat_beq j id)) [
  | inl same ↦
      let there : t ≡ r = some_inj (rw same at h) in
      let alone : Assoc.get reqs id ≡ none =
        ap (Assoc.get reqs) (sym ((nat_beq_iff j id).0 same)) ∙ u.0 in
      rw same
        (rw (remove_absent reqs id alone) (ap (λ x. one x.resp c + count c (pending reqs)) there))
  | inr apart ↦ rw apart (omega (arith, count-remove c reqs id r u.1 (rw apart at h)))
]
