-- ===== src/Flow/Transactions/NoRepeat.antt =====
-- Lists of nodes in which no node is twice.
use flow_backend.Prelude.{
  ◌≡◌, refl, ◌∙◌, sym, ap, true, false, ◌||◌, Bool-cases, inl, inr, List, [], ◌∷◌, ◌++◌, contains,
  nat_eq, nat_beq, nat_beq_refl, arith, append-nil, append_assoc,
}
use flow_backend.Prelude.Assoc
use flow_backend.Prelude.Assoc.{Assoc}
use flow_backend.Flow.Command.{InstructionInfo}
use flow_backend.Flow.State.{NodeId}
use flow_backend.Flow.Transactions.{keys, push_tx}

abbrev pub NoRepeat : List NodeId → Type 0
NoRepeat [] = Unit
NoRepeat (x ∷ xs) = (contains xs x ≡ false) × NoRepeat xs

abbrev pub concat : List (List NodeId) → List NodeId
concat [] = []
concat (xs ∷ xss) = xs ++ concat xss

pub contains-append :
    (xs ys : List NodeId) (x : NodeId) → contains (xs ++ ys) x ≡ (contains xs x || contains ys x)
contains-append [] ys x = refl
contains-append (y ∷ xs) ys x = ground (arith, contains-append xs ys x)

pub NoRepeat-append :
    (xs ys : List NodeId)
    → NoRepeat xs
    → NoRepeat ys
    → ((x : NodeId) → contains xs x ≡ true → contains ys x ≡ false)
    → NoRepeat (xs ++ ys)
NoRepeat-append [] ys p q apart = q
NoRepeat-append (x ∷ xs) ys p q apart = (
  contains-append xs ys x ∙ rw (p.0) (apart x (rw (nat_beq_refl x))),
  NoRepeat-append xs ys p.1 q (λ y h. apart y (ground (arith, h))),
)

concat-snoc :
    (xss : List (List NodeId)) (xs : List NodeId) → concat (xss ++ xs ∷ []) ≡ concat xss ++ xs
concat-snoc [] xs = append-nil xs
concat-snoc (ys ∷ xss) xs =
    ap (◌++◌ ys) (concat-snoc xss xs) ∙ sym (append_assoc ys (concat xss) xs)

pub concat-push_tx :
    (xss : List (List NodeId)) (xs : List NodeId) → concat (push_tx xss xs) ≡ concat xss ++ xs
concat-push_tx xss [] = sym (append-nil (concat xss))
concat-push_tx xss (x ∷ xs) = concat-snoc xss (x ∷ xs)

pub keys-insert :
    (m : Assoc NodeId InstructionInfo) (k : NodeId) (v : InstructionInfo)
    → contains (keys m) k ≡ false
    → keys (Assoc.insert m k v) ≡ keys m ++ k ∷ []
unfolding Assoc.insert
keys-insert [] k v h = refl
keys-insert ((j, w) ∷ m) k v h = elim (Bool-cases (nat_beq j k)) [
  | inl e ↦ absurd (cc (rw e at h))
  | inr e ↦ rw e (ap (◌∷◌ j) (keys-insert m k v (rw e at h)))
]
