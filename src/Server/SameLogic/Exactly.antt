-- ===== src/Server/SameLogic/Exactly.antt =====
-- Which messages do the same, exactly.
use flow_backend.Prelude.{
  ℕ, suc, ◌≤◌, ◌≡◌, refl, ◌∙◌, sym, ap, ◌↔◌, Bool, true, false, not, ◌&&◌, Option, none, some, List,
  [], ◌∷◌, length, head?, str_beq, str_beq_iff, nat_beq, nat_beq_iff, leb, leb→le, arith,
  Bool-cases, inl, inr, false≢true, ap₂, str_beq_refl, some_inj,
}
use flow_backend.Server.SameLogic.{
  Pubkey, Instruction, Message, Codec, key_beq, same_program, same_inputs, inputs,
  same_instructions, same_messages, same_decoded, is_same_message_logic,
}

-- Accounts agree as far as both go.
abbrev pub Agree : List (Option Pubkey) → List (Option Pubkey) → Type 0
Agree (a ∷ xs) (b ∷ ys) = (a ≡ b) × Agree xs ys
Agree _ _ = Unit

-- Instructions with the same program, the same data and the same accounts, as far as both have some.
abbrev pub SameFrom : Codec → Message → Message → ℕ → List Instruction → List Instruction → Type 0
SameFrom c l r i (il ∷ ils) (ir ∷ irs) =
    ((p : Pubkey) × (c.program_id l i ≡ some p) × (c.program_id r i ≡ some p))
    × (il.ix_data ≡ ir.ix_data)
    × Agree (inputs l il) (inputs r ir)
    × SameFrom c l r (suc i) ils irs
SameFrom c l r i _ _ = Unit

pub record IsSame (c : Codec) (l r : Message) : Type 0 where
  pub sane : (c.sanitize l ≡ true) × (c.sanitize r ≡ true)
  pub signatures : l.header.num_required_signatures ≡ r.header.num_required_signatures
  pub readonly_signed :
      r.header.num_readonly_signed_accounts ≤ l.header.num_readonly_signed_accounts
  pub readonly_unsigned :
      r.header.num_readonly_unsigned_accounts ≤ l.header.num_readonly_unsigned_accounts
  pub keys : length l.account_keys ≡ length r.account_keys
  pub fee_payer : (k : Pubkey) × (head? l.account_keys ≡ some k) × (head? r.account_keys ≡ some k)
  pub blockhash : l.recent_blockhash ≡ r.recent_blockhash
  pub count : length l.instructions ≡ length r.instructions
  pub instructions : SameFrom c l r 0 l.instructions r.instructions

&&-true : (a b : Bool) → (a && b) ≡ true → (a ≡ true) × (b ≡ true)
&&-true true b h = (refl, h)
&&-true false b h = absurd (false≢true h)

key_beq→eq : (a b : Option Pubkey) → key_beq a b ≡ true → a ≡ b
key_beq→eq none none h = refl
key_beq→eq none (some b) h = absurd (false≢true h)
key_beq→eq (some a) none h = absurd (false≢true h)
key_beq→eq (some a) (some b) h = ap some ((str_beq_iff a b).0 h)

same_inputs-Agree : (xs ys : List (Option Pubkey)) → same_inputs xs ys ≡ true → Agree xs ys
same_inputs-Agree [] ys h = tt
same_inputs-Agree (a ∷ xs) [] h = tt
same_inputs-Agree (a ∷ xs) (b ∷ ys) h =
    let (first, rest) = &&-true (key_beq a b) (same_inputs xs ys) h in
    (key_beq→eq a b first, same_inputs-Agree xs ys rest)

same_program-some :
    (a b : Option Pubkey) → same_program a b ≡ true → (p : Pubkey) × (a ≡ some p) × (b ≡ some p)
same_program-some none none h = absurd (false≢true h)
same_program-some none (some b) h = absurd (false≢true h)
same_program-some (some a) none h = absurd (false≢true h)
same_program-some (some a) (some b) h = (a, refl, ap some (sym ((str_beq_iff a b).0 h)))

same_instructions-SameFrom :
    (c : Codec) (l r : Message) (i : ℕ) (ils irs : List Instruction)
    → same_instructions c l r i ils irs ≡ true
    → SameFrom c l r i ils irs
same_instructions-SameFrom c l r i [] irs h = tt
same_instructions-SameFrom c l r i (il ∷ ils) [] h = tt
same_instructions-SameFrom c l r i (il ∷ ils) (ir ∷ irs) h =
    let (front, rest) = &&-true _ (same_instructions c l r (suc i) ils irs) h in
    let (before, agree) = &&-true _ (same_inputs (inputs l il) (inputs r ir)) front in
    let (program, bytes) = &&-true _ (str_beq il.ix_data ir.ix_data) before in
    (
      same_program-some (c.program_id l i) (c.program_id r i) program,
      (str_beq_iff il.ix_data ir.ix_data).0 bytes,
      same_inputs-Agree (inputs l il) (inputs r ir) agree,
      same_instructions-SameFrom c l r (suc i) ils irs rest,
    )

first_key :
    (ks js : List Pubkey)
    → not (nat_beq (length ks) 0) ≡ true
    → key_beq (head? ks) (head? js) ≡ true
    → (k : Pubkey) × (head? ks ≡ some k) × (head? js ≡ some k)
first_key [] js h e = ground arith
first_key (k ∷ ks) js h e = (k, refl, sym (key_beq→eq (some k) (head? js) e))

same_messages-IsSame : (c : Codec) (l r : Message) → same_messages c l r ≡ true → IsSame c l r
unfolding same_messages
same_messages-IsSame c l r h =
    let (h9, ix) = &&-true _ (same_instructions c l r 0 l.instructions r.instructions) h in
    let (h8, hash) = &&-true _ (str_beq l.recent_blockhash r.recent_blockhash) h9 in
    let (h7, payer) = &&-true _ (key_beq (head? l.account_keys) (head? r.account_keys)) h8 in
    let (h6, count) = &&-true _ (nat_beq (length l.instructions) (length r.instructions)) h7 in
    let (h5, some_key) = &&-true _ (not (nat_beq (length l.account_keys) 0)) h6 in
    let (h4, keys) = &&-true _ (nat_beq (length l.account_keys) (length r.account_keys)) h5 in
    let (h3, unsigned) = &&-true _ _ h4 in
    let (h2, signed) = &&-true _ _ h3 in
    let (h1, sigs) = &&-true _ _ h2 in
    let (sane_l, sane_r) = &&-true (c.sanitize l) (c.sanitize r) h1 in
    record {
      sane = (sane_l, sane_r);
      signatures =
          (nat_beq_iff l.header.num_required_signatures r.header.num_required_signatures).0 sigs;
      readonly_signed =
          leb→le r.header.num_readonly_signed_accounts l.header.num_readonly_signed_accounts signed;
      readonly_unsigned =
          leb→le r.header.num_readonly_unsigned_accounts l.header.num_readonly_unsigned_accounts
            unsigned;
      keys = (nat_beq_iff (length l.account_keys) (length r.account_keys)).0 keys;
      fee_payer = first_key l.account_keys r.account_keys some_key payer;
      blockhash = (str_beq_iff l.recent_blockhash r.recent_blockhash).0 hash;
      count = (nat_beq_iff (length l.instructions) (length r.instructions)).0 count;
      instructions = same_instructions-SameFrom c l r 0 l.instructions r.instructions ix;
    }

le→leb : (a b : ℕ) → a ≤ b → leb a b ≡ true
le→leb a b h = ground arith

key_beq_refl : (a : Option Pubkey) → key_beq a a ≡ true
key_beq_refl none = refl
key_beq_refl (some a) = str_beq_refl a

Agree-same_inputs : (xs ys : List (Option Pubkey)) → Agree xs ys → same_inputs xs ys ≡ true
Agree-same_inputs [] ys h = refl
Agree-same_inputs (a ∷ xs) [] h = refl
Agree-same_inputs (a ∷ xs) (b ∷ ys) h =
    ap₂ ◌&&◌ (ap (key_beq a) (sym h.0) ∙ key_beq_refl a) (Agree-same_inputs xs ys h.1)

programs_agree :
    (a b : Option Pubkey) (p : Pubkey) → a ≡ some p → b ≡ some p → same_program a b ≡ true
programs_agree a b p e f = ap₂ same_program e f ∙ str_beq_refl p

SameFrom-same_instructions :
    (c : Codec) (l r : Message) (i : ℕ) (ils irs : List Instruction)
    → SameFrom c l r i ils irs
    → same_instructions c l r i ils irs ≡ true
SameFrom-same_instructions c l r i [] irs h = refl
SameFrom-same_instructions c l r i (il ∷ ils) [] h = refl
SameFrom-same_instructions c l r i (il ∷ ils) (ir ∷ irs) ((p, e, f), bytes, agree, rest) =
    ap₂ ◌&&◌
      (ap₂ ◌&&◌
        (ap₂ ◌&&◌ (programs_agree (c.program_id l i) (c.program_id r i) p e f)
          ((str_beq_iff il.ix_data ir.ix_data).1 bytes))
        (Agree-same_inputs (inputs l il) (inputs r ir) agree))
      (SameFrom-same_instructions c l r (suc i) ils irs rest)

some_first :
    (ks : List Pubkey) (k : Pubkey) → head? ks ≡ some k → not (nat_beq (length ks) 0) ≡ true
some_first [] k e = absurd (cc e)
some_first (j ∷ ks) k e = ground arith

IsSame-same_messages : (c : Codec) (l r : Message) → IsSame c l r → same_messages c l r ≡ true
unfolding same_messages
IsSame-same_messages c l r h =
    let (k, first_l, first_r) = h.fee_payer in
    ap₂ ◌&&◌
      (ap₂ ◌&&◌
        (ap₂ ◌&&◌
          (ap₂ ◌&&◌
            (ap₂ ◌&&◌
              (ap₂ ◌&&◌
                (ap₂ ◌&&◌
                  (ap₂ ◌&&◌
                    (ap₂ ◌&&◌ (ap₂ ◌&&◌ h.sane.0 h.sane.1) ((nat_beq_iff _ _).1 h.signatures))
                    (le→leb _ _ h.readonly_signed))
                  (le→leb _ _ h.readonly_unsigned))
                ((nat_beq_iff _ _).1 h.keys))
              (some_first l.account_keys k first_l))
            ((nat_beq_iff _ _).1 h.count))
          (ap₂ key_beq first_l first_r ∙ str_beq_refl k))
        ((str_beq_iff _ _).1 h.blockhash))
      (SameFrom-same_instructions c l r 0 l.instructions r.instructions h.instructions)

-- What accepting a message means: both are messages, and do the same.
abbrev pub Accepts : Codec → Option Message → Option Message → Message → Type 0
Accepts c (some l) (some r) m = IsSame c l r × (r ≡ m)
Accepts c _ _ m = ⊥

same_decoded-Accepts :
    (c : Codec) (l r : Option Message) (m : Message)
    → (same_decoded c l r ≡ some m) ↔ Accepts c l r m
same_decoded-Accepts c none r m = (λ h. absurd (cc h), λ h. absurd h)
same_decoded-Accepts c (some l) none m = (λ h. absurd (cc h), λ h. absurd h)
same_decoded-Accepts c (some l) (some r) m = (
  λ h. elim (Bool-cases (same_messages c l r)) [
    | inl same ↦ (same_messages-IsSame c l r same, some_inj (rw same at h))
    | inr differ ↦ absurd (cc (rw differ at h))
  ],
  λ h. rw (IsSame-same_messages c l r h.0) (ap some h.1),
)

-- A message from a wallet is accepted exactly if both messages decode and are sane, require as many
-- signatures, the new one has at most as many read-only accounts of either kind, they have as many
-- keys, at least one, the same fee payer and blockhash, and as many instructions, each with the same
-- program and data, and the same accounts as far as both have some; what is returned is the new one.
pub is_same_message_logic-Accepts :
    (c : Codec) (l r : List ℕ) (m : Message)
    → (is_same_message_logic c l r ≡ some m) ↔ Accepts c (c.deserialize l) (c.deserialize r) m
unfolding is_same_message_logic
is_same_message_logic-Accepts c l r m = same_decoded-Accepts c (c.deserialize l) (c.deserialize r) m
