-- ===== src/Server/SameLogic.antt =====
-- `is_same_message_logic` of lib/flow-lib/src/solana.rs: whether a message that a wallet sends back
-- does the same as the one it was asked to sign. Decoding, `sanitize` and `program_id` of the Solana
-- library are parameters.
pub mod Exactly
use flow_backend.Prelude.{
  ℕ, zero, suc, ◌+◌, ◌≤◌, ◌≡◌, ◌≢◌, refl, ◌∙◌, sym, ap, ◌↔◌, Bool, true, false, not, ◌&&◌, Option,
  none, some, List, [], ◌∷◌, length, get_elem?, head?, Str, str_beq, str_beq_iff, nat_beq,
  nat_beq_iff, leb, leb→le, map, arith, if◌then◌else◌, Bool-cases, inl, inr, false≢true, ap₂,
}

abbrev pub Pubkey : Type 0
Pubkey = Str

pub record Header : Type 0 where
  pub num_required_signatures : ℕ
  pub num_readonly_signed_accounts : ℕ
  pub num_readonly_unsigned_accounts : ℕ

pub record Instruction : Type 0 where
  pub program_id_index : ℕ
  pub accounts : List ℕ
  pub ix_data : List ℕ

pub record Message : Type 0 where
  pub header : Header
  pub account_keys : List Pubkey
  pub recent_blockhash : Str
  pub instructions : List Instruction

-- bincode and solana_sdk
pub record Codec : Type 0 where
  pub deserialize : List ℕ → Option Message
  pub sanitize : Message → Bool
  pub program_id : Message → ℕ → Option Pubkey

abbrev pub key_beq : Option Pubkey → Option Pubkey → Bool
key_beq none none = true
key_beq (some a) (some b) = str_beq a b
key_beq _ _ = false

-- A program that is missing on either side is an error.
abbrev pub same_program : Option Pubkey → Option Pubkey → Bool
same_program (some a) (some b) = str_beq a b
same_program _ _ = false

-- `zip` stops at the end of the shorter.
abbrev pub same_inputs : List (Option Pubkey) → List (Option Pubkey) → Bool
same_inputs (a ∷ xs) (b ∷ ys) = key_beq a b && same_inputs xs ys
same_inputs _ _ = true

abbrev pub inputs : Message → Instruction → List (Option Pubkey)
inputs m i = map (λ a. get_elem? m.account_keys a) i.accounts

-- l.instructions[i] and r.instructions[i], from an index on.
abbrev pub same_instructions :
    Codec → Message → Message → ℕ → List Instruction → List Instruction → Bool
same_instructions c l r i (il ∷ ils) (ir ∷ irs) =
    same_program (c.program_id l i) (c.program_id r i)
    && str_beq il.ix_data ir.ix_data
    && same_inputs (inputs l il) (inputs r ir)
    && same_instructions c l r (suc i) ils irs
same_instructions c l r i _ _ = true

unfoldable pub same_messages : Codec → Message → Message → Bool
same_messages c l r =
    c.sanitize l
    && c.sanitize r
    && nat_beq l.header.num_required_signatures r.header.num_required_signatures
    && leb r.header.num_readonly_signed_accounts l.header.num_readonly_signed_accounts
    && leb r.header.num_readonly_unsigned_accounts l.header.num_readonly_unsigned_accounts
    && nat_beq (length l.account_keys) (length r.account_keys)
    && not (nat_beq (length l.account_keys) 0)
    && nat_beq (length l.instructions) (length r.instructions)
    && key_beq (head? l.account_keys) (head? r.account_keys)
    && str_beq l.recent_blockhash r.recent_blockhash
    && same_instructions c l r 0 l.instructions r.instructions

abbrev pub same_decoded : Codec → Option Message → Option Message → Option Message
same_decoded c (some l) (some r) = if same_messages c l r then some r else none
same_decoded c _ _ = none

-- `none` is an error; which of them is only told to the user.
unfoldable pub is_same_message_logic : Codec → List ℕ → List ℕ → Option Message
unfolding same_messages
is_same_message_logic c l r = same_decoded c (c.deserialize l) (c.deserialize r)
