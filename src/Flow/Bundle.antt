-- ===== src/Flow/Bundle.antt =====
-- `push_signer`, `set_feepayer` and `combine` of lib/flow-lib/src/solana.rs, and the part of
-- `collect_and_execute_instructions` of crates/flow/src/flow_graph.rs that bundles the
-- instructions of waiting nodes.
pub mod Slice
use flow_backend.Prelude.{
  ℕ, Bool, Option, none, some, List, [], ◌∷◌, ◌++◌, nat_beq, not, length, if◌then◌else◌,
}
use flow_backend.Flow.State.{Channel, Pubkey, Keypair, Instruction, Instructions, Waiting}

-- A hard-coded key takes the place of an adapter wallet.
unfoldable pub push_signer : List Keypair → Keypair → List Keypair
push_signer [] new = new ∷ []
push_signer (old ∷ more) new =
    let rest = push_signer more new in
    if nat_beq old.pubkey new.pubkey
    then (if old.is_adapter_wallet then new ∷ more else old ∷ more)
    else old ∷ rest

unfoldable pub push_signers : List Keypair → List Keypair → List Keypair
push_signers signers [] = signers
push_signers signers (new ∷ more) = push_signers (push_signer signers new) more

unfoldable pub set_feepayer : Instructions → Keypair → Instructions
set_feepayer ins signer = record ins {
  fee_payer = signer.pubkey;
  signers = push_signer ins.signers signer;
}

-- `none` where the source gives `next` back.
unfoldable pub combine : Instructions → Instructions → Option Instructions
combine self next =
    if nat_beq next.fee_payer self.fee_payer
    then some (record self {
      signers = push_signers self.signers next.signers;
      instructions = self.instructions ++ next.instructions;
    })
    else none

-- The range `start..end`.
pub record Responder : Type 0 where
  pub sender : Option Channel
  pub start : ℕ
  pub end : ℕ

pub record Bundle : Type 0 where
  pub ins : Instructions
  pub resp : List Responder
  pub rest : List Waiting

-- The waiting nodes in the order in which the source pops them.
unfoldable pub combine_all : Instructions → List Responder → List Waiting → Bundle
combine_all ins resp [] = record { ins = ins; resp = resp; rest = [] }
combine_all ins resp (w ∷ tx) = elim (combine ins w.instructions) [
  | none ↦ record { ins = ins; resp = resp; rest = w ∷ tx }
  | some combined ↦
      combine_all combined
        (resp
          ++ record {
            sender = w.resp;
            start = length ins.instructions;
            end = length combined.instructions;
          }
            ∷ [])
        tx
]

unfoldable pub overwrite : Option Keypair → Instructions → Instructions
overwrite none ins = ins
overwrite (some signer) ins = set_feepayer ins signer

unfoldable pub bundle : Option Keypair → Waiting → List Waiting → Bundle
bundle overwrite_feepayer w tx =
    let ins = overwrite overwrite_feepayer w.instructions in
    combine_all ins (record { sender = w.resp; start = 0; end = length ins.instructions } ∷ []) tx
