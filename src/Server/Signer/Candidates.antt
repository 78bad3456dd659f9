-- ===== src/Server/Signer/Candidates.antt =====
-- Which wallets `fetch` of crates/flow-server/src/db_worker/signer.rs chooses from.
use flow_backend.Prelude.{
  ℕ, ◌≡◌, refl, Option, none, some, List, [], ◌∷◌, ◌++◌, if◌then◌else◌, Bool-cases, Option-cases,
  inl, inr, ◌>>=◌,
}
use flow_backend.Server.RunWorker.{UserId}
use flow_backend.Server.Signer.{
  Pubkey, Sender, Curve, SignerType, keypair, user_wallet, Wallet, key_signer, wallet_signer,
  signer_of,
}

module _ {Keypair : Type 0} (curve : Curve Keypair) where
  abbrev pub Candidates : Type 0
  Candidates = List (Pubkey × SignerType Keypair)

  abbrev pub found : Pubkey → Option (SignerType Keypair) → Candidates
  found pk none = []
  found pk (some s) = (pk, s) ∷ []

  abbrev pub read_keypair : Pubkey → Option Keypair → Candidates
  read_keypair pk none = []
  read_keypair pk (some k) = (pk, keypair k) ∷ []

  -- What a wallet on the curve signs with: its user, or its keypair if the bytes are one.
  abbrev pub signs : UserId → Sender → Pubkey → Option (List ℕ) → Candidates
  signs user_id sender pk none = (pk, user_wallet user_id sender) ∷ []
  signs user_id sender pk (some bytes) =
      if curve.is_consistent bytes then read_keypair pk (curve.from_bytes bytes) else []

  -- The wallets on the curve, as signers, in order.
  abbrev pub of_user : UserId → Sender → List Wallet → Candidates
  of_user user_id sender [] = []
  of_user user_id sender (w ∷ ws) =
      (if curve.is_on_curve w.pubkey then signs user_id sender w.pubkey w.keypair_bytes else [])
      ++ of_user user_id sender ws

  abbrev pub candidates :
      (UserId → Option (List Wallet)) → List (UserId × Sender) → Option Candidates
  candidates get_wallets [] = some []
  candidates get_wallets ((user_id, sender) ∷ users) = get_wallets user_id >>= λ ws.
      candidates get_wallets users >>= λ rest. some (of_user user_id sender ws ++ rest)

  found-key_signer :
      (pk : Pubkey) (bytes : List ℕ) (user_id : UserId) (sender : Sender)
      → found pk (key_signer curve bytes) ≡ signs user_id sender pk (some bytes)
  found-key_signer pk bytes user_id sender = elim (Bool-cases (curve.is_consistent bytes)) [
    | inl is_pair ↦ rw is_pair (elim (Option-cases (curve.from_bytes bytes)) [
      | inl e ↦ rw e refl
      | inr (k, e) ↦ rw e refl
    ])
    | inr is_none ↦ rw is_none refl
  ]

  found-wallet_signer :
      (pk : Pubkey) (user_id : UserId) (sender : Sender) (bytes : Option (List ℕ))
      → found pk (wallet_signer curve user_id sender bytes) ≡ signs user_id sender pk bytes
  found-wallet_signer pk user_id sender none = refl
  found-wallet_signer pk user_id sender (some bytes) = found-key_signer pk bytes user_id sender

  -- `signer_of` skips the wallets that are not on the curve or whose keypair is none.
  pub found-signer_of :
      (user_id : UserId) (sender : Sender) (w : Wallet)
      → found w.pubkey (signer_of curve user_id sender w)
        ≡ (if curve.is_on_curve w.pubkey then signs user_id sender w.pubkey w.keypair_bytes else [])
  unfolding signer_of
  found-signer_of user_id sender w = elim (Bool-cases (curve.is_on_curve w.pubkey)) [
    | inl on ↦ rw on (found-wallet_signer w.pubkey user_id sender w.keypair_bytes)
    | inr off ↦ rw off refl
  ]
