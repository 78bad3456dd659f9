-- ===== src/Server/Signer.antt =====
-- `SignerWorker` of crates/flow-server/src/db_worker/signer.rs: which wallet or keypair signs for a
-- public key. Keys, messages and signatures are bytes; the curve is a parameter.
pub mod Candidates
pub mod Fetch
use flow_backend.Prelude.{
  ℕ, Bool, true, false, not, Option, none, some, List, [], ◌∷◌, ◌++◌, Str, str_eq, if◌then◌else◌,
  ◌>>=◌,
}
use flow_backend.Prelude.Assoc
use flow_backend.Prelude.Assoc.{Assoc}
use flow_backend.Server.RunWorker.{UserId}

abbrev pub Pubkey : Type 0
Pubkey = Str

-- Where to send requests: an actor's recipient.
abbrev pub Sender : Type 0
Sender = ℕ

-- ed25519_dalek and solana_sdk
pub record Curve (Keypair : Type 0) : Type 0 where
  pub is_on_curve : Pubkey → Bool
  -- SigningKey::from_keypair_bytes(..).is_ok()
  pub is_consistent : List ℕ → Bool
  pub from_bytes : List ℕ → Option Keypair
  pub sign_message : Keypair → List ℕ → List ℕ

pub data SignerType (Keypair : Type 0) : Type 0 where
  keypair : Keypair → SignerType Keypair
  user_wallet : UserId → Sender → SignerType Keypair

pub record Wallet : Type 0 where
  pub id : ℕ
  pub pubkey : Pubkey
  pub keypair_bytes : Option (List ℕ)

pub record SignatureRequest : Type 0 where
  pub pubkey : Pubkey
  pub message : List ℕ

-- A response at once, a request that is passed on, or the error for a key that is not known.
pub data Signing : Type 0 where
  signature : List ℕ → Signing
  forward : Sender → SignatureRequest → Signing
  unknown : Pubkey → Signing

module _ {Keypair : Type 0} (curve : Curve Keypair) where
  abbrev pub Signers : Type 0
  Signers = Assoc Pubkey (SignerType Keypair)

  abbrev pub sign_with : Option (SignerType Keypair) → SignatureRequest → Signing
  sign_with none msg = unknown msg.pubkey
  sign_with (some (keypair k)) msg = signature (curve.sign_message k msg.message)
  sign_with (some (user_wallet user_id sender)) msg = forward sender msg

  -- Handler<SignatureRequest>
  unfoldable pub handle : Signers → SignatureRequest → Signing
  handle signers msg = sign_with (Assoc.get signers msg.pubkey) msg

  -- The signer that a wallet is; `none` is one that is skipped.
  abbrev pub key_signer : List ℕ → Option (SignerType Keypair)
  key_signer bytes =
      if not (curve.is_consistent bytes)
      then none
      else curve.from_bytes bytes >>= λ k. some (keypair k)

  abbrev pub wallet_signer : UserId → Sender → Option (List ℕ) → Option (SignerType Keypair)
  wallet_signer user_id sender none = some (user_wallet user_id sender)
  wallet_signer user_id sender (some bytes) = key_signer bytes

  unfoldable pub signer_of : UserId → Sender → Wallet → Option (SignerType Keypair)
  signer_of user_id sender w =
      if not (curve.is_on_curve w.pubkey)
      then none
      else wallet_signer user_id sender w.keypair_bytes

  abbrev pub place_at :
      Signers → Pubkey → SignerType Keypair → Option (SignerType Keypair) → Signers
  place_at signers pk s none = Assoc.insert signers pk s
  place_at signers pk (keypair k) (some (user_wallet user_id sender)) =
      Assoc.insert signers pk (keypair k)
  place_at signers pk s (some _) = signers

  unfoldable pub place : Signers → Pubkey → SignerType Keypair → Signers
  place signers pk s = place_at signers pk s (Assoc.get signers pk)

  abbrev pub place_found : Signers → Pubkey → Option (SignerType Keypair) → Signers
  place_found signers pk none = signers
  place_found signers pk (some s) = place signers pk s

  unfoldable pub add_wallets : Signers → UserId → Sender → List Wallet → Signers
  unfolding place signer_of
  add_wallets signers user_id sender [] = signers
  add_wallets signers user_id sender (w ∷ ws) =
      add_wallets (place_found signers w.pubkey (signer_of user_id sender w)) user_id sender ws

module _ {Keypair : Type 0} (curve : Curve Keypair)
    (get_wallets : UserId → Option (List Wallet)) where
  -- An error of the database ends it.
  unfoldable pub add_users : Signers curve → List (UserId × Sender) → Option (Signers curve)
  unfolding add_wallets
  add_users signers [] = some signers
  add_users signers ((user_id, sender) ∷ users) = get_wallets user_id >>= λ wallets.
      add_users (add_wallets curve signers user_id sender wallets) users

  unfoldable pub fetch : List (UserId × Sender) → Option (Signers curve)
  unfolding add_users
  fetch users = add_users [] users
