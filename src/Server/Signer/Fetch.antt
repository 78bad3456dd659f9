-- ===== src/Server/Signer/Fetch.antt =====
-- Which signer a public key gets, of all the wallets of all the users.
use flow_backend.Prelude.{
  str_beq_refl, str_beq→eq, subst, Option-cases, false, ◌≡◌, refl, ◌∙◌, sym, ap, Option, none, some,
  List, [], ◌∷◌, ◌++◌, str_eq, str_beq, if◌then◌else◌, Bool-cases, inl, inr, arith, ◌>>=◌,
}
use flow_backend.Prelude.Assoc
use flow_backend.Prelude.Assoc.{Assoc}
use flow_backend.Server.RunWorker.{UserId}
use flow_backend.Server.Signer.Candidates.{Candidates, found, of_user, candidates, found-signer_of}
use flow_backend.Server.Signer.{
  Pubkey, Sender, Curve, SignerType, keypair, user_wallet, Wallet, Signers, signer_of, place_at,
  place, place_found, add_wallets, add_users, fetch,
}

module _ {Keypair : Type 0} (curve : Curve Keypair) where
  -- The first keypair for a public key.
  abbrev pub first_keypair : Candidates curve → Pubkey → Option (SignerType Keypair)
  first_keypair [] pk = none
  first_keypair ((q, keypair k) ∷ cs) pk =
      if str_beq q pk then some (keypair k) else first_keypair cs pk
  first_keypair ((q, user_wallet user_id sender) ∷ cs) pk = first_keypair cs pk

  abbrev pub first_signer : Candidates curve → Pubkey → Option (SignerType Keypair)
  first_signer [] pk = none
  first_signer ((q, s) ∷ cs) pk = if str_beq q pk then some s else first_signer cs pk

  abbrev or_else :
      Option (SignerType Keypair) → Option (SignerType Keypair) → Option (SignerType Keypair)
  or_else none b = b
  or_else (some a) b = some a

  -- The first keypair for a public key, or else the first wallet.
  abbrev pub best : Candidates curve → Pubkey → Option (SignerType Keypair)
  best cs pk = or_else (first_keypair cs pk) (first_signer cs pk)

  -- What there is for a key, with more candidates.
  abbrev with_more :
      Option (SignerType Keypair) → Candidates curve → Pubkey → Option (SignerType Keypair)
  with_more none cs pk = best cs pk
  with_more (some (keypair k)) cs pk = some (keypair k)
  with_more (some (user_wallet user_id sender)) cs pk =
      or_else (first_keypair cs pk) (some (user_wallet user_id sender))

  abbrev place_all : Signers curve → Candidates curve → Signers curve
  place_all signers [] = signers
  place_all signers ((pk, s) ∷ cs) = place_all (place curve signers pk s) cs

  abbrev merge : Option (SignerType Keypair) → SignerType Keypair → Option (SignerType Keypair)
  merge none s = some s
  merge (some (user_wallet user_id sender)) (keypair k) = some (keypair k)
  merge (some t) s = some t

  with_none : (o : Option (SignerType Keypair)) (pk : Pubkey) → o ≡ with_more o [] pk
  with_none none pk = refl
  with_none (some (keypair k)) pk = refl
  with_none (some (user_wallet u a)) pk = refl

  with_more-step :
      (o : Option (SignerType Keypair)) (q : Pubkey) (s : SignerType Keypair)
      (cs : Candidates curve) (pk : Pubkey)
      → with_more o ((q, s) ∷ cs) pk ≡ with_more (if str_beq q pk then merge o s else o) cs pk
  with_more-step none q (keypair k) cs pk = elim (Bool-cases (str_beq q pk)) [
    | inl same ↦ rw same refl
    | inr other ↦ rw other refl
  ]
  with_more-step none q (user_wallet u a) cs pk = elim (Bool-cases (str_beq q pk)) [
    | inl same ↦ rw same refl
    | inr other ↦ rw other refl
  ]
  with_more-step (some (keypair j)) q (keypair k) cs pk = ground arith
  with_more-step (some (keypair j)) q (user_wallet u a) cs pk = ground arith
  with_more-step (some (user_wallet v b)) q (keypair k) cs pk = elim (Bool-cases (str_beq q pk)) [
    | inl same ↦ rw same refl
    | inr other ↦ rw other refl
  ]
  with_more-step (some (user_wallet v b)) q (user_wallet u a) cs pk = ground arith

  get-place_at :
      (signers : Signers curve) (q : Pubkey) (s : SignerType Keypair)
      (o : Option (SignerType Keypair))
      → Assoc.get signers q ≡ o
      → Assoc.get (place_at curve signers q s o) q ≡ merge o s
  get-place_at signers q s none e = Assoc.get-insert signers q s q ∙ rw (str_beq_refl q) refl
  get-place_at signers q (keypair k) (some (user_wallet u a)) e =
      Assoc.get-insert signers q (keypair k) q ∙ rw (str_beq_refl q) refl
  get-place_at signers q (user_wallet v b) (some (user_wallet u a)) e = e
  get-place_at signers q (keypair k) (some (keypair j)) e = e
  get-place_at signers q (user_wallet v b) (some (keypair j)) e = e

  get-place_other :
      (signers : Signers curve) (q : Pubkey) (s : SignerType Keypair)
      (o : Option (SignerType Keypair)) (pk : Pubkey)
      → str_beq q pk ≡ false
      → Assoc.get (place_at curve signers q s o) pk ≡ Assoc.get signers pk
  get-place_other signers q s none pk other = Assoc.get-insert signers q s pk ∙ rw other refl
  get-place_other signers q (keypair k) (some (user_wallet u a)) pk other =
      Assoc.get-insert signers q (keypair k) pk ∙ rw other refl
  get-place_other signers q (user_wallet v b) (some (user_wallet u a)) pk other = refl
  get-place_other signers q (keypair k) (some (keypair j)) pk other = refl
  get-place_other signers q (user_wallet v b) (some (keypair j)) pk other = refl

  get-place :
      (signers : Signers curve) (q : Pubkey) (s : SignerType Keypair) (pk : Pubkey)
      → Assoc.get (place curve signers q s) pk
        ≡ (if str_beq q pk then merge (Assoc.get signers pk) s else Assoc.get signers pk)
  unfolding place
  get-place signers q s pk = elim (Bool-cases (str_beq q pk)) [
    | inl same ↦
        let at_q : Assoc.get (place_at curve signers q s (Assoc.get signers q)) q
            ≡ merge (Assoc.get signers q) s =
          get-place_at signers q s (Assoc.get signers q) refl in
        rw same (
          subst
            (λ k.
              Assoc.get (place_at curve signers q s (Assoc.get signers q)) k
              ≡ merge (Assoc.get signers k) s)
            (str_beq→eq q pk same) at_q)
    | inr other ↦ rw other (get-place_other signers q s (Assoc.get signers q) pk other)
  ]

  get-place_all :
      (signers : Signers curve) (cs : Candidates curve) (pk : Pubkey)
      → Assoc.get (place_all signers cs) pk ≡ with_more (Assoc.get signers pk) cs pk
  get-place_all signers [] pk = with_none (Assoc.get signers pk) pk
  get-place_all signers ((q, s) ∷ cs) pk =
      get-place_all (place curve signers q s) cs pk
      ∙ ap (λ o. with_more o cs pk) (get-place signers q s pk)
      ∙ sym (with_more-step (Assoc.get signers pk) q s cs pk)

  place_all-append :
      (signers : Signers curve) (cs ds : Candidates curve)
      → place_all signers (cs ++ ds) ≡ place_all (place_all signers cs) ds
  place_all-append signers [] ds = refl
  place_all-append signers ((q, s) ∷ cs) ds = place_all-append (place curve signers q s) cs ds

  place_found-candidates :
      (signers : Signers curve) (pk : Pubkey) (o : Option (SignerType Keypair))
      → place_found curve signers pk o ≡ place_all signers (found curve pk o)
  place_found-candidates signers pk none = refl
  place_found-candidates signers pk (some s) = refl

  add_wallets-candidates :
      (signers : Signers curve) (user_id : UserId) (sender : Sender) (ws : List Wallet)
      → add_wallets curve signers user_id sender ws
        ≡ place_all signers (of_user curve user_id sender ws)
  unfolding add_wallets
  add_wallets-candidates signers user_id sender [] = refl
  add_wallets-candidates signers user_id sender (w ∷ ws) =
      let o = signer_of curve user_id sender w in
      add_wallets-candidates (place_found curve signers w.pubkey o) user_id sender ws
      ∙ ap (λ m. place_all m (of_user curve user_id sender ws))
          (place_found-candidates signers w.pubkey o)
      ∙ sym (place_all-append signers (found curve w.pubkey o) (of_user curve user_id sender ws))
      ∙ ap (λ cs. place_all signers (cs ++ of_user curve user_id sender ws))
          (found-signer_of curve user_id sender w)

  add_wallets-rest :
      (signers : Signers curve) (user_id : UserId) (sender : Sender) (ws : List Wallet)
      (o : Option (Candidates curve))
      → (o >>= λ cs. some (place_all (add_wallets curve signers user_id sender ws) cs)) ≡ (
          (o >>= λ rest. some (of_user curve user_id sender ws ++ rest)) >>= λ cs.
          some (place_all signers cs))
  add_wallets-rest signers user_id sender ws none = refl
  add_wallets-rest signers user_id sender ws (some cs) =
      ap (λ m. some (place_all m cs)) (add_wallets-candidates signers user_id sender ws)
      ∙ ap some (sym (place_all-append signers (of_user curve user_id sender ws) cs))

  -- What fetching returns: an error if a user's wallets could not be had, or the best signer for each
  -- public key.
  abbrev pub IsFetched : Option (Candidates curve) → Option (Signers curve) → Type 0
  IsFetched none r = r ≡ none
  IsFetched (some cs) r =
      (signers : Signers curve) × (r ≡ some signers)
      × ((pk : Pubkey) → Assoc.get signers pk ≡ best cs pk)

  placed-IsFetched :
      (o : Option (Candidates curve)) → IsFetched o (o >>= λ cs. some (place_all [] cs))
  unfolding Assoc.get
  placed-IsFetched none = refl
  placed-IsFetched (some cs) = (place_all [] cs, refl, λ pk. get-place_all [] cs pk)

module _ {Keypair : Type 0} (curve : Curve Keypair)
    (get_wallets : UserId → Option (List Wallet)) where
  add_users-candidates :
      (signers : Signers curve) (users : List (UserId × Sender))
      → add_users curve get_wallets signers users
        ≡ (candidates curve get_wallets users >>= λ cs. some (place_all curve signers cs))
  unfolding add_users
  add_users-candidates signers [] = refl
  add_users-candidates signers ((user_id, sender) ∷ users) =
      elim (Option-cases (get_wallets user_id)) [
        | inl fails ↦ rw fails refl
        | inr (ws, e) ↦ rw e (
            add_users-candidates (add_wallets curve signers user_id sender ws) users
            ∙ add_wallets-rest curve signers user_id sender ws (candidates curve get_wallets users))
      ]

  -- A candidate is a wallet whose key is on the curve and that has no keypair bytes, which stands for
  -- its user, or whose keypair bytes are consistent and can be read. If the database gives the wallets
  -- of all users, `fetch` returns, and then a public key gets the first keypair among its candidates,
  -- or else the first of them, or else none; and if the database fails for a user, so does `fetch`.
  pub fetch-best :
      (users : List (UserId × Sender))
      → IsFetched curve (candidates curve get_wallets users) (fetch curve get_wallets users)
  unfolding fetch
  fetch-best users =
      subst (IsFetched curve (candidates curve get_wallets users))
        (sym (add_users-candidates [] users))
        (placed-IsFetched curve (candidates curve get_wallets users))
