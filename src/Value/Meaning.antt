-- ===== src/Value/Meaning.antt =====
-- What `Value::normalize` of lib/flow-value/src/lib.rs keeps of a value.
use flow_backend.Prelude.{
  ℕ, ◌<◌, ◌≤◌, ◌^◌, ◌≡◌, ◌≢◌, refl, ◌∙◌, sym, subst, some, some_inj, ltb→lt, ltb_false→le, nat_beq,
  nat_beq_iff, false≢true, Bool-cases, inl, inr, ◌>>=◌, >>=-eq-some,
}
use flow_backend.Prelude.Int.{ℤ, pos, negsuc}
use flow_backend.Value.{Decimal, Value, Values, Map}
use flow_backend.Value.Normalize.{
  DecimalOps, fits_u64, fits_negative, normalize_i128, normalize_u128, normalize_decimal, normalize,
  normalize_all, normalize_map,
}

-- An integer that needs 128 bits: neither a u64 nor a negative i64.
abbrev pub IsLarge : ℤ → Type 0
IsLarge (pos n) = 2 ^ 64 ≤ n
IsLarge (negsuc n) = 2 ^ 63 ≤ n

-- The value is the integer, as a u64 or a negative i64 if it is one.
abbrev pub IsInteger : ℤ → Value → Type 0
IsInteger i (Value.u64 n) = (i ≡ pos n) × (n < 2 ^ 64)
IsInteger i (Value.i64 j) = (n : ℕ) × (i ≡ negsuc n) × (j ≡ negsuc n) × (n < 2 ^ 63)
IsInteger i (Value.i128 j) = (i ≡ j) × IsLarge j
IsInteger i (Value.u128 n) = (i ≡ pos n) × (2 ^ 64 ≤ n)
IsInteger i _ = ⊥

-- A decimal with no fraction left is its integer.
abbrev pub IsDecimal : DecimalOps → Decimal → Value → Type 0
IsDecimal ops d w =
    (d.scale ≡ 0 → (i : ℤ) × (ops.to_i128 d ≡ some i) × IsInteger i w)
    × (d.scale ≢ 0 → w ≡ Value.decimal d)

abbrev mutual
  -- The second value is what the first becomes.
  pub IsNormal : DecimalOps → Value → Value → Type 0
  IsNormal ops (Value.u128 n) w = IsInteger (pos n) w
  IsNormal ops (Value.i128 i) w = IsInteger i w
  IsNormal ops (Value.decimal d) w = IsDecimal ops (ops.normalize_assign d) w
  IsNormal ops (Value.array vs) w = (ws : Values) × (w ≡ Value.array ws) × AreNormal ops vs ws
  IsNormal ops (Value.map m) w = (n : Map) × (w ≡ Value.map n) × HasNormal ops m n
  IsNormal ops v w = w ≡ v

  pub AreNormal : DecimalOps → Values → Values → Type 0
  AreNormal ops Values.nil ws = ws ≡ Values.nil
  AreNormal ops (Values.cons v vs) ws =
      (x : Value) × (xs : Values) × (ws ≡ Values.cons x xs) × IsNormal ops v x × AreNormal ops vs xs

  -- The keys stay, in their order.
  pub HasNormal : DecimalOps → Map → Map → Type 0
  HasNormal ops Map.empty n = n ≡ Map.empty
  HasNormal ops (Map.entry k v m) n =
      (x : Value) × (r : Map) × (n ≡ Map.entry k x r) × IsNormal ops v x × HasNormal ops m r

normalize_i128-IsInteger : (i : ℤ) → IsInteger i (normalize_i128 i)
unfolding normalize_i128
normalize_i128-IsInteger (pos n) = elim (Bool-cases (fits_u64 n)) [
  | inl fits ↦ rw fits (refl, ltb→lt n (2 ^ 64) fits)
  | inr large ↦ rw large (refl, ltb_false→le n (2 ^ 64) large)
]
normalize_i128-IsInteger (negsuc n) = elim (Bool-cases (fits_negative n)) [
  | inl fits ↦ rw fits (n, refl, refl, ltb→lt n (2 ^ 63) fits)
  | inr large ↦ rw large (refl, ltb_false→le n (2 ^ 63) large)
]

normalize_u128-IsInteger : (n : ℕ) → IsInteger (pos n) (normalize_u128 n)
unfolding normalize_u128
normalize_u128-IsInteger n = elim (Bool-cases (fits_u64 n)) [
  | inl fits ↦ rw fits (refl, ltb→lt n (2 ^ 64) fits)
  | inr large ↦ rw large (refl, ltb_false→le n (2 ^ 64) large)
]

normalize_decimal-IsDecimal :
    (ops : DecimalOps) (d : Decimal) (w : Value)
    → normalize_decimal ops d ≡ some w
    → IsDecimal ops (ops.normalize_assign d) w
unfolding normalize_decimal
normalize_decimal-IsDecimal ops d w h =
    let d' = ops.normalize_assign d in
    elim (Bool-cases (nat_beq d'.scale 0)) [
      | inl whole ↦
          let read : (ops.to_i128 d' >>= λ i. some (normalize_i128 i)) ≡ some w = rw whole at h in
          let (i, e, last) = >>=-eq-some (ops.to_i128 d') (λ i. some (normalize_i128 i)) read in
          (
            λ zero_scale. (i, e, subst (IsInteger i) (some_inj last) (normalize_i128-IsInteger i)),
            λ fraction. absurd (fraction ((nat_beq_iff d'.scale 0).0 whole)),
          )
      | inr part ↦
          let kept : some (Value.decimal d') ≡ some w = rw part at h in
          (
            λ zero_scale. absurd (false≢true (sym part ∙ (nat_beq_iff d'.scale 0).1 zero_scale)),
            λ fraction. sym (some_inj kept),
          )
    ]

mutual
  unfolding normalize

  value-IsNormal : (ops : DecimalOps) (v w : Value) → normalize ops v ≡ some w → IsNormal ops v w
  value-IsNormal ops (Value.decimal d) w h = normalize_decimal-IsDecimal ops d w h
  value-IsNormal ops (Value.i128 i) w h =
      subst (IsInteger i) (some_inj h) (normalize_i128-IsInteger i)
  value-IsNormal ops (Value.u128 n) w h =
      subst (IsInteger (pos n)) (some_inj h) (normalize_u128-IsInteger n)
  value-IsNormal ops (Value.array vs) w h =
      let (ws, e, last) = >>=-eq-some (normalize_all ops vs) (λ ws. some (Value.array ws)) h in
      (ws, sym (some_inj last), normalize_all-AreNormal ops vs ws e)
  value-IsNormal ops (Value.map m) w h =
      let (n, e, last) = >>=-eq-some (normalize_map ops m) (λ n. some (Value.map n)) h in
      (n, sym (some_inj last), normalize_map-HasNormal ops m n e)
  value-IsNormal ops Value.null w h = sym (some_inj h)
  value-IsNormal ops (Value.string s) w h = sym (some_inj h)
  value-IsNormal ops (Value.bool b) w h = sym (some_inj h)
  value-IsNormal ops (Value.u64 n) w h = sym (some_inj h)
  value-IsNormal ops (Value.i64 i) w h = sym (some_inj h)
  value-IsNormal ops (Value.f64 x) w h = sym (some_inj h)
  value-IsNormal ops (Value.b32 b) w h = sym (some_inj h)
  value-IsNormal ops (Value.b64 b) w h = sym (some_inj h)
  value-IsNormal ops (Value.bytes b) w h = sym (some_inj h)

  normalize_all-AreNormal :
      (ops : DecimalOps) (vs ws : Values) → normalize_all ops vs ≡ some ws → AreNormal ops vs ws
  normalize_all-AreNormal ops Values.nil ws h = sym (some_inj h)
  normalize_all-AreNormal ops (Values.cons v vs) ws h =
      let (x, e, rest) =
        >>=-eq-some (normalize ops v) (λ w. normalize_all ops vs >>= λ ws. some (Values.cons w ws))
          h in
      let (xs, es, last) =
        >>=-eq-some (normalize_all ops vs) (λ ws. some (Values.cons x ws)) rest in
      (x, xs, sym (some_inj last), value-IsNormal ops v x e, normalize_all-AreNormal ops vs xs es)

  normalize_map-HasNormal :
      (ops : DecimalOps) (m n : Map) → normalize_map ops m ≡ some n → HasNormal ops m n
  normalize_map-HasNormal ops Map.empty n h = sym (some_inj h)
  normalize_map-HasNormal ops (Map.entry k v m) n h =
      let (x, e, rest) =
        >>=-eq-some (normalize ops v) (λ w. normalize_map ops m >>= λ n. some (Map.entry k w n))
          h in
      let (r, er, last) = >>=-eq-some (normalize_map ops m) (λ n. some (Map.entry k x n)) rest in
      (x, r, sym (some_inj last), value-IsNormal ops v x e, normalize_map-HasNormal ops m r er)

-- What `normalize` returns for a value has the same arrays and maps in it, keys and order included,
-- and in them in place of each u128 and each i128 the same integer, in place of each decimal that
-- has no fraction once rust_decimal has normalized it the integer that rust_decimal gives for it,
-- each as a u64 or as a negative i64 exactly if it is one; in place of any other decimal its
-- normalized form; and everything else as it was.
pub normalize-IsNormal :
    (ops : DecimalOps) (v w : Value) → normalize ops v ≡ some w → IsNormal ops v w
normalize-IsNormal ops v w h = value-IsNormal ops v w h
