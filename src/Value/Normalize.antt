-- ===== src/Value/Normalize.antt =====
-- `Value::normalize` of lib/flow-value/src/lib.rs. What rust_decimal does is a parameter.
use flow_backend.Prelude.{
  ℕ, Bool, ◌^◌, ◌≡◌, refl, Option, some, ltb, nat_beq, nat_beq_iff, if◌then◌else◌, ◌>>=◌,
  Bool-cases, inl, inr,
}
use flow_backend.Prelude.Int.{ℤ, pos, negsuc}
use flow_backend.Value.{Decimal, Value, Values, Map}

-- `normalize_assign` and `to_i128` of rust_decimal.
pub record DecimalOps : Type 0 where
  pub normalize_assign : Decimal → Decimal
  pub to_i128 : Decimal → Option ℤ

-- u64::try_from
abbrev pub fits_u64 : ℕ → Bool
fits_u64 n = ltb n (2 ^ 64)

-- i64::try_from of -(n + 1)
abbrev pub fits_negative : ℕ → Bool
fits_negative n = ltb n (2 ^ 63)

unfoldable pub normalize_i128 : ℤ → Value
normalize_i128 (pos n) = if fits_u64 n then Value.u64 n else Value.i128 (pos n)
normalize_i128 (negsuc n) = if fits_negative n then Value.i64 (negsuc n) else Value.i128 (negsuc n)

unfoldable pub normalize_u128 : ℕ → Value
normalize_u128 n = if fits_u64 n then Value.u64 n else Value.u128 n

-- `none` is the panic of `expect("always fit into i128")`.
unfoldable pub normalize_decimal : DecimalOps → Decimal → Option Value
unfolding normalize_i128
normalize_decimal ops d =
    let d' = ops.normalize_assign d in
    if nat_beq d'.scale 0
    then (ops.to_i128 d' >>= λ i. some (normalize_i128 i))
    else some (Value.decimal d')

unfoldable mutual
  unfolding normalize_i128 normalize_u128 normalize_decimal

  pub normalize : DecimalOps → Value → Option Value
  normalize ops (Value.decimal d) = normalize_decimal ops d
  normalize ops (Value.i128 i) = some (normalize_i128 i)
  normalize ops (Value.u128 n) = some (normalize_u128 n)
  normalize ops (Value.array vs) = normalize_all ops vs >>= λ ws. some (Value.array ws)
  normalize ops (Value.map m) = normalize_map ops m >>= λ n. some (Value.map n)
  normalize ops v = some v

  pub normalize_all : DecimalOps → Values → Option Values
  normalize_all ops Values.nil = some Values.nil
  normalize_all ops (Values.cons v vs) =
      normalize ops v >>= λ w. normalize_all ops vs >>= λ ws. some (Values.cons w ws)

  pub normalize_map : DecimalOps → Map → Option Map
  normalize_map ops Map.empty = some Map.empty
  normalize_map ops (Map.entry k v m) =
      normalize ops v >>= λ w. normalize_map ops m >>= λ n. some (Map.entry k w n)

-- What the code relies on: normalizing a decimal twice is normalizing it once, and one with no
-- fraction left is an i128.
pub record AreLawful (ops : DecimalOps) : Type 0 where
  pub idem : (d : Decimal) → ops.normalize_assign (ops.normalize_assign d) ≡ ops.normalize_assign d
  pub fits :
      (d : Decimal)
      → (ops.normalize_assign d).scale ≡ 0
      → (i : ℤ) × (ops.to_i128 (ops.normalize_assign d) ≡ some i)

-- Normalizing returns a value, and normalizing that value changes nothing.
abbrev Settles : DecimalOps → Value → Type 0
Settles ops v = (w : Value) × (normalize ops v ≡ some w) × (normalize ops w ≡ some w)

i128_again : (ops : DecimalOps) (i : ℤ) → normalize ops (normalize_i128 i) ≡ some (normalize_i128 i)
unfolding normalize_i128 normalize
i128_again ops (pos n) = elim (Bool-cases (fits_u64 n)) [ inl h ↦ rw h | inr h ↦ rw (h, h) ]
i128_again ops (negsuc n) = elim (Bool-cases (fits_negative n)) [ inl h ↦ rw h | inr h ↦ rw (h, h) ]

u128_again : (ops : DecimalOps) (n : ℕ) → normalize ops (normalize_u128 n) ≡ some (normalize_u128 n)
unfolding normalize_u128 normalize
u128_again ops n = elim (Bool-cases (fits_u64 n)) [ inl h ↦ rw h | inr h ↦ rw (h, h) ]

decimal-Settles : (ops : DecimalOps) → AreLawful ops → (d : Decimal) → Settles ops (Value.decimal d)
unfolding normalize normalize_decimal
decimal-Settles ops laws d = elim (Bool-cases (nat_beq (ops.normalize_assign d).scale 0)) [
  | inl h ↦
      let (i, e) = laws.fits d ((nat_beq_iff _ 0).0 h) in
      (normalize_i128 i, rw (h, e), i128_again ops i)
  | inr h ↦ (Value.decimal (ops.normalize_assign d), rw h, rw (laws.idem d, h))
]

mutual
  unfolding normalize

  value_twice :
      (ops : DecimalOps)
      → AreLawful ops
      → (v : Value) → (w : Value) × (normalize ops v ≡ some w) × (normalize ops w ≡ some w)
  value_twice ops laws (Value.decimal d) = decimal-Settles ops laws d
  value_twice ops laws (Value.i128 i) = (normalize_i128 i, refl, i128_again ops i)
  value_twice ops laws (Value.u128 n) = (normalize_u128 n, refl, u128_again ops n)
  value_twice ops laws (Value.array vs) =
      let (ws, e, again) = all_twice ops laws vs in (Value.array ws, rw e, rw again)
  value_twice ops laws (Value.map m) =
      let (n, e, again) = map_twice ops laws m in (Value.map n, rw e, rw again)
  value_twice ops laws Value.null = (_, refl, refl)
  value_twice ops laws (Value.string s) = (_, refl, refl)
  value_twice ops laws (Value.bool b) = (_, refl, refl)
  value_twice ops laws (Value.u64 n) = (_, refl, refl)
  value_twice ops laws (Value.i64 i) = (_, refl, refl)
  value_twice ops laws (Value.f64 x) = (_, refl, refl)
  value_twice ops laws (Value.b32 b) = (_, refl, refl)
  value_twice ops laws (Value.b64 b) = (_, refl, refl)
  value_twice ops laws (Value.bytes b) = (_, refl, refl)

  all_twice :
      (ops : DecimalOps)
      → AreLawful ops
      → (vs : Values)
      → (ws : Values) × (normalize_all ops vs ≡ some ws) × (normalize_all ops ws ≡ some ws)
  all_twice ops laws Values.nil = (Values.nil, refl, refl)
  all_twice ops laws (Values.cons v vs) =
      let (w, e, again) = value_twice ops laws v in
      let (ws, es, agains) = all_twice ops laws vs in
      (Values.cons w ws, rw (e, es), rw (again, agains))

  map_twice :
      (ops : DecimalOps)
      → AreLawful ops
      → (m : Map) → (n : Map) × (normalize_map ops m ≡ some n) × (normalize_map ops n ≡ some n)
  map_twice ops laws Map.empty = (Map.empty, refl, refl)
  map_twice ops laws (Map.entry k v m) =
      let (w, e, again) = value_twice ops laws v in
      let (n, es, agains) = map_twice ops laws m in
      (Map.entry k w n, rw (e, es), rw (again, agains))

-- If what rust_decimal does is lawful, `normalize` returns a value for every value, whatever is
-- inside it, and normalizing that value returns it unchanged.
pub normalize_twice :
    (ops : DecimalOps)
    → AreLawful ops
    → (v : Value) → (w : Value) × (normalize ops v ≡ some w) × (normalize ops w ≡ some w)
normalize_twice = value_twice
