-- ===== src/Value/Json/RoundTrip.antt =====
-- What is kept when a value goes to JSON and back, and when JSON goes to a value and back.
use flow_backend.Prelude.{ℕ, ◌≡◌, refl, ◌∙◌, ap, ap₂, true, Option, none, some}
use flow_backend.Prelude.Int.{ℤ, pos, negsuc}
use flow_backend.Value.{Value, Values, Map}
use flow_backend.Value.Normalize.{fits_u64, fits_negative}
use flow_backend.Value.Json.{
  Json, Items, Fields, NumberOps, from_signed, from_integers, from_json, from_items, from_fields,
  to_json, to_items, to_fields,
}

-- What serde_json documents of its integers: they are read as they were written, a negative one is no
-- u64, and one that is no u64 but an i64 is negative.
pub record AreExact {Number : Type 0} (ops : NumberOps Number) : Type 0 where
  pub as_of_u64 : (n : ℕ) → fits_u64 n ≡ true → ops.as_u64 (ops.of_u64 n) ≡ some n
  pub as_of_i64 :
      (n : ℕ)
      → fits_negative n ≡ true
      → (ops.as_u64 (ops.of_i64 (negsuc n)) ≡ none)
        × (ops.as_i64 (ops.of_i64 (negsuc n)) ≡ some (negsuc n))
  pub of_as_u64 : (m : Number) (n : ℕ) → ops.as_u64 m ≡ some n → ops.of_u64 n ≡ m
  pub of_as_i64 :
      (m : Number) (i : ℤ)
      → ops.as_u64 m ≡ none
      → ops.as_i64 m ≡ some i
      → (n : ℕ) × (i ≡ negsuc n) × (ops.of_i64 (negsuc n) ≡ m)

-- Null, texts, booleans, 64-bit integers, and arrays and maps of these.
abbrev mutual
  pub IsPlain : Value → Type 0
  IsPlain (Value.u64 n) = fits_u64 n ≡ true
  IsPlain (Value.i64 (pos n)) = ⊥
  IsPlain (Value.i64 (negsuc n)) = fits_negative n ≡ true
  IsPlain (Value.array vs) = ArePlain vs
  IsPlain (Value.map m) = HasPlain m
  IsPlain Value.null = Unit
  IsPlain (Value.string s) = Unit
  IsPlain (Value.bool b) = Unit
  IsPlain _ = ⊥

  pub ArePlain : Values → Type 0
  ArePlain Values.nil = Unit
  ArePlain (Values.cons v vs) = IsPlain v × ArePlain vs

  pub HasPlain : Map → Type 0
  HasPlain Map.empty = Unit
  HasPlain (Map.entry k v m) = IsPlain v × HasPlain m

-- Every number is a u64 or an i64.
abbrev mutual
  pub IsIntegral : {Number : Type 0} → NumberOps Number → Json Number → Type 0
  IsIntegral ops (Json.number n) = ops.as_u64 n ≡ none → (i : ℤ) × (ops.as_i64 n ≡ some i)
  IsIntegral ops (Json.array js) = AreIntegral ops js
  IsIntegral ops (Json.object fs) = HasIntegral ops fs
  IsIntegral ops _ = Unit

  pub AreIntegral : {Number : Type 0} → NumberOps Number → Items Number → Type 0
  AreIntegral ops Items.nil = Unit
  AreIntegral ops (Items.cons j js) = IsIntegral ops j × AreIntegral ops js

  pub HasIntegral : {Number : Type 0} → NumberOps Number → Fields Number → Type 0
  HasIntegral ops Fields.done = Unit
  HasIntegral ops (Fields.field k j fs) = IsIntegral ops j × HasIntegral ops fs

module _ {Number : Type 0} (ops : NumberOps Number) (exact : AreExact ops) where
  mutual
    json_back : (v : Value) → IsPlain v → from_json ops (to_json ops v) ≡ v
    json_back Value.null h = refl
    json_back (Value.string s) h = refl
    json_back (Value.bool b) h = refl
    json_back (Value.u64 n) h =
        ap (λ o. from_integers ops (ops.of_u64 n) o (ops.as_i64 (ops.of_u64 n)))
          (exact.as_of_u64 n h)
    json_back (Value.i64 (pos n)) h = absurd h
    json_back (Value.i64 (negsuc n)) h =
        ap₂ (from_integers ops (ops.of_i64 (negsuc n))) (exact.as_of_i64 n h).0
          (exact.as_of_i64 n h).1
    json_back (Value.array vs) h = ap Value.array (items_back vs h)
    json_back (Value.map m) h = ap Value.map (fields_back m h)
    json_back (Value.f64 f) h = absurd h
    json_back (Value.decimal d) h = absurd h
    json_back (Value.u128 n) h = absurd h
    json_back (Value.i128 i) h = absurd h
    json_back (Value.b32 b) h = absurd h
    json_back (Value.b64 b) h = absurd h
    json_back (Value.bytes b) h = absurd h

    items_back : (vs : Values) → ArePlain vs → from_items ops (to_items ops vs) ≡ vs
    items_back Values.nil h = refl
    items_back (Values.cons v vs) h = ap₂ Values.cons (json_back v h.0) (items_back vs h.1)

    fields_back : (m : Map) → HasPlain m → from_fields ops (to_fields ops m) ≡ m
    fields_back Map.empty h = refl
    fields_back (Map.entry k v m) h = ap₂ (Map.entry k) (json_back v h.0) (fields_back m h.1)

  number_back :
      (n : Number) (u : Option ℕ) (i : Option ℤ)
      → ops.as_u64 n ≡ u
      → ops.as_i64 n ≡ i
      → (u ≡ none → (j : ℤ) × (i ≡ some j))
      → to_json ops (from_integers ops n u i) ≡ Json.number n
  number_back n (some u) i e f h = ap Json.number (exact.of_as_u64 n u e)
  number_back n none none e f h = absurd (cc (h refl).1)
  number_back n none (some i) e f h =
      let (k, negative, same) = exact.of_as_i64 n i e f in
      ap (λ j. to_json ops (from_signed j)) negative ∙ ap Json.number same

  mutual
    value_back : (j : Json Number) → IsIntegral ops j → to_json ops (from_json ops j) ≡ j
    value_back Json.null h = refl
    value_back (Json.bool b) h = refl
    value_back (Json.number n) h = number_back n (ops.as_u64 n) (ops.as_i64 n) refl refl h
    value_back (Json.string s) h = refl
    value_back (Json.array js) h = ap Json.array (values_back js h)
    value_back (Json.object fs) h = ap Json.object (entries_back fs h)

    values_back : (js : Items Number) → AreIntegral ops js → to_items ops (from_items ops js) ≡ js
    values_back Items.nil h = refl
    values_back (Items.cons j js) h = ap₂ Items.cons (value_back j h.0) (values_back js h.1)

    entries_back :
        (fs : Fields Number) → HasIntegral ops fs → to_fields ops (from_fields ops fs) ≡ fs
    entries_back Fields.done h = refl
    entries_back (Fields.field k j fs) h =
        ap₂ (Fields.field k) (value_back j h.0) (entries_back fs h.1)

  -- A value of null, texts, booleans, 64-bit integers, and arrays and maps of these comes back from
  -- its JSON as it was, and JSON whose numbers are all 64-bit integers comes back from its value, if
  -- integers are read as they were written; an i64 of a value is taken to be negative.
  pub to_json-from_json :
      (v : Value)
      → IsPlain v
      → (j : Json Number) → IsIntegral ops j
      → (from_json ops (to_json ops v) ≡ v) × (to_json ops (from_json ops j) ≡ j)
  to_json-from_json v plain j integral = (json_back v plain, value_back j integral)
