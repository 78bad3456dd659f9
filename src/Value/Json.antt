-- ===== src/Value/Json.antt =====
-- The conversions between values and JSON of lib/flow-value/src/lib.rs, and those of bytes. Numbers of
-- serde_json and decimals are parameters; a JSON map keeps the order of its entries, as the feature
-- preserve_order documents, and its keys are distinct.
pub mod RoundTrip
use flow_backend.Prelude.{
  ℕ, ◌^◌, Bool, true, false, Option, none, some, List, [], ◌∷◌, Str, length, nat_beq, ltb,
  if◌then◌else◌, ◌>>=◌,
}
use flow_backend.Prelude.Int.{ℤ, pos, negsuc}
use flow_backend.Value.{Decimal, Value, Values, Map}
use flow_backend.Value.Normalize.{fits_u64, fits_negative}

mutual
  -- serde_json::Value
  pub data Json (Number : Type 0) : Type 0 where
    null : Json Number
    bool : Bool → Json Number
    number : Number → Json Number
    string : Str → Json Number
    array : Items Number → Json Number
    object : Fields Number → Json Number

  pub data Items (Number : Type 0) : Type 0 where
    nil : Items Number
    cons : Json Number → Items Number → Items Number

  pub data Fields (Number : Type 0) : Type 0 where
    done : Fields Number
    field : Str → Json Number → Fields Number → Fields Number

-- serde_json::Number, the parsers of numbers, and rust_decimal. An f64 is its 64 bits.
pub record NumberOps (Number : Type 0) : Type 0 where
  pub as_u64 : Number → Option ℕ
  pub as_i64 : Number → Option ℤ
  pub to_text : Number → Str
  pub of_u64 : ℕ → Number
  pub of_i64 : ℤ → Number
  -- `none` for a float that is not finite
  pub of_f64 : ℕ → Option Number
  pub parse_u128 : Str → Option ℕ
  pub parse_i128 : Str → Option ℤ
  pub parse_decimal : Str → Option Decimal
  pub from_scientific : Str → Option Decimal
  pub parse_f64 : Str → Option ℕ
  pub u128_as_f64 : ℕ → ℕ
  pub i128_as_f64 : ℤ → ℕ
  pub normalize_assign : Decimal → Decimal
  pub decimal_to_u64 : Decimal → Option ℕ
  pub decimal_to_i64 : Decimal → Option ℤ
  pub decimal_to_f64 : Decimal → Option ℕ

abbrev pub or_value : Option Value → Value → Value
or_value none v = v
or_value (some w) v = w

-- Of a number that is no u64 and no i64, by its text.
abbrev pub number_text : {Number : Type 0} → NumberOps Number → Str → Value
number_text ops s = or_value (ops.parse_u128 s >>= λ u. some (Value.u128 u)) (
    or_value (ops.parse_i128 s >>= λ i. some (Value.i128 i)) (
      or_value (ops.parse_decimal s >>= λ d. some (Value.decimal d)) (
        or_value (ops.from_scientific s >>= λ d. some (Value.decimal d))
          (or_value (ops.parse_f64 s >>= λ f. some (Value.f64 f)) (Value.string s)))))

abbrev pub from_signed : ℤ → Value
from_signed (pos n) = Value.u64 n
from_signed (negsuc n) = Value.i64 (negsuc n)

abbrev pub from_integers :
    {Number : Type 0} → NumberOps Number → Number → Option ℕ → Option ℤ → Value
from_integers ops n (some u) i = Value.u64 u
from_integers ops n none (some i) = from_signed i
from_integers ops n none none = number_text ops (ops.to_text n)

abbrev pub from_number : {Number : Type 0} → NumberOps Number → Number → Value
from_number ops n = from_integers ops n (ops.as_u64 n) (ops.as_i64 n)

abbrev mutual
  -- From<serde_json::Value> for Value
  pub from_json : {Number : Type 0} → NumberOps Number → Json Number → Value
  from_json ops Json.null = Value.null
  from_json ops (Json.bool b) = Value.bool b
  from_json ops (Json.number n) = from_number ops n
  from_json ops (Json.string s) = Value.string s
  from_json ops (Json.array js) = Value.array (from_items ops js)
  from_json ops (Json.object fs) = Value.map (from_fields ops fs)

  pub from_items : {Number : Type 0} → NumberOps Number → Items Number → Values
  from_items ops Items.nil = Values.nil
  from_items ops (Items.cons j js) = Values.cons (from_json ops j) (from_items ops js)

  pub from_fields : {Number : Type 0} → NumberOps Number → Fields Number → Map
  from_fields ops Fields.done = Map.empty
  from_fields ops (Fields.field k j fs) = Map.entry k (from_json ops j) (from_fields ops fs)

abbrev pub or_null : {Number : Type 0} → Option Number → Json Number
or_null none = Json.null
or_null (some n) = Json.number n

abbrev pub float : {Number : Type 0} → NumberOps Number → ℕ → Json Number
float ops f = or_null (ops.of_f64 f)

abbrev pub from_u128 : {Number : Type 0} → NumberOps Number → ℕ → Json Number
from_u128 ops n = if fits_u64 n then Json.number (ops.of_u64 n) else float ops (ops.u128_as_f64 n)

abbrev pub fits_i64 : ℤ → Bool
fits_i64 (pos n) = ltb n (2 ^ 63)
fits_i64 (negsuc n) = fits_negative n

abbrev pub from_i128 : {Number : Type 0} → NumberOps Number → ℤ → Json Number
from_i128 ops i = if fits_i64 i then Json.number (ops.of_i64 i) else float ops (ops.i128_as_f64 i)

abbrev pub decimal_float : {Number : Type 0} → NumberOps Number → Option ℕ → Json Number
decimal_float ops none = Json.null
decimal_float ops (some f) = float ops f

abbrev pub decimal_integer :
    {Number : Type 0} → NumberOps Number → Decimal → Option ℕ → Option ℤ → Json Number
decimal_integer ops d (some n) i = Json.number (ops.of_u64 n)
decimal_integer ops d none (some i) = Json.number (ops.of_i64 i)
decimal_integer ops d none none = decimal_float ops (ops.decimal_to_f64 d)

abbrev pub from_normal : {Number : Type 0} → NumberOps Number → Decimal → Json Number
from_normal ops d =
    if nat_beq d.scale 0
    then decimal_integer ops d (ops.decimal_to_u64 d) (ops.decimal_to_i64 d)
    else decimal_float ops (ops.decimal_to_f64 d)

abbrev pub byte_items : {Number : Type 0} → NumberOps Number → List ℕ → Items Number
byte_items ops [] = Items.nil
byte_items ops (b ∷ bs) = Items.cons (Json.number (ops.of_u64 b)) (byte_items ops bs)

abbrev mutual
  -- From<Value> for serde_json::Value
  pub to_json : {Number : Type 0} → NumberOps Number → Value → Json Number
  to_json ops Value.null = Json.null
  to_json ops (Value.string s) = Json.string s
  to_json ops (Value.bool b) = Json.bool b
  to_json ops (Value.u64 n) = Json.number (ops.of_u64 n)
  to_json ops (Value.i64 i) = Json.number (ops.of_i64 i)
  to_json ops (Value.f64 f) = float ops f
  to_json ops (Value.array vs) = Json.array (to_items ops vs)
  to_json ops (Value.map m) = Json.object (to_fields ops m)
  to_json ops (Value.u128 n) = from_u128 ops n
  to_json ops (Value.i128 i) = from_i128 ops i
  to_json ops (Value.decimal d) = from_normal ops (ops.normalize_assign d)
  to_json ops (Value.b32 b) = Json.array (byte_items ops b)
  to_json ops (Value.b64 b) = Json.array (byte_items ops b)
  to_json ops (Value.bytes b) = Json.array (byte_items ops b)

  pub to_items : {Number : Type 0} → NumberOps Number → Values → Items Number
  to_items ops Values.nil = Items.nil
  to_items ops (Values.cons v vs) = Items.cons (to_json ops v) (to_items ops vs)

  pub to_fields : {Number : Type 0} → NumberOps Number → Map → Fields Number
  to_fields ops Map.empty = Fields.done
  to_fields ops (Map.entry k v m) = Fields.field k (to_json ops v) (to_fields ops m)

-- From<bytes::Bytes>, From<&[u8]> and From<Vec<u8>> for Value
unfoldable pub from_bytes : List ℕ → Value
from_bytes b =
    if nat_beq (length b) 32
    then Value.b32 b
    else if nat_beq (length b) 64
    then Value.b64 b
    else Value.bytes b
