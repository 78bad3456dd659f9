-- ===== src/Server/Strip.antt =====
-- `strip` of crates/flow-server/src/db_worker/flow_run_worker.rs: long texts and bytes are not saved.
use flow_backend.Prelude.{
  ℕ, ◌*◌, ◌≤◌, ◌≡◌, refl, ap, ap₂, str, length, ltb, ltb_false→le, Bool-cases, inl, inr, arith,
  if◌then◌else◌, List,
}
use flow_backend.Value.{Value, Values, Map}

abbrev pub max_size : ℕ
max_size = 32 * 1024

abbrev pub too_large : Value
too_large = Value.string (str "VALUE TOO LARGE")

unfoldable mutual
  pub strip : Value → Value
  strip (Value.string s) = if ltb max_size (length s) then too_large else Value.string s
  strip (Value.bytes s) = if ltb max_size (length s) then too_large else Value.bytes s
  strip (Value.array vs) = Value.array (strip_all vs)
  strip (Value.map m) = Value.map (strip_map m)
  strip v = v

  pub strip_all : Values → Values
  strip_all Values.nil = Values.nil
  strip_all (Values.cons v vs) = Values.cons (strip v) (strip_all vs)

  pub strip_map : Map → Map
  strip_map Map.empty = Map.empty
  strip_map (Map.entry k v m) = Map.entry k (strip v) (strip_map m)

-- Every text and every run of bytes in a value, keys aside, is at most the limit long.
abbrev mutual
  pub Fits : Value → Type 0
  Fits (Value.string s) = length s ≤ max_size
  Fits (Value.bytes s) = length s ≤ max_size
  Fits (Value.array vs) = AllFit vs
  Fits (Value.map m) = MapFits m
  Fits v = Unit

  pub AllFit : Values → Type 0
  AllFit Values.nil = Unit
  AllFit (Values.cons v vs) = Fits v × AllFit vs

  pub MapFits : Map → Type 0
  MapFits Map.empty = Unit
  MapFits (Map.entry k v m) = Fits v × MapFits m

kept :
    (s : List ℕ) (c : List ℕ → Value)
    → length s ≤ max_size
    → (if ltb max_size (length s) then too_large else c s) ≡ c s
kept s c h = ground arith

text-Fits : (s : List ℕ) → Fits (if ltb max_size (length s) then too_large else Value.string s)
text-Fits s = elim (Bool-cases (ltb max_size (length s))) [
  | inl long ↦ rw long (omega arith)
  | inr short ↦ rw short (ltb_false→le max_size (length s) short)
]

bytes-Fits : (s : List ℕ) → Fits (if ltb max_size (length s) then too_large else Value.bytes s)
bytes-Fits s = elim (Bool-cases (ltb max_size (length s))) [
  | inl long ↦ rw long (omega arith)
  | inr short ↦ rw short (ltb_false→le max_size (length s) short)
]

mutual
  unfolding strip

  each-Fits : (v : Value) → Fits (strip v)
  each-Fits (Value.string s) = text-Fits s
  each-Fits (Value.bytes s) = bytes-Fits s
  each-Fits (Value.array vs) = all-AllFit vs
  each-Fits (Value.map m) = entries-MapFits m
  each-Fits Value.null = tt
  each-Fits (Value.bool b) = tt
  each-Fits (Value.u64 n) = tt
  each-Fits (Value.i64 n) = tt
  each-Fits (Value.f64 n) = tt
  each-Fits (Value.decimal d) = tt
  each-Fits (Value.u128 n) = tt
  each-Fits (Value.i128 n) = tt
  each-Fits (Value.b32 b) = tt
  each-Fits (Value.b64 b) = tt

  all-AllFit : (vs : Values) → AllFit (strip_all vs)
  all-AllFit Values.nil = tt
  all-AllFit (Values.cons v vs) = (each-Fits v, all-AllFit vs)

  entries-MapFits : (m : Map) → MapFits (strip_map m)
  entries-MapFits Map.empty = tt
  entries-MapFits (Map.entry k v m) = (each-Fits v, entries-MapFits m)

mutual
  unfolding strip

  strip-same : (v : Value) → Fits v → strip v ≡ v
  strip-same (Value.string s) h = kept s Value.string h
  strip-same (Value.bytes s) h = kept s Value.bytes h
  strip-same (Value.array vs) h = ap Value.array (strip_all-same vs h)
  strip-same (Value.map m) h = ap Value.map (strip_map-same m h)
  strip-same Value.null h = refl
  strip-same (Value.bool b) h = refl
  strip-same (Value.u64 n) h = refl
  strip-same (Value.i64 n) h = refl
  strip-same (Value.f64 n) h = refl
  strip-same (Value.decimal d) h = refl
  strip-same (Value.u128 n) h = refl
  strip-same (Value.i128 n) h = refl
  strip-same (Value.b32 b) h = refl
  strip-same (Value.b64 b) h = refl

  strip_all-same : (vs : Values) → AllFit vs → strip_all vs ≡ vs
  strip_all-same Values.nil h = refl
  strip_all-same (Values.cons v vs) h = ap₂ Values.cons (strip-same v h.0) (strip_all-same vs h.1)

  strip_map-same : (m : Map) → MapFits m → strip_map m ≡ m
  strip_map-same Map.empty h = refl
  strip_map-same (Map.entry k v m) h = ap₂ (Map.entry k) (strip-same v h.0) (strip_map-same m h.1)

-- No text and no bytes in what `strip` returns are longer than the limit, and a value in which none
-- are stays as it is.
pub strip-Fits : (v : Value) → Fits (strip v) × (Fits v → strip v ≡ v)
strip-Fits v = (each-Fits v, strip-same v)
