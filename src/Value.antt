-- ===== src/Value.antt =====
-- lib/flow-value/src/lib.rs: the values that nodes exchange, and the map that holds them.
-- A string is its UTF-8 bytes, a float its 64 bits, a decimal its public mantissa and scale. A map
-- keeps its entries in insertion order, as indexmap documents.
pub mod Crud
pub mod Path
pub mod Normalize
pub mod Json
pub mod Meaning
mod Tests
mod JsonTests
use flow_backend.Prelude.{
  ℕ, Bool, true, Option, none, some, List, Str, str_beq, if◌then◌else◌, is_some, ◌≡◌, refl, arith,
  str_beq_iff,
}
use flow_backend.Prelude.Int.{ℤ}

pub record Decimal : Type 0 where
  pub mantissa : ℤ
  pub scale : ℕ

mutual
  pub data Value : Type 0 where
    null : Value
    string : Str → Value
    bool : Bool → Value
    u64 : ℕ → Value
    i64 : ℤ → Value
    f64 : ℕ → Value
    decimal : Decimal → Value
    u128 : ℕ → Value
    i128 : ℤ → Value
    b32 : List ℕ → Value
    b64 : List ℕ → Value
    bytes : List ℕ → Value
    array : Values → Value
    map : Map → Value

  -- Vec<Value>
  pub data Values : Type 0 where
    nil : Values
    cons : Value → Values → Values

  -- IndexMap<String, Value>
  pub data Map : Type 0 where
    empty : Map
    entry : Str → Value → Map → Map

unfoldable pub get : Map → Str → Option Value
get empty k = none
get (entry j v m) k = if str_beq j k then some v else get m k

unfoldable pub contains_key : Map → Str → Bool
unfolding get
contains_key m k = is_some (get m k)

-- Replaces the value of a key in its place, or adds the key at the end.
unfoldable pub insert : Map → Str → Value → Map
insert empty k v = entry k v empty
insert (entry j w m) k v =
    let rest = insert m k v in if str_beq j k then entry j v m else entry j w rest

unfoldable pub extend : Map → Map → Map
extend m empty = m
extend m (entry k v more) = extend (insert m k v) more

pub get-insert :
    (m : Map) (k : Str) (v : Value) (j : Str)
    → get (insert m k v) j ≡ (if str_beq k j then some v else get m j)
unfolding get insert
get-insert empty k v j = refl
get-insert (entry i w m) k v j =
    ground (arith, get-insert m k v j, str_beq_iff i k, str_beq_iff i j, str_beq_iff k j)

pub contains_key-insert :
    (m : Map) (k : Str) (v : Value) (j : Str)
    → contains_key (insert m k v) j ≡ (if str_beq k j then true else contains_key m j)
unfolding contains_key
contains_key-insert m k v j = ground (arith, get-insert m k v j)
