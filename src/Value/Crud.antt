-- ===== src/Value/Crud.antt =====
-- lib/flow-value/src/crud.rs: reading, inserting and removing below a value by a path of keys.
-- A `&mut Value` is the value that it points at with the function that writes one back.
pub mod Child
pub mod Focus
pub mod RoundTrip
use flow_backend.Prelude.{
  ℕ, zero, suc, ◌+◌, ◌-◌, ◌*◌, Bool, true, false, ◌&&◌, Option, none, some, List, [], ◌∷◌, Str, str,
  str_beq, ltb, leb, length, if◌then◌else◌, ◌^◌, ◌>>=◌,
}
use flow_backend.Value
use flow_backend.Value.{Value, Values, Map}

abbrev is_digit : ℕ → Bool
is_digit c = leb b'0' c && leb c b'9'

-- The decimal digits of a `usize`, by the checked arithmetic of `str::parse`.
unfoldable pub digits : ℕ → Str → Option ℕ
digits n [] = some n
digits n (c ∷ cs) =
    let m = n * 10 + (c - b'0') in
    let rest = digits m cs in if is_digit c && ltb m (2 ^ 64) then rest else none

-- `str::parse::<usize>`: one `+` may stand before the digits, of which there is one at least.
unfoldable pub parse_usize : Str → Option ℕ
unfolding digits
parse_usize [] = none
parse_usize (c ∷ []) = digits 0 (c ∷ [])
parse_usize (c ∷ d ∷ cs) =
    if leb b'+' c && leb c b'+' then digits 0 (d ∷ cs) else digits 0 (c ∷ d ∷ cs)

abbrev starts_with_zero : Str → Bool
starts_with_zero [] = false
starts_with_zero (c ∷ cs) = leb b'0' c && leb c b'0'

unfoldable pub parse_index : Str → Option ℕ
unfolding parse_usize
parse_index key =
    if str_beq key (str "0") then some 0 else if starts_with_zero key then none else parse_usize key

unfoldable pub nth : Values → ℕ → Option Value
nth Values.nil i = none
nth (Values.cons v vs) zero = some v
nth (Values.cons v vs) (suc i) = nth vs i

abbrev pub len : Values → ℕ
len Values.nil = 0
len (Values.cons v vs) = suc (len vs)

-- One step of a path.
unfoldable pub child : Value → Str → Option Value
unfolding parse_index nth
child (Value.map m) key = Value.get m key
child (Value.array vs) key = parse_index key >>= nth vs
child _ key = none

unfoldable pub get : Value → List Str → Option Value
unfolding child
get v [] = some v
get v (key ∷ path) = child v key >>= λ w. get w path

unfoldable pub set_nth : Values → ℕ → Value → Values
set_nth Values.nil i w = Values.nil
set_nth (Values.cons v vs) zero w = Values.cons w vs
set_nth (Values.cons v vs) (suc i) w = Values.cons v (set_nth vs i w)

-- Writes through the reference that `get_mut` of one key returns.
unfoldable pub set_child : Value → Str → Value → Value
unfolding parse_index set_nth
set_child (Value.map m) key w = Value.map (Value.insert m key w)
set_child (Value.array vs) key w = elim (parse_index key) [
  | none ↦ Value.array vs
  | some i ↦ Value.array (set_nth vs i w)
]
set_child v key w = v

-- A mutable reference below a value.
pub record Ref : Type 0 where
  pub target : Value
  pub write : Value → Value

unfoldable pub get_mut : Value → List Str → Option Ref
unfolding child set_child
get_mut v [] = some (record { target = v; write = λ w. w })
get_mut v (key ∷ path) = child v key >>= λ w. get_mut w path >>= λ r.
    some (record { target = r.target; write = λ x. set_child v key (r.write x) })

-- `Vec::insert` and `Vec::remove`, within bounds.
unfoldable pub insert_nth : Values → ℕ → Value → Values
insert_nth vs zero w = Values.cons w vs
insert_nth Values.nil (suc i) w = Values.cons w Values.nil
insert_nth (Values.cons v vs) (suc i) w = Values.cons v (insert_nth vs i w)

unfoldable pub remove_nth : Values → ℕ → Values
remove_nth Values.nil i = Values.nil
remove_nth (Values.cons v vs) zero = vs
remove_nth (Values.cons v vs) (suc i) = Values.cons v (remove_nth vs i)

unfoldable pub push : Values → Value → Values
push Values.nil w = Values.cons w Values.nil
push (Values.cons v vs) w = Values.cons v (push vs w)

-- Result<Option<Value>, InsertError>, beside the value that is left.
pub data Inserted : Type 0 where
  ok : Option Value → Value → Inserted
  insert_error : Inserted

insert_array : Values → Str → Value → Inserted
unfolding parse_index insert_nth push
insert_array vs key x =
    if str_beq key (str "-")
    then Inserted.ok none (Value.array (push vs x))
    else elim (parse_index key) [
      | none ↦ Inserted.insert_error
      | some idx ↦
          if ltb (len vs) idx
          then Inserted.insert_error
          else Inserted.ok none (Value.array (insert_nth vs idx x))
    ]

-- The insertion at a parent, by its last key.
unfoldable pub insert_at : Value → Str → Value → Inserted
unfolding insert_array
insert_at (Value.map m) key x = Inserted.ok (Value.get m key) (Value.map (Value.insert m key x))
insert_at (Value.array vs) key x = insert_array vs key x
insert_at v key x = Inserted.insert_error

written : Ref → Inserted → Inserted
written r (Inserted.ok old v) = Inserted.ok old (r.write v)
written r Inserted.insert_error = Inserted.insert_error

-- The path without its last key, and that key; `none` for the empty path.
unfoldable pub split_last : List Str → Option (List Str × Str)
split_last [] = none
split_last (key ∷ path) = elim (split_last path) [
  | none ↦ some ([], key)
  | some (parent, last) ↦ some (key ∷ parent, last)
]

unfoldable pub insert : Value → List Str → Value → Inserted
unfolding split_last get_mut insert_at written
insert value path x = elim (split_last path) [
  | none ↦ Inserted.ok (some value) x
  | some (parent_path, key) ↦ elim (get_mut value parent_path) [
    | none ↦ Inserted.insert_error
    | some parent ↦ written parent (insert_at parent.target key x)
  ]
]

-- The `swap_remove` of an indexmap: the value of a key, and the entries that are left.
abbrev pub SwapRemove : Type 0
SwapRemove = Map → Str → Option Value × Map

remove_array : Values → Str → Option Value × Value
unfolding parse_index nth remove_nth
remove_array vs key = elim (parse_index key) [
  | none ↦ (none, Value.array vs)
  | some idx ↦ elim (nth vs idx) [
    | none ↦ (none, Value.array vs)
    | some v ↦ (some v, Value.array (remove_nth vs idx))
  ]
]

unfoldable pub remove_at : SwapRemove → Value → Str → Option Value × Value
unfolding remove_array
remove_at swap_remove (Value.map m) key = let (v, m') = swap_remove m key in (v, Value.map m')
remove_at swap_remove (Value.array vs) key = remove_array vs key
remove_at swap_remove v key = (none, v)

-- The removed value, and what is left.
unfoldable pub remove : SwapRemove → Value → List Str → Option Value × Value
unfolding split_last get_mut remove_at
remove swap_remove value path = elim (split_last path) [
  | none ↦ (some value, Value.null)
  | some (parent_path, key) ↦ elim (get_mut value parent_path) [
    | none ↦ (none, value)
    | some parent ↦
        let (v, left) = remove_at swap_remove parent.target key in (v, parent.write left)
  ]
]
