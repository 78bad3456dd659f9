-- ===== src/Value/Tests.antt =====
-- Values, and the theorems at them.
use flow_backend.Prelude.{
  ◌≡◌, refl, none, some, List, [], ◌∷◌, Str, str, str_beq, if◌then◌else◌, false, Bool-cases, inl,
  inr, str_beq_refl, subst, ap, some_inj,
}
use flow_backend.Prelude.Int.{negsuc}
use flow_backend.Value
use flow_backend.Value.{get-insert, Decimal, Value, Values, Map, empty, entry}
use flow_backend.Value.Crud.{Inserted, SwapRemove, Ref, get, get_mut, insert, remove, split_last}
use flow_backend.Value.Crud.Focus.{IsLens, get_mut-IsLens}
use flow_backend.Value.Crud.RoundTrip.{PopsLast, NoDash, get-insert_path, remove-insert}
use flow_backend.Value.Path.{parse, parse_segment}
use flow_backend.Value.Path.Escape.{escape, parse_segment-escape}
use flow_backend.Value.Path.RoundTrip.{pointer, parse-pointer}
use flow_backend.Value.Normalize.{DecimalOps, AreLawful, normalize, normalize_twice}

abbrev list_of_one : Value
list_of_one = Value.map (entry (str "a") (Value.array (Values.cons (Value.u64 5) Values.nil)) empty)

abbrev path_a1 : List Str
path_a1 = str "a" ∷ str "1" ∷ []

abbrev inserted : Value
inserted = Value.map (
    entry (str "a") (Value.array (Values.cons (Value.u64 5) (Values.cons (Value.u64 6) Values.nil)))
      empty)

-- The entry of a key taken out. For the last entry that is what `swap_remove` does.
take_out : Map → Str → Map
take_out empty k = empty
take_out (entry j v m) k = let rest = take_out m k in if str_beq j k then m else entry j v rest

abbrev take_key : SwapRemove
take_key m k = (Value.get m k, take_out m k)

take_out-insert :
    (m : Map) (k : Str) (x : Value) → Value.get m k ≡ none → take_out (Value.insert m k x) k ≡ m
unfolding take_out Value.get Value.insert
take_out-insert empty k x h = rw (str_beq_refl k)
take_out-insert (entry j w m) k x h = elim (Bool-cases (str_beq j k)) [
  | inl e ↦ absurd (cc (rw e at h))
  | inr e ↦ rw (e, e) (ap (entry j w) (take_out-insert m k x (rw e at h)))
]

take_key-PopsLast : PopsLast take_key
take_key-PopsLast m k x h =
    rw (get-insert m k x k, str_beq_refl k) (ap (λ l. (some x, l)) (take_out-insert m k x h))

path_a1-NoDash : NoDash path_a1
unfolding split_last
path_a1-NoDash parent key h =
    subst (λ k. str_beq k (str "-") ≡ false) (ap (λ (p : List Str × Str). p.1) (some_inj h)) refl

parse_segment-escape_example : parse_segment (escape (str "a/b~1")) ≡ some (str "a/b~1")
parse_segment-escape_example = parse_segment-escape (str "a/b~1")

parse-pointer_example :
    parse (pointer (str "a/b" ∷ str "" ∷ str "m~n" ∷ []))
    ≡ some (str "a/b" ∷ str "" ∷ str "m~n" ∷ [])
parse-pointer_example = parse-pointer (str "a/b" ∷ str "" ∷ str "m~n" ∷ [])

-- Decimals without a fraction.
abbrev whole : DecimalOps
whole = record {
  normalize_assign = λ d. record { mantissa = d.mantissa; scale = 0 };
  to_i128 = λ d. some d.mantissa;
}

whole-AreLawful : AreLawful whole
whole-AreLawful = record { idem = λ d. refl; fits = λ d h. (d.mantissa, refl) }

abbrev mixed : Value
mixed = Value.array (
    Values.cons (Value.u128 7)
      (Values.cons (Value.decimal (record { mantissa = negsuc 2; scale = 1 })) Values.nil))

normalize_twice_example :
    (w : Value) × (normalize whole mixed ≡ some w) × (normalize whole w ≡ some w)
normalize_twice_example = normalize_twice whole whole-AreLawful mixed

get-insert_path_example : get inserted path_a1 ≡ some (Value.u64 6)
unfolding insert split_last get_mut Value.get Value.insert
get-insert_path_example =
    get-insert_path list_of_one path_a1 (Value.u64 6) none inserted path_a1-NoDash refl

remove-insert_example : remove take_key inserted path_a1 ≡ (some (Value.u64 6), list_of_one)
unfolding insert split_last get_mut Value.get Value.insert
remove-insert_example =
    remove-insert take_key list_of_one path_a1 (Value.u64 6) inserted take_key-PopsLast
      path_a1-NoDash refl

abbrev first_ref : Ref
first_ref = record {
  target = Value.u64 5;
  write = λ x. Value.map (entry (str "a") (Value.array (Values.cons x Values.nil)) empty);
}

get_mut-IsLens_example : IsLens list_of_one (str "a" ∷ str "0" ∷ []) first_ref
unfolding get_mut Value.get Value.insert
get_mut-IsLens_example = get_mut-IsLens list_of_one (str "a" ∷ str "0" ∷ []) first_ref refl

-- A path below a number leads nowhere.
insert_fails : insert (Value.u64 1) path_a1 Value.null ≡ Inserted.insert_error
unfolding insert split_last get_mut
insert_fails = refl
