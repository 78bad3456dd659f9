-- ===== src/Value/Crud/RoundTrip.antt =====
-- Inserting below a value, then reading or removing at the same path.
use flow_backend.Prelude.{
  ℕ, zero, suc, ◌≡◌, refl, ◌∙◌, sym, ap, ◌≤◌, Option, none, some, Option-cases, inl, inr, List, [],
  ◌∷◌, Str, str, str_beq, str_beq_refl, false, some_inj, arith, ◌>>=◌, Bool-cases, ltb,
  ltb_false→le,
}
use flow_backend.Value
use flow_backend.Value.{Value, Values, Map, get-insert}
use flow_backend.Value.Crud.{
  parse_index, nth, len, child, get, Ref, get_mut, insert_nth, remove_nth, Inserted, insert_array,
  insert_at, written, split_last, insert, SwapRemove, remove_array, remove_at, remove,
}
use flow_backend.Value.Crud.Focus.{get_mut-IsLens}

-- indexmap: a key that is not there is added at the end, and `swap_remove` pops the last entry.
abbrev pub PopsLast : SwapRemove → Type 0
PopsLast swap_remove =
    (m : Map) (k : Str) (x : Value)
    → Value.get m k ≡ none
    → swap_remove (Value.insert m k x) k ≡ (some x, m)

nth-insert_nth : (vs : Values) (i : ℕ) (x : Value) → i ≤ len vs → nth (insert_nth vs i x) i ≡ some x
unfolding nth insert_nth
nth-insert_nth vs zero x h = refl
nth-insert_nth Values.nil (suc i) x h = absurd (omega arith)
nth-insert_nth (Values.cons v vs) (suc i) x h = nth-insert_nth vs i x (omega arith)

remove_nth-insert_nth :
    (vs : Values) (i : ℕ) (x : Value) → i ≤ len vs → remove_nth (insert_nth vs i x) i ≡ vs
unfolding remove_nth insert_nth
remove_nth-insert_nth vs zero x h = refl
remove_nth-insert_nth Values.nil (suc i) x h = absurd (omega arith)
remove_nth-insert_nth (Values.cons v vs) (suc i) x h =
    ap (Values.cons v) (remove_nth-insert_nth vs i x (omega arith))

abbrev value_of : Inserted → Value
value_of (Inserted.ok old v) = v
value_of Inserted.insert_error = Value.null

abbrev old_of : Inserted → Option Value
old_of (Inserted.ok old v) = old
old_of Inserted.insert_error = none

-- A successful insertion into an array by an index.
insert_array-ok :
    (vs : Values) (key : Str) (x : Value) (old : Option Value) (w : Value)
    → str_beq key (str "-") ≡ false
    → insert_array vs key x ≡ Inserted.ok old w
    → (i : ℕ) × (parse_index key ≡ some i) × (i ≤ len vs) × (w ≡ Value.array (insert_nth vs i x))
unfolding insert_array
insert_array-ok vs key x old w plain h = elim (Option-cases (parse_index key)) [
  | inl e ↦ absurd (cc (rw (plain, insert_array, e) at h))
  | inr (i, e) ↦ elim (Bool-cases (ltb (len vs) i)) [
    | inl far ↦ absurd (cc (rw (plain, insert_array, e, far) at h))
    | inr near ↦ (
      i,
      e,
      omega (arith, ltb_false→le (len vs) i near),
      sym (ap value_of (rw (plain, insert_array, e, near) at h)),
    )
  ]
]

-- At a parent: what was added under the last key is read there, and removing it gives the parent
-- back if nothing was replaced.
child-insert_at :
    (v : Value) (key : Str) (x : Value) (old : Option Value) (w : Value)
    → str_beq key (str "-") ≡ false
    → insert_at v key x ≡ Inserted.ok old w
    → child w key ≡ some x
unfolding insert_at child
child-insert_at (Value.map m) key x old w plain h =
    rw (← ap value_of h, get-insert, str_beq_refl key)
child-insert_at (Value.array vs) key x old w plain h =
    let (i, at, near, same) = insert_array-ok vs key x old w plain h in
    rw (same, at) (nth-insert_nth vs i x near)
child-insert_at _ key x old w plain h = absurd (cc h)

remove_at-insert_at :
    (swap_remove : SwapRemove) (v : Value) (key : Str) (x w : Value)
    → PopsLast swap_remove
    → str_beq key (str "-") ≡ false
    → insert_at v key x ≡ Inserted.ok none w
    → remove_at swap_remove w key ≡ (some x, v)
unfolding insert_at remove_at remove_array
remove_at-insert_at swap_remove (Value.map m) key x w pops plain h =
    rw (← ap value_of h, pops m key x (ap old_of h))
remove_at-insert_at swap_remove (Value.array vs) key x w pops plain h =
    let (i, at, near, same) = insert_array-ok vs key x none w plain h in
    rw (same, at, remove_array, nth-insert_nth vs i x near, remove_nth-insert_nth vs i x near)
remove_at-insert_at swap_remove _ key x w pops plain h = absurd (cc h)

split_last-none : (path : List Str) → split_last path ≡ none → path ≡ []
unfolding split_last
split_last-none [] h = refl
split_last-none (key ∷ path) h = elim (Option-cases (split_last path)) [
  | inl e ↦ absurd (cc (rw e at h))
  | inr ((p, k), e) ↦ absurd (cc (rw e at h))
]

bind_some : (o : Option Value) → (o >>= λ w. some w) ≡ o
bind_some none = refl
bind_some (some v) = refl

-- The path by its last key.
get-split_last :
    (v : Value) (path parent : List Str) (key : Str)
    → split_last path ≡ some (parent, key)
    → get v path ≡ (get v parent >>= λ w. child w key)
unfolding split_last get
get-split_last v [] parent key h = absurd (cc h)
get-split_last v (k ∷ path) parent key h = elim (Option-cases (split_last path)) [
  | inl e ↦
      let same = some_inj (rw e at h) in
      rw
        (
          split_last-none path e,
          ← ap (λ (p : List Str × Str). p.0) same,
          ← ap (λ (p : List Str × Str). p.1) same,
        )
        (bind_some (child v k))
  | inr ((p, l), e) ↦
      let same = some_inj (rw e at h) in
      rw (← ap (λ (p : List Str × Str). p.0) same, ← ap (λ (p : List Str × Str). p.1) same)
        (elim (Option-cases (child v k)) [
          | inl c ↦ rw c
          | inr (w, c) ↦ rw c (get-split_last w path p l e)
        ])
]

-- What a successful insertion below a value did.
record Insertion (value : Value) (parent : List Str) (key : Str) (x : Value) (old : Option Value)
    (left : Value) : Type 0 where
  ref : Ref
  got : get_mut value parent ≡ some ref
  filled : Value
  added : insert_at ref.target key x ≡ Inserted.ok old filled
  result : ref.write filled ≡ left

written-ok :
    (r : Ref) (i : Inserted) (old : Option Value) (left : Value)
    → written r i ≡ Inserted.ok old left
    → (w : Value) × (i ≡ Inserted.ok old w) × (r.write w ≡ left)
unfolding written
written-ok r (Inserted.ok old' w) old left h =
    (w, ap (λ o. Inserted.ok o w) (ap old_of h), ap value_of h)
written-ok r Inserted.insert_error old left h = absurd (cc h)

insert-Insertion :
    (value : Value) (path parent : List Str) (key : Str) (x : Value) (old : Option Value)
    (left : Value)
    → split_last path ≡ some (parent, key)
    → insert value path x ≡ Inserted.ok old left
    → Insertion value parent key x old left
unfolding insert
insert-Insertion value path parent key x old left split h =
    elim (Option-cases (get_mut value parent)) [
      | inl e ↦ absurd (cc (rw (split, insert, e) at h))
      | inr (r, e) ↦
          let (w, added, result) =
            written-ok r (insert_at r.target key x) old left (rw (split, insert, e) at h) in
          record { ref = r; got = e; filled = w; added = added; result = result }
    ]

-- The path does not end in `-`, which stands for the end of an array.
abbrev pub NoDash : List Str → Type 0
NoDash path =
    (parent : List Str) (key : Str)
    → split_last path ≡ some (parent, key)
    → str_beq key (str "-") ≡ false

-- After a successful insertion at a path that does not end in `-`, `get` finds the value there.
pub get-insert_path :
    (value : Value) (path : List Str) (x : Value) (old : Option Value) (left : Value)
    → NoDash path
    → insert value path x ≡ Inserted.ok old left
    → get left path ≡ some x
unfolding insert get split_last
get-insert_path value path x old left plain h = elim (Option-cases (split_last path)) [
  | inl e ↦
      let ends : Inserted.ok (some value) x ≡ Inserted.ok old left = rw (e, insert) at h in
      rw (split_last-none path e) (ap some (sym (ap value_of ends)))
  | inr ((parent, key), e) ↦
      let i = insert-Insertion value path parent key x old left e h in
      let lens = get_mut-IsLens value parent i.ref i.got in
      get-split_last left path parent key e
      ∙ rw (← i.result, lens.get_write)
          (child-insert_at i.ref.target key x old i.filled (plain parent key e) i.added)
]

-- If `swap_remove` of a map pops an entry that was just added, and an insertion at a path that does
-- not end in `-` succeeds and replaces nothing, removing at the path returns the inserted value and
-- leaves the value as it was before.
pub remove-insert :
    (swap_remove : SwapRemove) (value : Value) (path : List Str) (x left : Value)
    → PopsLast swap_remove
    → NoDash path
    → insert value path x ≡ Inserted.ok none left
    → remove swap_remove left path ≡ (some x, value)
unfolding insert remove
remove-insert swap_remove value path x left pops plain h = elim (Option-cases (split_last path)) [
  | inl e ↦ absurd (cc (rw (e, insert) at h))
  | inr ((parent, key), e) ↦
      let i = insert-Insertion value path parent key x none left e h in
      let lens = get_mut-IsLens value parent i.ref i.got in
      let (q, got, holds, writes) = lens.again i.filled in
      let removed =
        remove_at-insert_at swap_remove i.ref.target key x i.filled pops (plain parent key e)
          i.added in
      rw (e, remove, ← i.result, got, holds, removed)
        (ap (λ v. (some x, v)) (writes i.ref.target ∙ lens.write_target))
]
