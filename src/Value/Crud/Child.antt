-- ===== src/Value/Crud/Child.antt =====
-- One step of a path: what a write through it does.
use flow_backend.Prelude.{
  ℕ, zero, suc, ◌≡◌, refl, ap, some, Option-cases, inl, inr, arith, Str, str_beq_refl,
}
use flow_backend.Value
use flow_backend.Value.{Value, Values, Map, get-insert}
use flow_backend.Value.Crud.{parse_index, nth, set_nth, child, set_child}

pub insert-insert :
    (m : Map) (k : Str) (x y : Value) → Value.insert (Value.insert m k x) k y ≡ Value.insert m k y
unfolding Value.insert
insert-insert Map.empty k x y = ground (arith, str_beq_refl k)
insert-insert (Map.entry j w m) k x y = ground (arith, insert-insert m k x y)

insert-get : (m : Map) (k : Str) (w : Value) → Value.get m k ≡ some w → Value.insert m k w ≡ m
unfolding Value.insert Value.get
insert-get Map.empty k w h = absurd (cc h)
insert-get (Map.entry j v m) k w h = ground (arith, insert-get m k w)

nth-set_nth :
    (vs : Values) (i : ℕ) (w x : Value) → nth vs i ≡ some w → nth (set_nth vs i x) i ≡ some x
unfolding nth set_nth
nth-set_nth Values.nil i w x h = absurd (cc h)
nth-set_nth (Values.cons v vs) zero w x h = refl
nth-set_nth (Values.cons v vs) (suc i) w x h = nth-set_nth vs i w x h

set_nth-set_nth :
    (vs : Values) (i : ℕ) (x y : Value) → set_nth (set_nth vs i x) i y ≡ set_nth vs i y
unfolding set_nth
set_nth-set_nth Values.nil i x y = refl
set_nth-set_nth (Values.cons v vs) zero x y = refl
set_nth-set_nth (Values.cons v vs) (suc i) x y = ap (Values.cons v) (set_nth-set_nth vs i x y)

set_nth-nth : (vs : Values) (i : ℕ) (w : Value) → nth vs i ≡ some w → set_nth vs i w ≡ vs
unfolding nth set_nth
set_nth-nth Values.nil i w h = absurd (cc h)
set_nth-nth (Values.cons v vs) zero w h = ground arith
set_nth-nth (Values.cons v vs) (suc i) w h = ap (Values.cons v) (set_nth-nth vs i w h)

-- What a written child reads, what a second write does, and that writing what is there is no change.
pub record IsWritten (v : Value) (key : Str) (w : Value) : Type 0 where
  pub read : (x : Value) → child (set_child v key x) key ≡ some x
  pub again : (x y : Value) → set_child (set_child v key x) key y ≡ set_child v key y
  pub same : set_child v key w ≡ v

IsWritten-map :
    (m : Map) (key : Str) (w : Value) → Value.get m key ≡ some w → IsWritten (Value.map m) key w
unfolding child set_child
IsWritten-map m key w h = record {
  read = λ x. rw (get-insert, str_beq_refl key);
  again = λ x y. ap Value.map (insert-insert m key x y);
  same = ap Value.map (insert-get m key w h);
}

IsWritten-array :
    (vs : Values) (key : Str) (w : Value) (i : ℕ)
    → parse_index key ≡ some i
    → nth vs i ≡ some w
    → IsWritten (Value.array vs) key w
unfolding child set_child
IsWritten-array vs key w i at h = record {
  read = λ x. rw (at, child, set_child, at) (nth-set_nth vs i w x h);
  again = λ x y. rw (at, set_child) (rw at (ap Value.array (set_nth-set_nth vs i x y)));
  same = rw (at, set_child) (ap Value.array (set_nth-nth vs i w h));
}

pub child-IsWritten : (v : Value) (key : Str) (w : Value) → child v key ≡ some w → IsWritten v key w
unfolding child
child-IsWritten (Value.map m) key w h = IsWritten-map m key w h
child-IsWritten (Value.array vs) key w h = elim (Option-cases (parse_index key)) [
  | inl e ↦ absurd (cc (rw e at h))
  | inr (i, e) ↦ IsWritten-array vs key w i e (rw e at h)
]
child-IsWritten _ key w h = absurd (cc h)
