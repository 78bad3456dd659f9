-- ===== src/Value/Crud/Focus.antt =====
-- The reference that `get_mut` returns is a lens at its path, and reads what `get` reads.
use flow_backend.Prelude.{
  ◌≡◌, refl, ◌∙◌, ap, Option, none, some, Option-cases, inl, inr, List, [], ◌∷◌, Str, some_inj,
  ◌>>=◌, subst, >>=-eq-some,
}
use flow_backend.Value.{Value}
use flow_backend.Value.Crud.{child, get, set_child, Ref, get_mut}
use flow_backend.Value.Crud.Child.{child-IsWritten}

abbrev pub target_of : Option Ref → Option Value
target_of none = none
target_of (some r) = some r.target

-- Through a reference that `get_mut` returns `get` reads the same value; what is written through it
-- is read at the path, a second write replaces the first, and writing back what is there is no
-- change. The reference that the changed value gives at the path has the value written.
pub record IsLens (v : Value) (path : List Str) (r : Ref) : Type 0 where
  pub reads : get v path ≡ some r.target
  pub get_write : (x : Value) → get (r.write x) path ≡ some x
  pub write_target : r.write r.target ≡ v
  pub again :
      (x : Value)
      → (q : Ref) × (get_mut (r.write x) path ≡ some q)
        × (q.target ≡ x)
        × ((y : Value) → q.write y ≡ r.write y)

extend_ref : Value → Str → Ref → Ref
extend_ref v key r = record { target = r.target; write = λ x. set_child v key (r.write x) }

IsLens-step :
    (v w : Value) (key : Str) (path : List Str) (r : Ref)
    → child v key ≡ some w
    → IsLens w path r
    → IsLens v (key ∷ path) (extend_ref v key r)
unfolding get get_mut extend_ref
IsLens-step v w key path r found lens =
    let one = child-IsWritten v key w found in
    record {
      reads = rw found lens.reads;
      get_write = λ x. rw one.read (lens.get_write x);
      write_target = ap (set_child v key) lens.write_target ∙ one.same;
      again = λ x.
          let (q, got, holds, writes) = lens.again x in
          (
            extend_ref (set_child v key (r.write x)) key q,
            rw (one.read, got),
            holds,
            λ y. one.again (r.write x) (q.write y) ∙ ap (set_child v key) (writes y),
          );
    }

-- Every reference that `get_mut` returns is a lens at its path: `get` reads the same value, reads
-- back what is written through it, a write of what is there changes nothing, and a second reference
-- at the path reads the value written and writes like the first.
pub get_mut-IsLens :
    (v : Value) (path : List Str) (r : Ref) → get_mut v path ≡ some r → IsLens v path r
unfolding get get_mut extend_ref
get_mut-IsLens v [] r h = subst (IsLens v []) (some_inj h) (record {
  reads = refl;
  get_write = λ x. refl;
  write_target = refl;
  again = λ x. (record { target = x; write = λ y. y }, refl, refl, λ y. refl);
})
get_mut-IsLens v (key ∷ path) r h =
    let (w, found, rest) = >>=-eq-some (child v key) _ h in
    let (r', below, same) = >>=-eq-some (get_mut w path) _ rest in
    subst (IsLens v (key ∷ path)) (some_inj same)
      (IsLens-step v w key path r' found (get_mut-IsLens w path r' below))

target_of-bind :
    (o : Option Ref) (f : Value → Value → Value)
    → target_of
        (o >>= λ r. some (record { target = r.target; write = λ x. f r.target (r.write x) }))
      ≡ target_of o
target_of-bind none f = refl
target_of-bind (some r) f = refl

-- `get_mut` finds a value exactly where `get` does, and the same one.
pub get_mut-get : (v : Value) (path : List Str) → target_of (get_mut v path) ≡ get v path
unfolding get get_mut
get_mut-get v [] = refl
get_mut-get v (key ∷ path) = elim (Option-cases (child v key)) [
  | inl e ↦ rw e
  | inr (w, e) ↦ rw e (target_of-bind (get_mut w path) (λ _. set_child v key) ∙ get_mut-get w path)
]
