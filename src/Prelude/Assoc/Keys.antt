-- ===== src/Prelude/Assoc/Keys.antt =====
-- Association lists in which no key stands twice.
use mathlib.Core.Path.{◌≡◌, refl, ◌∙◌, sym, ap}
use mathlib.Core.Bool.{false}
use mathlib.Core.Logic.{inl, inr}
use mathlib.Core.List.{[], ◌∷◌}
use mathlib.Core.Option.{none}
use native.Mathlib.Omega.{arith}
use flow_backend.Prelude.Tests.{Bool-cases}
use flow_backend.Prelude.Equality.{Eq, beq_refl}
use flow_backend.Prelude.Assoc.{Assoc, get, insert, remove, get-insert, get-remove}

pub beq_flip {ℓ} : {K : Type ℓ} ⦃e : Eq K⦄ → (j k : K) → e.beq j k ≡ false → e.beq k j ≡ false
beq_flip ⦃e⦄ j k h = ground (arith, e.beq_iff j k, e.beq_iff k j)

module _ {ℓ κ} {K : Type ℓ} ⦃e : Eq K⦄ {V : Type κ} where
  abbrev pub Unique : Assoc K V → Type κ
  Unique [] = Unit
  Unique ((k, v) ∷ m) = (get m k ≡ none) × Unique m

  pub remove_absent : (m : Assoc K V) (k : K) → get m k ≡ none → remove m k ≡ m
  unfolding remove get
  remove_absent [] k h = refl
  remove_absent ((j, w) ∷ m) k h = elim (Bool-cases (e.beq j k)) [
    | inl same ↦ absurd (cc (rw same at h))
    | inr apart ↦ rw apart (ap (◌∷◌ (j, w)) (remove_absent m k (rw apart at h)))
  ]

  pub Unique-insert : (m : Assoc K V) (k : K) (v : V) → Unique m → Unique (insert m k v)
  unfolding insert get
  Unique-insert [] k v u = (refl, tt)
  Unique-insert ((j, w) ∷ m) k v u = elim (Bool-cases (e.beq j k)) [
    | inl same ↦ rw same (ap (get m) (sym ((e.beq_iff j k).0 same)) ∙ u.0, u.1)
    | inr apart ↦
        rw apart (get-insert m k v j ∙ rw (beq_flip j k apart) u.0, Unique-insert m k v u.1)
  ]

  pub Unique-remove : (m : Assoc K V) (k : K) → Unique m → Unique (remove m k)
  unfolding remove
  Unique-remove [] k u = tt
  Unique-remove ((j, w) ∷ m) k u = elim (Bool-cases (e.beq j k)) [
    | inl same ↦ rw same (Unique-remove m k u.1)
    | inr apart ↦ rw apart (get-remove m k j ∙ rw (beq_flip j k apart) u.0, Unique-remove m k u.1)
  ]

  -- No key, no entry.
  pub no_keys : (m : Assoc K V) → ((k : K) → get m k ≡ none) → m ≡ []
  unfolding get
  no_keys [] h = refl
  no_keys ((j, w) ∷ m) h = absurd (cc (rw (beq_refl j) at (h j)))
