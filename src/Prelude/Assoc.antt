-- ===== src/Prelude/Assoc.antt =====
-- A hash map as an association list: `get`, `insert`, `remove`, and `entry(..).or_insert(..)` with
-- what each does on a missing key.
pub mod Keys
use mathlib.Core.Path.{◌≡◌, refl}
use mathlib.Core.Bool.{Bool}
use mathlib.Core.List.{List, [], ◌∷◌}
use mathlib.Core.Option.{Option, none, some}
use native.Mathlib.Omega.{arith}
use flow_backend.Prelude.Tests.{if◌then◌else◌, is_some}
use flow_backend.Prelude.Equality.{Eq}

abbrev pub Assoc {ℓ κ} : Type ℓ → Type κ → Type (ℓ ⊔ κ)
Assoc K V = List (K × V)

module _ {ℓ κ} {K : Type ℓ} ⦃e : Eq K⦄ {V : Type κ} where
  unfoldable pub get : Assoc K V → K → Option V
  get [] k = none
  get ((j, v) ∷ m) k = if e.beq j k then some v else get m k

  unfoldable pub contains_key : Assoc K V → K → Bool
  contains_key m k = is_some (get m k)

  unfoldable pub insert : Assoc K V → K → V → Assoc K V
  insert [] k v = (k, v) ∷ []
  insert ((j, w) ∷ m) k v =
      let rest = insert m k v in if e.beq j k then (k, v) ∷ m else (j, w) ∷ rest

  unfoldable pub remove : Assoc K V → K → Assoc K V
  remove [] k = []
  remove ((j, w) ∷ m) k = let rest = remove m k in if e.beq j k then rest else (j, w) ∷ rest

  pub get-insert :
      (m : Assoc K V) (k : K) (v : V) (j : K)
      → get (insert m k v) j ≡ (if e.beq k j then some v else get m j)
  unfolding get insert
  get-insert [] k v j = refl
  get-insert ((i, w) ∷ m) k v j =
      ground (arith, get-insert m k v j, e.beq_iff i k, e.beq_iff i j, e.beq_iff k j)

  pub get-remove :
      (m : Assoc K V) (k j : K) → get (remove m k) j ≡ (if e.beq k j then none else get m j)
  unfolding get remove
  get-remove [] k j = ground arith
  get-remove ((i, w) ∷ m) k j =
      ground (arith, get-remove m k j, e.beq_iff i k, e.beq_iff i j, e.beq_iff k j)

pub ruleset assoc_laws = (get-insert, get-remove)
