-- ===== src/Flow/Build/Order.antt =====
-- The order of the edges of a configuration: by target, and sorting keeps the edges.
use flow_backend.Prelude.{
  ◌≡◌, refl, ◌∙◌, sym, ap, true, false, List, [], ◌∷◌, Str, str_beq_iff, str_beq_refl, All, All-map,
  Bool-cases, inl, inr, arith, false≢true,
}
use flow_backend.Flow.Build.{
  Gate, CfgEdge, str_leb, gate_leb, gate_beq, edge_leb, insert_edge, sort_edges,
}

str_leb_refl : (s : Str) → str_leb s s ≡ true
str_leb_refl [] = refl
str_leb_refl (a ∷ s) = ground (arith, str_leb_refl s)

str_leb_antisym : (s t : Str) → str_leb s t ≡ true → str_leb t s ≡ true → s ≡ t
str_leb_antisym [] [] h k = refl
str_leb_antisym [] (b ∷ t) h k = absurd (false≢true k)
str_leb_antisym (a ∷ s) [] h k = absurd (false≢true h)
str_leb_antisym (a ∷ s) (b ∷ t) h k = ground (arith, str_leb_antisym s t)

str_leb_trans : (s t u : Str) → str_leb s t ≡ true → str_leb t u ≡ true → str_leb s u ≡ true
str_leb_trans [] t u h k = refl
str_leb_trans (a ∷ s) [] u h k = absurd (false≢true h)
str_leb_trans (a ∷ s) (b ∷ t) [] h k = absurd (false≢true k)
str_leb_trans (a ∷ s) (b ∷ t) (c ∷ u) h k = ground (arith, str_leb_trans s t u)

str_leb_total : (s t : Str) → str_leb s t ≡ false → str_leb t s ≡ true
str_leb_total [] t h = absurd (false≢true (sym h))
str_leb_total (a ∷ s) [] h = refl
str_leb_total (a ∷ s) (b ∷ t) h = ground (arith, str_leb_total s t)

pub gate_leb_refl : (g : Gate) → gate_leb g g ≡ true
gate_leb_refl (i, s) = ground (arith, str_leb_refl s)

pub gate_leb_antisym : (g h : Gate) → gate_leb g h ≡ true → gate_leb h g ≡ true → g ≡ h
gate_leb_antisym (i, s) (j, t) p q = ground (arith, str_leb_antisym s t)

pub gate_leb_trans :
    (g h k : Gate) → gate_leb g h ≡ true → gate_leb h k ≡ true → gate_leb g k ≡ true
gate_leb_trans (i, s) (j, t) (k, u) p q = ground (arith, str_leb_trans s t u)

gate_leb_total : (g h : Gate) → gate_leb g h ≡ false → gate_leb h g ≡ true
gate_leb_total (i, s) (j, t) p = ground (arith, str_leb_total s t)

pub gate_beq→eq : (g h : Gate) → gate_beq g h ≡ true → g ≡ h
gate_beq→eq (i, s) (j, t) p = ground (arith, str_beq_iff s t)

pub gate_beq_refl : (g : Gate) → gate_beq g g ≡ true
gate_beq_refl (i, s) = ground (arith, str_beq_refl s)

-- One edge leads to a target that is not after that of the other.
abbrev pub Before : CfgEdge → CfgEdge → Type 0
Before d e = gate_leb d.1 e.1 ≡ true

edge_leb-Before : (d e : CfgEdge) → edge_leb d e ≡ true → Before d e
edge_leb-Before (from, to) (from2, to2) h = elim (Bool-cases (gate_beq to to2)) [
  | inl same ↦ ap (gate_leb to) (sym (gate_beq→eq to to2 same)) ∙ gate_leb_refl to
  | inr apart ↦ rw apart at h
]

swapped-Before : (d e : CfgEdge) → edge_leb d e ≡ false → Before e d
swapped-Before (from, to) (from2, to2) h = elim (Bool-cases (gate_beq to to2)) [
  | inl same ↦ ap (λ g. gate_leb g to) (sym (gate_beq→eq to to2 same)) ∙ gate_leb_refl to
  | inr apart ↦ gate_leb_total to to2 (rw apart at h)
]

-- Each edge leads to a target that is not after those of the edges that follow.
abbrev pub Sorted : List CfgEdge → Type 0
Sorted [] = Unit
Sorted (e ∷ es) = All (Before e) es × Sorted es

All-insert_edge {ℓ} :
    (P : CfgEdge → Type ℓ) (e : CfgEdge) (es : List CfgEdge)
    → P e
    → All P es
    → All P (insert_edge e es)
All-insert_edge P e [] p h = (p, tt)
All-insert_edge P e (d ∷ ds) p h = elim (Bool-cases (edge_leb e d)) [
  | inl before ↦ rw before (p, h)
  | inr after ↦ rw after (h.0, All-insert_edge P e ds p h.1)
]

insert_edge-Sorted : (e : CfgEdge) (es : List CfgEdge) → Sorted es → Sorted (insert_edge e es)
insert_edge-Sorted e [] h = (tt, tt)
insert_edge-Sorted e (d ∷ ds) h = elim (Bool-cases (edge_leb e d)) [
  | inl before ↦
      let first = edge_leb-Before e d before in
      rw before
        ((first, All-map (Before d) (Before e) (λ x. gate_leb_trans e.1 d.1 x.1 first) ds h.0), h)
  | inr after ↦
      rw after (
        All-insert_edge (Before d) e ds (swapped-Before e d after) h.0,
        insert_edge-Sorted e ds h.1,
      )
]

pub sort_edges-Sorted : (es : List CfgEdge) → Sorted (sort_edges es)
sort_edges-Sorted [] = tt
sort_edges-Sorted (e ∷ es) = insert_edge-Sorted e (sort_edges es) (sort_edges-Sorted es)

pub unsort-insert_edge {ℓ} :
    (P : CfgEdge → Type ℓ) (e : CfgEdge) (es : List CfgEdge)
    → All P (insert_edge e es)
    → P e × All P es
unsort-insert_edge P e [] h = h
unsort-insert_edge P e (d ∷ ds) h = elim (Bool-cases (edge_leb e d)) [
  | inl before ↦ rw before at h
  | inr after ↦
      let (first, rest) : P d × All P (insert_edge e ds) = rw after at h in
      let (own, others) = unsort-insert_edge P e ds rest in (own, (first, others))
]

-- What holds of every edge of a sorted list holds of every edge of the list.
pub All-sort_edges {ℓ} :
    (P : CfgEdge → Type ℓ) (es : List CfgEdge) → All P (sort_edges es) → All P es
All-sort_edges P [] h = tt
All-sort_edges P (e ∷ es) h =
    let (first, rest) = unsort-insert_edge P e (sort_edges es) h in
    (first, All-sort_edges P es rest)
