-- ===== src/Flow/Build/Targets.antt =====
-- No two edges of a configuration that is accepted lead to one input.
use flow_backend.Prelude.{
  ◌≡◌, ◌≢◌, refl, ◌∙◌, sym, ap, false, Option, none, some, List, [], ◌∷◌, All, All-map, Bool-cases,
  inl, inr, false≢true,
}
use flow_backend.Flow.State.{NodeId}
use flow_backend.Flow.Build.{
  Gate, CfgEdge, gate_leb, gate_beq, edge_leb, insert_edge, sort_edges, Building, Built, ok, failed,
  and_then, add_cfg_edge, same_target, add_cfg_edges,
}
use flow_backend.Flow.Build.Order.{
  Before, Sorted, gate_leb_antisym, gate_beq_refl, unsort-insert_edge, sort_edges-Sorted,
  All-sort_edges,
}

abbrev pub Apart : CfgEdge → CfgEdge → Type 0
Apart d e = d.1 ≢ e.1

-- No two edges lead to one input.
abbrev pub Distinct : List CfgEdge → Type 0
Distinct [] = Unit
Distinct (e ∷ es) = All (Apart e) es × Distinct es

-- No edge leads to the input of the edge before it.
abbrev Adjacent : Option Gate → List CfgEdge → Type 0
Adjacent before [] = Unit
Adjacent before (e ∷ es) = (same_target before e.1 ≡ false) × Adjacent (some e.1) es

beyond : (e d z : CfgEdge) → Before e d → Before d z → Apart e d → Apart e z
beyond e d z first second apart same =
    apart (gate_leb_antisym e.1 d.1 first (ap (gate_leb d.1) same ∙ second))

Adjacent-Apart :
    (e : CfgEdge) (es : List CfgEdge)
    → All (Before e) es
    → Sorted es
    → Adjacent (some e.1) es
    → All (Apart e) es
Adjacent-Apart e [] before sorted next = tt
Adjacent-Apart e (d ∷ ds) before sorted next =
    let apart : Apart e d =
      λ same. false≢true (sym next.0 ∙ ap (gate_beq e.1) (sym same) ∙ gate_beq_refl e.1) in
    (apart, All-map (Before d) (Apart e) (λ z later. beyond e d z before.0 later apart) ds sorted.0)

Adjacent-Distinct :
    (before : Option Gate) (es : List CfgEdge) → Sorted es → Adjacent before es → Distinct es
Adjacent-Distinct before [] sorted next = tt
Adjacent-Distinct before (e ∷ es) sorted next =
    (Adjacent-Apart e es sorted.0 sorted.1 next.1, Adjacent-Distinct (some e.1) es sorted.1 next.1)

-- Inversion of a chain that succeeds.
pub and_then-ok {ℓ κ} :
    {A : Type ℓ} {B : Type κ} (m : Built A) (f : A → Built B) (b : B)
    → and_then m f ≡ ok b
    → (a : A) × (m ≡ ok a) × (f a ≡ ok b)
and_then-ok (ok a) f b h = (a, refl, h)
and_then-ok (failed e) f b h = absurd (cc h)

add_cfg_edges-Adjacent :
    (all_nodes : List NodeId) (es : List CfgEdge) (before : Option Gate) (b c : Building)
    → add_cfg_edges all_nodes before b es ≡ ok c
    → Adjacent before es
add_cfg_edges-Adjacent all_nodes [] before b c h = tt
add_cfg_edges-Adjacent all_nodes ((from, to) ∷ es) before b c h =
    elim (Bool-cases (same_target before to)) [
      | inl same ↦ absurd (cc (rw same at h))
      | inr apart ↦
          let (d, e, rest) =
            and_then-ok (add_cfg_edge all_nodes b (from, to))
              (λ d. add_cfg_edges all_nodes (some to) d es) c (rw apart at h) in
          (apart, add_cfg_edges-Adjacent all_nodes es (some to) d c rest)
    ]

flip : (d e : CfgEdge) → Apart d e → Apart e d
flip d e h same = h (sym same)

unsort-Distinct :
    (e : CfgEdge) (es : List CfgEdge) → Distinct (insert_edge e es) → All (Apart e) es × Distinct es
unsort-Distinct e [] h = (tt, tt)
unsort-Distinct e (d ∷ ds) h = elim (Bool-cases (edge_leb e d)) [
  | inl before ↦ rw before at h
  | inr after ↦
      let (first, rest) : All (Apart d) (insert_edge e ds) × Distinct (insert_edge e ds) =
        rw after at h in
      let (own, others) = unsort-insert_edge (Apart d) e ds first in
      let (apart, distinct) = unsort-Distinct e ds rest in
      ((flip d e own, apart), (others, distinct))
]

unsort_all-Distinct : (es : List CfgEdge) → Distinct (sort_edges es) → Distinct es
unsort_all-Distinct [] h = tt
unsort_all-Distinct (e ∷ es) h =
    let (apart, rest) = unsort-Distinct e (sort_edges es) h in
    (All-sort_edges (Apart e) es apart, unsort_all-Distinct es rest)

pub add_cfg_edges-Distinct :
    (all_nodes : List NodeId) (es : List CfgEdge) (b c : Building)
    → add_cfg_edges all_nodes none b (sort_edges es) ≡ ok c
    → Distinct es
add_cfg_edges-Distinct all_nodes es b c h = unsort_all-Distinct es (
    Adjacent-Distinct none (sort_edges es) (sort_edges-Sorted es)
      (add_cfg_edges-Adjacent all_nodes (sort_edges es) none b c h))
