-- ===== src/Flow/Ready/Enough.antt =====
-- The fuel of `finished`.
use flow_backend.Prelude.{
  ℕ, zero, suc, ◌+◌, ◌≤◌, ◌<◌, ◌≡◌, refl, ◌∙◌, sym, ap, Bool, true, false, not, some, Option-cases,
  Bool-cases, inl, inr, List, [], ◌∷◌, contains, nat_eq, nat_beq, arith, map, length, head?,
  if◌then◌else◌, if-true, if-false,
}
use flow_backend.Prelude.Assoc
use flow_backend.Prelude.Assoc.{Assoc}
use flow_backend.Flow.State.{NodeId, NodeIndex, Edge, FlowGraph, State}
use flow_backend.Flow.Ready.{
  in_edges, idle, has_run, Scan, Visit, front_value, scan_source, scan_edge, scan_edges, verdict,
  scan_start, no_edges, finished_recursive, finished,
}
use flow_backend.Flow.Transactions.Once.{unvisited, unvisited-le, unvisited-lt, unvisited-length}

abbrev indices : FlowGraph → List NodeIndex
indices f = map (λ p. p.0) f.weights

abbrev left : FlowGraph → List NodeIndex → ℕ
left f visited = unvisited visited (indices f)

-- A visit takes no index back.
abbrev Grows : FlowGraph → Visit → Type 0
Grows f visit = (nid : NodeIndex) (v : List NodeIndex) → left f (visit nid v).1 ≤ left f v

left-scan_edge :
    (f : FlowGraph) (visit : Visit) (c : Scan) (e : Edge)
    → Grows f visit
    → left f (scan_edge visit c e).visited ≤ left f c.visited
unfolding scan_edge scan_source
left-scan_edge f visit c e g = elim (Option-cases (front_value (head? e.values))) [
  | inr (b, p) ↦ rw (scan_edge, p) (omega arith)
  | inl p ↦ elim (Bool-cases e.is_required_input) [
    | inl r ↦ rw (scan_edge, p, r) (g e.source c.visited)
    | inr r ↦ rw (scan_edge, p, r) (omega arith)
  ]
]

left-scan_edges :
    (f : FlowGraph) (visit : Visit) (c : Scan) (es : List Edge)
    → Grows f visit
    → left f (scan_edges visit c es).visited ≤ left f c.visited
unfolding scan_edges
left-scan_edges f visit c [] g = omega arith
left-scan_edges f visit c (e ∷ es) g =
    omega (arith, left-scan_edge f visit c e g, left-scan_edges f visit (scan_edge visit c e) es g)

-- Two visits that agree where at most `k` indices are left scan the same way from there.
abbrev Agree : FlowGraph → ℕ → Visit → Visit → Type 0
Agree f k visit more =
    (nid : NodeIndex) (v : List NodeIndex) → left f v ≤ k → visit nid v ≡ more nid v

scan_edge-Agree :
    (f : FlowGraph) (k : ℕ) (visit more : Visit) (c : Scan) (e : Edge)
    → Agree f k visit more
    → left f c.visited ≤ k
    → scan_edge visit c e ≡ scan_edge more c e
unfolding scan_edge
scan_edge-Agree f k visit more c e same h = elim (Option-cases (front_value (head? e.values))) [
  | inr (b, p) ↦ rw (scan_edge, p)
  | inl p ↦ elim (Bool-cases e.is_required_input) [
    | inl r ↦ rw (scan_edge, p, r) (ap (scan_source c) (same e.source c.visited h))
    | inr r ↦ rw (scan_edge, p, r)
  ]
]

scan_edges-Agree :
    (f : FlowGraph) (k : ℕ) (visit more : Visit) (c : Scan) (es : List Edge)
    → Agree f k visit more
    → Grows f visit
    → left f c.visited ≤ k
    → scan_edges visit c es ≡ scan_edges more c es
unfolding scan_edges
scan_edges-Agree f k visit more c [] same g h = refl
scan_edges-Agree f k visit more c (e ∷ es) same g h =
    scan_edges-Agree f k visit more (scan_edge visit c e) es same g
      (omega (arith, left-scan_edge f visit c e g, h))
    ∙ ap (λ d. scan_edges more d es) (scan_edge-Agree f k visit more c e same h)

if-left :
    (f : FlowGraph) (k : ℕ) (b : Bool) (x y : Bool × List NodeIndex)
    → left f x.1 ≤ k
    → left f y.1 ≤ k
    → left f (if b then x else y).1 ≤ k
if-left f k true x y hx hy = hx
if-left f k false x y hx hy = hy

edges-left :
    (f : FlowGraph) (k : ℕ) (es : List Edge) (x y : Bool × List NodeIndex)
    → left f x.1 ≤ k
    → left f y.1 ≤ k
    → left f (no_edges es x y).1 ≤ k
edges-left f k [] x y hx hy = hx
edges-left f k (e ∷ es) x y hx hy = hy

finished_recursive-Grows :
    (f : FlowGraph) (s : State) (fuel : ℕ) → Grows f (finished_recursive f s fuel)
unfolding finished_recursive verdict
finished_recursive-Grows f s zero = λ nid v. omega arith
finished_recursive-Grows f s (suc fuel) = λ nid v.
    let less = unvisited-le v (indices f) nid in
    let below =
      left-scan_edges f (finished_recursive f s fuel) (scan_start (nid ∷ v)) (in_edges f nid)
        (finished_recursive-Grows f s fuel) in
    if-left f (left f v) (contains v nid) _ _ (omega arith) (
      if-left f (left f v) (not (idle f nid)) _ _ less
        (edges-left f (left f v) (in_edges f nid) _ _ less (omega (arith, less, below))))

contains-keys :
    (m : Assoc NodeIndex NodeId) (k : NodeIndex) (v : NodeId)
    → Assoc.get m k ≡ some v
    → contains (map (λ p. p.0) m) k ≡ true
unfolding Assoc.get
contains-keys [] k v h = absurd (cc h)
contains-keys ((j, w) ∷ m) k v h = elim (Bool-cases (nat_beq j k)) [
  | inl e ↦ rw e
  | inr e ↦ rw e (contains-keys m k v (rw e at h))
]

idle-contains :
    (f : FlowGraph) (nid : NodeIndex) → idle f nid ≡ true → contains (indices f) nid ≡ true
idle-contains f nid h = elim (Option-cases (Assoc.get f.weights nid)) [
  | inl e ↦ absurd (cc (rw (idle, e) at h))
  | inr (id, e) ↦ contains-keys f.weights nid id e
]

finished_recursive_more :
    (f : FlowGraph) (s : State) (fuel : ℕ) (nid : NodeIndex) (v : List NodeIndex)
    → left f v < fuel
    → finished_recursive f s fuel nid v ≡ finished_recursive f s (suc fuel) nid v
unfolding finished_recursive
finished_recursive_more f s zero nid v h = absurd (omega (arith, h))
finished_recursive_more f s (suc fuel) nid v h = elim (Bool-cases (contains v nid)) [
  | inl e ↦ if-true _ _ _ e ∙ sym (if-true _ _ _ e)
  | inr new ↦ elim (Bool-cases (idle f nid)) [
    | inr e ↦
        let busy : not (idle f nid) ≡ true = rw e in
        if-false _ _ _ new ∙ if-true _ _ _ busy ∙ sym (if-false _ _ _ new ∙ if-true _ _ _ busy)
    | inl e ↦
        let fewer = unvisited-lt v (indices f) nid (idle-contains f nid e) new in
        ap
          (λ c.
            if contains v nid
            then (false, v)
            else if not (idle f nid)
            then (false, nid ∷ v)
            else no_edges (in_edges f nid) (has_run f s nid, nid ∷ v) (verdict (has_run f s nid) c))
          (scan_edges-Agree f (left f (nid ∷ v)) (finished_recursive f s fuel)
            (finished_recursive f s (suc fuel)) (scan_start (nid ∷ v)) (in_edges f nid)
            (λ i w le. finished_recursive_more f s fuel i w (omega (arith, fewer, h, le)))
            (finished_recursive-Grows f s fuel) (omega arith))
  ]
]

length-indices : (m : Assoc NodeIndex NodeId) → length (map (λ p. p.0) m) ≡ length m
length-indices [] = refl
length-indices (p ∷ m) = ap suc (length-indices m)

left_most : (f : FlowGraph) → left f [] ≤ length f.weights
left_most f = omega (arith, unvisited-length (indices f), length-indices f.weights)

-- The recursion of `finished` ends by itself: with any more fuel than the number of indices of the
-- graph gives, the answer is the same.
pub finished_enough :
    (f : FlowGraph) (s : State) (nid : NodeIndex) (extra : ℕ)
    → (finished_recursive f s (extra + suc (length f.weights)) nid []).0 ≡ finished f s nid
unfolding finished
finished_enough f s nid zero =
    let same : 0 + suc (length f.weights) ≡ suc (length f.weights) = omega arith in
    ap (λ n. (finished_recursive f s n nid []).0) same
finished_enough f s nid (suc extra) =
    let fuel = extra + suc (length f.weights) in
    let same : suc extra + suc (length f.weights) ≡ suc fuel = omega arith in
    ap (λ n. (finished_recursive f s n nid []).0) same
    ∙ ap (λ (r : Bool × List NodeIndex). r.0)
        (sym (finished_recursive_more f s fuel nid [] (omega (arith, left_most f))))
    ∙ finished_enough f s nid extra
