-- ===== src/Flow/Invariant/Start.antt =====
-- `start_node` keeps the bookkeeping: the node is running, in its next round.
use flow_backend.Prelude.{
  ℕ, suc, ◌+◌, ◌<◌, ◌^◌, ◌≡◌, ◌≢◌, refl, ◌∙◌, sym, ap, Option, none, some, List, [], ◌∷◌, ◌++◌, All,
  All-append, All-map, arith, nat_eq, pair_eq, nat_beq, nat_beq_iff, pair_beq, pair_beq_iff,
  nat_beq_ne, nat_beq_refl, Bool-cases, inl, inr, some_inj, length, length-append, if◌then◌else◌,
}
use flow_backend.Prelude.Assoc
use flow_backend.Prelude.Assoc.{Assoc, get-insert, get-remove}
use flow_backend.Value.{Map}
use flow_backend.Flow.Command.{ReadAs}
use flow_backend.Flow.State.{NodeId, Node, FlowGraph, RunningNodeInfo, Task, State}
use flow_backend.Flow.Inputs.{
  start_idle, start_node, counts_agree, spawn_node, next_times, or_empty,
}
use flow_backend.Flow.Invariant.{key_of, count_of, runs_of, Distinct, IsActive, IsConsistent}

-- The u32 that counts the rounds of a node does not wrap at its next start.
abbrev pub CanCount : State → NodeId → Type 0
CanCount s id = (t : ℕ) → Assoc.get s.ran id ≡ some t → t + 1 < 2 ^ 32

abbrev NotNode : NodeId → Task → Type 0
NotNode id k = k.node.id ≢ id

Distinct-append :
    (ks : List Task) (k : Task) → All (NotNode k.node.id) ks → Distinct ks → Distinct (ks ++ k ∷ [])
Distinct-append [] k h d = (tt, tt)
Distinct-append (j ∷ ks) k h d =
    (All-append _ ks d.0 (k ∷ []) (h.0, tt), Distinct-append ks k h.1 d.1)

next_count :
    (before : Option (List Map)) (ran : Option ℕ)
    → ((t : ℕ) → ran ≡ some t → t + 1 < 2 ^ 32)
    → count_of before ≡ runs_of ran
    → length (or_empty before ++ Map.empty ∷ []) ≡ suc (next_times ran)
unfolding next_times
next_count none none h e = refl
next_count none (some t) h e = absurd (cc e)
next_count (some runs) none h e = absurd (cc e)
next_count (some runs) (some t) h e =
    omega (arith, h t refl, length-append runs (Map.empty ∷ []), some_inj e)

-- A task's node is not idle.
active_node :
    (f : FlowGraph) (s : State) (id : NodeId) (node : Node) (k : Task)
    → IsConsistent f s
    → Assoc.get f.nodes id ≡ some node
    → IsActive s k
    → NotNode id k
active_node f s id node k c idle active same =
    let gone = (c.info (k.node.id, k.times) (k.node.id, k.times) active).1 in
    cc (idle, rw same at gone)

key_of-insert_if :
    (m : Assoc (NodeId × ℕ) RunningNodeInfo) (k : NodeId × ℕ) (new : RunningNodeInfo)
    (j : NodeId × ℕ)
    → key_of (Assoc.get (Assoc.insert m k new) j)
      ≡ (if pair_beq k j then some (new.id, new.times) else key_of (Assoc.get m j))
key_of-insert_if m k new j =
    rw get-insert (elim (Bool-cases (pair_beq k j)) [ inl e ↦ rw e | inr e ↦ rw e ])

-- Starting an idle node keeps the bookkeeping, unless the count of its rounds would wrap.
pub start_idle-IsConsistent :
    (read : ReadAs) (f : FlowGraph) (s : State) (id : NodeId) (node : Node)
    → Assoc.get f.nodes id ≡ some node
    → CanCount s id
    → IsConsistent f s
    → IsConsistent (start_idle read f s id node).0 (start_idle read f s id node).1
unfolding start_idle spawn_node
start_idle-IsConsistent read f s id node idle can c = record {
  idle = λ j n h. elim (Bool-cases (nat_beq id j)) [
    | inl e ↦ let gone : none ≡ some n = rw (get-remove, e) at h in absurd (cc gone)
    | inr e ↦ c.idle j n (rw (get-remove, e) at h)
  ];
  info = λ j p h. elim (Bool-cases (pair_beq (node.id, times) j)) [
    | inl e ↦
        let here = (pair_beq_iff (node.id, times) j).0 e in
        (
          sym (some_inj (rw (key_of-insert_if, e) at h)) ∙ here,
          rw (← here, same, get-remove, nat_beq_refl id),
          rw (← here, get-insert, nat_beq_refl node.id),
        )
    | inr e ↦
        let (at_key, gone, last) = c.info j p (rw (key_of-insert_if, e) at h) in
        let other : id ≢ j.0 = λ q. cc (idle, rw (← q) at gone) in
        (
          at_key,
          rw (get-remove, nat_beq_ne id j.0 other) gone,
          rw (get-insert, same, nat_beq_ne id j.0 other) last,
        )
  ];
  outputs = λ j. elim (Bool-cases (nat_beq node.id j)) [
    | inl e ↦ simp (get-insert, e) (ap some counted)
    | inr e ↦ simp (get-insert, e) (c.outputs j)
  ];
  tasks =
      All-append _ s.running (All-map (IsActive s) (IsActive after) still s.running c.tasks) _
        (rw (key_of-insert_if, nat_beq_refl node.id, nat_beq_refl times), tt);
  distinct =
      Distinct-append s.running _
        (All-map _ _ (λ k h. rw same (active_node f s id node k c idle h)) s.running c.tasks)
        c.distinct;
}
  where
    after : State
    after = (start_idle read f s id node).1

    same : node.id ≡ id
    same = c.idle id node idle

    times : ℕ
    times = next_times (Assoc.get s.ran node.id)

    counted :
        length (or_empty (Assoc.get s.result.node_outputs node.id) ++ Map.empty ∷ []) ≡ suc times
    counted =
        next_count (Assoc.get s.result.node_outputs node.id) (Assoc.get s.ran node.id) (rw same can)
          (c.outputs node.id)

    still : (k : Task) → IsActive s k → IsActive after k
    still k h =
        let ne = nat_beq_ne id k.node.id (λ q. active_node f s id node k c idle h (sym q)) in
        rw (spawn_node, key_of-insert_if, same, ne) h

-- Before an idle node starts it has as many output maps as the number of its round.
pub start_node-returns :
    (read : ReadAs) (f : FlowGraph) (s : State) (id : NodeId) (node : Node)
    → Assoc.get f.nodes id ≡ some node
    → CanCount s id
    → IsConsistent f s
    → start_node read f s id ≡ some (start_idle read f s id node)
unfolding start_node counts_agree
start_node-returns read f s id node idle can c =
    let same = c.idle id node idle in
    let before = Assoc.get s.result.node_outputs node.id in
    let ran = Assoc.get s.ran node.id in
    let counted = next_count before ran (rw same can) (c.outputs node.id) in
    let agree : length (or_empty before) ≡ next_times ran =
      omega (arith, length-append (or_empty before) (Map.empty ∷ []), counted) in
    rw (idle, start_node, (nat_beq_iff (length (or_empty before)) (next_times ran)).1 agree) refl
