-- ===== src/Flow/Invariant/Finish.antt =====
-- `node_finished` does not panic for a running task, if its assertions hold, and keeps the bookkeeping: the node is idle
-- again and its round is over.
use flow_backend.Prelude.{
  ℕ, suc, ◌≡◌, ◌≢◌, refl, ◌∙◌, sym, ap, false, none, some, List, [], ◌∷◌, ◌++◌, All, All-mid,
  All-map, arith, nat_eq, pair_eq, nat_beq, pair_beq, nat_beq_iff, nat_beq_ne, All-map_two,
  false≢true, nat_beq_refl, Bool-cases, inl, inr, Option-cases, some_inj, map, get_elem?-some,
  length, if◌then◌else◌,
}
use flow_backend.Prelude.Assoc
use flow_backend.Prelude.Assoc.{Assoc, get-insert, get-remove}
use flow_backend.Value.{Map}
use flow_backend.Flow.State.{
  NodeId, Node, FlowGraph, Message, Output, RunningNodeInfo, Task, State, Joined,
}
use flow_backend.Flow.Command.{Name}
use flow_backend.Flow.Inputs.{Run}
use flow_backend.Flow.Outputs.{
  report_missing, missing_outputs, push_missing, save_missing_optional_outputs, output_of, retire,
  close_node, final_output, Ended, node_finished,
}
use flow_backend.Flow.Outputs.Agrees.{Agrees}
use flow_backend.Flow.Invariant.{
  info_key, key_of, output_count, Distinct, IsActive, IsConsistent, Keeps, Keeps-refl,
  Keeps-IsConsistent,
}
use flow_backend.Flow.Invariant.Save.{Keeps-node_error, active_info, save_outputs-Saves}

abbrev pub Other : Task → Task → Type 0
Other k j = k.node.id ≢ j.node.id

Distinct-mid :
    (xs : List Task) (k : Task) (ys : List Task)
    → Distinct (xs ++ k ∷ ys)
    → All (Other k) (xs ++ ys) × Distinct (xs ++ ys)
Distinct-mid [] k ys h = h
Distinct-mid (x ∷ xs) k ys h =
    let (here, rest) = All-mid (Other x) xs k ys h.0 in
    let (others, distinct) = Distinct-mid xs k ys h.1 in
    ((λ e. here (sym e), others), (rest, distinct))

-- A task is joined: it leaves the list of the running ones.
pub IsConsistent-join :
    (f : FlowGraph) (s : State) (xs : List Task) (k : Task) (ys : List Task)
    → s.running ≡ xs ++ k ∷ ys
    → IsConsistent f s
    → IsActive s k × All (Other k) (xs ++ ys) × IsConsistent f (record s { running = xs ++ ys })
IsConsistent-join f s xs k ys e c =
    let (active, tasks) = All-mid (IsActive s) xs k ys (rw e at c.tasks) in
    let (others, distinct) = Distinct-mid xs k ys (rw e at c.distinct) in
    (
      active,
      others,
      record {
        idle = c.idle;
        info = c.info;
        outputs = c.outputs;
        tasks = All-map (IsActive s) _ (λ j h. h) (xs ++ ys) tasks;
        distinct = distinct;
      },
    )

Keeps-report_missing :
    (s : State) (id : NodeId) (t : ℕ) (names : List Name) → Keeps s (report_missing s id t names)
unfolding report_missing
Keeps-report_missing s id t [] = Keeps-refl s
Keeps-report_missing s id t (n ∷ ns) = Keeps-node_error s id t (Message.output_not_found (n ∷ ns))

key_of-remove :
    (m : Assoc (NodeId × ℕ) RunningNodeInfo) (k j : NodeId × ℕ)
    → key_of (Assoc.get (Assoc.remove m k) j)
      ≡ (if pair_beq k j then none else key_of (Assoc.get m j))
key_of-remove m k j =
    rw get-remove (elim (Bool-cases (pair_beq k j)) [ inl e ↦ rw e | inr e ↦ rw e ])

pair_beq_ne : (k j : Task) → Other k j → pair_beq (k.node.id, k.times) (j.node.id, j.times) ≡ false
pair_beq_ne k j ne = rw (nat_beq_ne k.node.id j.node.id ne)

-- Of the entries that are left, none is of the task's node.
other_entry :
    (f : FlowGraph) (s : State) (k : Task) (j p : NodeId × ℕ)
    → IsConsistent f s
    → IsActive s k
    → info_key s j ≡ some p
    → pair_beq (k.node.id, k.times) j ≡ false
    → k.node.id ≢ j.0
other_entry f s k j p c active old ne same =
    let mine = (c.info (k.node.id, k.times) (k.node.id, k.times) active).2 in
    let times : k.times ≡ j.1 = some_inj (sym (rw same at mine) ∙ (c.info j p old).2) in
    false≢true (sym ne ∙ ground (arith, same, times))

-- With the entry of a task gone, its node may be idle again.
retire-IsConsistent :
    (f : FlowGraph) (s : State) (k : Task)
    → IsConsistent f s
    → IsActive s k
    → All (Other k) s.running
    → IsConsistent (retire f s k.node k.times).0 (retire f s k.node k.times).1
unfolding retire
retire-IsConsistent f s k c active others = record {
  idle = λ id n h. elim (Bool-cases (nat_beq k.node.id id)) [
    | inl e ↦
        ap (λ (m : Node). m.id) (sym (some_inj (rw (get-insert, e) at h)))
        ∙ (nat_beq_iff k.node.id id).0 e
    | inr e ↦ c.idle id n (rw (get-insert, e) at h)
  ];
  info = λ j p h. elim (Bool-cases (pair_beq (k.node.id, k.times) j)) [
    | inl e ↦ let gone : none ≡ some p = rw (key_of-remove, e) at h in absurd (cc gone)
    | inr e ↦
        let old : info_key s j ≡ some p = rw (key_of-remove, e) at h in
        let ne = nat_beq_ne k.node.id j.0 (other_entry f s k j p c active old e) in
        let (same, gone, last) = c.info j p old in (same, rw (get-insert, ne) gone, last)
  ];
  outputs = c.outputs;
  tasks =
      All-map_two (Other k) (IsActive s) _ (λ j ne h. rw key_of-remove (rw (pair_beq_ne k j ne) h))
        s.running others c.tasks;
  distinct = c.distinct;
}

output_of_total :
    (s : State) (id : NodeId) (t : ℕ)
    → output_count s id ≡ some (suc t)
    → (output : Map) × (output_of s id t ≡ some output)
output_of_total s id t count = elim (Option-cases (Assoc.get s.result.node_outputs id)) [
  | inl e ↦ absurd (cc (e, count))
  | inr (runs, e) ↦
      let size : length runs ≡ suc t = some_inj (rw e at count) in
      let (output, read) = get_elem?-some runs t (omega arith) in (output, rw (e, output_of, read))
]

close_node-IsConsistent :
    (f : FlowGraph) (s : State) (k : Task)
    → IsConsistent f s
    → IsActive s k
    → All (Other k) s.running
    → (r : Run) × (close_node f s k.node k.times ≡ some r)
      × IsConsistent r.0 r.1
      × (Assoc.get r.0.nodes k.node.id ≡ some k.node)
unfolding close_node
close_node-IsConsistent f s k c active others =
    let (info, e, same_id, same_times, count) = active_info f s k.node.id k.times c active in
    let (output, eo) = output_of_total s k.node.id k.times count in
    let f' : FlowGraph = record f { edges = map (push_missing info output) f.edges } in
    let saved : save_missing_optional_outputs f s k.node.id k.times ≡ some f' =
      rw (e, save_missing_optional_outputs, eo) in
    let names = missing_outputs k.node.command.outputs output in
    let s' = report_missing s k.node.id k.times names in
    let keeps = Keeps-report_missing s k.node.id k.times names in
    let c' = Keeps-IsConsistent f f' s s' refl keeps c in
    let active' = keeps.infos (k.node.id, k.times) ∙ active in
    (
      retire f' s' k.node k.times,
      rw (saved, close_node, eo),
      retire-IsConsistent f' s' k c' active' (rw keeps.running others),
      rw (get-insert, nat_beq_refl k.node.id),
    )

-- For a task that is running `node_finished` does not panic, if the assertions hold; it keeps the bookkeeping and puts the
-- node back under its id.
pub node_finished-IsConsistent :
    (f : FlowGraph) (s : State) (xs : List Task) (k : Task) (ys : List Task) (output : Output)
    → s.running ≡ xs ++ k ∷ ys
    → IsConsistent f s
    → Agrees f s (final_output k.node k.times output)
    → (r : Run) × (node_finished f
          (record s { running = xs ++ ys })
          (Joined.finished k.node k.times output)
        ≡ some (Ended.ok r))
      × IsConsistent r.0 r.1
      × (Assoc.get r.0.nodes k.node.id ≡ some k.node)
unfolding node_finished
node_finished-IsConsistent f s xs k ys output e c agrees =
    let (active, others, c0) = IsConsistent-join f s xs k ys e c in
    let s0 : State = record s { running = xs ++ ys } in
    let save = save_outputs-Saves f s0 (final_output k.node k.times output) c0 active agrees in
    let c1 = Keeps-IsConsistent f save.out.0 s0 save.out.1 save.nodes save.keeps c0 in
    let (r, closed, kept, back) =
      close_node-IsConsistent save.out.0 save.out.1 k c1
        (save.keeps.infos (k.node.id, k.times) ∙ active) (rw save.keeps.running others) in
    (r, rw (save.returns, node_finished, closed), kept, back)
