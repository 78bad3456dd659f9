-- ===== src/Flow/Invariant.antt =====
-- The bookkeeping of a run: which nodes run, how often each has, and where its outputs are kept.
pub mod Save
pub mod Start
pub mod Finish
pub mod Held
pub mod Execute
use flow_backend.Prelude.{
  ℕ, suc, ◌≡◌, refl, ◌≢◌, ◌∙◌, Bool, true, Option, none, some, List, [], ◌∷◌, length, All, All-map,
  is_some, arith, nat_eq, pair_eq,
}
use flow_backend.Prelude.Assoc
use flow_backend.Value.{Map}
use flow_backend.Flow.State.{NodeId, Node, FlowGraph, RunningNodeInfo, Task, State}

abbrev pub key_of : Option RunningNodeInfo → Option (NodeId × ℕ)
key_of none = none
key_of (some i) = some (i.id, i.times)

abbrev pub count_of : Option (List Map) → Option ℕ
count_of none = none
count_of (some runs) = some (length runs)

abbrev pub runs_of : Option ℕ → Option ℕ
runs_of none = none
runs_of (some t) = some (suc t)

-- The node and the round that the entry of a key is about, if there is one.
abbrev pub info_key : State → NodeId × ℕ → Option (NodeId × ℕ)
info_key s k = key_of (Assoc.get s.running_info k)

-- How many output maps a node has.
abbrev pub output_count : State → NodeId → Option ℕ
output_count s id = count_of (Assoc.get s.result.node_outputs id)

abbrev pub IsActive : State → Task → Type 0
IsActive s k = info_key s (k.node.id, k.times) ≡ some (k.node.id, k.times)

abbrev pub Distinct : List Task → Type 0
Distinct [] = Unit
Distinct (k ∷ ks) = All (λ (j : Task). k.node.id ≢ j.node.id) ks × Distinct ks

-- An idle node is under its own id; an entry of `running_info` is under its own key, its node is
-- not idle, and its round is the node's last; a node has one output map for each start; each
-- task has its entry, and no two tasks are of one node.
pub record IsConsistent (f : FlowGraph) (s : State) : Type 0 where
  pub idle : (id : NodeId) (n : Node) → Assoc.get f.nodes id ≡ some n → n.id ≡ id
  pub info :
      (k p : NodeId × ℕ)
      → info_key s k ≡ some p
      → (p ≡ k) × (Assoc.get f.nodes k.0 ≡ none) × (Assoc.get s.ran k.0 ≡ some k.1)
  pub outputs : (id : NodeId) → output_count s id ≡ runs_of (Assoc.get s.ran id)
  pub tasks : All (IsActive s) s.running
  pub distinct : Distinct s.running

-- What an operation that starts and ends nothing leaves alone.
pub record Keeps (s s' : State) : Type 0 where
  pub infos : (k : NodeId × ℕ) → info_key s' k ≡ info_key s k
  pub counts : (id : NodeId) → output_count s' id ≡ output_count s id
  pub ran : s'.ran ≡ s.ran
  pub running : s'.running ≡ s.running

pub Keeps-refl : (s : State) → Keeps s s
Keeps-refl s = record { infos = λ k. refl; counts = λ id. refl; ran = refl; running = refl }

pub Keeps-trans : {s t u : State} → Keeps s t → Keeps t u → Keeps s u
Keeps-trans p q = record {
  infos = λ k. q.infos k ∙ p.infos k;
  counts = λ id. q.counts id ∙ p.counts id;
  ran = q.ran ∙ p.ran;
  running = q.running ∙ p.running;
}

pub Keeps-IsConsistent :
    (f f' : FlowGraph) (s s' : State)
    → f'.nodes ≡ f.nodes
    → Keeps s s'
    → IsConsistent f s
    → IsConsistent f' s'
Keeps-IsConsistent f f' s s' same k c = record {
  idle = λ id n. rw same (c.idle id n);
  info = λ j p. rw (k.infos, same, k.ran) (c.info j p);
  outputs = λ id. rw (k.counts, k.ran) (c.outputs id);
  tasks = rw k.running (
      All-map (IsActive s) (IsActive s') (λ t h. k.infos (t.node.id, t.times) ∙ h) s.running
        c.tasks);
  distinct = rw k.running c.distinct;
}
