-- ===== src/Flow/Invariant/Save.antt =====
-- `save_outputs` does not panic for a running node, if its assertions hold, and keeps the bookkeeping.
use flow_backend.Prelude.{
  ℕ, suc, ◌≡◌, refl, ◌∙◌, sym, ap, Option, none, some, List, length, length-set, map, All,
  get_elem?-some, set, Option-cases, arith, nat_eq, pair_eq, nat_beq, pair_beq, nat_beq_iff,
  pair_beq_iff, Bool-cases, some_inj, inl, inr,
}
use flow_backend.Prelude.Assoc
use flow_backend.Prelude.Assoc.{Assoc, get-insert}
use flow_backend.Value
use flow_backend.Value.{Map}
use flow_backend.Flow.Command.{InstructionInfo}
use flow_backend.Flow.State.{
  NodeId, FlowGraph, Channel, Response, Instructions, Message, RunningNodeInfo, Output,
  PartialOutput, FlowRunResult, State,
}
use flow_backend.Flow.Inputs.{Run}
use flow_backend.Flow.Outputs.{
  node_error, send, wait_or_refuse, settle, mark_sent, extend_outputs, with_output, outgoing,
  save_values, save_found, save_outputs,
}
use flow_backend.Flow.Outputs.Push.{push_outputs}
use flow_backend.Flow.Outputs.Agrees.{EdgeAgrees, OutputAgrees, Agrees, All→all}
use flow_backend.Flow.Invariant.{
  key_of, count_of, info_key, output_count, IsConsistent, Keeps, Keeps-refl, Keeps-trans,
}

pub Keeps-node_error :
    (s : State) (id : NodeId) (t : ℕ) (m : Message) → Keeps s (node_error s id t m)
unfolding node_error
Keeps-node_error s id t m = record {
  infos = λ k. refl;
  counts = λ j. refl;
  ran = refl;
  running = refl;
}

Keeps-send : (s : State) (c : Option Channel) (r : Response) → Keeps s (send s c r)
Keeps-send s none r = Keeps-refl s
Keeps-send s (some c) r = record {
  infos = λ k. refl;
  counts = λ id. refl;
  ran = refl;
  running = refl;
}

key_of-insert :
    (m : Assoc (NodeId × ℕ) RunningNodeInfo) (k : NodeId × ℕ) (new : RunningNodeInfo)
    → key_of (Assoc.get m k) ≡ key_of (some new)
    → (j : NodeId × ℕ) → key_of (Assoc.get (Assoc.insert m k new) j) ≡ key_of (Assoc.get m j)
key_of-insert m k new same j = rw get-insert (elim (Bool-cases (pair_beq k j)) [
  | inl e ↦ rw e (rw ((pair_beq_iff k j).0 e) at (sym same))
  | inr e ↦ rw e
])

count_of-insert :
    (m : Assoc NodeId (List Map)) (id : NodeId) (new : List Map)
    → count_of (Assoc.get m id) ≡ some (length new)
    → (j : NodeId) → count_of (Assoc.get (Assoc.insert m id new) j) ≡ count_of (Assoc.get m j)
count_of-insert m id new same j = rw get-insert (elim (Bool-cases (nat_beq id j)) [
  | inl e ↦ rw e (rw ((nat_beq_iff id j).0 e) at (sym same))
  | inr e ↦ rw e
])

key_of-mark_sent : (info : RunningNodeInfo) → key_of (some (mark_sent info)) ≡ key_of (some info)
key_of-mark_sent info = elim (Option-cases info.instruction_info) [
  | inl e ↦ rw (e, mark_sent)
  | inr (i, e) ↦ rw (e, mark_sent)
]

-- The outputs of a round that has started are extended, and no round is added.
extend_outputs_total :
    (r : FlowRunResult) (id : NodeId) (t : ℕ) (values : Map)
    → count_of (Assoc.get r.node_outputs id) ≡ some (suc t)
    → (r' : FlowRunResult) × (extend_outputs r id t values ≡ some r')
      × ((j : NodeId)
          → count_of (Assoc.get r'.node_outputs j) ≡ count_of (Assoc.get r.node_outputs j))
unfolding extend_outputs
extend_outputs_total r id t values h = elim (Option-cases (Assoc.get r.node_outputs id)) [
  | inl e ↦ absurd (cc (e, h))
  | inr (runs, e) ↦
      let size : length runs ≡ suc t = some_inj (rw e at h) in
      let (old, read) = get_elem?-some runs t (omega (arith, size)) in
      let new = set runs t (Value.extend old values) in
      (
        record r { node_outputs = Assoc.insert r.node_outputs id new },
        rw (e, extend_outputs, read),
        count_of-insert r.node_outputs id new
            (rw e (ap some (sym (length-set runs t (Value.extend old values))))),
      )
]

module _ (f : FlowGraph) (s : State) where
  -- The operation returns, starts and ends nothing, and leaves the idle nodes.
  pub record Saves (r : Option Run) : Type 0 where
    pub out : Run
    pub returns : r ≡ some out
    pub keeps : Keeps s out.1
    pub nodes : out.0.nodes ≡ f.nodes

Keeps-wait_or_refuse :
    (s : State) (o : PartialOutput) (info : RunningNodeInfo) (ins : Instructions)
    (i : Option InstructionInfo)
    → info_key s (o.node_id, o.times) ≡ key_of (some info)
    → Keeps s (wait_or_refuse s o info ins i)
unfolding wait_or_refuse
Keeps-wait_or_refuse s o info ins none h =
    Keeps-trans (Keeps-send s o.resp _) (Keeps-node_error _ info.id info.times _)
Keeps-wait_or_refuse s o info ins (some i) h = record {
  infos = key_of-insert s.running_info (o.node_id, o.times) _ h;
  counts = λ id. refl;
  ran = refl;
  running = refl;
}

Keeps-settle :
    (s : State) (o : PartialOutput) (info : RunningNodeInfo) (ins : Option Instructions)
    → info_key s (o.node_id, o.times) ≡ key_of (some info)
    → Keeps s (settle s o info ins)
unfolding settle
Keeps-settle s o info none h = Keeps-send s o.resp (Response.signature none)
Keeps-settle s o info (some ins) h = Keeps-wait_or_refuse s o info ins info.instruction_info h

save_values-Saves :
    (f : FlowGraph) (s : State) (o : PartialOutput) (info : RunningNodeInfo)
    (ins : Option Instructions) (values : Map)
    → info_key s (o.node_id, o.times) ≡ some (info.id, info.times)
    → output_count s info.id ≡ some (suc info.times)
    → All (EdgeAgrees info values) f.edges
    → Saves f s (save_values f s o info ins values)
unfolding save_values
save_values-Saves f s o info ins values here count agrees =
    let (r, done, counts) = extend_outputs_total s.result info.id info.times values count in
    let kept = key_of-mark_sent info in
    let mid = with_output s o (mark_sent info) values r in
    let infos =
      key_of-insert s.running_info (o.node_id, o.times) (mark_sent info) (here ∙ sym kept) in
    record {
      out = (
        record f { edges = map (push_outputs info values) f.edges },
        settle mid o (mark_sent info) ins,
      );
      returns = rw (done, save_values, All→all info values f.edges agrees);
      keeps =
          Keeps-trans (record { infos = infos; counts = counts; ran = refl; running = refl })
            (Keeps-settle mid o (mark_sent info) ins
              (infos (o.node_id, o.times) ∙ here ∙ sym kept));
      nodes = refl;
    }

save_found-Saves :
    (f : FlowGraph) (s : State) (o : PartialOutput) (info : RunningNodeInfo) (out : Output)
    → info_key s (o.node_id, o.times) ≡ some (info.id, info.times)
    → output_count s info.id ≡ some (suc info.times)
    → OutputAgrees f info out
    → Saves f s (save_found f s o info out)
unfolding save_found
save_found-Saves f s o info (Output.ok ins values) here count agrees =
    save_values-Saves f s o info ins (outgoing info values) here count agrees
save_found-Saves f s o info (Output.err error) here count agrees = record {
  out = (f, node_error (send s o.resp _) info.id info.times (Message.command error));
  returns = refl;
  keeps = Keeps-trans (Keeps-send s o.resp _) (Keeps-node_error _ info.id info.times _);
  nodes = refl;
}

-- The entry of a running node, and the number of its output maps.
pub active_info :
    (f : FlowGraph) (s : State) (id : NodeId) (t : ℕ)
    → IsConsistent f s
    → info_key s (id, t) ≡ some (id, t)
    → (i : RunningNodeInfo) × (Assoc.get s.running_info (id, t) ≡ some i)
      × (i.id ≡ id)
      × (i.times ≡ t)
      × (output_count s id ≡ some (suc t))
active_info f s id t c here = elim (Option-cases (Assoc.get s.running_info (id, t))) [
  | inl e ↦ absurd (cc (e, here))
  | inr (i, e) ↦
      let same = some_inj (rw e at here) in
      (
        i,
        e,
        ap (λ (p : ℕ × ℕ). p.0) same,
        ap (λ (p : ℕ × ℕ). p.1) same,
        rw ((c.info (id, t) (id, t) here).2) at (c.outputs id),
      )
]

-- For a running node `save_outputs` does not panic, if the assertions hold, and leaves the bookkeeping as it is.
pub save_outputs-Saves :
    (f : FlowGraph) (s : State) (o : PartialOutput)
    → IsConsistent f s
    → info_key s (o.node_id, o.times) ≡ some (o.node_id, o.times)
    → Agrees f s o
    → Saves f s (save_outputs f s o)
unfolding save_outputs
save_outputs-Saves f s o c here agrees =
    let (info, e, same_id, same_times, count) = active_info f s o.node_id o.times c here in
    rw (e, save_outputs)
      (save_found-Saves f s o info o.output (rw (same_id, same_times) here)
        (rw (same_id, same_times) count) (agrees info e))
