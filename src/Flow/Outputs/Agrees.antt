-- ===== src/Flow/Outputs/Agrees.antt =====
-- When `save_outputs` may push: a value of a loop is not put behind one of no loop, nor one of no loop
-- behind a loop's.
use flow_backend.Prelude.{
  ℕ, ◌≡◌, refl, sym, Bool, true, false, not, none, some, List, [], ◌∷◌, all, All, and_true, nat_eq,
  pair_eq, nat_beq, nat_beq_iff, Bool-cases, Option-cases, inl, inr, if◌then◌else◌,
}
use flow_backend.Prelude.Assoc
use flow_backend.Value
use flow_backend.Value.{Value, Map}
use flow_backend.Flow.Track.{TrackEdgeValue, is_array}
use flow_backend.Flow.Inputs.{Run}
use flow_backend.Flow.State.{
  Node, FlowGraph, State, EdgeValue, Edge, RunningNodeInfo, Output, PartialOutput, Joined,
}
use flow_backend.Flow.Outputs.{
  outgoing, extend_outputs, save_values, save_found, save_outputs, final_output, Ended,
  node_finished,
}
use flow_backend.Flow.Outputs.Push.{front_agrees, tracker_agrees}

abbrev pub FrontAgrees : TrackEdgeValue → List EdgeValue → Type 0
FrontAgrees tracker [] = Unit
FrontAgrees tracker (front ∷ more) = is_array front.tracker ≡ is_array tracker

-- If the edge gets one of the values, what waits on it first is of a loop exactly if the run is.
abbrev pub EdgeAgrees : RunningNodeInfo → Map → Edge → Type 0
EdgeAgrees info values e =
    (v : Value)
    → e.source ≡ info.node_idx
    → Value.get values e.from ≡ some v
    → FrontAgrees info.tracker e.values

abbrev pub OutputAgrees : FlowGraph → RunningNodeInfo → Output → Type 0
OutputAgrees f info (Output.ok ins values) = All (EdgeAgrees info (outgoing info values)) f.edges
OutputAgrees f info (Output.err error) = Unit

-- Every edge that the output is pushed to.
abbrev pub Agrees : FlowGraph → State → PartialOutput → Type 0
Agrees f s o =
    (info : RunningNodeInfo)
    → Assoc.get s.running_info (o.node_id, o.times) ≡ some info
    → OutputAgrees f info o.output

bool_agrees : (a b : Bool) → (if b then a else not a) ≡ true → a ≡ b
bool_agrees true true h = refl
bool_agrees true false h = cc h
bool_agrees false true h = cc h
bool_agrees false false h = refl

agrees_bool : (a b : Bool) → a ≡ b → (if b then a else not a) ≡ true
agrees_bool true b h = rw (sym h) refl
agrees_bool false b h = rw (sym h) refl

front_agrees→FrontAgrees :
    (t : TrackEdgeValue) (vs : List EdgeValue) → front_agrees t vs ≡ true → FrontAgrees t vs
front_agrees→FrontAgrees t [] h = tt
front_agrees→FrontAgrees t (front ∷ more) h = bool_agrees (is_array front.tracker) (is_array t) h

FrontAgrees→front_agrees :
    (t : TrackEdgeValue) (vs : List EdgeValue) → FrontAgrees t vs → front_agrees t vs ≡ true
FrontAgrees→front_agrees t [] h = refl
FrontAgrees→front_agrees t (front ∷ more) h = agrees_bool (is_array front.tracker) (is_array t) h

tracker_agrees→EdgeAgrees :
    (info : RunningNodeInfo) (values : Map) (e : Edge)
    → tracker_agrees info values e ≡ true
    → EdgeAgrees info values e
unfolding tracker_agrees
tracker_agrees→EdgeAgrees info values e h v leaves has =
    let there = (nat_beq_iff e.source info.node_idx).1 leaves in
    front_agrees→FrontAgrees info.tracker e.values (rw (there, has) at h)

EdgeAgrees→tracker_agrees :
    (info : RunningNodeInfo) (values : Map) (e : Edge)
    → EdgeAgrees info values e
    → tracker_agrees info values e ≡ true
unfolding tracker_agrees
EdgeAgrees→tracker_agrees info values e h = elim (Bool-cases (nat_beq e.source info.node_idx)) [
  | inl there ↦ elim (Option-cases (Value.get values e.from)) [
    | inl none_has ↦ rw (there, none_has) refl
    | inr (v, has) ↦
        rw (there, has)
          (FrontAgrees→front_agrees info.tracker e.values
            (h v ((nat_beq_iff e.source info.node_idx).0 there) has))
  ]
  | inr other ↦ rw other refl
]

all→All :
    (info : RunningNodeInfo) (values : Map) (es : List Edge)
    → all (tracker_agrees info values) es ≡ true
    → All (EdgeAgrees info values) es
all→All info values [] h = tt
all→All info values (e ∷ es) h =
    let (first, others) = and_true (tracker_agrees info values e) _ h in
    (tracker_agrees→EdgeAgrees info values e first, all→All info values es others)

pub All→all :
    (info : RunningNodeInfo) (values : Map) (es : List Edge)
    → All (EdgeAgrees info values) es
    → all (tracker_agrees info values) es ≡ true
All→all info values [] h = refl
All→all info values (e ∷ es) h =
    rw (EdgeAgrees→tracker_agrees info values e h.0) (All→all info values es h.1)

save_found-Agrees :
    (f : FlowGraph) (s : State) (o : PartialOutput) (info : RunningNodeInfo) (out : Output)
    (r : Run)
    → save_found f s o info out ≡ some r
    → OutputAgrees f info out
unfolding save_found save_values
save_found-Agrees f s o info (Output.err error) r h = tt
save_found-Agrees f s o info (Output.ok ins values) r h =
    elim (Option-cases (extend_outputs s.result info.id info.times (outgoing info values))) [
      | inl panics ↦ let fails : none ≡ some r = rw (panics, save_values) at h in absurd (cc fails)
      | inr (result, e) ↦
          elim (Bool-cases (all (tracker_agrees info (outgoing info values)) f.edges)) [
            | inl agree ↦ all→All info (outgoing info values) f.edges agree
            | inr fails ↦
                let panics : none ≡ some r = rw (e, save_values, fails) at h in absurd (cc panics)
          ]
    ]

-- If it returns, the assertions held.
pub save_outputs-Agrees :
    (f : FlowGraph) (s : State) (o : PartialOutput) (r : Run)
    → save_outputs f s o ≡ some r
    → Agrees f s o
unfolding save_outputs
save_outputs-Agrees f s o r h info e =
    save_found-Agrees f s o info o.output r (rw (e, save_outputs) at h)

pub node_finished-Agrees :
    (f : FlowGraph) (s : State) (node : Node) (times : ℕ) (output : Output) (r : Run)
    → node_finished f s (Joined.finished node times output) ≡ some (Ended.ok r)
    → Agrees f s (final_output node times output)
unfolding node_finished
node_finished-Agrees f s node times output r h =
    elim (Option-cases (save_outputs f s (final_output node times output))) [
      | inl panics ↦
          let fails : none ≡ some (Ended.ok r) = rw (panics, node_finished) at h in
          absurd (cc fails)
      | inr (q, e) ↦ save_outputs-Agrees f s (final_output node times output) q e
    ]
