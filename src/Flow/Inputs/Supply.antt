-- ===== src/Flow/Inputs/Supply.antt =====
-- What `take_inputs` hands to a node and leaves on the edges.
use flow_backend.Prelude.{
  ◌≡◌, refl, ◌∙◌, ap, ap₂, sym, Bool, true, false, ◌&&◌, ◌||◌, Option, none, some, List, [], ◌∷◌,
  arith, nat_beq, str_beq, filter, map, all, any, All, if◌then◌else◌, Bool-cases, inl, inr, is_some,
  str_beq_refl, head?, Option-cases, false≢true, and_true,
}
use flow_backend.Value
use flow_backend.Value.{Value, Map, contains_key, contains_key-insert}
use flow_backend.Flow.Track.{TrackEdgeValue, is_array, zip, is_array-zip}
use flow_backend.Flow.Command.{Name}
use flow_backend.Flow.State.{NodeIndex, EdgeValue, Edge, Node, FlowGraph, State}
use flow_backend.Flow.Ready.{collect, in_edges, edge_filled, finished, ready_node}
use flow_backend.Flow.Ready.Once.{ready_filled}
use flow_backend.Flow.Inputs.{tail_of, take_edge, take_edges, take_inputs}

-- The value at the front of an edge, with its tracker.
abbrev pub offered : List EdgeValue → Option (Value × TrackEdgeValue)
offered [] = none
offered (v ∷ vs) = elim v.value [ none ↦ none | some w ↦ some (w, v.tracker) ]

-- `take_edge` by what the edge offers.
abbrev pub taken_by :
    Option (Value × TrackEdgeValue) → Edge → Map → TrackEdgeValue → (Map × TrackEdgeValue) × Edge
taken_by none e values tracker = ((values, tracker), e)
taken_by (some (w, t)) e values tracker = (
  (Value.insert values e.to w, zip tracker t),
  if is_array t then record e { values = tail_of e.values } else e,
)

take_edge_by :
    (e : Edge) (values : Map) (tracker : TrackEdgeValue)
    → take_edge e values tracker ≡ taken_by (offered e.values) e values tracker
unfolding take_edge
take_edge_by e values tracker = ground arith

-- The edge that is left does not depend on what was taken before.
abbrev pub consume : Edge → Edge
consume e = (taken_by (offered e.values) e Map.empty TrackEdgeValue.none).1

abbrev is_target : NodeIndex → Edge → Bool
is_target idx e = nat_beq e.target idx

rest_of :
    (o : Option (Value × TrackEdgeValue)) (e : Edge) (values : Map) (tracker : TrackEdgeValue)
    → (taken_by o e values tracker).1 ≡ (taken_by o e Map.empty TrackEdgeValue.none).1
rest_of none e values tracker = refl
rest_of (some (w, t)) e values tracker = refl

take_edges-edges :
    (idx : NodeIndex) (es : List Edge) (values : Map) (tracker : TrackEdgeValue)
    → (take_edges idx es values tracker).edges
      ≡ map (λ e. if nat_beq e.target idx then consume e else e) es
unfolding take_edges
take_edges-edges idx [] values tracker = refl
take_edges-edges idx (e ∷ es) values tracker = elim (Bool-cases (nat_beq e.target idx)) [
  | inl h ↦
      rw (h, take_edge_by e values tracker)
        (ap₂ ◌∷◌ (rest_of (offered e.values) e values tracker) (take_edges-edges idx es _ _))
  | inr h ↦ rw h (ap (◌∷◌ e) (take_edges-edges idx es values tracker))
]

-- `take_inputs` changes no edge but the node's incoming ones, and takes off each of these the front
-- value if that belongs to a loop; an edge whose front holds no value, or one of no loop, stays.
pub take_inputs-edges :
    (f : FlowGraph) (idx : NodeIndex)
    → (take_inputs f idx).edges ≡ map (λ e. if nat_beq e.target idx then consume e else e) f.edges
unfolding take_inputs
take_inputs-edges f idx = take_edges-edges idx f.edges Map.empty TrackEdgeValue.none

abbrev offers_loop : Option (Value × TrackEdgeValue) → Bool
offers_loop none = false
offers_loop (some (w, t)) = is_array t

-- Does the front of an edge hold a value of a loop?
abbrev pub from_loop : Edge → Bool
from_loop e = offers_loop (offered e.values)

or_swap : (a b c : Bool) → ((a || b) || c) ≡ (a || (b || c))
or_swap true b c = refl
or_swap false b c = refl

tracker_of :
    (o : Option (Value × TrackEdgeValue)) (e : Edge) (values : Map) (tracker : TrackEdgeValue)
    → is_array (taken_by o e values tracker).0.1 ≡ (is_array tracker || offers_loop o)
tracker_of none e values tracker = ground arith
tracker_of (some (w, t)) e values tracker = is_array-zip tracker t

take_edges-tracker :
    (idx : NodeIndex) (es : List Edge) (values : Map) (tracker : TrackEdgeValue)
    → is_array (take_edges idx es values tracker).tracker
      ≡ (is_array tracker || any from_loop (filter (is_target idx) es))
unfolding take_edges
take_edges-tracker idx [] values tracker = ground arith
take_edges-tracker idx (e ∷ es) values tracker = elim (Bool-cases (nat_beq e.target idx)) [
  | inl h ↦
      rw (h, take_edge_by e values tracker)
        (take_edges-tracker idx es _ _
          ∙ ap (λ b. b || any from_loop (filter (is_target idx) es))
              (tracker_of (offered e.values) e values tracker)
          ∙ or_swap (is_array tracker) (from_loop e) _)
  | inr h ↦ rw h (take_edges-tracker idx es values tracker)
]

-- The tracker that `take_inputs` returns for a node is one of a loop exactly if one of the node's
-- incoming edges has in front an entry of a loop that holds a value. (A collect and a flow_input do
-- not use `take_inputs`.)
pub take_inputs-tracker :
    (f : FlowGraph) (idx : NodeIndex)
    → is_array (take_inputs f idx).tracker ≡ any from_loop (in_edges f idx)
unfolding take_inputs
take_inputs-tracker f idx = take_edges-tracker idx f.edges Map.empty TrackEdgeValue.none

abbrev pub Holds : Map → Name → Type 0
Holds values k = contains_key values k ≡ true

Holds-taken_by :
    (o : Option (Value × TrackEdgeValue)) (e : Edge) (values : Map) (tracker : TrackEdgeValue)
    (k : Name)
    → Holds values k
    → Holds (taken_by o e values tracker).0.0 k
Holds-taken_by none e values tracker k h = h
Holds-taken_by (some (w, t)) e values tracker k h = rw contains_key-insert (ground (arith, h))

Holds-take_edges :
    (idx : NodeIndex) (es : List Edge) (values : Map) (tracker : TrackEdgeValue) (k : Name)
    → Holds values k
    → Holds (take_edges idx es values tracker).values k
unfolding take_edges
Holds-take_edges idx [] values tracker k h = h
Holds-take_edges idx (e ∷ es) values tracker k h = elim (Bool-cases (nat_beq e.target idx)) [
  | inl t ↦
      rw (t, take_edge_by e values tracker)
        (Holds-take_edges idx es _ _ k (Holds-taken_by (offered e.values) e values tracker k h))
  | inr t ↦ rw t (Holds-take_edges idx es values tracker k h)
]

offered_filled :
    (vs : List EdgeValue) (fin : Bool)
    → (elim (head? vs) as (λ _. Bool) [ some v ↦ is_some v.value || false | none ↦ false && fin ])
      ≡ true
    → (w : Value × TrackEdgeValue) × (offered vs ≡ some w)
offered_filled [] fin h = absurd (cc h)
offered_filled (v ∷ vs) fin h = elim (Option-cases v.value) [
  | inl e ↦ absurd (false≢true (rw e at h))
  | inr (w, e) ↦ ((w, v.tracker), rw e)
]

offered-edge_filled :
    (f : FlowGraph) (s : State) (e : Edge)
    → edge_filled f s e ≡ true
    → e.is_required_input ≡ true
    → (w : Value × TrackEdgeValue) × (offered e.values ≡ some w)
offered-edge_filled f s e h req = offered_filled e.values (finished f s e.source) (rw req at h)

Holds-offered :
    (o : Option (Value × TrackEdgeValue)) (e : Edge) (values : Map) (tracker : TrackEdgeValue)
    (w : Value × TrackEdgeValue)
    → o ≡ some w
    → Holds (taken_by o e values tracker).0.0 e.to
Holds-offered none e values tracker w h = absurd (cc h)
Holds-offered (some (v, t)) e values tracker w h = rw contains_key-insert (rw (str_beq_refl e.to))

-- The values hold an input for each required incoming edge.
abbrev pub Supplies : NodeIndex → Map → Edge → Type 0
Supplies idx values e = nat_beq e.target idx ≡ true → e.is_required_input ≡ true → Holds values e.to

Supplies-take_edges :
    (f : FlowGraph) (s : State) (idx : NodeIndex) (es : List Edge) (values : Map)
    (tracker : TrackEdgeValue) (final : Map)
    → (take_edges idx es values tracker).values ≡ final
    → all (edge_filled f s) (filter (is_target idx) es) ≡ true
    → All (Supplies idx final) es
unfolding take_edges
Supplies-take_edges f s idx [] values tracker final ends h = tt
Supplies-take_edges f s idx (e ∷ es) values tracker final ends h =
    elim (Bool-cases (nat_beq e.target idx)) [
      | inl t ↦
          let (filled, others) = and_true _ _ (rw t at h) in
          let ends' = rw (t, take_edge_by e values tracker) at ends in
          let (values', tracker') = (taken_by (offered e.values) e values tracker).0 in
          (
            λ _ req.
                let (w, o) = offered-edge_filled f s e filled req in
                rw (← ends') (
                  Holds-take_edges idx es values' tracker' e.to
                    (Holds-offered (offered e.values) e values tracker w o)),
            Supplies-take_edges f s idx es values' tracker' final ends' others,
          )
      | inr t ↦ (
        λ u. absurd (false≢true (sym t ∙ u)),
        Supplies-take_edges f s idx es values tracker final (rw t at ends) (rw t at h),
      )
    ]

-- When a node that is no collect is ready, `take_inputs` gives it a value for every required input
-- that an edge leads to.
pub ready-take_inputs :
    (f : FlowGraph) (s : State) (idx : NodeIndex) (node : Node)
    → str_beq node.command.name collect ≡ false
    → ready_node f s idx node ≡ true
    → All (Supplies idx (take_inputs f idx).values) f.edges
unfolding take_inputs
ready-take_inputs f s idx node plain h =
    Supplies-take_edges f s idx f.edges Map.empty TrackEdgeValue.none _ refl
      (ready_filled f s idx node plain h)
