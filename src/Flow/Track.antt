-- ===== src/Flow/Track.antt =====
-- `TrackEdgeValue` of crates/flow/src/flow_graph.rs: where a value of a loop comes from.
-- A `BTreeSet` is its elements in the derived order.
use flow_backend.Prelude.{ℕ, ◌≡◌, refl, Bool, true, false, ◌||◌, compare, Ordering}

mutual
  pub data TrackEdgeValue : Type 0 where
    none : TrackEdgeValue
    element : ℕ → ℕ → TrackEdgeValue
    zipped : Trackers → TrackEdgeValue
    nested : Trackers → TrackEdgeValue

  pub data Trackers : Type 0 where
    nil : Trackers
    cons : TrackEdgeValue → Trackers → Trackers

abbrev pub is_array : TrackEdgeValue → Bool
is_array none = false
is_array _ = true

-- The rank of a variant in the derived order.
abbrev rank : TrackEdgeValue → ℕ
rank none = 0
rank (element i p) = 1
rank (zipped s) = 2
rank (nested s) = 3

abbrev then_compare : Ordering → Ordering → Ordering
then_compare Ordering.eq o = o
then_compare o _ = o

-- `#[derive(PartialOrd, Ord)]`
unfoldable mutual
  pub cmp : TrackEdgeValue → TrackEdgeValue → Ordering
  cmp (element i p) (element j q) = then_compare (compare i j) (compare p q)
  cmp (zipped s) (zipped t) = cmp_all s t
  cmp (nested s) (nested t) = cmp_all s t
  cmp a b = compare (rank a) (rank b)

  pub cmp_all : Trackers → Trackers → Ordering
  cmp_all nil nil = Ordering.eq
  cmp_all nil (cons b t) = Ordering.lt
  cmp_all (cons a s) nil = Ordering.gt
  cmp_all (cons a s) (cons b t) = then_compare (cmp a b) (cmp_all s t)

abbrev is_eq : Ordering → Bool
is_eq Ordering.eq = true
is_eq _ = false

-- BTreeSet::insert: an element that is there stays.
unfoldable pub set_insert : Trackers → TrackEdgeValue → Trackers
unfolding cmp
set_insert nil a = cons a nil
set_insert (cons b s) a =
    let rest = set_insert s a in
    elim (cmp a b) [
      | Ordering.lt ↦ cons a (cons b s)
      | Ordering.eq ↦ cons b s
      | Ordering.gt ↦ cons b rest
    ]

unfoldable pub set_extend : Trackers → Trackers → Trackers
unfolding set_insert
set_extend s nil = s
set_extend s (cons a more) = set_extend (set_insert s a) more

-- Two trackers that are no sets: one of them if they are equal, and a set of both if not.
zip_two : Bool → TrackEdgeValue → TrackEdgeValue → TrackEdgeValue
unfolding set_insert
zip_two true this other = this
zip_two false this other = zipped (set_insert (cons this nil) other)

unfoldable pub zip : TrackEdgeValue → TrackEdgeValue → TrackEdgeValue
unfolding set_extend zip_two
zip this none = this
zip none other = other
zip (zipped s) (zipped t) = zipped (set_extend s t)
zip (zipped s) other = zipped (set_insert s other)
zip this other = zip_two (is_eq (cmp this other)) this other

unfoldable pub push_back : Trackers → TrackEdgeValue → Trackers
push_back nil a = cons a nil
push_back (cons b s) a = cons b (push_back s a)

unfoldable pub nest : TrackEdgeValue → ℕ → ℕ → TrackEdgeValue
unfolding push_back
nest none nid pos = element nid pos
nest (nested s) nid pos = nested (push_back s (element nid pos))
nest this nid pos = nested (cons this (cons (element nid pos) nil))

is_array-zip_two :
    (b : Bool) (this other : TrackEdgeValue)
    → is_array this ≡ true
    → is_array (zip_two b this other) ≡ true
unfolding zip_two
is_array-zip_two true this other h = h
is_array-zip_two false this other h = refl

-- A zipped tracker belongs to a loop exactly if one of the two does.
pub is_array-zip : (a b : TrackEdgeValue) → is_array (zip a b) ≡ (is_array a || is_array b)
unfolding zip
is_array-zip none none = refl
is_array-zip none _ = refl
is_array-zip (zipped s) none = refl
is_array-zip (zipped s) _ = refl
is_array-zip a none = refl
is_array-zip a b = is_array-zip_two (is_eq (cmp a b)) a b refl
