-- ===== src/Server/AddressBook/Lookup.antt =====
-- An address book is a table from types and IDs to addresses: every operation does to the book what it
-- does to the table, and none of them panics.
use flow_backend.Prelude.{
  ◌≡◌, refl, ◌∙◌, ap, Bool, true, false, Option, none, some, List, [], ◌∷◌, nat_beq_refl, nat_eq,
  pair_eq, pair_beq, pair_beq_iff, is_some, Bool-cases, inl, inr, if◌then◌else◌, ◌>>=◌,
}
use flow_backend.Prelude.Assoc
use flow_backend.Prelude.Assoc.{Assoc}
use flow_backend.Prelude.Assoc.Keys.{Unique, Unique-insert}
use flow_backend.Server.AddressBook.{
  TypeId, ActorId, Addr, Boxed, AddressBook, new, downcast, get_boxed, get, place, start, insert,
  try_insert, try_start, upgrade, or_start, get_or_start,
}

abbrev pub Table : Type 0
Table = TypeId → ActorId → Option Addr

abbrev pub vacant : Table
vacant type_id id = none

abbrev pub put : Table → TypeId → ActorId → Addr → Table
put t type_id id addr other_type other_id =
    if pair_beq (type_id, id) (other_type, other_id) then some addr else t other_type other_id

abbrev pub boxed : TypeId → Option Addr → Option Boxed
boxed type_id none = none
boxed type_id (some addr) = some (record { type_id = type_id; addr = addr })

-- A book that stands for a table: a box has an address of the type of its key, and no key stands
-- twice.
pub record Refines (book : AddressBook) (t : Table) : Type 0 where
  pub unique : Unique book
  pub same :
      (type_id : TypeId) (id : ActorId)
      → Assoc.get book (type_id, id) ≡ boxed type_id (t type_id id)

pub data Op : Type 0 where
  starts inserts try_inserts try_starts : TypeId → ActorId → Addr → Op
  gets_or_starts : (alive : Addr → Bool) → TypeId → ActorId → Addr → Op

-- What an operation answers: an address, whether it was done, what it gives back, or what it started.
pub data Reply : Type 0 where
  address : Addr → Reply
  done : Bool → Reply
  given_back : Option (ActorId × Addr) → Reply
  started : Option Addr → Reply

-- `none` is a panic.
abbrev pub run_op : AddressBook → Op → Option (AddressBook × Reply)
run_op book (starts type_id id addr) = let r = start book type_id id addr in some (r.0, address r.1)
run_op book (inserts type_id id addr) = let r = insert book type_id id addr in some (r.0, done r.1)
run_op book (try_inserts type_id id addr) =
    let r = try_insert book type_id id addr in some (r.0, given_back r.1)
run_op book (try_starts type_id id addr) =
    let r = try_start book type_id id addr in some (r.0, started r.1)
run_op book (gets_or_starts alive type_id id addr) =
    get_or_start alive book type_id id addr >>= λ r. some (r.0, address r.1)

-- What the operations do to a table: only `start`, and `get_or_start` for an actor that is gone,
-- replace an address.
abbrev pub get_or_put : Table → TypeId → ActorId → Addr → Option Addr → Table × Reply
get_or_put t type_id id addr none = (put t type_id id addr, address addr)
get_or_put t type_id id addr (some there) = (t, address there)

abbrev pub spec_op : Table → Op → Table × Reply
spec_op t (starts type_id id addr) = (put t type_id id addr, address addr)
spec_op t (inserts type_id id addr) =
    if is_some (t type_id id) then (t, done false) else (put t type_id id addr, done true)
spec_op t (try_inserts type_id id addr) =
    if is_some (t type_id id)
    then (t, given_back (some (id, addr)))
    else (put t type_id id addr, given_back none)
spec_op t (try_starts type_id id addr) =
    if is_some (t type_id id)
    then (t, started none)
    else (put t type_id id addr, started (some addr))
spec_op t (gets_or_starts alive type_id id addr) =
    get_or_put t type_id id addr (upgrade alive (t type_id id))

is_some-boxed :
    (type_id : TypeId) (found : Option Addr) → is_some (boxed type_id found) ≡ is_some found
is_some-boxed type_id none = refl
is_some-boxed type_id (some addr) = refl

get_boxed-boxed :
    (found : Option Addr) (type_id : TypeId) → get_boxed (boxed type_id found) type_id ≡ some found
unfolding downcast
get_boxed-boxed none type_id = refl
get_boxed-boxed (some addr) type_id = rw (nat_beq_refl type_id) refl

put-Refines :
    (book : AddressBook) (t : Table) (type_id : TypeId) (id : ActorId) (addr : Addr)
    → Refines book t
    → Refines (place book type_id id addr) (put t type_id id addr)
put-Refines book t type_id id addr h = record {
  unique = Unique-insert book (type_id, id) (record { type_id = type_id; addr = addr }) h.unique;
  same = λ a i. elim (Bool-cases (pair_beq (type_id, id) (a, i))) [
    | inl hit ↦
        Assoc.get-insert book (type_id, id) (record { type_id = type_id; addr = addr }) (a, i)
        ∙ rw hit (
            ap (λ k. some (record { type_id = k; addr = addr }))
              (ap (λ p. p.0) ((pair_beq_iff (type_id, id) (a, i)).0 hit)))
    | inr miss ↦
        Assoc.get-insert book (type_id, id) (record { type_id = type_id; addr = addr }) (a, i)
        ∙ rw miss (h.same a i)
  ];
}

contains_key-boxed :
    (book : AddressBook) (t : Table) (type_id : TypeId) (id : ActorId)
    → Refines book t
    → Assoc.contains_key book (type_id, id) ≡ is_some (t type_id id)
unfolding Assoc.contains_key
contains_key-boxed book t type_id id h =
    ap is_some (h.same type_id id) ∙ is_some-boxed type_id (t type_id id)

-- The address of an actor is the one in the table; `get` does not panic.
get-Refines :
    (book : AddressBook) (t : Table) (type_id : TypeId) (id : ActorId)
    → Refines book t
    → get book type_id id ≡ some (t type_id id)
unfolding get
get-Refines book t type_id id h =
    ap (λ b. get_boxed b type_id) (h.same type_id id) ∙ get_boxed-boxed (t type_id id) type_id

abbrev Simulates : Option (AddressBook × Reply) → Table × Reply → Type 0
Simulates r (t, reply) = (book : AddressBook) × (r ≡ some (book, reply)) × Refines book t

get_or_start-Simulates :
    (alive : Addr → Bool) (book : AddressBook) (t : Table) (type_id : TypeId) (id : ActorId)
    (addr : Addr) (found : Option Addr)
    → Refines book t
    → let r = or_start alive book type_id id addr found in
      Simulates (some (r.0, address r.1)) (get_or_put t type_id id addr found)
unfolding start
get_or_start-Simulates alive book t type_id id addr none h =
    (place book type_id id addr, refl, put-Refines book t type_id id addr h)
get_or_start-Simulates alive book t type_id id addr (some there) h = (book, refl, h)

-- An operation that fills a slot if it is vacant.
vacant-Simulates {ℓ} :
    {A : Type ℓ} (book : AddressBook) (t : Table) (type_id : TypeId) (id : ActorId) (addr : Addr)
    (reply : A → Reply) (kept placed : A)
    → Refines book t
    → let r : AddressBook × A =
        if Assoc.contains_key book (type_id, id)
        then (book, kept)
        else (place book type_id id addr, placed) in
      Simulates
        (some (r.0, reply r.1))
        (if is_some (t type_id id) then (t, reply kept) else (put t type_id id addr, reply placed))
vacant-Simulates book t type_id id addr reply kept placed h =
    elim (Bool-cases (is_some (t type_id id))) [
      | inl there ↦ rw there (rw (contains_key-boxed book t type_id id h ∙ there) (book, refl, h))
      | inr missing ↦ rw missing (
          rw (contains_key-boxed book t type_id id h ∙ missing)
            (place book type_id id addr, refl, put-Refines book t type_id id addr h))
    ]

run_op-Simulates :
    (book : AddressBook) (t : Table) (op : Op)
    → Refines book t
    → Simulates (run_op book op) (spec_op t op)
unfolding start insert try_insert try_start get_or_start
run_op-Simulates book t (starts type_id id addr) h =
    (place book type_id id addr, refl, put-Refines book t type_id id addr h)
run_op-Simulates book t (inserts type_id id addr) h =
    vacant-Simulates book t type_id id addr done false true h
run_op-Simulates book t (try_inserts type_id id addr) h =
    vacant-Simulates book t type_id id addr given_back (some (id, addr)) none h
run_op-Simulates book t (try_starts type_id id addr) h =
    vacant-Simulates book t type_id id addr started none (some addr) h
run_op-Simulates book t (gets_or_starts alive type_id id addr) h =
    rw (get-Refines book t type_id id h)
      (get_or_start-Simulates alive book t type_id id addr (upgrade alive (t type_id id)) h)

abbrev pub run_ops : AddressBook → List Op → Option (AddressBook × List Reply)
run_ops book [] = some (book, [])
run_ops book (op ∷ ops) =
    run_op book op >>= λ r. run_ops r.0 ops >>= λ rest. some (rest.0, r.1 ∷ rest.1)

abbrev pub spec_ops : Table → List Op → Table × List Reply
spec_ops t [] = (t, [])
spec_ops t (op ∷ ops) =
    let r = spec_op t op in let rest = spec_ops r.0 ops in (rest.0, r.1 ∷ rest.1)

run_ops-Refines :
    (book : AddressBook) (t : Table) (ops : List Op)
    → Refines book t
    → (last : AddressBook) × (run_ops book ops ≡ some (last, (spec_ops t ops).1))
      × Refines last (spec_ops t ops).0
run_ops-Refines book t [] h = (book, refl, h)
run_ops-Refines book t (op ∷ ops) h =
    let (next, e, there) = run_op-Simulates book t op h in
    let (last, f, rest) = run_ops-Refines next (spec_op t op).0 ops there in
    (last, rw e (rw f refl), rest)

-- Any operations on an empty book answer as they would on an empty table of types and IDs, none of
-- them panics, and at the end each type and ID has the address that the table gives.
pub address_book-Refines :
    (ops : List Op)
    → (book : AddressBook) × (run_ops new ops ≡ some (book, (spec_ops vacant ops).1))
      × ((type_id : TypeId) (id : ActorId)
          → get book type_id id ≡ some ((spec_ops vacant ops).0 type_id id))
unfolding Assoc.get
address_book-Refines ops =
    let (book, e, h) =
      run_ops-Refines new vacant ops (record { unique = tt; same = λ a i. refl }) in
    (book, e, λ a i. get-Refines book (spec_ops vacant ops).0 a i h)
