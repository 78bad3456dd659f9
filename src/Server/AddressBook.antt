-- ===== src/Server/AddressBook.antt =====
-- `AddressBook` of crates/utils/src/address_book.rs: the actors that run, by their type and ID. An
-- actor type is a number, as its TypeId, and an ID is a number for every type; an address is a number,
-- and the system tells which of them are still alive (`upgrade`). What starts an actor gives its
-- address.
pub mod Lookup
use flow_backend.Prelude.{
  ℕ, Bool, true, false, ◌&&◌, Option, none, some, List, [], ◌∷◌, nat_beq, pair_eq, pair_beq,
  if◌then◌else◌, ◌>>=◌,
}
use flow_backend.Prelude.Assoc
use flow_backend.Prelude.Assoc.{Assoc}

abbrev pub TypeId : Type 0
TypeId = ℕ

abbrev pub ActorId : Type 0
ActorId = ℕ

abbrev pub Addr : Type 0
Addr = ℕ

-- AnyID; `dyn_eq` compares the types, and then the IDs.
abbrev pub Key : Type 0
Key = TypeId × ActorId

-- Box<dyn Any>: a WeakAddr of some actor type.
pub record Boxed : Type 0 where
  pub type_id : TypeId
  pub addr : Addr

abbrev pub AddressBook : Type 0
AddressBook = Assoc Key Boxed

abbrev pub new : AddressBook
new = []

unfoldable pub downcast : Boxed → TypeId → Option Addr
downcast b type_id = if nat_beq b.type_id type_id then some b.addr else none

-- `none` is the panic of `unwrap`.
abbrev pub get_boxed : Option Boxed → TypeId → Option (Option Addr)
get_boxed none type_id = some none
get_boxed (some b) type_id = downcast b type_id >>= λ addr. some (some addr)

unfoldable pub get : AddressBook → TypeId → ActorId → Option (Option Addr)
unfolding downcast
get book type_id id = get_boxed (Assoc.get book (type_id, id)) type_id

abbrev pub place : AddressBook → TypeId → ActorId → Addr → AddressBook
place book type_id id addr =
    Assoc.insert book (type_id, id) (record { type_id = type_id; addr = addr })

-- The actor is started, and its address replaces what was there.
unfoldable pub start : AddressBook → TypeId → ActorId → Addr → AddressBook × Addr
start book type_id id addr = (place book type_id id addr, addr)

-- Whether the slot was vacant.
unfoldable pub insert : AddressBook → TypeId → ActorId → Addr → AddressBook × Bool
insert book type_id id addr =
    if Assoc.contains_key book (type_id, id)
    then (book, false)
    else (place book type_id id addr, true)

-- `none` is Ok.
unfoldable pub try_insert :
    AddressBook → TypeId → ActorId → Addr → AddressBook × Option (ActorId × Addr)
try_insert book type_id id addr =
    if Assoc.contains_key book (type_id, id)
    then (book, some (id, addr))
    else (place book type_id id addr, none)

-- try_start_in_rt and try_start_with_context: `none` is the error, and then no actor was started.
unfoldable pub try_start : AddressBook → TypeId → ActorId → Addr → AddressBook × Option Addr
try_start book type_id id addr =
    if Assoc.contains_key book (type_id, id)
    then (book, none)
    else (place book type_id id addr, some addr)

module _ (alive : Addr → Bool) where
  abbrev pub upgrade : Option Addr → Option Addr
  upgrade none = none
  upgrade (some addr) = if alive addr then some addr else none

  abbrev pub or_start : AddressBook → TypeId → ActorId → Addr → Option Addr → AddressBook × Addr
  or_start book type_id id addr none = start book type_id id addr
  or_start book type_id id addr (some there) = (book, there)

  -- `none` is a panic.
  unfoldable pub get_or_start : AddressBook → TypeId → ActorId → Addr → Option (AddressBook × Addr)
  unfolding get start
  get_or_start book type_id id addr =
      get book type_id id >>= λ found. some (or_start book type_id id addr (upgrade found))

  abbrev pub iter_one : TypeId → Key → Option Addr → List (ActorId × Addr) → List (ActorId × Addr)
  iter_one type_id key none rest = rest
  iter_one type_id (key_type, id) (some addr) rest =
      if nat_beq key_type type_id then (id, addr) ∷ rest else rest

  unfoldable pub iter : AddressBook → TypeId → List (ActorId × Addr)
  unfolding downcast
  iter [] type_id = []
  iter ((key, b) ∷ book) type_id =
      iter_one type_id key (upgrade (downcast b type_id)) (iter book type_id)
