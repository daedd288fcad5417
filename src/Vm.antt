-- ===== src/Vm.antt =====
-- The state of the virtual machine: `ValueType`, `HeapValue`, `Stack` of runtime/include/value.h,
-- `Module` of runtime/include/module.h, and the ways a C function ends (runtime/include/error.h).
-- The heap maps an address to the `HeapValue` that lives there; address 0 is NULL.
pub mod Memory
pub mod TypeOf
pub mod Access
pub mod Keeps
pub mod Answers
use bonzai.Base.{ℕ, Bool, true, Option, none, some, List, ◌==◌, if◌then◌else◌}

pub data ValueType : Type 0 where
  type_integer type_float type_string type_list type_special type_mutable : ValueType
  type_function type_funcenv type_unknown type_api type_event type_frame type_event_on : ValueType

-- the enumeration's numbers
abbrev pub type_code : ValueType → ℕ
type_code type_integer = 0
type_code type_float = 1
type_code type_string = 2
type_code type_list = 3
type_code type_special = 4
type_code type_mutable = 5
type_code type_function = 6
type_code type_funcenv = 7
type_code type_unknown = 8
type_code type_api = 9
type_code type_event = 10
type_code type_frame = 11
type_code type_event_on = 12

abbrev pub is_type : ValueType → ValueType → Bool
is_type t u = type_code t == type_code u

pub record Frame : Type 0 where
  pub instruction_pointer : ℕ
  pub stack_pointer : ℕ
  pub base_ptr : ℕ
  pub ons_count : ℕ
  pub function_ipc : ℕ

-- `actor` stands for the address of the actor.
pub record Event : Type 0 where
  pub ons_count : ℕ
  pub ons : List ℕ
  pub ipc : ℕ
  pub actor : ℕ

-- The union of a `HeapValue`. A string is its bytes before the NUL; `as_ptr` is the array that the
-- object owns, one element for a mutable.
pub data Payload : Type 0 where
  as_string : List ℕ → Payload
  as_ptr : List ℕ → Payload
  as_event : Event → Payload
  as_event_on : ℕ → ℕ → Payload
  as_frame : Frame → Payload
  uninitialised : Payload

pub record HeapValue : Type 0 where
  pub type : ValueType
  pub size : ℕ
  pub is_marked : Bool
  pub next : ℕ
  pub payload : Payload

abbrev pub Heap : Type 0
Heap = ℕ → Option HeapValue

abbrev pub update : Heap → ℕ → Option HeapValue → Heap
update h p o q = if p == q then o else h q

-- `values` is the whole array, `stack_capacity` its length.
pub record Stack : Type 0 where
  pub values : List ℕ
  pub stack_pointer : ℕ
  pub stack_capacity : ℕ

pub record Message : Type 0 where
  pub name : ℕ
  pub args : List ℕ
  pub argc : ℕ

-- The messages that wait in an actor's queue, oldest first; `Queue` has the linked list itself.
pub record Actor : Type 0 where
  pub queue : List Message
  pub event : Event

-- `heap` is the part of the process's memory that holds `HeapValue`s; `events` holds the actors in
-- the order of their creation, and an actor's address is its place there.
pub record Module : Type 0 where
  pub instrs : List ℕ
  pub base_pointer : ℕ
  pub callstack : ℕ
  pub constants : List ℕ
  pub stack : Stack
  pub handles : List ℕ
  pub argc : ℕ
  pub argv : List ℕ
  pub pc : ℕ
  pub events : List Actor
  pub is_terminated : Bool
  pub first_object : ℕ
  pub num_objects : ℕ
  pub max_objects : ℕ
  pub latest_position : ℕ × ℕ
  pub file : Option (List ℕ)
  pub heap : Heap

-- `THROW` prints the message and ends the process.
pub data Error : Type 0 where
  failed_to_allocate_stack stack_underflow call_stack_overflow invalid_callee : Error
  wrong_type wrong_argc unsupported_type different_types expected_integers : Error
  index_out_of_bounds expected_frame function_not_found invalid_value_type unknown_opcode : Error
  socket_creation_failed bind_failed listen_failed accept_failed no_working_directory : Error
  usage could_not_open_file : Error

-- How a C function ends: it returns, it ends the process with an error, or it does what C leaves
-- undefined, such as a read through a pointer to no object or outside an array.
pub data Run {ℓ} (A : Type ℓ) : Type ℓ where
  ok : A → Module → Run A
  throw : Error → Run A
  crash : Run A

abbrev pub Cmd {ℓ} : Type ℓ → Type ℓ
Cmd A = Module → Run A

abbrev pub and_then {ℓ κ} : {A : Type ℓ} {B : Type κ} → Run A → (A → Cmd B) → Run B
and_then (ok a m) f = f a m
and_then (throw e) f = throw e
and_then crash f = crash

infixl 5 ◌>>=◌ ◌>>◌
abbrev pub ◌>>=◌ {ℓ κ} : {A : Type ℓ} {B : Type κ} → Cmd A → (A → Cmd B) → Cmd B
◌>>=◌ c f m = and_then (c m) f

abbrev pub ◌>>◌ {ℓ} : {B : Type ℓ} → Cmd (Unit {0}) → Cmd B → Cmd B
c >> k = c >>= λ _. k

abbrev pub pure {ℓ} : {A : Type ℓ} → A → Cmd A
pure a m = ok a m

abbrev pub fail {ℓ} : {A : Type ℓ} → Error → Cmd A
fail e m = throw e

-- what a partial read gives, or the crash
abbrev pub or_crash {ℓ} : {A : Type ℓ} → Option A → Cmd A
or_crash none m = crash
or_crash (some a) m = ok a m

-- `ASSERT` and its variants
abbrev pub assert : Bool → Error → Cmd (Unit {0})
assert b e m = if b then ok tt m else throw e

abbrev pub get {ℓ} : {A : Type ℓ} → (Module → A) → Cmd A
get f m = ok (f m) m

abbrev pub modify : (Module → Module) → Cmd (Unit {0})
modify f m = ok tt (f m)
