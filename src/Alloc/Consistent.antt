-- ===== src/Alloc/Consistent.antt =====
-- Allocation, runtime/src/value.c, keeps the state between two collections consistent, whether a
-- collection is due or not.
use bonzai.Base.{ℕ, ◌^◌, ◌<◌, ◌≡◌, false, some, List, [], ◌∷◌, length}
use bonzai.Word.{make_ptr}
use bonzai.Vm.{
  ValueType, type_string, type_list, type_mutable, type_frame, type_event_on, Heap, HeapValue,
  Payload, as_ptr, as_string, as_frame, as_event_on, Cmd, Module, Run, ok, and_then, update,
  uninitialised,
}
use bonzai.Vm.Memory.{Env}
use bonzai.Gc.Collected.{Consistent}
use bonzai.Gc.Collect.{Garbage}
use bonzai.Gc.Added.{Added}
use bonzai.Alloc.Settled.{Settled}
use bonzai.Alloc.{
  allocate_object, fill, make_string, make_list, make_mutable, make_frame, make_event_on,
}
use bonzai.Alloc.Fresh.{with_object, plain_frame}

-- the object that a `MAKE_` function leaves
abbrev pub object : ValueType → ℕ → Payload → ℕ → HeapValue
object t n x next = record { type = t; size = n; is_marked = false; next = next; payload = x }

-- A `MAKE_` function as the collector sees it: the words of the object, and what it stores.
pub data Makes (env : Env) : Cmd ℕ → List ℕ → ValueType → ℕ → Payload → Type 0 where
  string : (x : List ℕ) → Makes env (make_string env x) [] type_string (length x) (as_string x)
  list :
      (ws : List ℕ) → Makes env (make_list env ws (length ws)) ws type_list (length ws) (as_ptr ws)
  mutable : (v : ℕ) → Makes env (make_mutable env v) (v ∷ []) type_mutable 1 (as_ptr (v ∷ []))
  frame :
      (ip sp bp : ℕ)
      → Makes env
          (make_frame env ip sp bp)
          []
          type_frame
          env.junk
          (as_frame (plain_frame env ip sp bp))
  event_on :
      (id func : ℕ)
      → Makes env
          (make_event_on env id func)
          (func ∷ [])
          type_event_on
          env.junk
          (as_event_on id func)

after_due : Env → ValueType → ℕ → Payload → Run (Unit {0}) → Run ℕ
after_due env t n x r = and_then (and_then r (λ _. allocate_object env t)) (λ p. fill p n x)

-- What a `MAKE_` function leaves.
pub record Made (c : Cmd ℕ) (t : ValueType) (n : ℕ) (x : Payload) (m : Module) : Type 0 where
  pub after : Module
  pub address : ℕ
  pub next : ℕ
  pub objects : List ℕ
  pub run : c m ≡ ok (make_ptr address) after
  pub short : address < 2 ^ 48
  pub here : after.heap address ≡ some (object t n x next)
  pub consistent : Consistent (address ∷ objects) after
  pub stack : after.stack ≡ m.stack

module _ (env : Env) (t : ValueType) (n : ℕ) (x : Payload) where
  abbrev with_new : ℕ → Module → Module
  with_new p k =
      let made : Module = with_object env t uninitialised p k in
      record made { heap = update made.heap p (some (object t n x k.first_object)) }

-- Why a `MAKE_` function crashes: `malloc` has no memory, or a collection is due that has an object
-- to free.
pub data Fails (env : Env) (xs : List ℕ) (m : Module) : Type 0 where
  no_memory_left : (h : Heap) → env.malloc h ≡ 0 → Fails env xs m
  reads_freed : m.num_objects ≡ m.max_objects → Garbage xs m → Fails env xs m
