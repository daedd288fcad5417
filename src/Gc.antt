-- ===== src/Gc.antt =====
-- The garbage collector: `mark_value`, `mark_all`, `sweep`, `gc`, `force_sweep` and `allocate` of
-- runtime/src/value.c.
pub mod Reach
pub mod Marked
pub mod Mark
pub mod Chain
pub mod Swept
pub mod Sweep
pub mod Exact
pub mod Collected
pub mod Collect
pub mod Stale
pub mod Added
pub mod Keeps
use bonzai.Base.{
  ℕ, zero, suc, ◌+◌, ◌-◌, ◌*◌, ◌%◌, ◌^◌, Bool, true, false, Option, none, some, List, [], ◌∷◌, leb,
  ltb, ◌==◌, if◌then◌else◌, length, take,
}
use mathlib.Core.Option
use bonzai.Word.{is_ptr, get_ptr}
use bonzai.Stack.{lt_int, max_stack_size}
use bonzai.Vm.{
  ValueType, type_list, type_mutable, type_event, type_event_on, Heap, HeapValue, Payload, Event,
  as_event_on, Module, Cmd, pure, get, modify, or_crash, ◌>>=◌, ◌>>◌, update, uninitialised,
}
use bonzai.Vm.Memory.{load, deref, array_of, event_of, Env}

abbrev pub init_objects : ℕ
init_objects = 32

abbrev pub option_then {ℓ κ} : {A : Type ℓ} {B : Type κ} → Option A → (A → Option B) → Option B
option_then none f = none
option_then (some a) f = f a

-- the first `n` elements, all of which have to be there
pub prefix : ℕ → List ℕ → Option (List ℕ)
prefix n xs = if leb n (length xs) then some (take n xs) else none

first : List ℕ → Option (List ℕ)
first [] = none
first (x ∷ _) = some (x ∷ [])

func_of : Payload → Option (List ℕ)
func_of (as_event_on _ f) = some (f ∷ [])
func_of _ = none

handlers : Event → Option (List ℕ)
unfolding prefix
handlers e = if lt_int 0 e.ons_count then prefix e.ons_count e.ons else some []

children_of : ValueType → HeapValue → Option (List ℕ)
unfolding prefix first func_of handlers
children_of type_list o = option_then (array_of o.payload) (prefix o.size)
children_of type_mutable o = option_then (array_of o.payload) first
children_of type_event o = option_then (event_of o.payload) handlers
children_of type_event_on o = func_of o.payload
children_of _ o = some []

-- The words that `mark_value` follows from an object.
unfoldable pub children : HeapValue → Option (List ℕ)
unfolding children_of
children o = children_of o.type o

-- a loop that marks word after word
pub mark_each : (ℕ → Heap → Option Heap) → List ℕ → Heap → Option Heap
mark_each mark [] h = some h
mark_each mark (v ∷ vs) h = option_then (mark v h) (mark_each mark vs)

abbrev pub set_mark : Bool → HeapValue → HeapValue
set_mark b o = record o { is_marked = b }

mark_object : (ℕ → Heap → Option Heap) → ℕ → HeapValue → Heap → Option Heap
mark_object mark p o h =
    if o.is_marked
    then some h
    else option_then (children o) λ cs. mark_each mark cs (update h p (some (set_mark true o)))

-- The recursion of `mark_value`, at most `fuel` deep.
pub mark_value : ℕ → ℕ → Heap → Option Heap
unfolding mark_object
mark_value zero v h = none
mark_value (suc fuel) v h =
    if is_ptr v
    then option_then (deref h v) (λ o. mark_object (mark_value fuel) (get_ptr v) o h)
    else some h

-- Every slot of the first `max_stack_size` is a root, in use or not.
pub mark_all : ℕ → Module → Option Heap
mark_all fuel m =
    option_then (prefix max_stack_size m.stack.values)
      λ roots. mark_each (mark_value fuel) roots m.heap

-- What the sweep changes: the heap, the head of the object list, and the count.
pub record Pool : Type 0 where
  pub heap : Heap
  pub first_object : ℕ
  pub num_objects : ℕ

-- `HeapValue** object`: the head of the list, or the `next` field of an object.
pub data Link : Type 0 where
  head : Link
  next_of : ℕ → Link

abbrev pub set_next : ℕ → HeapValue → HeapValue
set_next n o = record o { next = n }

unfoldable pub read_link : Pool → Link → Option ℕ
read_link s head = some s.first_object
read_link s (next_of q) = Option.map (λ o. o.next) (load s.heap q)

pub write_link : Pool → Link → ℕ → Option Pool
write_link s head n = some (record s { first_object = n })
write_link s (next_of q) n =
    Option.map (λ o. record s { heap = update s.heap q (some (set_next n o)) }) (load s.heap q)

-- `free(o->as_ptr)` for the types that own an array, nothing for the others
free_array_of : ValueType → HeapValue → Option (Unit {0})
free_array_of type_list o = Option.map (λ _. tt) (array_of o.payload)
free_array_of type_mutable o = Option.map (λ _. tt) (array_of o.payload)
free_array_of _ o = some tt

pub free_array : HeapValue → Option (Unit {0})
unfolding free_array_of
free_array o = free_array_of o.type o

abbrev pub decrease : ℕ → ℕ
decrease n = (n + (2 ^ 32 - 1)) % 2 ^ 32

-- An unmarked object is freed first; then its `next` is read.
drop_object : Env → Link → ℕ → HeapValue → Pool → Option Pool
drop_object env l p o s = option_then (free_array o) λ _. option_then (env.stale_next o) λ n.
    write_link (record s { heap = update s.heap p none; num_objects = decrease s.num_objects }) l n

pub keep_object : ℕ → HeapValue → Pool → Pool
keep_object p o s = record s { heap = update s.heap p (some (set_mark false o)) }

-- The loop of `sweep`, for at most `fuel` objects.
pub sweep_loop : Env → ℕ → Link → Pool → Option Pool
unfolding drop_object keep_object
sweep_loop env zero l s = none
sweep_loop env (suc fuel) l s =
    let loop = sweep_loop env fuel in
    option_then (read_link s l) λ p.
      if p == 0
      then some s
      else option_then (load s.heap p) λ o.
        if o.is_marked
        then loop (next_of p) (keep_object p o s)
        else option_then (drop_object env l p o s) (loop l)

abbrev pub pool_of : Module → Pool
pool_of m = record { heap = m.heap; first_object = m.first_object; num_objects = m.num_objects }

abbrev pub with_pool : Pool → Module → Module
with_pool s m = record m {
  heap = s.heap;
  first_object = s.first_object;
  num_objects = s.num_objects;
}

-- the new threshold for the next collection
abbrev pub set_threshold : Module → Module
set_threshold m = record m {
  max_objects =
      if lt_int m.num_objects init_objects then init_objects else m.num_objects * 2 % 2 ^ 32;
}

-- The mark phase nests as deep as the C stack, and the sweep takes a round per object.
pub collect : Env → Module → Option Module
collect env m = option_then (mark_all env.c_stack m) λ h.
    let s = sweep_loop env (suc m.num_objects) head (pool_of (record m { heap = h })) in
    Option.map (λ s'. set_threshold (with_pool s' m)) s

pub gc : Env → Cmd (Unit {0})
unfolding collect
gc env = (λ m. or_crash (collect env m) m) >>= λ m'. λ _. pure tt m'
