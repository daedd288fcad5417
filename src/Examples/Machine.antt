-- ===== src/Examples/Machine.antt =====
-- A machine with a small heap: a list at 16 that holds the string at 32 and the number 7, an
-- unreachable cell at 48 that holds itself, and lists of two numbers at 64 and 80 as constants.
use bonzai.Base.{
  ℕ, zero, suc, ◌+◌, ◌-◌, false, none, some, [], ◌∷◌, ◌++◌, length, replicate, ◌==◌, if◌then◌else◌,
}
use bonzai.Word.{make_integer, make_ptr}
use bonzai.Stack.{max_stack_size}
use bonzai.Vm.{
  Heap, HeapValue, Payload, as_string, as_ptr, ValueType, type_list, type_string, type_mutable,
  Module, Stack, crash,
}
use bonzai.Vm.Memory.{Env}

abbrev pub first_free : ℕ → Heap → ℕ → ℕ
first_free zero h a = 0
first_free (suc n) h a = elim (h a) [ none ↦ a | some _ ↦ first_free n h (a + 16) ]

-- memory that is freed keeps its contents
abbrev pub env : Env
env = record {
  malloc = λ h. first_free 64 h 16;
  realloc = λ xs n. some (xs ++ replicate (n - length xs) 0);
  stale_next = λ o. some o.next;
  junk = 0;
  c_stack = 100;
  float_add = λ x y. x;
  float_sub = λ x y. x;
  float_mul = λ x y. x;
  float_div = λ x y. x;
  float_eq = λ x y. x == y;
  float_lt = λ x y. false;
  get_proc_address = λ lib name. none;
  native = λ f args argc m. crash;
}

-- memory that is freed cannot be read
abbrev pub strict_env : Env
strict_env = record env { stale_next = λ o. none }

abbrev object : ValueType → ℕ → ℕ → Payload → HeapValue
object t size next x = record { type = t; size = size; is_marked = false; next = next; payload = x }

abbrev pub list_at : ℕ → ℕ → HeapValue
list_at x y = object type_list 2 0 (as_ptr (make_integer x ∷ make_integer y ∷ []))

abbrev pub pair : HeapValue
pair = object type_list 2 32 (as_ptr (make_ptr 32 ∷ make_integer 7 ∷ []))

abbrev pub text : HeapValue
text = object type_string 2 48 (as_string (104 ∷ 105 ∷ []))

abbrev pub cell : HeapValue
cell = object type_mutable 1 0 (as_ptr (make_ptr 48 ∷ []))

abbrev pub heap : Heap
heap a =
    if a == 16
    then some pair
    else if a == 32
    then some text
    else if a == 48
    then some cell
    else none

abbrev pub number_heap : Heap
number_heap a = if a == 64 then some (list_at 3 4) else if a == 80 then some (list_at 3 5) else none

abbrev pub a_stack : Stack
a_stack = record {
  values = make_ptr 16 ∷ replicate (max_stack_size - 1) 0;
  stack_pointer = 1;
  stack_capacity = max_stack_size;
}

abbrev pub machine : Stack → Heap → Module
machine s h = record {
  instrs = [];
  base_pointer = 0;
  callstack = 0;
  constants = [];
  stack = s;
  handles = [];
  argc = 0;
  argv = [];
  pc = 0;
  events = [];
  is_terminated = false;
  first_object = 16;
  num_objects = 3;
  max_objects = 3;
  latest_position = (0, 0);
  file = none;
  heap = h;
}
