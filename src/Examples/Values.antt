-- ===== src/Examples/Values.antt =====
-- The value stack, the queue, and the operations on words, at a concrete input.
use bonzai.Base.{
  ltb, ◌||◌, ℕ, subst, zero, suc, ◌+◌, ◌*◌, ◌-◌, ◌^◌, ◌≡◌, ◌↔◌, ◌⊎◌, refl, Bool, true, false,
  Option, none, some, List, [], ◌∷◌, ◌++◌, arith, map, get_elem?, length, length-append,
  length-replicate, replicate, ◌<◌, ◌==◌, if◌then◌else◌,
}
use bonzai.Word.{
  is_ptr, is_fun, make_function, function_ipc, function_local_space, make_integer, int_of, make_ptr,
}
use bonzai.Word.Function.{make_function_roundtrip, make_function_far, make_function_not_callable}
use bonzai.Stack.{stack_push, stack_pop, set_pointer}
use bonzai.Stack.Laws.{IsValid, Realloc, Pushed, stack_push_lem, pop-push}
use bonzai.Vm.{
  Module, Stack, index_out_of_bounds, type_integer, type_function, type_string, type_float,
  type_unknown, ok, throw, failed_to_allocate_stack,
}
use bonzai.Vm.Memory.{load}
use bonzai.Vm.TypeOf.{deref-make_ptr, get_type-make_ptr, get_type, get_type_lem, get_type-special}
use bonzai.Vm.Access.{IsList, elements}
use bonzai.ValueEq.{value_eq}
use bonzai.ValueEq.Lists.{value_eq-lists}
use bonzai.Compare.{compare_eq}
use bonzai.Compare.Lists.{compare_eq-lists}
use bonzai.Maths.{add_value, sub_value, lt_value}
use bonzai.Maths.Integers.{integers, sub_value-add_value, lt_value-signed, is_negative, differ}
use bonzai.Stack.{lt_int}
use bonzai.Queue.{Node, MessageQueue, enqueue}
use bonzai.Operations.{slice}
use bonzai.Operations.Lists.{bounds, sliced, slice_lem}
use bonzai.Queue.Fifo.{Holds, KeepsMessages, Dequeues, enqueue_lem, dequeue_lem}
use bonzai.Examples.Machine.{env, machine, heap, number_heap, list_at}

make_function_roundtrip_example :
    (is_fun (make_function 120 3) ≡ true)
    × (function_ipc (make_function 120 3) ≡ 120)
    × (function_local_space (make_function 120 3) ≡ 3)
make_function_roundtrip_example = make_function_roundtrip 120 3 (omega arith) (omega arith)

make_function_far_example :
    (is_fun (make_function 40000 3) ≡ true)
    × (function_ipc (make_function 40000 3) ≡ 40000 + (2 ^ 32 - 2 ^ 16))
make_function_far_example = make_function_far 40000 3 (omega arith) (omega arith) (omega arith)

make_function_not_callable_example :
    (is_fun (make_function 120 40000) ≡ false) × (is_ptr (make_function 120 40000) ≡ false)
make_function_not_callable_example =
    make_function_not_callable 120 40000 (omega arith) (omega arith) (omega arith)

-- a full stack of two words
abbrev full_stack : Stack
full_stack = record { values = 7 ∷ 8 ∷ []; stack_pointer = 2; stack_capacity = 2 }

full_stack-IsValid : IsValid full_stack
full_stack-IsValid = record {
  sized = refl;
  within = omega arith;
  some_room = omega arith;
  small = omega arith;
}

get_elem?-append :
    (xs ys : List ℕ) (i : ℕ) → i < length xs → get_elem? (xs ++ ys) i ≡ get_elem? xs i
get_elem?-append [] ys i h = absurd (omega arith)
get_elem?-append (x ∷ xs) ys zero h = refl
get_elem?-append (x ∷ xs) ys (suc i) h = get_elem?-append xs ys i (omega arith)

env-Realloc : Realloc env
env-Realloc xs n ys h e =
    let same : xs ++ replicate (n - length xs) 0 ≡ ys = cc in
    (
      ground (
        arith,
        length-append xs (replicate (n - length xs) 0),
        length-replicate {A = ℕ} (n - length xs) 0,
      ),
      λ i lt.
          subst (λ zs. get_elem? zs i ≡ get_elem? xs i) same
            (get_elem?-append xs (replicate (n - length xs) 0) i lt),
    )

stack_push_lem_example :
    ((m' : Module) × (stack_push env 9 (machine full_stack heap) ≡ ok tt m')
      × Pushed 9 (machine full_stack heap) m')
    ⊎ (stack_push env 9 (machine full_stack heap) ≡ throw failed_to_allocate_stack)
      × ((machine full_stack heap).stack.stack_pointer
          ≡ (machine full_stack heap).stack.stack_capacity)
      × (env.realloc (7 ∷ 8 ∷ []) 4 ≡ none)
stack_push_lem_example =
    stack_push_lem env 9 (machine full_stack heap) env-Realloc full_stack-IsValid

abbrev grown_stack : Stack
grown_stack = record { values = 7 ∷ 8 ∷ 9 ∷ 0 ∷ []; stack_pointer = 3; stack_capacity = 4 }

push_run : stack_push env 9 (machine full_stack heap) ≡ ok tt (machine grown_stack heap)
unfolding stack_push
push_run = refl

pop-push_example :
    stack_pop (machine grown_stack heap) ≡ ok 9 (set_pointer 2 (machine grown_stack heap))
pop-push_example =
    pop-push env 9 (machine full_stack heap) (machine grown_stack heap) env-Realloc
      full_stack-IsValid push_run

abbrev two_messages : ℕ → Option Node
two_messages a =
    if a == 5
    then some (record { message = record { name = 1; args = []; argc = 0 }; next = 0 })
    else if a == 6
    then some (record { message = record { name = 2; args = []; argc = 0 }; next = 0 })
    else none

abbrev one_waits : MessageQueue
one_waits = record { nodes = two_messages; head = 5; tail = 5 }

one_waits-Holds : Holds one_waits (5 ∷ [])
one_waits-Holds = record {
  linked = (
    refl,
    omega arith,
    refl,
    (record { message = record { name = 1; args = []; argc = 0 }; next = 0 }, refl, refl),
  );
  tail = refl;
}

enqueue_lem_example :
    (b' : MessageQueue) × (enqueue one_waits 6 ≡ some b')
    × Holds b' (5 ∷ 6 ∷ [])
    × KeepsMessages one_waits b'
enqueue_lem_example =
    enqueue_lem one_waits (5 ∷ []) 6
      (record { message = record { name = 2; args = []; argc = 0 }; next = 0 }) one_waits-Holds
      (omega arith) refl refl refl

dequeue_lem_example : Dequeues (5 ∷ []) one_waits
dequeue_lem_example = dequeue_lem one_waits (5 ∷ []) one_waits-Holds

abbrev pub lists : Module
lists = machine full_stack number_heap

abbrev pub three_four : List ℕ
three_four = 3 ∷ 4 ∷ []

abbrev pub three_five : List ℕ
three_five = 3 ∷ 5 ∷ []

abbrev three_four_words : List ℕ
three_four_words = map make_integer three_four

pub first-IsList : IsList lists (make_ptr 64) (map make_integer three_four)
unfolding elements load
first-IsList = record {
  object = list_at 3 4;
  here = deref-make_ptr number_heap 64 (omega arith);
  list = get_type-make_ptr number_heap 64 (omega arith);
  contents = refl;
}

pub second-IsList : IsList lists (make_ptr 80) (map make_integer three_five)
unfolding elements load
second-IsList = record {
  object = list_at 3 5;
  here = deref-make_ptr number_heap 80 (omega arith);
  list = get_type-make_ptr number_heap 80 (omega arith);
  contents = refl;
}

value_eq-lists_example :
    (same : Bool) × (value_eq env 2 (make_ptr 64) (make_ptr 80) lists ≡ ok same lists)
    × ((same ≡ true) ↔ (three_four ≡ three_five))
value_eq-lists_example =
    value_eq-lists env 0 lists (make_ptr 64) (make_ptr 80) three_four three_five first-IsList
      second-IsList (omega arith, (omega arith, tt)) (omega arith, (omega arith, tt)) refl

compare_eq-lists_example :
    compare_eq env 2 (make_ptr 64) (make_ptr 80) lists ≡ ok (make_integer 1) lists
compare_eq-lists_example =
    compare_eq-lists env 0 lists (make_ptr 64) (make_ptr 80) three_four three_five first-IsList
      second-IsList refl

sub_value-add_value_example :
    (add_value env (integers 4294967295 2) 2 lists ≡ ok (make_integer (4294967295 + 2)) lists)
    × (sub_value env (integers (4294967295 + 2) 2) 2 lists ≡ ok (make_integer 4294967295) lists)
sub_value-add_value_example = sub_value-add_value env 4294967295 2 lists (omega arith)

lt_value-signed_example :
    lt_value env (integers 4294967295 2) 2 lists
    ≡ ok
        (make_integer
          (int_of (differ (differ (is_negative 4294967295) (is_negative 2)) (lt_int 4294967295 2))))
        lists
lt_value-signed_example = lt_value-signed env 4294967295 2 lists (omega arith) (omega arith)

get_type_lem_example :
    (get_type heap (make_integer 7) ≡ some type_integer)
    × (get_type heap (make_function 120 3) ≡ some type_function)
    × (get_type heap (make_ptr 32) ≡ some type_string)
    × (get_type heap 0x3ff0_0000_0000_0000 ≡ some type_float)
unfolding load
get_type_lem_example =
    get_type_lem heap 7 120 3 32 0x3ff0_0000_0000_0000 (omega arith) (omega arith) (omega arith)
      (omega arith) (omega arith)

get_type-special_example :
    (get_type heap (0x7ff0 * 2 ^ 48 + 0) ≡ some type_unknown)
    × (get_type heap (0xfff0 * 2 ^ 48 + 0) ≡ some type_unknown)
    × (get_type heap (0x7ff8 * 2 ^ 48 + 0) ≡ some type_unknown)
    × (get_type heap (0xfff8 * 2 ^ 48) ≡ none)
get_type-special_example = get_type-special heap 0 (omega arith)

slice_lem_example : slice env (bounds (make_ptr 64) 1 2) 3 lists ≡ (
    if ltb (length three_four) 1 || ltb (length three_four) 2
    then throw index_out_of_bounds
    else sliced env 1 2 three_four_words lists)
slice_lem_example =
    slice_lem env (make_ptr 64) 1 2 lists three_four_words first-IsList (omega arith) (omega arith)
