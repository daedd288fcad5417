-- ===== src/Examples/Handlers.antt =====
-- A handler with three slots that takes a message of two arguments.
use bonzai.Base.{ℕ, zero, suc, ap, sym, ◌≡◌, ◌<◌, refl, arith, true, some, [], ◌∷◌, get_elem?}
use bonzai.Word.{make_function}
use bonzai.Vm.{Module, ok}
use bonzai.Interpreter.{return_op}
use bonzai.Interpreter.Return.{Ran}
use bonzai.Actors.{prepare}
use bonzai.Actors.Handler.{
  CanHandle, Prepared, Handled, handler_frame, prepare_lem, return_op-prepare,
}
use bonzai.Examples.Machine.{env, machine, heap}

abbrev receiver : Module
receiver =
    record (machine
      (record {
        values = 7 ∷ 0 ∷ 0 ∷ 0 ∷ 0 ∷ 0 ∷ 0 ∷ 0 ∷ [];
        stack_pointer = 1;
        stack_capacity = 8;
      })
      heap) { pc = 40; max_objects = 32; callstack = 1 }

receiver-CanHandle : CanHandle env 120 3 2 64 (11 ∷ 12 ∷ []) receiver
receiver-CanHandle = record {
  address = omega arith;
  slots = omega arith;
  args = omega arith;
  given = omega arith;
  valid = record {
    sized = refl;
    within = omega arith;
    some_room = omega arith;
    small = omega arith;
  };
  fits = omega arith;
  room = record { below = omega arith; address = refl; there = omega arith };
  short = omega arith;
  depth = omega arith;
  shallow = omega arith;
}

prepare_lem_example :
    (n : Module) × (prepare env (make_function 120 3) 2 (11 ∷ 12 ∷ []) receiver ≡ ok 0 n)
    × Prepared env 3 2 (11 ∷ 12 ∷ []) receiver n
prepare_lem_example = prepare_lem env 120 3 2 64 (11 ∷ 12 ∷ []) receiver receiver-CanHandle

-- the body has pushed its result
abbrev answering : (n : Module) → Prepared env 3 2 (11 ∷ 12 ∷ []) receiver n → Module
answering n q = record n {
  stack = record {
    values = 7 ∷ 12 ∷ 11 ∷ 0 ∷ q.holds.word ∷ 99 ∷ 0 ∷ 0 ∷ [];
    stack_pointer = 6;
    stack_capacity = 8;
  };
}

answering-Ran :
    (n : Module) (q : Prepared env 3 2 (11 ∷ 12 ∷ []) receiver n)
    → Ran (handler_frame env receiver) 99 n (answering n q)
answering-Ran n q = record {
  holds = record {
    word = q.holds.word;
    slot = ap (get_elem? (answering n q).stack.values) q.base;
    object = q.holds.object;
    here = q.holds.here;
    kind = q.holds.kind;
    frame = q.holds.frame;
  };
  valid = record {
    sized = refl;
    within = omega arith;
    some_room = omega arith;
    small = omega arith;
  };
  sp = 5;
  pointer = refl;
  top = refl;
  depth = refl;
  grown = omega arith;
  below = lowest;
}
  where
    lowest : (i : ℕ) → i < 1 → get_elem? (answering n q).stack.values i ≡ get_elem? n.stack.values i
    lowest zero lt = sym (q.below 0 lt)
    lowest (suc i) lt = absurd (omega arith)

abbrev prepared : Module
prepared = prepare_lem_example.0

return_op-prepare_example :
    (m' : Module) × (return_op env true 0 (answering prepared prepare_lem_example.2)
      ≡ ok (some 99) m')
    × Handled 99 receiver m'
return_op-prepare_example =
    return_op-prepare env 120 3 2 64 99 0 (11 ∷ 12 ∷ []) receiver prepared
      (answering prepared prepare_lem_example.2) receiver-CanHandle prepare_lem_example.1
      (answering-Ran prepared prepare_lem_example.2)
