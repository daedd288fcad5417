-- ===== src/Examples/Calls.antt =====
-- A call of the function at 120, which has three slots, with the two arguments 11 and 12, and its
-- return of 99.
use bonzai.Base.{
  ℕ, zero, suc, ◌≡◌, ◌<◌, refl, true, false, some, none, [], ◌∷◌, arith, get_elem?, ◌==◌,
  if◌then◌else◌,
}
use bonzai.Word.{make_ptr, make_function}
use bonzai.Vm.{Module, Frame, HeapValue, Heap, ok, type_frame, as_frame}
use bonzai.Vm.Memory.{load}
use bonzai.Vm.TypeOf.{get_type-make_ptr, deref-make_ptr}
use bonzai.Stack.{stack_push}
use bonzai.Alloc.Fresh.{frame_object}
use bonzai.Call.{op_call}
use bonzai.Call.Frames.{
  HoldsFrame, CanCall, Called, caller_frame, made, entered, op_call-run, op_call_lem,
}
use bonzai.Interpreter.{return_op}
use bonzai.Interpreter.Return.{
  Returned, CanReturn, Ran, Answered, return_op_lem, return_op-op_call, handed_out,
}
use bonzai.Examples.Machine.{env, machine, heap}

abbrev caller : Module
caller =
    record (machine
      (record {
        values = 7 ∷ 11 ∷ 12 ∷ 0 ∷ 0 ∷ 0 ∷ 0 ∷ 0 ∷ [];
        stack_pointer = 3;
        stack_capacity = 8;
      })
      heap) { pc = 40; max_objects = 32 }

caller-CanCall : CanCall env 120 3 2 64 caller
caller-CanCall = record {
  address = omega arith;
  slots = omega arith;
  args = omega arith;
  given = omega arith;
  valid = record {
    sized = refl;
    within = omega arith;
    some_room = omega arith;
    small = omega arith;
  };
  fits = omega arith;
  room = record { below = omega arith; address = refl; there = omega arith };
  short = omega arith;
  shallow = omega arith;
}

op_call_lem_example :
    (m' : Module) × (op_call env (make_function 120 3) 2 caller ≡ ok tt m')
    × Called (caller_frame env 2 caller) 120 3 2 caller m'
op_call_lem_example = op_call_lem env 120 3 2 64 caller caller-CanCall

abbrev a_frame : Frame
a_frame = record {
  instruction_pointer = 45;
  stack_pointer = 1;
  base_ptr = 0;
  ons_count = 0;
  function_ipc = 0;
}

abbrev frame_value : HeapValue
frame_value = record {
  type = type_frame;
  size = 0;
  is_marked = false;
  next = 16;
  payload = as_frame a_frame;
}

abbrev frame_heap : Heap
frame_heap a = if a == 64 then some frame_value else heap a

abbrev inside : ℕ → ℕ → Module
inside result sp =
    record (machine
      (record {
        values = 7 ∷ 11 ∷ 12 ∷ 0 ∷ make_ptr 64 ∷ result ∷ 0 ∷ 0 ∷ [];
        stack_pointer = sp;
        stack_capacity = 8;
      })
      frame_heap) { pc = 120; base_pointer = 4; callstack = 1; max_objects = 32 }

inside-HoldsFrame : (result sp : ℕ) → HoldsFrame (inside result sp) a_frame
unfolding load
inside-HoldsFrame result sp = record {
  word = make_ptr 64;
  slot = refl;
  object = frame_value;
  here = deref-make_ptr frame_heap 64 (omega arith);
  kind = get_type-make_ptr frame_heap 64 (omega arith);
  frame = refl;
}

-- the state that pushes the frame, and the one after the call
abbrev frame_made : Module
frame_made = made env 120 3 2 64 caller caller-CanCall

abbrev frame_pushed : Module
frame_pushed = record frame_made {
  stack = record {
    values = 7 ∷ 11 ∷ 12 ∷ 0 ∷ make_ptr 64 ∷ 0 ∷ 0 ∷ 0 ∷ [];
    stack_pointer = 5;
    stack_capacity = 8;
  };
}

push_run : stack_push env (make_ptr 64) frame_made ≡ ok tt frame_pushed
unfolding stack_push
push_run = refl

abbrev called : Module
called = entered env 120 3 2 64 caller caller-CanCall frame_pushed

-- the body has pushed its result
abbrev ready : Module
ready = record called {
  stack = record {
    values = 7 ∷ 11 ∷ 12 ∷ 0 ∷ make_ptr 64 ∷ 99 ∷ 0 ∷ 0 ∷ [];
    stack_pointer = 6;
    stack_capacity = 8;
  };
}

ready-HoldsFrame : HoldsFrame ready (caller_frame env 2 caller)
unfolding load
ready-HoldsFrame = record {
  word = make_ptr 64;
  slot = refl;
  object = frame_object env 16 (caller_frame env 2 caller);
  here = deref-make_ptr ready.heap 64 (omega arith);
  kind = get_type-make_ptr ready.heap 64 (omega arith);
  frame = refl;
}

ready-Ran : Ran (caller_frame env 2 caller) 99 called ready
ready-Ran = record {
  holds = ready-HoldsFrame;
  valid = record {
    sized = refl;
    within = omega arith;
    some_room = omega arith;
    small = omega arith;
  };
  sp = 5;
  pointer = refl;
  top = refl;
  depth = refl;
  grown = omega arith;
  below = lowest;
}
  where
    lowest : (i : ℕ) → i < 1 → get_elem? ready.stack.values i ≡ get_elem? called.stack.values i
    lowest zero lt = refl
    lowest (suc i) lt = absurd (omega arith)

return_op-op_call_example :
    (m' : Module) × (return_op env false 0 ready ≡ ok none m') × Answered 2 99 caller m'
return_op-op_call_example =
    return_op-op_call env 120 3 2 64 99 caller called ready caller-CanCall
      (op_call-run env 120 3 2 64 caller caller-CanCall frame_pushed push_run) ready-Ran

inside-CanReturn : CanReturn a_frame 99 (inside 99 6)
inside-CanReturn = record {
  holds = inside-HoldsFrame 99 6;
  valid = record {
    sized = refl;
    within = omega arith;
    some_room = omega arith;
    small = omega arith;
  };
  sp = 5;
  pointer = refl;
  top = refl;
  inside = omega arith;
  deep = omega arith;
  bounded = omega arith;
}

return_op_lem_example :
    (m' : Module) × (return_op env true 0 (inside 99 6) ≡ ok (handed_out true 0 m'.callstack 99) m')
    × Returned a_frame 99 (inside 99 6) m'
return_op_lem_example = return_op_lem env a_frame 99 (inside 99 6) inside-CanReturn true 0
