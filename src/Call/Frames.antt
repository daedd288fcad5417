-- ===== src/Call/Frames.antt =====
-- `op_call` of runtime/src/call.c and `pop_frame` of runtime/src/module.c, and the frames that they
-- leave and find.
use mathlib.Core.Option
use bonzai.Base.{ℕ, suc, ◌+◌, ◌-◌, ◌^◌, ◌≡◌, ◌≤◌, ◌<◌, refl, ap, ◌∙◌, true, some, arith, get_elem?}
use bonzai.Word.{make_ptr, make_function}
use bonzai.Word.Function.{make_function_roundtrip}
use bonzai.Stack.{lt_int, stack_push, set_pointer}
use bonzai.Stack.Laws.{read_slot-ok, IsValid, Pushed, push_room}
use bonzai.Vm.{Module, Frame, HeapValue, ok, type_frame}
use bonzai.Vm.Memory.{Env, load, deref, frame_of}
use bonzai.Vm.TypeOf.{get_type, get_type-make_ptr, deref-make_ptr}
use bonzai.Vm.Access.{type_at-ok, object_at-ok}
use bonzai.Alloc.{make_frame}
use bonzai.Alloc.Fresh.{Room, plain_frame, with_frame, frame_object, make_frame-ok, load-update}
use bonzai.Call.{op_call, enter, pop_frame, add_int, sub_int, max_frames}

-- The word at the base pointer leads to this frame.
pub record HoldsFrame (m : Module) (fr : Frame) : Type 0 where
  pub word : ℕ
  pub slot : get_elem? m.stack.values m.base_pointer ≡ some word
  pub object : HeapValue
  pub here : deref m.heap word ≡ some object
  pub kind : get_type m.heap word ≡ some type_frame
  pub frame : frame_of object.payload ≡ some fr

pub pop_frame-ok :
    (m : Module) {fr : Frame}
    → HoldsFrame m fr
    → pop_frame m ≡ ok fr (record m { callstack = sub_int m.callstack 1 })
unfolding pop_frame
pop_frame-ok m h =
    rw
      (
        read_slot-ok m.base_pointer m h.slot,
        type_at-ok h.word m h.kind,
        object_at-ok h.word m h.here,
        h.frame,
      )
      refl

-- the frame that a call with `argc` arguments leaves
abbrev pub caller_frame : Env → ℕ → Module → Frame
caller_frame env argc m =
    plain_frame env (add_int m.pc 5) (m.stack.stack_pointer - argc) m.base_pointer

-- A call of the function at `x` with `y` slots for locals and `argc` arguments: the state after it.
pub record Called (fr : Frame) (x y argc : ℕ) (m m' : Module) : Type 0 where
  pub holds : HoldsFrame m' fr
  pub pc : m'.pc ≡ x
  pub base : m'.base_pointer + argc ≡ m.stack.stack_pointer + y
  pub pointer : m'.stack.stack_pointer ≡ suc m'.base_pointer
  pub depth : m'.callstack ≡ suc m.callstack
  pub args :
      (i : ℕ) → i < m.stack.stack_pointer → get_elem? m'.stack.values i ≡ get_elem? m.stack.values i
  pub return_address : fr.instruction_pointer ≡ add_int m.pc 5
  pub return_base : fr.base_ptr ≡ m.base_pointer
  pub return_pointer : fr.stack_pointer + argc ≡ m.stack.stack_pointer

-- what a call of a function with `y` slots and `argc` arguments needs
pub record CanCall (env : Env) (x y argc p : ℕ) (m : Module) : Type 0 where
  pub address : x < 2 ^ 15
  pub slots : y < 2 ^ 15
  pub args : argc ≤ y
  pub given : argc ≤ m.stack.stack_pointer
  pub valid : IsValid m.stack
  pub fits : m.stack.stack_pointer + y < m.stack.stack_capacity + argc
  pub room : Room env p m
  pub short : p < 2 ^ 48
  pub shallow : m.callstack < 1024

module _ (env : Env) (x y argc p : ℕ) (m : Module) (c : CanCall env x y argc p m) where
  abbrev sp : ℕ
  sp = m.stack.stack_pointer

  abbrev fr : Frame
  fr = plain_frame env (add_int m.pc 5) (sp - argc) m.base_pointer

  abbrev pub made : Module
  made = with_frame env p fr (set_pointer (sp + y - argc) m)

  above : add_int sp (sub_int y argc) ≡ sp + y - argc
  above = omega (arith, c.slots, c.args, c.given, c.valid.within, c.valid.small)

  below : sub_int sp argc ≡ sp - argc
  below = omega (arith, c.slots, c.args, c.given, c.valid.within, c.valid.small)

  made-ok :
      make_frame env (add_int m.pc 5) (sp - argc) m.base_pointer (set_pointer (sp + y - argc) m)
      ≡ ok (make_ptr p) made
  made-ok =
      make_frame-ok env (add_int m.pc 5) (sp - argc) m.base_pointer p
        (set_pointer (sp + y - argc) m)
        (record { below = c.room.below; address = c.room.address; there = c.room.there })

  made-IsValid : IsValid made.stack
  made-IsValid = record {
    sized = c.valid.sized;
    within = omega (arith, c.fits, c.args, c.given);
    some_room = c.valid.some_room;
    small = c.valid.small;
  }

  abbrev pub entered : Module → Module
  entered n = record n {
    base_pointer = sub_int n.stack.stack_pointer 1;
    callstack = add_int n.callstack 1;
    pc = x;
  }

  pub op_call-run :
      (n : Module)
      → stack_push env (make_ptr p) made ≡ ok tt n
      → op_call env (make_function x y) argc m ≡ ok tt (entered n)
  unfolding op_call enter
  op_call-run n e =
      let (_, ipc, space) = make_function_roundtrip x y c.address c.slots in
      let shallow : lt_int m.callstack max_frames ≡ true = ground (arith, c.shallow) in
      rw (shallow, ipc, space, above, below, made-ok, e) refl

  base-entered :
      (n : Module) → Pushed (make_ptr p) made n → (entered n).base_pointer ≡ sp + y - argc
  base-entered n q = omega (arith, q.pointer, c.fits, c.given, c.args, c.valid.small)

  frame_there :
      (n : Module)
      → Pushed (make_ptr p) made n
      → load n.heap p ≡ some (frame_object env m.first_object fr)
  frame_there n q = ap (λ h. load h p) q.heap ∙ load-update _ p _ c.room.there

  HoldsFrame-entered : (n : Module) → Pushed (make_ptr p) made n → HoldsFrame (entered n) fr
  HoldsFrame-entered n q = record {
    word = make_ptr p;
    slot = ap (get_elem? n.stack.values) (base-entered n q) ∙ q.top;
    object = frame_object env m.first_object fr;
    here = deref-make_ptr n.heap p c.short ∙ frame_there n q;
    kind =
        get_type-make_ptr n.heap p c.short
        ∙ ap (Option.map (λ (o : HeapValue). o.type)) (frame_there n q);
    frame = refl;
  }

  Called-entered :
      (n : Module)
      → Pushed (make_ptr p) made n
      → Called (caller_frame env argc m) x y argc m (entered n)
  Called-entered n q = record {
    holds = HoldsFrame-entered n q;
    pc = refl;
    base = omega (arith, base-entered n q, c.args, c.given);
    pointer = omega (arith, base-entered n q, q.pointer);
    depth = omega (arith, q.depth, c.shallow);
    args = λ i lt. q.below i (omega (arith, c.args));
    return_address = refl;
    return_base = refl;
    return_pointer = omega (arith, c.given);
  }

  -- On a valid stack with room for the slots and the frame, below the depth of 1024, with
  -- memory for the frame and no collection due, a call of a function word returns, if its code
  -- address and slot count are below 2 ^ 15 and it gets no more arguments than it has slots: it
  -- jumps to the code, keeps the arguments in place, and leaves at the new base a frame with
  -- the caller's registers.
  pub op_call_lem :
      (m' : Module) × (op_call env (make_function x y) argc m ≡ ok tt m')
      × Called (caller_frame env argc m) x y argc m m'
  op_call_lem =
      let (n, e, q) =
        push_room env (make_ptr p) made made-IsValid (omega (arith, c.fits, c.given, c.args)) in
      (entered n, op_call-run n e, Called-entered n q)
