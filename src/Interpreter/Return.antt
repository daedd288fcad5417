-- ===== src/Interpreter/Return.antt =====
-- `return` of runtime/src/interpreter.c, and a whole call: what the caller sees of `op_call`, any
-- body, and the return.
use bonzai.Base.{
  subst, ℕ, suc, ◌+◌, ◌≡◌, ◌≤◌, ◌<◌, refl, sym, ap, ◌∙◌, Bool, false, Option, some, none, arith,
  ◌==◌, if◌then◌else◌, get_elem?,
}
use bonzai.Word.{make_function}
use bonzai.Stack.{stack_push, stack_pop, set_pointer}
use bonzai.Stack.Laws.{same_state, IsValid, stack_pop_lem, push_room}
use bonzai.Vm.{Module, Frame, ok}
use bonzai.Vm.Memory.{Env}
use bonzai.Call.{op_call, add_int, sub_int}
use bonzai.Call.Frames.{HoldsFrame, pop_frame-ok, CanCall, Called, caller_frame, op_call_lem}
use bonzai.Interpreter.{return_op, leave}

-- what the interpreter itself returns
abbrev pub handed_out : Bool → ℕ → ℕ → ℕ → Option ℕ
handed_out does_return callstack depth v =
    if does_return then (if callstack == depth then some v else none) else none

-- The state after a return of `v` through the frame `fr`.
pub record Returned (fr : Frame) (v : ℕ) (m m' : Module) : Type 0 where
  pub pc : m'.pc ≡ fr.instruction_pointer
  pub base : m'.base_pointer ≡ fr.base_ptr
  pub pointer : m'.stack.stack_pointer ≡ suc fr.stack_pointer
  pub top : get_elem? m'.stack.values fr.stack_pointer ≡ some v
  pub below :
      (i : ℕ) → i < fr.stack_pointer → get_elem? m'.stack.values i ≡ get_elem? m.stack.values i
  pub depth : suc m'.callstack ≡ m.callstack
  pub heap : m'.heap ≡ m.heap

-- A state in which `v` can be returned through `fr`.
pub record CanReturn (fr : Frame) (v : ℕ) (m : Module) : Type 0 where
  pub holds : HoldsFrame m fr
  pub valid : IsValid m.stack
  pub sp : ℕ
  pub pointer : m.stack.stack_pointer ≡ suc sp
  pub top : get_elem? m.stack.values sp ≡ some v
  pub inside : fr.stack_pointer < m.stack.stack_capacity
  pub deep : 0 < m.callstack
  pub bounded : m.callstack ≤ 1024

module _ (env : Env) (fr : Frame) (v : ℕ) (m : Module) (c : CanReturn fr v m) where
  abbrev popped : Module
  popped = set_pointer c.sp (record m { callstack = sub_int m.callstack 1 })

  abbrev back : Module
  back = record (set_pointer fr.stack_pointer popped) { base_pointer = fr.base_ptr }

  pop-ok : stack_pop (record m { callstack = sub_int m.callstack 1 }) ≡ ok v popped
  pop-ok =
      stack_pop_lem v (record m { callstack = sub_int m.callstack 1 }) c.pointer
        (omega (arith, c.valid.within, c.valid.small, c.pointer)) c.top

  back-IsValid : IsValid back.stack
  back-IsValid = record {
    sized = c.valid.sized;
    within = omega (arith, c.inside);
    some_room = c.valid.some_room;
    small = c.valid.small;
  }

  return_op-run :
      (does_return : Bool) (callstack : ℕ) (n : Module)
      → stack_push env v back ≡ ok tt n
      → return_op env does_return callstack m
        ≡ ok
            (handed_out does_return callstack n.callstack v)
            (record n { pc = fr.instruction_pointer })
  unfolding return_op leave
  return_op-run does_return callstack n e = rw (pop_frame-ok m c.holds, pop-ok, e) refl

  -- On a valid stack with a frame at the base pointer that points inside it, a value on top,
  -- and a depth from 1 to 1024, `return` restores the registers of the frame, puts the value on
  -- top of the caller's stack and changes nothing below it; the interpreter hands the value out
  -- exactly if it is to return and the depth is the one it started with.
  pub return_op_lem :
      (does_return : Bool) (callstack : ℕ)
      → (m' : Module) × (return_op env does_return callstack m
          ≡ ok (handed_out does_return callstack m'.callstack v) m')
        × Returned fr v m m'
  return_op_lem does_return callstack =
      let (n, e, q) = push_room env v back back-IsValid c.inside in
      (
        record n { pc = fr.instruction_pointer },
        return_op-run does_return callstack n e,
        record {
          pc = refl;
          base = q.base;
          pointer = q.pointer;
          top = q.top;
          below = q.below;
          depth = omega (arith, q.depth, c.deep, c.bounded);
          heap = q.heap;
        },
      )

-- What the body of a function keeps for its caller, with `v` for its result: `m` is the state after
-- the call and `n` the one before the return.
pub record Ran (fr : Frame) (v : ℕ) (m n : Module) : Type 0 where
  pub holds : HoldsFrame n fr
  pub valid : IsValid n.stack
  pub sp : ℕ
  pub pointer : n.stack.stack_pointer ≡ suc sp
  pub top : get_elem? n.stack.values sp ≡ some v
  pub depth : n.callstack ≡ m.callstack
  pub grown : fr.stack_pointer < n.stack.stack_capacity
  pub below :
      (i : ℕ) → i < fr.stack_pointer → get_elem? n.stack.values i ≡ get_elem? m.stack.values i

-- The caller's view of a call with `argc` arguments: the arguments are gone, the result `v` is in
-- their place, and the next instruction follows.
pub record Answered (argc v : ℕ) (m m' : Module) : Type 0 where
  pub pc : m'.pc ≡ add_int m.pc 5
  pub base : m'.base_pointer ≡ m.base_pointer
  pub pointer : m'.stack.stack_pointer + argc ≡ suc m.stack.stack_pointer
  pub top : (i : ℕ) → i + argc ≡ m.stack.stack_pointer → get_elem? m'.stack.values i ≡ some v
  pub below :
      (i : ℕ)
      → i + argc < m.stack.stack_pointer
      → get_elem? m'.stack.values i ≡ get_elem? m.stack.values i
  pub depth : m'.callstack ≡ m.callstack

answered :
    (env : Env) (x y argc v : ℕ) {fr : Frame} (m m1 n : Module)
    → Called fr x y argc m m1
    → m.callstack < 1024
    → Ran fr v m1 n
    → (m' : Module) × (return_op env false 0 n ≡ ok none m') × Answered argc v m m'
answered env x y argc v {fr} m m1 n c shallow ran =
    let (m', e, r) = return_op_lem env fr v n ready false 0 in
    (
      m',
      e,
      record {
        pc = r.pc ∙ c.return_address;
        base = r.base ∙ c.return_base;
        pointer = omega (arith, r.pointer, c.return_pointer);
        top = λ i at. ap (get_elem? m'.stack.values) (omega (arith, c.return_pointer)) ∙ r.top;
        below = λ i lt.
            r.below i (omega (arith, c.return_pointer))
            ∙ ran.below i (omega (arith, c.return_pointer))
            ∙ c.args i (omega (arith, c.return_pointer));
        depth = omega (arith, r.depth, ran.depth, c.depth);
      },
    )
  where
    ready : CanReturn fr v n
    ready = record {
      holds = ran.holds;
      valid = ran.valid;
      sp = ran.sp;
      pointer = ran.pointer;
      top = ran.top;
      inside = ran.grown;
      deep = omega (arith, ran.depth, c.depth);
      bounded = omega (arith, ran.depth, c.depth, shallow);
    }

-- After a call from a state that can call, and any body that leaves a valid stack, keeps its
-- frame, the depth and the caller's part of the stack and leaves a result on top, the return
-- gives the caller its registers and depth, the result in place of the arguments, and the rest of
-- its stack untouched.
pub return_op-op_call :
    (env : Env) (x y argc p v : ℕ) (m m1 n : Module)
    → CanCall env x y argc p m
    → op_call env (make_function x y) argc m ≡ ok tt m1
    → Ran (caller_frame env argc m) v m1 n
    → (m' : Module) × (return_op env false 0 n ≡ ok none m') × Answered argc v m m'
return_op-op_call env x y argc p v m m1 n can ran_to ran =
    let (m2, e, c) = op_call_lem env x y argc p m can in
    answered env x y argc v m m1 n
      (subst (Called (caller_frame env argc m) x y argc m) (same_state (sym e ∙ ran_to)) c)
      can.shallow ran
