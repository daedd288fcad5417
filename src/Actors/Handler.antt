-- ===== src/Actors/Handler.antt =====
-- `call_threaded` of runtime/src/threading.c: what a handler finds on the stack, and what its return
-- leaves.
use mathlib.Core.Option
use bonzai.Base.{
  ℕ, suc, ◌+◌, ◌-◌, ◌^◌, ◌≤◌, ◌<◌, ◌≡◌, refl, sym, ap, subst, ◌∙◌, ◌==◌, true, if◌then◌else◌, some,
  none, List, arith, get_elem?, length,
}
use bonzai.Word.{make_ptr, make_function}
use bonzai.Word.Function.{make_function_roundtrip}
use bonzai.Stack.{stack_push}
use bonzai.Stack.Laws.{IsValid}
use bonzai.Vm.{Module, Frame, HeapValue, ok}
use bonzai.Vm.Memory.{Env, load}
use bonzai.Vm.TypeOf.{get_type-make_ptr, deref-make_ptr}
use bonzai.Alloc.{make_frame}
use bonzai.Alloc.Fresh.{Room, plain_frame, with_frame, frame_object, make_frame-ok, load-update}
use bonzai.Call.{add_int, sub_int, rounds}
use bonzai.Call.Frames.{HoldsFrame}
use bonzai.Interpreter.{return_op}
use bonzai.Interpreter.Return.{Ran, CanReturn, return_op_lem}
use bonzai.Actors.{prepare, push_args, push_zeros}
use bonzai.Actors.Pushes.{Grew, Grew-trans, Placed, push_args-Placed, push_zeros-Grew, push-Grew}

-- what a message of `argc` arguments to a handler with `y` slots needs
pub record CanHandle (env : Env) (x y argc p : ℕ) (argv : List ℕ) (m : Module) : Type 0 where
  pub address : x < 2 ^ 15
  pub slots : y < 2 ^ 15
  pub args : argc ≤ y
  pub given : argc ≤ length argv
  pub valid : IsValid m.stack
  pub fits : m.stack.stack_pointer + y + 1 < m.stack.stack_capacity
  pub room : Room env p m
  pub short : p < 2 ^ 48
  pub depth : 0 < m.callstack
  pub shallow : m.callstack ≤ 1024

-- the frame that `call_threaded` makes
abbrev pub handler_frame : Env → Module → Frame
handler_frame env m = plain_frame env (add_int m.pc 5) m.stack.stack_pointer m.base_pointer

-- The state that a handler starts in.
pub record Prepared (env : Env) (y argc : ℕ) (argv : List ℕ) (m n : Module) : Type 0 where
  pub holds : HoldsFrame n (handler_frame env m)
  pub base : n.base_pointer ≡ m.stack.stack_pointer + y
  pub pointer : n.stack.stack_pointer ≡ suc (suc n.base_pointer)
  pub depth : n.callstack ≡ m.callstack
  pub arguments :
      (i j : ℕ)
      → suc (i + j) ≡ argc
      → get_elem? n.stack.values (m.stack.stack_pointer + j) ≡ get_elem? argv i
  pub below :
      (i : ℕ) → i < m.stack.stack_pointer → get_elem? n.stack.values i ≡ get_elem? m.stack.values i

Grew-Room : {env : Env} {k p : ℕ} {m n : Module} → Grew k m n → Room env p m → Room env p n
Grew-Room g r =
    subst (Room _ _) (sym g.same) (record { below = r.below; address = r.address; there = r.there })

module _ (env : Env) (x y argc p : ℕ) (argv : List ℕ) (m : Module)
    (c : CanHandle env x y argc p argv m) where
  abbrev fr : Frame
  fr = handler_frame env m

  abbrev final : Module → Module
  final n = record n {
    stack = record n.stack { stack_pointer = add_int n.stack.stack_pointer 1 };
    base_pointer = sub_int n.stack.stack_pointer 1;
  }

  some_rounds : rounds argc ≡ argc
  some_rounds = ground (arith, c.slots, c.args)

  left_rounds : rounds (sub_int y argc) ≡ y - argc
  left_rounds = ground (arith, c.slots, c.args)

  abbrev made : Module → Module
  made o = with_frame env p fr o

  prepare-run :
      (n o r : Module)
      → push_args env argc argv m ≡ ok tt n
      → push_zeros env (y - argc) n ≡ ok tt o
      → Grew (argc + (y - argc)) m o
      → stack_push env (make_ptr p) (made o) ≡ ok tt r
      → Grew 1 (made o) r
      → prepare env (make_function x y) argc argv m ≡ ok (m.callstack - 1) (final r)
  unfolding prepare
  prepare-run n o r e f t h u =
      let (_, ipc, space) = make_function_roundtrip x y c.address c.slots in
      let sp = m.stack.stack_pointer in
      let pc : o.pc ≡ m.pc = ap (λ (s : Module). s.pc) t.same in
      let base : o.base_pointer ≡ m.base_pointer = ap (λ (s : Module). s.base_pointer) t.same in
      let frame =
        ap (λ a. make_frame env (add_int a 5) sp o.base_pointer o) pc
        ∙ ap (λ b. make_frame env (add_int m.pc 5) sp b o) base
        ∙ make_frame-ok env (add_int m.pc 5) sp m.base_pointer p o (Grew-Room t c.room) in
      let deep : r.callstack ≡ m.callstack =
        ap (λ (s : Module). s.callstack) u.same ∙ ap (λ (s : Module). s.callstack) t.same in
      let one_less : sub_int m.callstack 1 ≡ m.callstack - 1 = omega (arith, c.depth, c.shallow) in
      rw (some_rounds, e, space, left_rounds, f, frame, h, deep, one_less) refl

  Prepared-run :
      (n o r : Module)
      → Placed argc argv m n
      → Grew (y - argc) n o
      → Grew (argc + (y - argc)) m o
      → Grew 1 (made o) r
      → get_elem? r.stack.values o.stack.stack_pointer ≡ some (make_ptr p)
      → Prepared env y argc argv m (final r)
  Prepared-run n o r q g t u top =
      let base : sub_int r.stack.stack_pointer 1 ≡ m.stack.stack_pointer + y =
        omega (arith, c.args, c.fits, t.pointer, u.pointer, c.valid.small) in
      let there : load r.heap p ≡ some (frame_object env o.first_object fr) =
        ap (λ (s : Module). load s.heap p) u.same ∙ load-update _ p _ c.room.there in
      record {
        holds = record {
          word = make_ptr p;
          slot =
              ap (get_elem? r.stack.values) (omega (arith, base, u.pointer, t.pointer, c.args))
              ∙ top;
          object = frame_object env o.first_object fr;
          here = deref-make_ptr r.heap p c.short ∙ there;
          kind =
              get_type-make_ptr r.heap p c.short
              ∙ ap (Option.map (λ (o : HeapValue). o.type)) there;
          frame = refl;
        };
        base = base;
        pointer = omega (arith, base, u.pointer, t.pointer, c.args, c.fits, c.valid.small);
        depth = ap (λ (s : Module). s.callstack) u.same ∙ ap (λ (s : Module). s.callstack) t.same;
        arguments = λ i j e.
            u.below (m.stack.stack_pointer + j) (omega (arith, t.pointer))
            ∙ g.below (m.stack.stack_pointer + j) (omega (arith, q.grew.pointer))
            ∙ q.places i j e;
        below = λ i lt. u.below i (omega (arith, t.pointer)) ∙ t.below i lt;
      }

  -- On a valid stack with room for the slots, the frame and one more, with no collection due
  -- and a 48-bit address from `malloc`, at a depth from 1 to 1024, `call_threaded` of a
  -- function word whose code address and slot count are below 2 ^ 15, with no more arguments
  -- than slots and all of them in the array, comes to the run of the handler, which is to end
  -- at a depth one lower: the arguments are on the stack, the last of the array first, what was
  -- below them is as it was, a frame with the registers of the thread is at the new base, which
  -- is above the slots, the stack pointer is two above the base, and the depth is as it was.
  pub prepare_lem :
      (n : Module) × (prepare env (make_function x y) argc argv m ≡ ok (m.callstack - 1) n)
      × Prepared env y argc argv m n
  prepare_lem =
      let (n, e, q) =
        push_args-Placed env argc argv m c.valid (omega (arith, c.fits, c.args)) c.given in
      let (o, f, g) =
        push_zeros-Grew env (y - argc) n q.grew.valid
          (omega (arith, c.fits, c.args, q.grew.pointer, q.grew.capacity)) in
      let t : Grew (argc + (y - argc)) m o = Grew-trans q.grew g in
      let (r, h, u, top) =
        push-Grew env (make_ptr p) (made o) t.valid
          (omega (arith, c.fits, c.args, t.pointer, t.capacity)) in
      (final r, prepare-run n o r e f t h u, Prepared-run n o r q g t u top)

-- What a message leaves of the thread that took it: its registers, the value `v` above its stack,
-- and one frame less.
pub record Handled (v : ℕ) (m m' : Module) : Type 0 where
  pub pc : m'.pc ≡ add_int m.pc 5
  pub base : m'.base_pointer ≡ m.base_pointer
  pub pointer : m'.stack.stack_pointer ≡ suc m.stack.stack_pointer
  pub top : get_elem? m'.stack.values m.stack.stack_pointer ≡ some v
  pub below :
      (i : ℕ) → i < m.stack.stack_pointer → get_elem? m'.stack.values i ≡ get_elem? m.stack.values i
  pub depth : suc m'.callstack ≡ m.callstack

handled :
    (env : Env) (x y argc p v : ℕ) (argv : List ℕ) (m m1 n : Module)
    → CanHandle env x y argc p argv m
    → Prepared env y argc argv m m1
    → Ran (handler_frame env m) v m1 n
    → (m' : Module) × (return_op env true (m.callstack - 1) n ≡ ok (some v) m') × Handled v m m'
handled env x y argc p v argv m m1 n c prep ran =
    let (m', e, r) = return_op_lem env (handler_frame env m) v n ready true (m.callstack - 1) in
    let lower : suc m'.callstack ≡ m.callstack = omega (arith, r.depth, ran.depth, prep.depth) in
    let last : (m.callstack - 1 == m'.callstack) ≡ true = ground (arith, lower) in
    (
      m',
      e ∙ ap (λ b. ok (if b then some v else none) m') last,
      record {
        pc = r.pc;
        base = r.base;
        pointer = r.pointer;
        top = r.top;
        below = λ i lt. r.below i lt ∙ ran.below i lt ∙ prep.below i lt;
        depth = lower;
      },
    )
  where
    ready : CanReturn (handler_frame env m) v n
    ready = record {
      holds = ran.holds;
      valid = ran.valid;
      sp = ran.sp;
      pointer = ran.pointer;
      top = ran.top;
      inside = ran.grown;
      deep = omega (arith, ran.depth, prep.depth, c.depth);
      bounded = omega (arith, ran.depth, prep.depth, c.shallow);
    }

same_answer : {a b : ℕ} {m n : Module} → ok a m ≡ ok b n → a ≡ b
same_answer e = cc

same_end : {a b : ℕ} {m n : Module} → ok a m ≡ ok b n → m ≡ n
same_end e = cc

-- When `call_threaded`, from a state that can handle the message, has come to the run of the
-- handler, then after any body that leaves a valid stack, keeps its frame, the depth and the
-- stack below the arguments, and has a result on top, the return of the handler hands the result
-- out of the interpreter; the thread has its base and its stack again and goes on at `pc + 5`,
-- but the result is left on its stack, which is one higher than before the message, and the depth
-- is one lower.
pub return_op-prepare :
    (env : Env) (x y argc p v depth : ℕ) (argv : List ℕ) (m m1 n : Module)
    → CanHandle env x y argc p argv m
    → prepare env (make_function x y) argc argv m ≡ ok depth m1
    → Ran (handler_frame env m) v m1 n
    → (m' : Module) × (return_op env true depth n ≡ ok (some v) m') × Handled v m m'
return_op-prepare env x y argc p v depth argv m m1 n c ran_to ran =
    let (m2, e, prep) = prepare_lem env x y argc p argv m c in
    let same = sym e ∙ ran_to in
    let deep : m.callstack - 1 ≡ depth = same_answer same in
    let (m', f, h) =
      handled env x y argc p v argv m m1 n c
        (subst (Prepared env y argc argv m) (same_end same) prep) ran in
    (m', ap (λ d. return_op env true d n) (sym deep) ∙ f, h)
