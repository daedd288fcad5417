-- ===== src/Call.antt =====
-- Calls: runtime/src/call.c, and `pop_frame` of runtime/src/module.c.
pub mod Frames
pub mod Keeps
use bonzai.Base.{
  ℕ, zero, suc, ◌+◌, ◌-◌, ◌*◌, ◌%◌, ◌^◌, Bool, Option, none, some, List, [], ◌∷◌, ◌++◌, get_elem?,
  if◌then◌else◌,
}
use bonzai.Word.{get_int, function_ipc, function_local_space}
use bonzai.Stack.{lt_int, stack_push, stack_pop, read_slot, set_pointer}
use bonzai.Vm.{
  Module, Frame, type_string, type_frame, is_type, Cmd, pure, fail, get, modify, assert, or_crash,
  ◌>>=◌, ◌>>◌, call_stack_overflow, function_not_found, expected_frame,
}
use bonzai.Vm.Memory.{Env, frame_of}
use bonzai.Vm.Access.{type_at, object_at, assert_type, get_string}
use bonzai.Alloc.{make_frame}

abbrev pub max_frames : ℕ
max_frames = 1024

-- sums and differences of `int32_t`
abbrev pub add_int : ℕ → ℕ → ℕ
add_int a b = (a + b) % 2 ^ 32

abbrev pub sub_int : ℕ → ℕ → ℕ
sub_int a b = (a + (2 ^ 32 - b % 2 ^ 32)) % 2 ^ 32

-- `MAKE_FRAME` and the push, then the new base, one frame more, and the jump
enter : Env → ℕ → ℕ → Cmd (Unit {0})
enter env ipc old_sp = do
  m ← get (λ m. m)
  frame ← make_frame env (add_int m.pc 5) old_sp m.base_pointer
  stack_push env frame
  modify (λ n. record n {
    base_pointer = sub_int n.stack.stack_pointer 1;
    callstack = add_int n.callstack 1;
    pc = ipc;
  })

pub op_call : Env → ℕ → ℕ → Cmd (Unit {0})
unfolding enter
op_call env callee argc = do
  m ← get (λ m. m)
  assert (lt_int m.callstack max_frames) call_stack_overflow
  let sp = m.stack.stack_pointer
  modify (set_pointer (add_int sp (sub_int (function_local_space callee) argc)))
  enter env (function_ipc callee) (sub_int sp argc)

-- the rounds of `for (int i = 0; i < n; i++)`
abbrev pub rounds : ℕ → ℕ
rounds n = if lt_int 0 n then n else 0

-- Pops of `n` values into an array from its end: the oldest comes first.
pub pop_args : ℕ → Cmd (List ℕ)
pop_args zero = pure []
pop_args (suc n) = do v ← stack_pop; vs ← pop_args n; pure (vs ++ v ∷ [])

pub find_function : Env → List ℕ → List ℕ → Option ℕ
find_function env name [] = none
find_function env name (lib ∷ libs) = elim (env.get_proc_address lib name) [
  | none ↦ find_function env name libs
  | some addr ↦ some addr
]

call_handler : Env → Option ℕ → List ℕ → ℕ → Cmd ℕ
call_handler env none args argc = fail function_not_found
call_handler env (some handler) args argc = env.native handler args argc

pub op_native_call : Env → ℕ → ℕ → Cmd (Unit {0})
unfolding pop_args find_function call_handler
op_native_call env callee argc = do
  assert_type callee type_string
  fun ← get_string callee
  args ← pop_args (rounds argc)
  libs ← get (λ m. m.handles)
  ret ← call_handler env (find_function env fun libs) args argc
  stack_push env ret
  modify (λ m. record m { pc = add_int m.pc 5 })

pub pop_frame : Cmd Frame
pop_frame = do
  bp ← get (λ m. m.base_pointer)
  clos_env ← read_slot bp
  t ← type_at clos_env
  assert (is_type t type_frame) expected_frame
  o ← object_at clos_env
  frame ← or_crash (frame_of o.payload)
  modify (λ m. record m { callstack = sub_int m.callstack 1 })
  pure frame
