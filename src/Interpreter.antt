-- ===== src/Interpreter.antt =====
-- The instructions of runtime/src/interpreter.c. An instruction is five words from `pc` on; the
-- words and `pc` are `int32_t` patterns, so a negative index is a large one and lies outside.
pub mod Objects
pub mod Step
pub mod Return
pub mod Keeps
use bonzai.Base.{
  ℕ, zero, suc, ◌+◌, ◌*◌, ◌%◌, ◌^◌, Bool, true, false, ◌||◌, Option, none, some, List, [], ◌∷◌, ltb,
  ◌==◌, get_elem?, if◌then◌else◌,
}
use bonzai.Word.{is_ptr, is_fun, get_int, make_function}
use bonzai.Stack.{stack_push, stack_pop, read_slot, write_slot, set_pointer}
use bonzai.Vm.{
  Module, Frame, ValueType, type_list, type_integer, Cmd, pure, fail, get, modify, assert, or_crash,
  ◌>>=◌, ◌>>◌, index_out_of_bounds, invalid_callee,
}
use bonzai.Vm.Memory.{Env, array_of}
use bonzai.Vm.Access.{assert_type, object_at}
use bonzai.Compare.{comparison_table}
use bonzai.Call.{add_int, op_call, op_native_call, pop_frame}

-- `bytecode[module->pc + k]`
unfoldable pub operand : ℕ → Cmd ℕ
operand k m = or_crash (get_elem? m.instrs ((m.pc + k) % 2 ^ 32)) m

-- `INCREASE_IP_BY`
unfoldable pub increase_ip_by : ℕ → Cmd (Unit {0})
increase_ip_by x = modify (λ m. record m { pc = add_int m.pc (x * 5) })

pub load_local : Env → Cmd (Unit {0})
unfolding operand increase_ip_by
load_local env = do
  bp ← get (λ m. m.base_pointer)
  i1 ← operand 1
  value ← read_slot (add_int bp i1)
  stack_push env value
  increase_ip_by 1

pub store_local : Cmd (Unit {0})
unfolding operand increase_ip_by
store_local = do
  bp ← get (λ m. m.base_pointer)
  i1 ← operand 1
  value ← stack_pop
  write_slot (add_int bp i1) value
  increase_ip_by 1

-- `load_constant` and `load_native`
unfoldable pub load_constant : Env → Cmd (Unit {0})
unfolding operand increase_ip_by
load_constant env = do
  i1 ← operand 1
  value ← (λ m. or_crash (get_elem? m.constants i1) m)
  stack_push env value
  increase_ip_by 1

pub load_global : Env → Cmd (Unit {0})
unfolding operand increase_ip_by
load_global env = do i1 ← operand 1; value ← read_slot i1; stack_push env value; increase_ip_by 1

pub store_global : Cmd (Unit {0})
unfolding operand increase_ip_by
store_global = do value ← stack_pop; i1 ← operand 1; write_slot i1 value; increase_ip_by 1

-- back to the caller's stack and base, with the result on top
pub leave : Env → Frame → ℕ → Cmd (Unit {0})
leave env fr ret = do
  modify (λ m. record (set_pointer fr.stack_pointer m) { base_pointer = fr.base_ptr })
  stack_push env ret
  modify (λ m. record m { pc = fr.instruction_pointer })

-- The result goes on: `some` if the interpreter itself returns it.
pub return_op : Env → Bool → ℕ → Cmd (Option ℕ)
unfolding leave
return_op env does_return callstack = do
  fr ← pop_frame
  ret ← stack_pop
  leave env fr ret
  depth ← get (λ m. m.callstack)
  pure (if does_return then (if callstack == depth then some ret else none) else none)

pub compare_op : Env → Cmd (Unit {0})
unfolding operand increase_ip_by
compare_op env = do
  a ← stack_pop
  b ← stack_pop
  i1 ← operand 1
  f ← or_crash (comparison_table env i1)
  r ← f b a
  stack_push env r
  increase_ip_by 1

-- `list_ptr[i]` behind the bounds check
pub element : ℕ → ℕ → Cmd ℕ
element list i = do
  o ← object_at list
  assert (ltb i o.size) index_out_of_bounds
  xs ← or_crash (array_of o.payload)
  or_crash (get_elem? xs i)

pub list_get : Env → Cmd (Unit {0})
unfolding operand increase_ip_by element
list_get env = do
  list ← stack_pop
  i1 ← operand 1
  assert_type list type_list
  v ← element list i1
  stack_push env v
  increase_ip_by 1

pub get_index : Env → Cmd (Unit {0})
unfolding increase_ip_by element
get_index env = do
  index ← stack_pop
  list ← stack_pop
  assert_type list type_list
  assert_type index type_integer
  v ← element list (get_int index)
  stack_push env v
  increase_ip_by 1

pub call : Env → Cmd (Unit {0})
unfolding operand
call env = do
  callee ← stack_pop
  assert (is_fun callee || is_ptr callee) invalid_callee
  i1 ← operand 1
  if is_fun callee then op_call env callee i1 else op_native_call env callee i1

pub jump_if_false : Cmd (Unit {0})
unfolding operand increase_ip_by
jump_if_false = do
  value ← stack_pop
  i1 ← operand 1
  increase_ip_by (if get_int value == 0 then i1 else 1)

unfoldable pub jump_rel : Cmd (Unit {0})
unfolding operand increase_ip_by
jump_rel = do i1 ← operand 1; increase_ip_by i1

-- a closure over nothing, kept in a global slot, and a jump over its body
pub make_function_and_store : Cmd (Unit {0})
unfolding operand increase_ip_by
make_function_and_store = do
  pc ← get (λ m. m.pc)
  i1 ← operand 1
  i2 ← operand 2
  i3 ← operand 3
  write_slot i1 (make_function (add_int pc 5) i3)
  increase_ip_by (add_int i2 1)
