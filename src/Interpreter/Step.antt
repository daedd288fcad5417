-- ===== src/Interpreter/Step.antt =====
-- The dispatch of `run_interpreter`: the jump table, and the loop that follows it.
pub mod Run
pub mod Sent
use bonzai.Base.{ℕ, zero, suc, Bool, Option, none, some, ◌==◌, if◌then◌else◌}
use bonzai.Vm.{Cmd, crash, pure, fail, modify, ◌>>=◌, ◌>>◌, unknown_opcode}
use bonzai.Vm.Memory.{Env}
use bonzai.Interpreter.{
  operand, load_local, store_local, load_constant, load_global, store_global, return_op, compare_op,
  list_get, get_index, call, jump_if_false, jump_rel, make_function_and_store,
}
use bonzai.Interpreter.Objects.{
  update_op, make_list_op, make_mutable_op, spawn, event_on, send_op, make_event_op, return_event,
  loc, halt,
}

-- The opcodes, in the order of the jump table.
pub data Opcode : Type 0 where
  op_load_local op_store_local op_load_constant op_load_global : Opcode
  op_store_global op_return op_compare op_update : Opcode
  op_make_list op_list_get op_call op_call_global : Opcode
  op_call_local op_jump_if_false op_jump_rel op_get_index : Opcode
  op_special op_halt op_spawn op_event_on : Opcode
  op_send op_make_function_and_store op_load_native op_make_event : Opcode
  op_return_event op_make_mutable op_loc op_unknown : Opcode

-- `jmp_table[op]`; beyond the table there is nothing to jump to.
pub jmp_table : ℕ → Option Opcode
jmp_table n =
    if n == 0
    then some op_load_local
    else if n == 1
    then some op_store_local
    else if n == 2
    then some op_load_constant
    else if n == 3
    then some op_load_global
    else if n == 4
    then some op_store_global
    else if n == 5
    then some op_return
    else if n == 6
    then some op_compare
    else if n == 7
    then some op_update
    else if n == 8
    then some op_make_list
    else if n == 9
    then some op_list_get
    else if n == 10
    then some op_call
    else if n == 11
    then some op_call_global
    else if n == 12
    then some op_call_local
    else if n == 13
    then some op_jump_if_false
    else if n == 14
    then some op_jump_rel
    else if n == 15
    then some op_get_index
    else if n == 16
    then some op_special
    else if n == 17
    then some op_halt
    else if n == 18
    then some op_spawn
    else if n == 19
    then some op_event_on
    else if n == 20
    then some op_send
    else if n == 21
    then some op_make_function_and_store
    else if n == 22
    then some op_load_native
    else if n == 23
    then some op_make_event
    else if n == 24
    then some op_return_event
    else if n == 25
    then some op_make_mutable
    else if n == 26
    then some op_loc
    else if n == 27
    then some op_unknown
    else none

abbrev go_on : Cmd (Unit {0}) → Cmd (Option ℕ)
go_on c = c >> pure none

-- One instruction; `some` when `run_interpreter` returns. The empty cases fall through to the next.
pub execute : Env → Bool → ℕ → Opcode → Cmd (Option ℕ)
execute env does_return depth op_load_local = go_on (load_local env)
execute env does_return depth op_store_local = go_on store_local
execute env does_return depth op_load_constant = go_on (load_constant env)
execute env does_return depth op_load_global = go_on (load_global env)
execute env does_return depth op_store_global = go_on store_global
execute env does_return depth op_return = return_op env does_return depth
execute env does_return depth op_compare = go_on (compare_op env)
execute env does_return depth op_update = go_on update_op
execute env does_return depth op_make_list = go_on (make_list_op env)
execute env does_return depth op_list_get = go_on (list_get env)
execute env does_return depth op_call = go_on (call env)
execute env does_return depth op_call_global = go_on jump_if_false
execute env does_return depth op_call_local = go_on jump_if_false
execute env does_return depth op_jump_if_false = go_on jump_if_false
execute env does_return depth op_jump_rel = go_on jump_rel
execute env does_return depth op_get_index = go_on (get_index env)
execute env does_return depth op_special = halt >>= λ v. pure (some v)
execute env does_return depth op_halt = halt >>= λ v. pure (some v)
execute env does_return depth op_spawn = go_on (spawn env)
execute env does_return depth op_event_on = go_on (event_on env)
execute env does_return depth op_send = go_on send_op
execute env does_return depth op_make_function_and_store = go_on make_function_and_store
execute env does_return depth op_load_native = go_on (load_constant env)
execute env does_return depth op_make_event = go_on (make_event_op env)
execute env does_return depth op_return_event = go_on (return_event env)
execute env does_return depth op_make_mutable = go_on (make_mutable_op env)
execute env does_return depth op_loc = go_on loc
execute env does_return depth op_unknown = fail unknown_opcode

pub dispatch : Env → Bool → ℕ → Option Opcode → Cmd (Option ℕ)
unfolding execute
dispatch env does_return depth none = λ _. crash
dispatch env does_return depth (some o) = execute env does_return depth o

unfoldable pub step : Env → Bool → ℕ → Cmd (Option ℕ)
unfolding dispatch jmp_table
step env does_return depth = do n ← operand 0; dispatch env does_return depth (jmp_table n)

-- The loop, for at most `fuel` instructions; `none` is a run that has not ended by then.
pub run_loop : Env → Bool → ℕ → ℕ → Cmd (Option ℕ)
unfolding step
run_loop env does_return depth zero = pure none
run_loop env does_return depth (suc fuel) =
    step env does_return depth
    >>= elim [ none ↦ run_loop env does_return depth fuel | some v ↦ pure (some v) ]

unfoldable pub run_interpreter : Env → ℕ → ℕ → Bool → ℕ → Cmd (Option ℕ)
unfolding run_loop
run_interpreter env fuel ipc does_return callstack =
    modify (λ m. record m { pc = ipc }) >> run_loop env does_return callstack fuel
