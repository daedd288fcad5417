-- ===== src/Interpreter/Step/Run.antt =====
-- Runs of `run_interpreter`, runtime/src/interpreter.c: what every run leaves as it was, and what a
-- longer bound changes.
use bonzai.Base.{sym, false, refl, ap, ℕ, zero, suc, ◌≡◌, subst, Bool, Option, none, some}
use bonzai.Vm.{Module, Run, Cmd, ok, ◌>>=◌, ◌>>◌, pure}
use bonzai.Vm.Memory.{Env}
use bonzai.Vm.Keeps.{
  Keeps, Respects, Respects-bind, Respects-pure, Respects-crash, Respects-fail, Ends, returns,
  throws, crashes,
}
use bonzai.Call.Keeps.{NativesRespect, set_pc}
use bonzai.Interpreter.Keeps.{
  operand-Respects, load_local-Respects, store_local-Respects, load_constant-Respects,
  load_global-Respects, store_global-Respects, return_op-Respects, compare_op-Respects,
  list_get-Respects, get_index-Respects, call-Respects, jump_if_false-Respects, jump_rel-Respects,
  make_function_and_store-Respects,
}
use bonzai.Interpreter.Objects.Keeps.{
  update_op-Respects, make_list_op-Respects, make_mutable_op-Respects, spawn-Respects,
  event_on-Respects, send_op-Respects, make_event_op-Respects, return_event-Respects, loc-Respects,
  halt-Respects,
}
use bonzai.Interpreter.Objects.{halt, send_op}
use bonzai.Interpreter.Step.{
  Opcode, jmp_table, execute, dispatch, step, run_loop, run_interpreter, op_load_local,
  op_store_local, op_load_constant, op_load_global, op_store_global, op_return, op_compare,
  op_update, op_make_list, op_list_get, op_call, op_call_global, op_call_local, op_jump_if_false,
  op_jump_rel, op_get_index, op_special, op_halt, op_spawn, op_event_on, op_send,
  op_make_function_and_store, op_load_native, op_make_event, op_return_event, op_make_mutable,
  op_loc, op_unknown,
}

then_none :
    {quiet : Bool}
    → (c : Cmd (Unit {0})) → Respects quiet c
    → Respects quiet (c >> pure {A = Option ℕ} none)
then_none c h = Respects-bind c _ h (λ _. Respects-pure _)

halted : {quiet : Bool} → Respects quiet (halt >>= λ v. pure (some v))
halted = Respects-bind _ _ halt-Respects (λ v. Respects-pure _)

execute-Respects :
    {quiet : Bool}
    → (env : Env) (r : Bool) (depth : ℕ) (o : Opcode) → NativesRespect quiet env
    → (o ≡ op_send → quiet ≡ false)
    → Respects quiet (execute env r depth o)
unfolding execute
execute-Respects env r depth op_load_local h s = then_none _ (load_local-Respects env)
execute-Respects env r depth op_store_local h s = then_none _ store_local-Respects
execute-Respects env r depth op_load_constant h s = then_none _ (load_constant-Respects env)
execute-Respects env r depth op_load_global h s = then_none _ (load_global-Respects env)
execute-Respects env r depth op_store_global h s = then_none _ store_global-Respects
execute-Respects env r depth op_return h s = return_op-Respects env r depth
execute-Respects env r depth op_compare h s = then_none _ (compare_op-Respects env)
execute-Respects env r depth op_update h s = then_none _ update_op-Respects
execute-Respects env r depth op_make_list h s = then_none _ (make_list_op-Respects env)
execute-Respects env r depth op_list_get h s = then_none _ (list_get-Respects env)
execute-Respects env r depth op_call h s = then_none _ (call-Respects env h)
execute-Respects env r depth op_call_global h s = then_none _ jump_if_false-Respects
execute-Respects env r depth op_call_local h s = then_none _ jump_if_false-Respects
execute-Respects env r depth op_jump_if_false h s = then_none _ jump_if_false-Respects
execute-Respects env r depth op_jump_rel h s = then_none _ jump_rel-Respects
execute-Respects env r depth op_get_index h s = then_none _ (get_index-Respects env)
execute-Respects env r depth op_special h s = halted
execute-Respects env r depth op_halt h s = halted
execute-Respects env r depth op_spawn h s = then_none _ (spawn-Respects env)
execute-Respects env r depth op_event_on h s = then_none _ (event_on-Respects env)
execute-Respects env r depth op_send h s =
    then_none _ (subst (λ b. Respects b send_op) (sym (s refl)) send_op-Respects)
execute-Respects env r depth op_make_function_and_store h s =
    then_none _ make_function_and_store-Respects
execute-Respects env r depth op_load_native h s = then_none _ (load_constant-Respects env)
execute-Respects env r depth op_make_event h s = then_none _ (make_event_op-Respects env)
execute-Respects env r depth op_return_event h s = then_none _ (return_event-Respects env)
execute-Respects env r depth op_make_mutable h s = then_none _ (make_mutable_op-Respects env)
execute-Respects env r depth op_loc h s = then_none _ loc-Respects
execute-Respects env r depth op_unknown h s = Respects-fail _

pub dispatch-Respects :
    {quiet : Bool}
    → (env : Env) (r : Bool) (depth : ℕ) (o : Option Opcode) → NativesRespect quiet env
    → (o ≡ some op_send → quiet ≡ false)
    → Respects quiet (dispatch env r depth o)
unfolding dispatch
dispatch-Respects env r depth none h s = Respects-crash
dispatch-Respects env r depth (some o) h s = execute-Respects env r depth o h (λ e. s (ap some e))

pub step-Respects :
    (env : Env) (r : Bool) (depth : ℕ)
    → NativesRespect false env
    → Respects false (step env r depth)
unfolding step
step-Respects env r depth h =
    Respects-bind _ _ (operand-Respects 0)
      (λ n. dispatch-Respects env r depth (jmp_table n) h (λ e. refl))

go_on-Respects :
    (k : Cmd (Option ℕ)) (o : Option ℕ)
    → Respects false k
    → Respects false (elim o [ none ↦ k | some v ↦ pure (some v) ])
go_on-Respects k none h = h
go_on-Respects k (some v) h = Respects-pure _

pub run_loop-Respects :
    (env : Env) (r : Bool) (depth fuel : ℕ)
    → NativesRespect false env
    → Respects false (run_loop env r depth fuel)
unfolding run_loop
run_loop-Respects env r depth zero h = Respects-pure _
run_loop-Respects env r depth (suc fuel) h =
    Respects-bind _ _ (step-Respects env r depth h)
      λ o. go_on-Respects _ o (run_loop-Respects env r depth fuel h)

state_after : {A : Type 0} → Module → Run A → Module
state_after m (ok a n) = n
state_after m _ = m

pub kept :
    {quiet : Bool} {A : Type 0} {m n : Module} {r : Run A} {a : A}
    → Ends quiet m r
    → r ≡ ok a n
    → Keeps quiet m n
unfolding state_after
kept {quiet = quiet} {m = m} (returns k) e = subst (λ r. Keeps quiet m (state_after m r)) e k
kept throws e = cc
kept crashes e = cc

-- If the natives do so, a run of the interpreter of any length that returns keeps the
-- instructions, the constants, the libraries and the arguments, a halted module stays halted, and
-- every actor keeps its place, its event and its messages, with new ones only behind them.
pub run_interpreter-Keeps :
    (env : Env) (fuel ipc : ℕ) (does_return : Bool) (callstack : ℕ) (m n : Module) {v : Option ℕ}
    → NativesRespect false env
    → run_interpreter env fuel ipc does_return callstack m ≡ ok v n
    → Keeps false m n
unfolding run_interpreter
run_interpreter-Keeps env fuel ipc does_return callstack m n h e =
    kept
      ((Respects-bind _ _ (set_pc (λ m. ipc))
          (λ _. run_loop-Respects env does_return callstack fuel h)).at
        m)
      e
