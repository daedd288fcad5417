-- ===== src/Interpreter/Keeps.antt =====
-- Every instruction of runtime/src/interpreter.c that handles values keeps the program and the
-- actors, if the natives do.
use bonzai.Base.{ℕ, refl, Bool, get_elem?}
use bonzai.Vm.{Frame, modify, or_crash}
use bonzai.Vm.Memory.{Env}
use bonzai.Vm.Keeps.{Keeps-others, Respects, Respects-read, Respects-modify}
use bonzai.Stack.{set_pointer}
use bonzai.Compare.Keeps.{compare_with-Respects}
use bonzai.Call.Keeps.{
  NativesRespect, frame_rules, op_call-Respects, op_native_call-Respects, pop_frame-Respects,
}
use bonzai.Interpreter.{
  operand, increase_ip_by, load_local, store_local, load_constant, load_global, store_global, leave,
  return_op, compare_op, element, list_get, get_index, call, jump_if_false, jump_rel,
  make_function_and_store,
}

pub operand-Respects : {quiet : Bool} → (k : ℕ) → Respects quiet (operand k)
unfolding operand
operand-Respects k = Respects-read _

pub constant-Respects :
    {quiet : Bool} → (i : ℕ) → Respects quiet (λ m. or_crash (get_elem? m.constants i) m)
constant-Respects i = Respects-read (λ m. get_elem? m.constants i)

pub increase_ip_by-Respects : {quiet : Bool} → (x : ℕ) → Respects quiet (increase_ip_by x)
unfolding increase_ip_by
increase_ip_by-Respects x =
    Respects-modify _ (λ m. Keeps-others m _ refl refl refl refl refl refl refl)

pub ruleset code_rules =
    (frame_rules, operand-Respects, constant-Respects, increase_ip_by-Respects, pop_frame-Respects)

pub load_local-Respects : {quiet : Bool} → (env : Env) → Respects quiet (load_local env)
unfolding load_local
load_local-Respects env = search code_rules depth 20

pub store_local-Respects : {quiet : Bool} → Respects quiet store_local
unfolding store_local
store_local-Respects = search code_rules depth 20

pub load_constant-Respects : {quiet : Bool} → (env : Env) → Respects quiet (load_constant env)
unfolding load_constant
load_constant-Respects env = search code_rules depth 20

pub load_global-Respects : {quiet : Bool} → (env : Env) → Respects quiet (load_global env)
unfolding load_global
load_global-Respects env = search code_rules depth 20

pub store_global-Respects : {quiet : Bool} → Respects quiet store_global
unfolding store_global
store_global-Respects = search code_rules depth 20

back :
    {quiet : Bool}
    → (sp bp : ℕ) → Respects quiet (modify (λ m. record (set_pointer sp m) { base_pointer = bp }))
back sp bp = Respects-modify _ (λ m. Keeps-others m _ refl refl refl refl refl refl refl)

leave-Respects :
    {quiet : Bool} → (env : Env) (fr : Frame) (ret : ℕ) → Respects quiet (leave env fr ret)
unfolding leave
leave-Respects env fr ret = search (code_rules, back) depth 20

pub return_op-Respects :
    {quiet : Bool} → (env : Env) (r : Bool) (depth : ℕ) → Respects quiet (return_op env r depth)
unfolding return_op
return_op-Respects env r depth = search (code_rules, leave-Respects) depth 20

pub compare_op-Respects : {quiet : Bool} → (env : Env) → Respects quiet (compare_op env)
unfolding compare_op
compare_op-Respects env = search (code_rules, compare_with-Respects) depth 20

element-Respects : {quiet : Bool} → (list i : ℕ) → Respects quiet (element list i)
unfolding element
element-Respects list i = search code_rules depth 20

pub list_get-Respects : {quiet : Bool} → (env : Env) → Respects quiet (list_get env)
unfolding list_get
list_get-Respects env = search (code_rules, element-Respects) depth 20

pub get_index-Respects : {quiet : Bool} → (env : Env) → Respects quiet (get_index env)
unfolding get_index
get_index-Respects env = search (code_rules, element-Respects) depth 20

pub call-Respects :
    {quiet : Bool} → (env : Env) → NativesRespect quiet env → Respects quiet (call env)
unfolding call
call-Respects env h = search (code_rules, op_call-Respects, op_native_call-Respects) depth 20

pub jump_if_false-Respects : {quiet : Bool} → Respects quiet jump_if_false
unfolding jump_if_false
jump_if_false-Respects = search code_rules depth 20

pub jump_rel-Respects : {quiet : Bool} → Respects quiet jump_rel
unfolding jump_rel
jump_rel-Respects = search code_rules depth 20

pub make_function_and_store-Respects : {quiet : Bool} → Respects quiet make_function_and_store
unfolding make_function_and_store
make_function_and_store-Respects = search code_rules depth 20
