-- ===== src/Call/Keeps.antt =====
-- Calls keep the program and the actors, if the natives do: runtime/src/call.c.
use bonzai.Base.{Bool, ℕ, zero, suc, refl, Option, none, some, List}
use bonzai.Vm.{Module, modify}
use bonzai.Vm.Memory.{Env}
use bonzai.Vm.Keeps.{
  Keeps-others, Respects, Respects-bind, Respects-pure, Respects-fail, Respects-modify,
  access_rules,
}
use bonzai.Stack.Keeps.{stack_rules, stack_pop-Respects}
use bonzai.Alloc.Keeps.{alloc_rules}
use bonzai.Call.{enter, op_call, pop_args, call_handler, op_native_call, pop_frame}

-- What a library's function may not do: change the program, or take an actor's event or messages; a
-- quiet one adds no message either.
abbrev pub NativesRespect : Bool → Env → Type 0
NativesRespect quiet env =
    (addr : ℕ) (args : List ℕ) (argc : ℕ) → Respects quiet (env.native addr args argc)

-- A change of the registers only.
pub registers :
    {quiet : Bool}
    → (bp cs pc : Module → ℕ)
    → Respects quiet (modify (λ m. record m { base_pointer = bp m; callstack = cs m; pc = pc m }))
registers bp cs pc = Respects-modify _ (λ m. Keeps-others m _ refl refl refl refl refl refl refl)

pub set_pc :
    {quiet : Bool} → (pc : Module → ℕ) → Respects quiet (modify (λ m. record m { pc = pc m }))
set_pc pc = Respects-modify _ (λ m. Keeps-others m _ refl refl refl refl refl refl refl)

pub set_depth :
    {quiet : Bool}
    → (cs : Module → ℕ) → Respects quiet (modify (λ m. record m { callstack = cs m }))
set_depth cs = Respects-modify _ (λ m. Keeps-others m _ refl refl refl refl refl refl refl)

pub ruleset frame_rules = (access_rules, stack_rules, alloc_rules, registers, set_pc, set_depth)

enter-Respects :
    {quiet : Bool} → (env : Env) (ipc old_sp : ℕ) → Respects quiet (enter env ipc old_sp)
unfolding enter
enter-Respects env ipc old_sp = search frame_rules depth 20

pub op_call-Respects :
    {quiet : Bool} → (env : Env) (callee argc : ℕ) → Respects quiet (op_call env callee argc)
unfolding op_call
op_call-Respects env callee argc = search (frame_rules, enter-Respects) depth 20

pub pop_args-Respects : {quiet : Bool} → (n : ℕ) → Respects quiet (pop_args n)
unfolding pop_args
pop_args-Respects zero = Respects-pure _
pop_args-Respects (suc n) =
    Respects-bind _ _ stack_pop-Respects
      λ v. Respects-bind _ _ (pop_args-Respects n) λ vs. Respects-pure _

call_handler-Respects :
    {quiet : Bool}
    → (env : Env) (o : Option ℕ) (args : List ℕ) (argc : ℕ) → NativesRespect quiet env
    → Respects quiet (call_handler env o args argc)
unfolding call_handler
call_handler-Respects env none args argc h = Respects-fail _
call_handler-Respects env (some handler) args argc h = h handler args argc

pub op_native_call-Respects :
    {quiet : Bool}
    → (env : Env) (callee argc : ℕ) → NativesRespect quiet env
    → Respects quiet (op_native_call env callee argc)
unfolding op_native_call
op_native_call-Respects env callee argc h =
    search (frame_rules, pop_args-Respects, call_handler-Respects) depth 20

pub pop_frame-Respects : {quiet : Bool} → Respects quiet pop_frame
unfolding pop_frame
pop_frame-Respects = search frame_rules depth 20
