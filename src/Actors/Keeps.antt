-- ===== src/Actors/Keeps.antt =====
-- Calls of handlers, runtime/src/threading.c, keep the program and the actors.
use bonzai.Base.{Bool, ℕ, zero, suc, refl, List, get_elem?}
use bonzai.Vm.{Module, modify}
use bonzai.Vm.Memory.{Env}
use bonzai.Vm.Keeps.{
  Keeps-others, Respects, Respects-bind, Respects-pure, Respects-or_crash, Respects-modify,
}
use bonzai.Stack.{set_pointer}
use bonzai.Stack.Keeps.{stack_push-Respects}
use bonzai.Call.Keeps.{frame_rules}
use bonzai.Actors.{push_args, push_zeros, prepare}
use bonzai.Word.{make_integer}

push_args-Respects :
    {quiet : Bool} → (env : Env) (n : ℕ) (argv : List ℕ) → Respects quiet (push_args env n argv)
unfolding push_args
push_args-Respects env zero argv = Respects-pure _
push_args-Respects env (suc n) argv =
    Respects-bind _ _ (Respects-or_crash (get_elem? argv n))
      λ v. Respects-bind _ _ (stack_push-Respects env v) λ u. push_args-Respects env n argv

push_zeros-Respects : {quiet : Bool} → (env : Env) (n : ℕ) → Respects quiet (push_zeros env n)
unfolding push_zeros
push_zeros-Respects env zero = Respects-pure _
push_zeros-Respects env (suc n) =
    Respects-bind _ _ (stack_push-Respects env (make_integer 0)) λ u. push_zeros-Respects env n

move_pointer :
    {quiet : Bool} → (f : Module → ℕ) → Respects quiet (modify (λ n. set_pointer (f n) n))
move_pointer f = Respects-modify _ (λ m. Keeps-others m _ refl refl refl refl refl refl refl)

pub prepare-Respects :
    {quiet : Bool}
    → (env : Env) (callee argc : ℕ) (argv : List ℕ) → Respects quiet (prepare env callee argc argv)
unfolding prepare
prepare-Respects env callee argc argv =
    search (frame_rules, push_args-Respects, push_zeros-Respects, move_pointer) depth 20
