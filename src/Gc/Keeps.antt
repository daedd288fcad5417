-- ===== src/Gc/Keeps.antt =====
-- The collector of runtime/src/value.c keeps the program and the actors.
use bonzai.Base.{Bool, suc, refl, Option, none, some}
use mathlib.Core.Option
use bonzai.Vm.{Module, Heap, Run, pure, and_then, or_crash}
use bonzai.Vm.Memory.{Env}
use bonzai.Vm.Keeps.{Keeps-others, Respects, Ends, returns, crashes}
use bonzai.Gc.{
  Pool, gc, collect, set_threshold, with_pool, option_then, mark_all, sweep_loop, pool_of, head,
}

finish : Module → Option Module → Run (Unit {0})
finish m o = and_then (or_crash o m) (λ m'. λ _. pure tt m')

swept :
    {quiet : Bool}
    → (m : Module) (o : Option Pool)
    → Ends quiet m (finish m (Option.map (λ s. set_threshold (with_pool s m)) o))
unfolding finish
swept m none = crashes
swept m (some s) = returns (Keeps-others m _ refl refl refl refl refl refl refl)

marked :
    {quiet : Bool}
    → (env : Env) (m : Module) (o : Option Heap)
    → Ends quiet m (
        finish m (
          option_then o λ h.
            Option.map
              (λ s. set_threshold (with_pool s m))
              (sweep_loop env (suc m.num_objects) head (pool_of (record m { heap = h })))))
unfolding finish
marked env m none = crashes
marked env m (some h) =
    swept m (sweep_loop env (suc m.num_objects) head (pool_of (record m { heap = h })))

pub gc-Respects : {quiet : Bool} → (env : Env) → Respects quiet (gc env)
unfolding gc collect finish
gc-Respects env = record { at = λ m. marked env m (mark_all env.c_stack m) }
