-- ===== src/Alloc/Keeps.antt =====
-- Allocation, runtime/src/value.c, keeps the program and the actors.
use bonzai.Base.{Bool, ℕ, suc, refl, Option, none, some, List, ◌==◌, if◌then◌else◌}
use bonzai.Vm.{ValueType, HeapValue, Heap, and_then, Payload, Module, or_crash, modify, update}
use bonzai.Vm.Memory.{Env, load}
use bonzai.Vm.Keeps.{
  Keeps, Keeps-others, Respects, Ends, returns, crashes, Respects-read, Respects-modify,
  keeps_rules,
}
use bonzai.Gc.Keeps.{gc-Respects}
use bonzai.Alloc.{
  force_sweep_loop, force_sweep, allocate_object, allocate, fill, make_string, make_list,
  make_mutable, make_event, make_event_frame, make_frame, make_event_on,
}

placed :
    {quiet : Bool} → (m n : Module) (o : Option ℕ) → Keeps quiet m n → Ends quiet m (or_crash o n)
placed m n none k = crashes
placed m n (some p) k = returns k

allocate_object-Respects :
    {quiet : Bool} → (env : Env) (t : ValueType) → Respects quiet (allocate_object env t)
unfolding allocate_object
allocate_object-Respects env t = record {
  at = λ m.
      placed m _ (if env.malloc m.heap == 0 then none else some (env.malloc m.heap))
        (Keeps-others m _ refl refl refl refl refl refl refl);
}

pub allocate-Respects :
    {quiet : Bool} → (env : Env) (t : ValueType) → Respects quiet (allocate env t)
unfolding allocate
allocate-Respects env t = search (keeps_rules, gc-Respects, allocate_object-Respects)

pub load-Respects : {quiet : Bool} → (p : ℕ) → Respects quiet (λ m. or_crash (load m.heap p) m)
load-Respects p = Respects-read (λ m. load m.heap p)

pub store-Respects :
    {quiet : Bool}
    → (p : ℕ) (o : HeapValue)
    → Respects quiet (modify (λ m. record m { heap = update m.heap p (some o) }))
store-Respects p o = Respects-modify _ (λ m. Keeps-others m _ refl refl refl refl refl refl refl)

fill-Respects : {quiet : Bool} → (p n : ℕ) (x : Payload) → Respects quiet (fill p n x)
unfolding fill
fill-Respects p n x = search (keeps_rules, load-Respects, store-Respects)

ruleset making = (keeps_rules, allocate-Respects, fill-Respects)

pub make_string-Respects :
    {quiet : Bool} → (env : Env) (x : List ℕ) → Respects quiet (make_string env x)
unfolding make_string
make_string-Respects env x = search making

pub make_list-Respects :
    {quiet : Bool} → (env : Env) (x : List ℕ) (len : ℕ) → Respects quiet (make_list env x len)
unfolding make_list
make_list-Respects env x len = search making

pub make_mutable-Respects :
    {quiet : Bool} → (env : Env) (x : ℕ) → Respects quiet (make_mutable env x)
unfolding make_mutable
make_mutable-Respects env x = search making

pub make_event-Respects :
    {quiet : Bool} → (env : Env) (n ipc : ℕ) → Respects quiet (make_event env n ipc)
unfolding make_event
make_event-Respects env n ipc = search making

pub make_event_frame-Respects :
    {quiet : Bool}
    → (env : Env) (ip sp bp n ipc : ℕ) → Respects quiet (make_event_frame env ip sp bp n ipc)
unfolding make_event_frame
make_event_frame-Respects env ip sp bp n ipc = search making

pub make_frame-Respects :
    {quiet : Bool} → (env : Env) (ip sp bp : ℕ) → Respects quiet (make_frame env ip sp bp)
unfolding make_frame
make_frame-Respects env ip sp bp = search making

pub make_event_on-Respects :
    {quiet : Bool} → (env : Env) (id func : ℕ) → Respects quiet (make_event_on env id func)
unfolding make_event_on
make_event_on-Respects env id func = search making

pub ruleset alloc_rules = (
  make_string-Respects, make_list-Respects, make_mutable-Respects, make_event-Respects,
  make_event_frame-Respects, make_frame-Respects, make_event_on-Respects, allocate-Respects,
)

swept :
    {quiet : Bool}
    → (m : Module) (o : Option Heap)
    → Ends quiet m (
        and_then
          (or_crash o m)
          (λ h. modify (λ n. record n { heap = h; first_object = 0; num_objects = 0 })))
swept m none = crashes
swept m (some h) = returns (Keeps-others m _ refl refl refl refl refl refl refl)

pub force_sweep-Respects : {quiet : Bool} → Respects quiet force_sweep
unfolding force_sweep
force_sweep-Respects = record {
  at = λ m. swept m (force_sweep_loop (suc m.num_objects) m.first_object m.heap);
}
