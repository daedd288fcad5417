-- ===== src/Stack/Keeps.antt =====
-- The value stack of runtime/src/value.c keeps the program and the actors.
use bonzai.Base.{Bool, ℕ, ◌*◌, ◌%◌, ◌^◌, refl, Option, none, some, ltb, set, length, if◌then◌else◌}
use bonzai.Vm.{Module, ok, throw, modify, or_crash, failed_to_allocate_stack}
use bonzai.Vm.Memory.{Env}
use bonzai.Vm.Keeps.{
  Keeps, Keeps-others, Respects, Ends, returns, crashes, throws, Respects-read, Respects-modify,
  keeps_rules,
}
use bonzai.Stack.{set_pointer, read_slot, write_slot, grow, stack_push, stack_pop}

pub read_slot-Respects : {quiet : Bool} → (i : ℕ) → Respects quiet (read_slot i)
unfolding read_slot
read_slot-Respects i = Respects-read _

pub write_slot-Respects : {quiet : Bool} → (i v : ℕ) → Respects quiet (write_slot i v)
unfolding write_slot
write_slot-Respects i v = record {
  at = λ m. go m (if ltb i (length m.stack.values) then some tt else none);
}
  where
    go :
        {quiet : Bool}
        → (m : Module) (o : Option (Unit {0}))
        → Ends quiet m
            (or_crash o (record m { stack = record m.stack { values = set m.stack.values i v } }))
    go m none = crashes
    go m (some u) = returns (Keeps-others m _ refl refl refl refl refl refl refl)

pub set_pointer-Respects :
    {quiet : Bool} → (f : Module → ℕ) → Respects quiet (λ m. ok tt (set_pointer (f m) m))
set_pointer-Respects f = record {
  at = λ m. returns (Keeps-others m _ refl refl refl refl refl refl refl);
}

pub modify_pointer-Respects : {quiet : Bool} → (sp : ℕ) → Respects quiet (modify (set_pointer sp))
modify_pointer-Respects sp =
    Respects-modify _ (λ m. Keeps-others m _ refl refl refl refl refl refl refl)

grow-Respects : {quiet : Bool} → (env : Env) → Respects quiet (grow env)
unfolding grow
grow-Respects {quiet = quiet} env = record {
  at = λ m.
      elim (env.realloc m.stack.values (m.stack.stack_capacity * 2 % 2 ^ 32))
        as (λ o. Ends quiet {A = Unit {0}} m (elim o [
          | none ↦ throw failed_to_allocate_stack
          | some values ↦ ok tt (record m {
            stack = record m.stack {
              values = values;
              stack_capacity = m.stack.stack_capacity * 2 % 2 ^ 32;
            };
          })
        ])) [
          | none ↦ throws
          | some values ↦ returns (Keeps-others m _ refl refl refl refl refl refl refl)
        ];
}

pub stack_push-Respects : {quiet : Bool} → (env : Env) (v : ℕ) → Respects quiet (stack_push env v)
unfolding stack_push
stack_push-Respects env v =
    search (keeps_rules, grow-Respects, write_slot-Respects, modify_pointer-Respects)

pub stack_pop-Respects : {quiet : Bool} → Respects quiet stack_pop
unfolding stack_pop
stack_pop-Respects = search (keeps_rules, read_slot-Respects, modify_pointer-Respects)

pub ruleset stack_rules = (
  keeps_rules, stack_push-Respects, stack_pop-Respects, read_slot-Respects, write_slot-Respects,
  modify_pointer-Respects,
)
