-- ===== src/Stack.antt =====
-- The value stack: `stack_new`, `stack_push`, `stack_pop` of runtime/src/value.c. An `int32_t` is
-- its pattern below 2 ^ 32, and a comparison of two is signed.
pub mod Laws
pub mod Keeps
use bonzai.Base.{
  ℕ, ◌+◌, ◌-◌, ◌*◌, ◌%◌, ◌^◌, Bool, none, some, List, ltb, if◌then◌else◌, get_elem?, set, length,
}
use bonzai.Vm.{
  Module, Stack, Cmd, pure, fail, get, modify, or_crash, ◌>>=◌, ◌>>◌, stack_underflow,
  failed_to_allocate_stack,
}
use bonzai.Vm.Memory.{Env}

abbrev pub globals_size : ℕ
globals_size = 1024

abbrev pub max_stack_size : ℕ
max_stack_size = globals_size * 32

-- `a < b` of two `int32_t`
abbrev pub lt_int : ℕ → ℕ → Bool
lt_int a b = ltb ((a + 2 ^ 31) % 2 ^ 32) ((b + 2 ^ 31) % 2 ^ 32)

-- `block` is the memory that `malloc` returned for the array, of `max_stack_size` words.
pub stack_new : List ℕ → Stack
stack_new block = record {
  values = block;
  stack_pointer = globals_size;
  stack_capacity = max_stack_size;
}

-- `values[i]`, and `values[i] = v`; outside the array there is nothing to read or to write.
pub read_slot : ℕ → Cmd ℕ
read_slot i m = or_crash (get_elem? m.stack.values i) m

pub write_slot : ℕ → ℕ → Cmd (Unit {0})
write_slot i v m =
    or_crash (if ltb i (length m.stack.values) then some tt else none)
      (record m { stack = record m.stack { values = set m.stack.values i v } })

abbrev pub set_pointer : ℕ → Module → Module
set_pointer sp m = record m { stack = record m.stack { stack_pointer = sp } }

grow : Env → Cmd (Unit {0})
grow env m =
    let capacity = m.stack.stack_capacity * 2 % 2 ^ 32 in
    elim (env.realloc m.stack.values capacity) [
      | none ↦ fail failed_to_allocate_stack m
      | some values ↦
          pure tt
            (record m { stack = record m.stack { values = values; stack_capacity = capacity } })
    ]

unfoldable pub stack_push : Env → ℕ → Cmd (Unit {0})
unfolding grow write_slot
stack_push env v = do
  s ← get (λ m. m.stack)
  if lt_int s.stack_pointer s.stack_capacity then pure tt else grow env
  write_slot s.stack_pointer v
  modify (set_pointer ((s.stack_pointer + 1) % 2 ^ 32))

pub stack_pop : Cmd ℕ
unfolding read_slot
stack_pop = do
  s ← get (λ m. m.stack)
  let below = (s.stack_pointer + (2 ^ 32 - 1)) % 2 ^ 32
  if lt_int 0 s.stack_pointer
      then modify (set_pointer below) >> read_slot below
      else fail stack_underflow
