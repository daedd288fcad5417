-- ===== src/Stack/Laws.antt =====
-- `stack_push` and `stack_pop` of runtime/src/value.c on a valid stack, with room and without.
use bonzai.Base.{
  ℕ, suc, ◌*◌, ◌^◌, ◌≤◌, ◌<◌, ◌≡◌, refl, ◌⊎◌, inl, inr, none, some, List, arith, get_elem?, ◌∙◌,
  sym, subst, set, length, length-set, get_elem?-set_self, get_elem?-set_ne, Option-cases,
}
use native.Mathlib.Decide.{dec_lt}
use bonzai.Vm.{Module, Stack, ok, throw, stack_underflow, failed_to_allocate_stack}
use bonzai.Vm.Memory.{Env}
use bonzai.Stack.{stack_push, stack_pop, set_pointer, read_slot}

-- The array has the capacity that the stack notes, and the pointer lies inside it or at its end.
pub record IsValid (s : Stack) : Type 0 where
  pub sized : length s.values ≡ s.stack_capacity
  pub within : s.stack_pointer ≤ s.stack_capacity
  pub some_room : 0 < s.stack_capacity
  pub small : s.stack_capacity ≤ 2 ^ 29

-- What C says of `realloc`: a larger block begins with the old contents.
abbrev pub Realloc : Env → Type 0
Realloc env =
    (xs : List ℕ) (n : ℕ) (ys : List ℕ)
    → length xs ≤ n
    → env.realloc xs n ≡ some ys
    → (length ys ≡ n) × ((i : ℕ) → i < length xs → get_elem? ys i ≡ get_elem? xs i)

-- The state after a push of `v`.
pub record Pushed (v : ℕ) (m m' : Module) : Type 0 where
  pub pointer : m'.stack.stack_pointer ≡ suc m.stack.stack_pointer
  pub top : get_elem? m'.stack.values m.stack.stack_pointer ≡ some v
  pub below :
      (i : ℕ) → i < m.stack.stack_pointer → get_elem? m'.stack.values i ≡ get_elem? m.stack.values i
  pub sized : length m'.stack.values ≡ m'.stack.stack_capacity
  pub room : m'.stack.stack_pointer ≤ m'.stack.stack_capacity
  pub heap : m'.heap ≡ m.heap
  pub pc : m'.pc ≡ m.pc
  pub base : m'.base_pointer ≡ m.base_pointer
  pub depth : m'.callstack ≡ m.callstack

pub push_room :
    (env : Env) (v : ℕ) (m : Module)
    → IsValid m.stack
    → m.stack.stack_pointer < m.stack.stack_capacity
    → (m' : Module) × (stack_push env v m ≡ ok tt m') × Pushed v m m'
unfolding stack_push
push_room env v m h room = (
  record m {
    stack = record m.stack {
      values = set m.stack.values m.stack.stack_pointer v;
      stack_pointer = suc m.stack.stack_pointer;
    };
  },
  ground arith,
  record {
    pointer = refl;
    top = get_elem?-set_self m.stack.values m.stack.stack_pointer v (omega arith);
    below = λ i lt. get_elem?-set_ne m.stack.values v (omega arith);
    sized = ground (arith, length-set m.stack.values m.stack.stack_pointer v);
    room = omega arith;
    heap = refl;
    pc = refl;
    base = refl;
    depth = refl;
  },
)

push_full :
    (env : Env) (v : ℕ) (m : Module)
    → Realloc env
    → IsValid m.stack
    → m.stack.stack_pointer ≡ m.stack.stack_capacity
    → (ys : List ℕ) → env.realloc m.stack.values (m.stack.stack_capacity * 2) ≡ some ys
    → (m' : Module) × (stack_push env v m ≡ ok tt m') × Pushed v m m'
unfolding stack_push
push_full env v m law h full ys e =
    let (size, kept) = law m.stack.values (m.stack.stack_capacity * 2) ys (omega arith) e in
    (
      record m {
        stack = record {
          values = set ys m.stack.stack_pointer v;
          stack_pointer = suc m.stack.stack_pointer;
          stack_capacity = m.stack.stack_capacity * 2;
        };
      },
      ground arith,
      record {
        pointer = refl;
        top = get_elem?-set_self ys m.stack.stack_pointer v (omega arith);
        below = λ i lt. get_elem?-set_ne ys v (omega arith) ∙ kept i (omega arith);
        sized = ground (arith, length-set ys m.stack.stack_pointer v);
        room = omega arith;
        heap = refl;
        pc = refl;
        base = refl;
        depth = refl;
      },
    )

pub read_slot-ok :
    (i : ℕ) (m : Module) {v : ℕ} → get_elem? m.stack.values i ≡ some v → read_slot i m ≡ ok v m
unfolding read_slot
read_slot-ok i m e = rw e refl

pub same_state : {a b : Unit {0}} {m n : Module} → ok a m ≡ ok b n → m ≡ n
same_state e = cc

-- If `realloc` keeps the old contents, a push on a valid stack returns with the value on top,
-- everything below unmoved and the pointer inside the array; it fails only if the array is full
-- and `realloc` has no memory.
pub stack_push_lem :
    (env : Env) (v : ℕ) (m : Module)
    → Realloc env
    → IsValid m.stack
    → ((m' : Module) × (stack_push env v m ≡ ok tt m') × Pushed v m m')
      ⊎ (stack_push env v m ≡ throw failed_to_allocate_stack)
        × (m.stack.stack_pointer ≡ m.stack.stack_capacity)
        × (env.realloc m.stack.values (m.stack.stack_capacity * 2) ≡ none)
unfolding stack_push
stack_push_lem env v m law h = elim (dec_lt m.stack.stack_pointer m.stack.stack_capacity) [
  | yes room ↦ inl (push_room env v m h room)
  | no full ↦ elim (Option-cases (env.realloc m.stack.values (m.stack.stack_capacity * 2))) [
    | inl e ↦ inr (ground arith, omega arith, e)
    | inr (ys, e) ↦ inl (push_full env v m law h (omega arith) ys e)
  ]
]

pub Pushed-stack_push :
    (env : Env) (v : ℕ) (m m' : Module)
    → Realloc env
    → IsValid m.stack
    → stack_push env v m ≡ ok tt m'
    → Pushed v m m'
Pushed-stack_push env v m m' law h e = elim (stack_push_lem env v m law h) [
  | inl (n, returned, p) ↦ subst (Pushed v m) (same_state (sym returned ∙ e)) p
  | inr failed ↦ cc
]

-- A pop above the bottom of the array returns the top and moves nothing but the pointer.
pub stack_pop_lem :
    (v : ℕ) (m : Module) {sp : ℕ}
    → m.stack.stack_pointer ≡ suc sp
    → sp < 2 ^ 30
    → get_elem? m.stack.values sp ≡ some v
    → stack_pop m ≡ ok v (set_pointer sp m)
unfolding stack_pop
stack_pop_lem v m {sp} e small top = ground arith

-- If `realloc` keeps the old contents, what was pushed on a valid stack is popped, and the
-- pointer is back where it was.
pub pop-push :
    (env : Env) (v : ℕ) (m m' : Module)
    → Realloc env
    → IsValid m.stack
    → stack_push env v m ≡ ok tt m'
    → stack_pop m' ≡ ok v (set_pointer m.stack.stack_pointer m')
pop-push env v m m' law h e =
    let p = Pushed-stack_push env v m m' law h e in stack_pop_lem v m' p.pointer (omega arith) p.top

-- At the bottom of the array `stack_pop` ends the process.
pub stack_pop_empty : (m : Module) → m.stack.stack_pointer ≡ 0 → stack_pop m ≡ throw stack_underflow
unfolding stack_pop
stack_pop_empty m e = ground arith
