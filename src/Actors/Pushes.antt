-- ===== src/Actors/Pushes.antt =====
-- The pushes of `call_threaded`, runtime/src/threading.c: the arguments of a message and the other
-- slots.
use bonzai.Base.{
  ℕ, zero, suc, ◌+◌, ◌≤◌, ◌<◌, ◌≡◌, refl, sym, ap, ◌∙◌, some, List, arith, get_elem?, get_elem?-lt,
  get_elem?-set_self, get_elem?-set_ne, length-set, set, length, subst,
}
use bonzai.Word.{make_integer}
use bonzai.Stack.{stack_push}
use bonzai.Stack.Laws.{IsValid}
use bonzai.Vm.{Module, Stack, ok}
use bonzai.Vm.Memory.{Env}
use bonzai.Actors.{push_args, push_zeros}

-- `n` is `m` with `k` more values on its stack.
pub record Grew (k : ℕ) (m n : Module) : Type 0 where
  pub same : n ≡ record m { stack = n.stack }
  pub pointer : n.stack.stack_pointer ≡ m.stack.stack_pointer + k
  pub capacity : n.stack.stack_capacity ≡ m.stack.stack_capacity
  pub valid : IsValid n.stack
  pub below :
      (i : ℕ) → i < m.stack.stack_pointer → get_elem? n.stack.values i ≡ get_elem? m.stack.values i

pub Grew-refl : (m : Module) → IsValid m.stack → Grew 0 m m
Grew-refl m v = record {
  same = refl;
  pointer = omega arith;
  capacity = refl;
  valid = v;
  below = λ i lt. refl;
}

abbrev with_stack : Stack → Module → Module
with_stack st m = record m { stack = st }

pub Grew-trans : {k l : ℕ} {m n o : Module} → Grew k m n → Grew l n o → Grew (k + l) m o
Grew-trans {m = m} {n = n} {o = o} p q = record {
  same = grown;
  pointer = omega (arith, p.pointer, q.pointer);
  capacity = q.capacity ∙ p.capacity;
  valid = q.valid;
  below = λ i lt. q.below i (omega (arith, p.pointer)) ∙ p.below i lt;
}
  where
    grown : o ≡ with_stack o.stack m
    grown = q.same ∙ ap (with_stack o.stack) p.same

pub push-Grew :
    (env : Env) (v : ℕ) (m : Module)
    → IsValid m.stack
    → m.stack.stack_pointer < m.stack.stack_capacity
    → (n : Module) × (stack_push env v m ≡ ok tt n)
      × Grew 1 m n
      × (get_elem? n.stack.values m.stack.stack_pointer ≡ some v)
unfolding stack_push
push-Grew env v m h room = (
  record m {
    stack = record m.stack {
      values = set m.stack.values m.stack.stack_pointer v;
      stack_pointer = suc m.stack.stack_pointer;
    };
  },
  ground (arith, h.sized, h.small),
  record {
    same = refl;
    pointer = omega arith;
    capacity = refl;
    valid = record {
      sized = length-set m.stack.values m.stack.stack_pointer v ∙ h.sized;
      within = omega arith;
      some_room = h.some_room;
      small = h.small;
    };
    below = λ i lt. get_elem?-set_ne m.stack.values v (λ e. omega arith);
  },
  get_elem?-set_self m.stack.values m.stack.stack_pointer v (omega (arith, h.sized)),
)

-- The arguments are on the stack, the last one of the array first.
pub record Placed (k : ℕ) (argv : List ℕ) (m n : Module) : Type 0 where
  pub grew : Grew k m n
  pub places :
      (i j : ℕ)
      → suc (i + j) ≡ k
      → get_elem? n.stack.values (m.stack.stack_pointer + j) ≡ get_elem? argv i

place-push :
    {k v : ℕ} (argv : List ℕ) {m n o : Module}
    → Grew 1 m n
    → get_elem? n.stack.values m.stack.stack_pointer ≡ some v
    → get_elem? argv k ≡ some v
    → Placed k argv n o
    → (i j : ℕ) → suc (i + j) ≡ suc k
    → get_elem? o.stack.values (m.stack.stack_pointer + j) ≡ get_elem? argv i
place-push argv {m = m} {o = o} g top found q i zero e =
    ap (get_elem? o.stack.values) (omega arith)
    ∙ q.grew.below m.stack.stack_pointer (omega (arith, g.pointer))
    ∙ top
    ∙ sym found
    ∙ ap (get_elem? argv) (omega arith)
place-push argv {o = o} g top found q i (suc j) e =
    ap (get_elem? o.stack.values) (omega (arith, g.pointer)) ∙ q.places i j (omega arith)

pub push_args-Placed :
    (env : Env) (k : ℕ) (argv : List ℕ) (m : Module)
    → IsValid m.stack
    → m.stack.stack_pointer + k ≤ m.stack.stack_capacity
    → k ≤ length argv
    → (n : Module) × (push_args env k argv m ≡ ok tt n) × Placed k argv m n
unfolding push_args
push_args-Placed env zero argv m h room enough =
    (m, refl, record { grew = Grew-refl m h; places = λ i j e. absurd (omega arith) })
push_args-Placed env (suc k) argv m h room enough =
    let (v, found) = get_elem?-lt argv k (omega arith) in
    let (n, e, g, top) = push-Grew env v m h (omega arith) in
    let (o, f, q) =
      push_args-Placed env k argv n g.valid (omega (arith, g.pointer, g.capacity)) (omega arith) in
    (
      o,
      rw (found, e) f,
      record {
        grew = subst (λ l. Grew l m o) one_more (Grew-trans g q.grew);
        places = place-push argv g top found q;
      },
    )
  where
    one_more : 1 + k ≡ suc k
    one_more = omega arith

pub push_zeros-Grew :
    (env : Env) (k : ℕ) (m : Module)
    → IsValid m.stack
    → m.stack.stack_pointer + k ≤ m.stack.stack_capacity
    → (n : Module) × (push_zeros env k m ≡ ok tt n) × Grew k m n
unfolding push_zeros
push_zeros-Grew env zero m h room = (m, refl, Grew-refl m h)
push_zeros-Grew env (suc k) m h room =
    let (n, e, g, top) = push-Grew env (make_integer 0) m h (omega arith) in
    let (o, f, q) = push_zeros-Grew env k n g.valid (omega (arith, g.pointer, g.capacity)) in
    (o, rw e f, subst (λ l. Grew l m o) one_more (Grew-trans g q))
  where
    one_more : 1 + k ≡ suc k
    one_more = omega arith
