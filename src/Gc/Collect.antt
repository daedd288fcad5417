-- ===== src/Gc/Collect.antt =====
-- `gc` of runtime/src/value.c as a whole, the mark phase and then the sweep.
use bonzai.Base.{
  ℕ, zero, suc, ◌≤◌, ◌<◌, ◌≡◌, ◌⊎◌, inl, inr, refl, sym, ap, subst, ◌∙◌, Bool, true, false, none,
  some, List, [], ◌∷◌, arith, length, take, mem, ◌==◌, ==_iff, Bool-cases,
}
use bonzai.Stack.{max_stack_size}
use bonzai.Vm.{Heap, Module, ok, crash}
use bonzai.Vm.Memory.{Env}
use bonzai.Gc.{
  Pool, Link, head, next_of, keep_object, prefix, mark_all, mark_each, mark_value, sweep_loop,
  collect, gc, pool_of, with_pool, set_threshold, read_link,
}
use bonzai.Gc.Reach.{WellFormed-Marks, marked}
use bonzai.Gc.Mark.{mark_each-Marked}
use bonzai.Gc.Marked.{Marked}
use bonzai.Gc.Exact.{unmarked-le-length, marked_iff}
use bonzai.Gc.Chain.{Chain, Chain-frame, Chain-Marks, survivors, free_array-some}
use bonzai.Gc.Sweep.{sweep_loop-Swept, sweep_loop-keep, read_link-keep}
use bonzai.Gc.Swept.{Freeable, listed, marked_at, marked-frame}
use bonzai.Gc.Collected.{Collected-ys, Collected, Consistent, OnStack, roots}
use bonzai.Gc.Stale.{LosesLink, sweep_loop-stale}

pub prefix-ok : (n : ℕ) (xs : List ℕ) → n ≤ length xs → prefix n xs ≡ some (take n xs)
unfolding prefix
prefix-ok n xs le = ground arith

mark_all-ok :
    (n : ℕ) (m : Module) {h : Heap}
    → max_stack_size ≤ length m.stack.values
    → mark_each (mark_value n) (roots m) m.heap ≡ some h
    → mark_all n m ≡ some h
unfolding mark_all
mark_all-ok n m slots e = rw (prefix-ok max_stack_size m.stack.values slots) e

read_head : (s : Pool) → read_link s head ≡ some s.first_object
unfolding read_link
read_head s = refl

gc-run :
    (env : Env) (m : Module) (h : Heap) (s' : Pool)
    → mark_all env.c_stack m ≡ some h
    → sweep_loop env (suc m.num_objects) head (pool_of (record m { heap = h })) ≡ some s'
    → gc env m ≡ ok tt (set_threshold (with_pool s' m))
unfolding gc collect
gc-run env m h s' e1 e2 = rw (e1, e2) refl

gc-fails :
    (env : Env) (m : Module) (h : Heap)
    → mark_all env.c_stack m ≡ some h
    → sweep_loop env (suc m.num_objects) head (pool_of (record m { heap = h })) ≡ none
    → gc env m ≡ crash
unfolding gc collect
gc-fails env m h e1 e2 = rw (e1, e2) refl

-- the environment in which a freed object's `next` can still be read
abbrev keeping : Env → Env
keeping env = record env { stale_next = λ o. some o.next }

-- A sweep that frees nothing never reads freed memory.
sweep_loop-marked :
    (env env' : Env) (xs : List ℕ) (n : ℕ) (l : Link) (s : Pool) (p : ℕ)
    → read_link s l ≡ some p
    → Chain s.heap p xs
    → ((a : ℕ) → mem a xs ≡ true → marked s.heap a ≡ true)
    → sweep_loop env n l s ≡ sweep_loop env' n l s
unfolding sweep_loop
sweep_loop-marked env env' xs zero l s p at chain all = refl
sweep_loop-marked env env' [] (suc n) l s p at chain all = ground arith
sweep_loop-marked env env' (q ∷ xs) (suc n) l s p at (e, ne, out, (o, here, rest)) all =
    let same = listed q o xs s out in
    let bit : o.is_marked ≡ true = sym (marked_at s.heap here refl) ∙ all q (ground arith) in
    sweep_loop-keep env n l s q o (at ∙ ap some e) ne here bit
    ∙ sweep_loop-marked env env' xs n (next_of q) (keep_object q o s) o.next
        (read_link-keep q o s ne) (Chain-frame o.next xs rest same)
        (λ a i. marked-frame s.heap (keep_object q o s).heap a (same a i) (all a (ground arith)))
    ∙ sym (sweep_loop-keep env' n l s q o (at ∙ ap some e) ne here bit)

all_survive :
    (h : Heap) (xs : List ℕ) → ((a : ℕ) → mem a xs ≡ true → marked h a ≡ true) → survivors h xs ≡ xs
unfolding survivors
all_survive h [] all = refl
all_survive h (a ∷ xs) all =
    let rest = all_survive h xs (λ b i. all b (ground arith)) in
    let here = all a (ground arith) in rw (here, rest) refl

all_or_some :
    (f : ℕ → Bool) (xs : List ℕ)
    → ((a : ℕ) → mem a xs ≡ true → f a ≡ true) ⊎ ((a : ℕ) × (mem a xs ≡ true) × (f a ≡ false))
all_or_some f [] = inl (λ a i. cc)
all_or_some f (x ∷ xs) = elim (Bool-cases (f x)) [
  | inr nope ↦ inr (x, ground arith, nope)
  | inl y ↦ elim (all_or_some f xs) [
    | inr (a, i, nope) ↦ inr (a, ground arith, nope)
    | inl all ↦ inl (λ a i. elim (Bool-cases (a == x)) [
      | inl k ↦ ap f ((==_iff a x).0 k) ∙ y
      | inr k ↦ all a (ground arith)
    ])
  ]
]

-- An object of the list that no slot of the stack leads to.
pub record Garbage (xs : List ℕ) (m : Module) : Type 0 where
  pub address : ℕ
  pub in_list : mem address xs ≡ true
  pub unreached : OnStack m address → ⊥

-- Every object of the list is reached from the stack.
abbrev pub AllOnStack : List ℕ → Module → Type 0
AllOnStack xs m = (a : ℕ) → mem a xs ≡ true → OnStack m a

module _ (env : Env) (xs : List ℕ) (m : Module) (c : Consistent xs m)
    (deep : m.num_objects < env.c_stack) where
  phase :
      (h : Heap) × (mark_each (mark_value env.c_stack) (roots m) m.heap ≡ some h)
      × Marked (roots m) m.heap h
  phase =
      mark_each-Marked xs (roots m) env.c_stack m.heap c.objects c.live
        (omega (arith, unmarked-le-length m.heap xs, c.counted, deep))

  abbrev swept : Heap → Pool
  swept h = pool_of (record m { heap = h })

  freeable : (h : Heap) → Marked (roots m) m.heap h → Freeable xs h
  freeable h done a o i e =
      let (cs, k, _, _) = WellFormed-Marks xs done.marks c.objects a o e in free_array-some o cs k

  gc-marked :
      (h : Heap)
      → mark_each (mark_value env.c_stack) (roots m) m.heap ≡ some h
      → Marked (roots m) m.heap h
      → ((a : ℕ) → mem a xs ≡ true → marked h a ≡ true)
      → (m' : Module) × (gc env m ≡ ok tt m') × Collected xs xs m m'
  gc-marked h e1 done all =
      let chain = Chain-Marks m.first_object xs done.marks c.chain in
      let (s', e2, r) =
        sweep_loop-Swept (keeping env) xs (suc m.num_objects) head (swept h) m.first_object
          (λ o. refl) (read_head (swept h)) chain tt (freeable h done) (omega (arith, c.counted))
          (omega (arith, c.counted)) (omega (arith, c.small)) in
      let e3 =
        sweep_loop-marked env (keeping env) xs (suc m.num_objects) head (swept h) m.first_object
          (read_head (swept h)) chain all
        ∙ e2 in
      (
        set_threshold (with_pool s' m),
        gc-run env m h s' (mark_all-ok env.c_stack m c.slots e1) e3,
        subst (λ ys. Collected xs ys m (set_threshold (with_pool s' m))) (all_survive h xs all)
            (Collected-ys xs m h s' c done r),
      )

  gc-unmarked :
      (h : Heap) (a : ℕ)
      → LosesLink env
      → mark_each (mark_value env.c_stack) (roots m) m.heap ≡ some h
      → Marked (roots m) m.heap h
      → mem a xs ≡ true
      → marked h a ≡ false
      → gc env m ≡ crash
  gc-unmarked h a loses e1 done i nope = gc-fails env m h (mark_all-ok env.c_stack m c.slots e1) (
      sweep_loop-stale env xs (suc m.num_objects) head (swept h) m.first_object a loses
        (read_head (swept h)) (Chain-Marks m.first_object xs done.marks c.chain) i nope)

  -- For a consistent state of fewer objects than the C stack has room for calls, and where
  -- nothing can be read from freed memory: if the stack leads to every object of the list, `gc`
  -- returns, every object is unchanged but for its `next` field, and the state is consistent
  -- with the same objects, fewer than the next threshold; and otherwise there is an object of
  -- the list that the stack does not lead to, and `gc` runs into the read of freed memory.
  pub gc_lem :
      LosesLink env
      → (AllOnStack xs m × (m' : Module) × (gc env m ≡ ok tt m') × Collected xs xs m m')
        ⊎ (Garbage xs m × (gc env m ≡ crash))
  gc_lem loses =
      let (h, e1, done) = phase in
      let exact = marked_iff xs (roots m) m.heap h c.unmarked c.objects done in
      elim (all_or_some (marked h) xs) [
        | inl all ↦
            let (m', run, d) = gc-marked h e1 done all in
            inl (λ a i. (exact a i).0 (all a i), m', run, d)
        | inr (a, i, nope) ↦ inr (
          record {
            address = a;
            in_list = i;
            unreached = λ (v, j, reach). let reached = (exact a i).1 v j reach in cc;
          },
          gc-unmarked h a loses e1 done i nope,
        )
      ]
