-- ===== src/Gc/Collected.antt =====
-- The state between two collections and what a collection leaves, from what the mark phase and the
-- sweep do (`gc` of runtime/src/value.c).
use mathlib.Core.List.{Memᴰ}
use bonzai.Base.{
  ℕ, ◌*◌, ◌%◌, ◌^◌, ◌≤◌, ◌<◌, ◌≡◌, refl, ◌∙◌, inl, inr, Bool, true, false, none, some, List, [],
  ◌∷◌, arith, mem, if◌then◌else◌, Option-cases, Bool-cases, ap, sym, subst, length, take,
}
use bonzai.Word.{get_ptr}
use bonzai.Stack.{lt_int, max_stack_size}
use bonzai.Vm.{Heap, HeapValue, Module}
use bonzai.Vm.Memory.{load}
use bonzai.Gc.{
  init_objects, Pool, head, set_next, set_mark, children, pool_of, with_pool, set_threshold,
  read_link,
}
use bonzai.Gc.Reach.{Reach, marked, AllLive, WellFormed, children-set_mark}
use bonzai.Gc.Mark.{lookup_of_load}
use bonzai.Gc.Marked.{Marked, AllMarked}
use bonzai.Gc.Exact.{marked_iff, marked-child}
use bonzai.Gc.Chain.{Chain, survivors, mem-survivors, length-survivors-le, children-set_next}
use bonzai.Gc.Swept.{Swept}

-- the words that a collection starts from
abbrev pub roots : Module → List ℕ
roots m = take max_stack_size m.stack.values

-- A slot of the stack leads to the object at `a`.
abbrev pub OnStack : Module → ℕ → Type 0
OnStack m a = (v : ℕ) × Memᴰ v (roots m) × Reach m.heap v a

-- The state between two collections: `xs` are the objects of the list, none of them marked, and no
-- pointer in a root or in an object dangles.
pub record Consistent (xs : List ℕ) (m : Module) : Type 0 where
  pub chain : Chain m.heap m.first_object xs
  pub unmarked : (a : ℕ) → mem a xs ≡ true → marked m.heap a ≡ false
  pub objects : WellFormed xs m.heap
  pub slots : max_stack_size ≤ length m.stack.values
  pub live : AllLive m.heap (roots m)
  pub counted : m.num_objects ≡ length xs
  pub small : m.num_objects < 2 ^ 29

-- What a collection leaves: `m'` from `m`, with `ys` for the list of objects.
pub record Collected (xs ys : List ℕ) (m m' : Module) : Type 0 where
  pub kept :
      (a : ℕ) (o : HeapValue)
      → mem a xs ≡ true
      → OnStack m a
      → m.heap a ≡ some o
      → (n : ℕ) × (m'.heap a ≡ some (set_next n o))
  pub freed : (a : ℕ) → mem a xs ≡ true → (OnStack m a → ⊥) → m'.heap a ≡ none
  pub consistent : Consistent ys m'
  pub stack : m'.stack ≡ m.stack
  pub room : m'.num_objects < m'.max_objects
  pub fewer : m'.num_objects ≤ m.num_objects

unmark_fresh : (b : Bool) (o : HeapValue) → o.is_marked ≡ false → set_mark false (set_mark b o) ≡ o
unmark_fresh b o e = ground arith

pub threshold :
    (n : ℕ) → n < 2 ^ 29 → n < (if lt_int n init_objects then init_objects else n * 2 % 2 ^ 32)
threshold n small = ground arith

load_again :
    (h h' : Heap) (p : ℕ) {o o' : HeapValue}
    → load h p ≡ some o
    → h' p ≡ some o'
    → load h' p ≡ some o'
unfolding load
load_again h h' p e e' = ground arith

-- The two phases of a collection, and what they are known to do.
module _ (xs : List ℕ) (m : Module) (h : Heap) (s' : Pool) (c : Consistent xs m)
    (done : Marked (roots m) m.heap h)
    (r : Swept head xs (pool_of (record m { heap = h })) s') where
  abbrev ys : List ℕ
  ys = survivors h xs

  fresh_object : (a : ℕ) {o : HeapValue} → mem a xs ≡ true → m.heap a ≡ some o → o.is_marked ≡ false
  fresh_object a i e = ground (arith, c.unmarked a i)

  -- an object that the mark phase reached is there, as it was but for its `next` field
  stays :
      (a : ℕ) (o : HeapValue)
      → mem a xs ≡ true
      → marked h a ≡ true
      → m.heap a ≡ some o
      → (n : ℕ) × (s'.heap a ≡ some (set_next n o))
  stays a o i t e = elim (done.marks a) [
    | inl (e0, e1) ↦ cc
    | inr (o', b, e0, e1, _) ↦
        let same : o' ≡ o = cc in
        let (n, there) = r.kept a (set_mark b o') i e1 (mark_bit a e1 t) in
        (n, there ∙ ap (λ x. some (set_next n x)) (unmark_fresh b o' (fresh_object a i e0) ∙ same))
  ]
    where
      mark_bit : (a : ℕ) {o' : HeapValue} → h a ≡ some o' → marked h a ≡ true → o'.is_marked ≡ true
      mark_bit a e1 t = ground arith

  -- An object outside the list keeps its place and its contents.
  constant :
      (a : ℕ) (o : HeapValue)
      → mem a xs ≡ false
      → m.heap a ≡ some o
      → (b : Bool) × (s'.heap a ≡ some (set_mark b o))
  constant a o i e = elim (done.marks a) [
    | inl (e0, e1) ↦ cc
    | inr (o', b, e0, e1, _) ↦
        let same : o' ≡ o = cc in (b, r.same a i tt ∙ e1 ∙ ap (λ x. some (set_mark b x)) same)
  ]

  live_after : (vs : List ℕ) → AllLive m.heap vs → AllMarked h vs → AllLive s'.heap vs
  live_after [] l t = tt
  live_after (v ∷ vs) l t = (λ i. target v (l.0 i) (t.0 i), live_after vs l.1 t.1)
    where
      target :
          (v : ℕ)
          → (o : HeapValue) × (load m.heap (get_ptr v) ≡ some o)
          → marked h (get_ptr v) ≡ true
          → (o : HeapValue) × (load s'.heap (get_ptr v) ≡ some o)
      target v (o, e) t =
          let there = lookup_of_load m.heap (get_ptr v) e in
          elim (Bool-cases (mem (get_ptr v) xs)) [
            | inl i ↦
                let (n, e') = stays (get_ptr v) o i t there in
                (set_next n o, load_again m.heap s'.heap (get_ptr v) e e')
            | inr i ↦
                let (b, e') = constant (get_ptr v) o i there in
                (set_mark b o, load_again m.heap s'.heap (get_ptr v) e e')
          ]

  not_marked : (a : ℕ) → h a ≡ none → marked h a ≡ false
  not_marked a e = rw (e, marked) refl

  objects_after : WellFormed ys s'.heap
  objects_after a o e = elim (Bool-cases (mem a xs)) [
    | inl i ↦ elim (Bool-cases (marked h a)) [
      | inr t ↦ let gone = r.freed a i t in cc
      | inl t ↦ elim (done.marks a) [
        | inl (e0, e1) ↦ let never = not_marked a e1 in cc
        | inr (o0, b, e0, e1, _) ↦
            let (n, there) = stays a o0 i t e0 in
            let (cs, k, live, inside) = c.objects a o0 e0 in
            (
              cs,
              same_children (sym e ∙ there) ∙ children-set_next n o0 ∙ k,
              live_after cs live
                  (marked-child xs (roots m) m.heap h c.unmarked c.objects done a o0 cs i t e0 k),
              inl ((mem-survivors h a xs).1 (i, t)),
            )
      ]
    ]
    | inr i ↦ elim (Option-cases (m.heap a)) [
      | inl e0 ↦
          let gone = r.same a i tt in
          elim (done.marks a) [ inl (_, e1) ↦ cc | inr (o0, b, e0', e1, _) ↦ cc ]
      | inr (o0, e0) ↦
          let (b, there) = constant a o0 i e0 in
          let (cs, k, live, inside) = c.objects a o0 e0 in
          elim inside [
            | inl listed ↦ cc
            | inr empty ↦ (
              [],
              same_children (sym e ∙ there) ∙ children-set_mark b o0 ∙ k ∙ ap some empty,
              tt,
              inr refl,
            )
          ]
    ]
  ]
    where
      same_children : {o o' : HeapValue} → some o ≡ some o' → children o ≡ children o'
      same_children e = cc

  -- the two facts of the headline statement
  pub Collected-ys : Collected xs ys m (set_threshold (with_pool s' m))
  unfolding read_link
  Collected-ys = record {
    kept = λ a o i (v, j, reach) e. stays a o i ((exact a i).1 v j reach) e;
    freed = λ a i never. elim (Bool-cases (marked h a)) [
      | inl t ↦ absurd (never ((exact a i).0 t))
      | inr t ↦ r.freed a i t
    ];
    consistent = record {
      chain = subst (λ p. Chain s'.heap p ys) (sym r.relinked) r.chain;
      unmarked = λ a i. cleared a ((mem-survivors h a xs).0 i);
      objects = objects_after;
      slots = c.slots;
      live = live_after (roots m) c.live done.roots;
      counted = omega (arith, r.count, c.counted);
      small = omega (arith, r.count, c.counted, c.small, length-survivors-le h xs);
    };
    stack = refl;
    room =
        threshold s'.num_objects
          (omega (arith, r.count, c.counted, c.small, length-survivors-le h xs));
    fewer = omega (arith, r.count, c.counted, length-survivors-le h xs);
  }
    where
      exact :
          (a : ℕ)
          → mem a xs ≡ true
          → ((marked h a ≡ true) → OnStack m a)
            × ((v : ℕ) → Memᴰ v (roots m) → Reach m.heap v a → marked h a ≡ true)
      exact = marked_iff xs (roots m) m.heap h c.unmarked c.objects done

      cleared : (a : ℕ) → (mem a xs ≡ true) × (marked h a ≡ true) → marked s'.heap a ≡ false
      cleared a (i, t) = elim (done.marks a) [
        | inl (e0, e1) ↦ let never = not_marked a e1 in cc
        | inr (o0, b, e0, e1, _) ↦
            let (n, there) = stays a o0 i t e0 in rw (there, marked) (fresh_object a i e0)
      ]
