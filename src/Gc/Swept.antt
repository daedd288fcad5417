-- ===== src/Gc/Swept.antt =====
-- What `sweep` of runtime/src/value.c makes of the list of objects from a link on, and the case of a
-- list whose first object is marked.
use bonzai.Base.{
  ℕ, ◌+◌, ◌≡◌, ◌≢◌, refl, ◌∙◌, inl, inr, Bool, true, false, none, some, List, [], ◌∷◌, arith, mem,
  ◌==◌, ==_iff, Bool-cases, ap, sym, subst, length,
}
use bonzai.Vm.{Heap, HeapValue}
use bonzai.Vm.Memory.{Env, load}
use bonzai.Gc.{Pool, Link, head, next_of, set_next, set_mark, read_link, free_array, keep_object}
use bonzai.Gc.Reach.{marked}
use bonzai.Gc.Chain.{Chain, survivors, survivors-frame, not-mem-survivors, OffLink, Relinked}

-- A freed object's `next` field still holds what it held.
abbrev pub KeepsLink : Env → Type 0
KeepsLink env = (o : HeapValue) → env.stale_next o ≡ some o.next

abbrev pub Freeable : List ℕ → Heap → Type 0
Freeable xs h = (a : ℕ) (o : HeapValue) → mem a xs ≡ true → h a ≡ some o → free_array o ≡ some tt

-- The link does not stand in an object of the list.
abbrev pub Outside : Link → List ℕ → Type 0
Outside head xs = Unit
Outside (next_of q) xs = mem q xs ≡ false

-- The loop, entered at a link from which the chain `xs` hangs, took the pool `s` to `s'`.
pub record Swept (l : Link) (xs : List ℕ) (s s' : Pool) : Type 0 where
  pub first : ℕ
  pub link : read_link s' l ≡ some first
  pub relinked : Relinked l first s s'
  pub chain : Chain s'.heap first (survivors s.heap xs)
  pub kept :
      (a : ℕ) (o : HeapValue)
      → mem a xs ≡ true
      → s.heap a ≡ some o
      → o.is_marked ≡ true
      → (n : ℕ) × (s'.heap a ≡ some (set_next n (set_mark false o)))
  pub freed : (a : ℕ) → mem a xs ≡ true → marked s.heap a ≡ false → s'.heap a ≡ none
  pub same : (a : ℕ) → mem a xs ≡ false → OffLink l a → s'.heap a ≡ s.heap a
  pub count : s'.num_objects + length xs ≡ s.num_objects + length (survivors s.heap xs)

-- A link whose place nobody wrote to still reads the same, and needed no rewriting.
link-frame :
    (l : Link) {p : ℕ} (s s' : Pool)
    → read_link s l ≡ some p
    → s'.first_object ≡ s.first_object
    → ((q : ℕ) → l ≡ next_of q → s'.heap q ≡ s.heap q)
    → (read_link s' l ≡ some p) × Relinked l p s s'
unfolding read_link load
link-frame head s s' at first same = (ground arith, ground arith)
link-frame (next_of q) s s' at first same =
    let e = same q refl in (ground arith, (first, λ o here. ground arith))

pub Swept-nil : (l : Link) (s : Pool) → read_link s l ≡ some 0 → Swept l [] s s
unfolding survivors
Swept-nil l s e = record {
  first = 0;
  link = e;
  relinked = (link-frame l s s e refl (λ q _. refl)).1;
  chain = refl;
  kept = λ a o i. cc;
  freed = λ a i. cc;
  same = λ a _ _. refl;
  count = refl;
}

pub marked_at :
    (h : Heap) {a : ℕ} {o : HeapValue} {b : Bool} → h a ≡ some o → o.is_marked ≡ b → marked h a ≡ b
marked_at h e m = rw (e, marked) m

pub marked-frame : (h h' : Heap) (a : ℕ) {b : Bool} → h' a ≡ h a → marked h a ≡ b → marked h' a ≡ b
marked-frame h h' a e m = rw (e, marked) m

pub listed :
    (p : ℕ) (o : HeapValue) (xs : List ℕ) (s : Pool)
    → mem p xs ≡ false
    → (a : ℕ) → mem a xs ≡ true
    → (keep_object p o s).heap a ≡ s.heap a
unfolding keep_object
listed p o xs s out a i = elim (Bool-cases (p == a)) [
  | inl e ↦ let same = (==_iff p a).0 e in cc
  | inr e ↦ rw e refl
]

-- The chain's head is marked: it stays, and the loop goes on from its `next` field.
module _ (l : Link) (p : ℕ) (o : HeapValue) (xs : List ℕ) (s s' : Pool)
    (at : read_link s l ≡ some p) (apart : Outside l (p ∷ xs)) (here : s.heap p ≡ some o)
    (ne : p ≢ 0) (out : mem p xs ≡ false) (m : o.is_marked ≡ true)
    (r : Swept (next_of p) xs (keep_object p o s) s') where
  others : (a : ℕ) → mem a (p ∷ xs) ≡ false → s'.heap a ≡ s.heap a
  unfolding keep_object
  others a i = ground (arith, r.same a)

  now : s'.heap p ≡ some (set_next r.first (set_mark false o))
  unfolding keep_object
  now = r.relinked.1 (set_mark false o) (ground arith)

  pub Swept-keep : Swept l (p ∷ xs) s s'
  unfolding survivors keep_object
  Swept-keep = record {
    first = p;
    link = frame.0;
    relinked = frame.1;
    chain = rw (marked_at s.heap here m) (
      refl,
      ne,
      not-mem-survivors s.heap p xs out,
      (
        set_next r.first (set_mark false o),
        now,
        subst (Chain s'.heap r.first) (survivors-frame xs (listed p o xs s out)) r.chain,
      ),
    );
    kept = λ a o' i e m'. elim (Bool-cases (a == p)) [
      | inl k ↦ (r.first, at_head a o' ((==_iff a p).0 k) e)
      | inr k ↦ let j = in_rest a k i in r.kept a o' j (listed p o xs s out a j ∙ e) m'
    ];
    freed = λ a i e. elim (Bool-cases (a == p)) [
      | inl k ↦ absurd (not_head a ((==_iff a p).0 k) e)
      | inr k ↦
          let j = in_rest a k i in
          r.freed a j (marked-frame s.heap (keep_object p o s).heap a (listed p o xs s out a j) e)
    ];
    same = λ a i _. others a i;
    count =
        rw (marked_at s.heap here m)
          (omega (arith, r.count, ap length (survivors-frame xs (listed p o xs s out))));
  }
    where
      frame : (read_link s' l ≡ some p) × Relinked l p s s'
      frame =
          link-frame l s s' at (r.relinked.0)
            λ q e. others q (subst (λ k. Outside k (p ∷ xs)) e apart)

      in_rest : (a : ℕ) → (a == p) ≡ false → mem a (p ∷ xs) ≡ true → mem a xs ≡ true
      in_rest a k i = ground arith

      at_head :
          (a : ℕ) (o' : HeapValue)
          → a ≡ p
          → s.heap a ≡ some o'
          → s'.heap a ≡ some (set_next r.first (set_mark false o'))
      at_head a o' k e =
          let same : o ≡ o' = cc in
          subst (λ a'. s'.heap a' ≡ some (set_next r.first (set_mark false o'))) (sym k)
            (subst (λ o''. s'.heap p ≡ some (set_next r.first (set_mark false o''))) same now)

      not_head : (a : ℕ) → a ≡ p → marked s.heap a ≡ false → ⊥
      not_head a k e = let t = marked_at s.heap here m in cc
