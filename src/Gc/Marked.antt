-- ===== src/Gc/Marked.antt =====
-- What the mark phase of runtime/src/value.c makes of a heap, for one object from the same of the
-- words in it.
use mathlib.Core.List.{Memᴰ}
use mathlib.Core.List.Memᴰ
use bonzai.Base.{
  ℕ, ◌+◌, ◌≤◌, ◌<◌, ◌≡◌, refl, ◌∙◌, ◌⊎◌, inl, inr, true, false, some, List, [], ◌∷◌, arith, mem,
  ◌==◌, ==_iff, if◌then◌else◌, Option-cases, Bool-cases, ap, sym, subst,
}
use bonzai.Word.{is_ptr, get_ptr}
use bonzai.Vm.{Heap, HeapValue, update}
use bonzai.Gc.{children, set_mark}
use bonzai.Gc.Reach.{
  Reach, here, into, marked, Marks, Marks-refl, Marks-trans, children-set_mark, marked_mono,
  Reach-Marks,
}

-- the objects of the list that are not marked
unfoldable pub unmarked : Heap → List ℕ → ℕ
unmarked h [] = 0
unmarked h (a ∷ xs) = (if marked h a then 0 else 1) + unmarked h xs

pub unmarked_mono : {h h' : Heap} (xs : List ℕ) → Marks h h' → unmarked h' xs ≤ unmarked h xs
unfolding unmarked
unmarked_mono [] p = omega arith
unmarked_mono (a ∷ xs) p = ground (arith, unmarked_mono xs p, marked_mono a p)

pub unmarked-lt :
    {h h' : Heap} (a : ℕ) (xs : List ℕ)
    → Marks h h'
    → mem a xs ≡ true
    → marked h a ≡ false
    → marked h' a ≡ true
    → unmarked h' xs < unmarked h xs
unfolding unmarked
unmarked-lt a [] p m before after = cc
unmarked-lt {h} {h'} a (x ∷ xs) p m before after = elim (Bool-cases (a == x)) [
  | inl e ↦
      let same : a ≡ x = (==_iff a x).0 e in
      let b : marked h x ≡ false = subst (λ y. marked h y ≡ false) same before in
      let c : marked h' x ≡ true = subst (λ y. marked h' y ≡ true) same after in
      rw (b, c) (omega (arith, unmarked_mono xs p))
  | inr e ↦
      let rest = unmarked-lt a xs p (ground arith) before after in ground (arith, marked_mono x p)
]

-- Every pointer among the words leads to a marked object.
abbrev pub AllMarked : Heap → List ℕ → Type 0
AllMarked h [] = Unit
AllMarked h (v ∷ vs) = (is_ptr v ≡ true → marked h (get_ptr v) ≡ true) × AllMarked h vs

AllMarked-Marks : {h h' : Heap} (vs : List ℕ) → Marks h h' → AllMarked h vs → AllMarked h' vs
AllMarked-Marks [] p l = tt
AllMarked-Marks (v ∷ vs) p l = (λ i. marked_mono (get_ptr v) p (l.0 i), AllMarked-Marks vs p l.1)

-- Marking from the words `vs` took `h` to `h'`.
pub record Marked (vs : List ℕ) (h h' : Heap) : Type 0 where
  pub marks : Marks h h'
  pub roots : AllMarked h' vs
  pub black :
      (a : ℕ) (o : HeapValue)
      → h a ≡ some o
      → marked h a ≡ false
      → marked h' a ≡ true
      → (cs : List ℕ) → children o ≡ some cs
      → AllMarked h' cs
  pub sound :
      (a : ℕ) → marked h' a ≡ true → (marked h a ≡ true) ⊎ ((c : ℕ) × Memᴰ c vs × Reach h c a)

pub Marked-nil : (h : Heap) → Marked [] h h
Marked-nil h = record {
  marks = Marks-refl h;
  roots = tt;
  black = λ a o e before after. cc;
  sound = λ a m. inl m;
}

pub Marked-cons :
    {h h1 h2 : Heap} {v : ℕ} {vs : List ℕ}
    → Marked (v ∷ []) h h1
    → Marked vs h1 h2
    → Marked (v ∷ vs) h h2
Marked-cons {h} {h1} {h2} {v} {vs} p q = record {
  marks = Marks-trans p.marks q.marks;
  roots = (λ i. marked_mono (get_ptr v) q.marks (p.roots.0 i), q.roots);
  black = λ a o e before after cs k. elim (Bool-cases (marked h1 a)) [
    | inl m ↦ AllMarked-Marks cs q.marks (p.black a o e before m cs k)
    | inr m ↦ elim (p.marks a) [
      | inl (e0, e1) ↦ cc
      | inr (o', b, e0, e1, _) ↦
          q.black a (set_mark b o') e1 m after cs
            (children-set_mark b o' ∙ ap children (same_some (sym e0 ∙ e)) ∙ k)
    ]
  ];
  sound = λ a m. elim (q.sound a m) [
    | inr (c, i, r) ↦ inr (c, Memᴰ.tail i, Reach-Marks p.marks r)
    | inl m1 ↦ elim (p.sound a m1) [
      | inl m0 ↦ inl m0
      | inr (c, i, r) ↦ inr (c, Memᴰ.head (Memᴰ.eq_of_singleton i), r)
    ]
  ];
}
  where
    same_some : {o o' : HeapValue} → some o ≡ some o' → o ≡ o'
    same_some e = cc

-- a pointer to an object that is marked already, or no pointer at all
pub Marked-skip :
    {h : Heap} {v : ℕ} → (is_ptr v ≡ true → marked h (get_ptr v) ≡ true) → Marked (v ∷ []) h h
Marked-skip {h} m = record {
  marks = Marks-refl h;
  roots = (m, tt);
  black = λ a o e before after. cc;
  sound = λ a m. inl m;
}

-- `h` with the mark of one object set
abbrev pub marking : Heap → ℕ → HeapValue → Heap
marking h p o = update h p (some (set_mark true o))

pub Marks-marking : (h : Heap) {p : ℕ} {o : HeapValue} → h p ≡ some o → Marks h (marking h p o)
Marks-marking h {p} {o} e a = elim (Bool-cases (p == a)) [
  | inl s ↦ inr (o, true, ground arith, ground arith, ground arith)
  | inr s ↦ elim (Option-cases (h a)) [
    | inl n ↦ inl (n, ground arith)
    | inr (o', n) ↦ inr (o', o'.is_marked, n, ground arith, λ m. m)
  ]
]

pub Marked-visit :
    {h h' : Heap} {v : ℕ} {o : HeapValue} {cs : List ℕ}
    → is_ptr v ≡ true
    → h (get_ptr v) ≡ some o
    → children o ≡ some cs
    → Marked cs (marking h (get_ptr v) o) h'
    → Marked (v ∷ []) h h'
Marked-visit {h} {h'} {v} {o} {cs} i e k p = record {
  marks = Marks-trans (Marks-marking h e) p.marks;
  roots = (λ _. marked_mono (get_ptr v) p.marks (ground arith), tt);
  black = λ a o' e' before after ds k'. elim (Bool-cases (get_ptr v == a)) [
    | inl s ↦ subst (AllMarked h') (same_children ((==_iff (get_ptr v) a).0 s) e' k') p.roots
    | inr s ↦ p.black a o' (rw s e') (rw (s, marked) before) after ds k'
  ];
  sound = λ a m. elim (p.sound a m) [
    | inr (c, j, r) ↦ inr (v, Memᴰ.head refl, into i e k j (Reach-Marks (Marks-marking h e) r))
    | inl m1 ↦ elim (Bool-cases (get_ptr v == a)) [
      | inl s ↦ inr (v, Memᴰ.head refl, subst (Reach h v) ((==_iff (get_ptr v) a).0 s) (here i))
      | inr s ↦ inl (rw (s, marked) at m1)
    ]
  ];
}
  where
    same_children :
        {a : ℕ} {o' : HeapValue} {ds : List ℕ}
        → get_ptr v ≡ a
        → h a ≡ some o'
        → children o' ≡ some ds
        → cs ≡ ds
    same_children s e' k' = cc
