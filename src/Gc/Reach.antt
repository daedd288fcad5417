-- ===== src/Gc/Reach.antt =====
-- What the mark phase is to compute: the objects that a word leads to, told without marks; and the
-- relation between a heap and the same heap with more objects marked.
use mathlib.Core.List.{Memᴰ}
use bonzai.Base.{
  ℕ, ◌≡◌, refl, ◌⊎◌, inl, inr, Bool, true, false, Option, none, some, List, [], ◌∷◌, arith, mem,
  Option-cases,
}
use bonzai.Word.{is_ptr, get_ptr}
use bonzai.Vm.{type_list, Heap, HeapValue, ValueType}
use bonzai.Vm.Memory.{load}
use bonzai.Gc.{children, children_of, set_mark}

-- The address `a` can be reached from the word `v`.
pub data Reach (h : Heap) : ℕ → ℕ → Type 0 where
  here : {v : ℕ} → is_ptr v ≡ true → Reach h v (get_ptr v)
  into :
      {v a : ℕ} {o : HeapValue} {cs : List ℕ} {c : ℕ}
      → is_ptr v ≡ true
      → h (get_ptr v) ≡ some o
      → children o ≡ some cs
      → Memᴰ c cs
      → Reach h c a
      → Reach h v a

abbrev pub marked : Heap → ℕ → Bool
marked h a = elim (h a) [ none ↦ false | some o ↦ o.is_marked ]

-- Every pointer among the words leads to an object.
abbrev pub AllLive : Heap → List ℕ → Type 0
AllLive h [] = Unit
AllLive h (v ∷ vs) =
    (is_ptr v ≡ true → (o : HeapValue) × (load h (get_ptr v) ≡ some o)) × AllLive h vs

-- Every object can be followed, its pointers lead to objects, and the objects that are not in the
-- list `xs` (the constants of the program) hold no words.
abbrev pub WellFormed : List ℕ → Heap → Type 0
WellFormed xs h =
    (a : ℕ) (o : HeapValue)
    → h a ≡ some o
    → (cs : List ℕ) × (children o ≡ some cs) × AllLive h cs × ((mem a xs ≡ true) ⊎ (cs ≡ []))

-- The same object, perhaps marked in addition; or nothing in both heaps.
abbrev pub Remark : Option HeapValue → Option HeapValue → Type 0
Remark r r' =
    ((r ≡ none) × (r' ≡ none))
    ⊎ ((o : HeapValue) × (b : Bool) × (r ≡ some o)
        × (r' ≡ some (set_mark b o))
        × (o.is_marked ≡ true → b ≡ true))

-- `h'` is `h` with more objects marked.
abbrev pub Marks : Heap → Heap → Type 0
Marks h h' = (a : ℕ) → Remark (h a) (h' a)

pub Marks-refl : (h : Heap) → Marks h h
Marks-refl h a = elim (Option-cases (h a)) [
  | inl e ↦ inl (e, e)
  | inr (o, e) ↦ inr (o, o.is_marked, e, e, λ m. m)
]

pub Marks-trans : {h h' h'' : Heap} → Marks h h' → Marks h' h'' → Marks h h''
Marks-trans p q a = elim (p a) [
  | inl (e, e') ↦ inl (e, ground (arith, q a))
  | inr (o, b, e, e', m) ↦ elim (q a) [
    | inl (e'', e3) ↦ cc
    | inr (o', b', e'', e3, m') ↦ inr (o, b', e, ground arith, ground arith)
  ]
]

children_of-set_mark :
    (t : ValueType) (b : Bool) (o : HeapValue) → children_of t (set_mark b o) ≡ children_of t o
unfolding children_of
children_of-set_mark type_list b o = refl
children_of-set_mark _ b o = refl

pub children-set_mark : (b : Bool) (o : HeapValue) → children (set_mark b o) ≡ children o
unfolding children
children-set_mark b o = children_of-set_mark o.type b o

pub marked_mono : {h h' : Heap} (a : ℕ) → Marks h h' → marked h a ≡ true → marked h' a ≡ true
marked_mono a p m = ground (arith, p a)

pub AllLive-Marks : {h h' : Heap} (vs : List ℕ) → Marks h h' → AllLive h vs → AllLive h' vs
unfolding load
AllLive-Marks [] p l = tt
AllLive-Marks {h} {h'} (v ∷ vs) p l = (λ i. live (l.0 i), AllLive-Marks vs p l.1)
  where
    live :
        (o : HeapValue) × (load h (get_ptr v) ≡ some o)
        → (o : HeapValue) × (load h' (get_ptr v) ≡ some o)
    live (o, e) = elim (p (get_ptr v)) [
      | inl (e0, _) ↦ ground arith
      | inr (o', b, e', e3, _) ↦ (set_mark b o', ground arith)
    ]

pub WellFormed-Marks : (xs : List ℕ) {h h' : Heap} → Marks h h' → WellFormed xs h → WellFormed xs h'
WellFormed-Marks xs p w a o e = elim (p a) [
  | inl (e0, e1) ↦ cc
  | inr (o', b, e0, e1, _) ↦
      let (cs, k, live, inside) = w a o' e0 in
      (cs, ground (arith, children-set_mark b o'), AllLive-Marks cs p live, inside)
]

pub Reach-Marks : {h h' : Heap} {v a : ℕ} → Marks h h' → Reach h' v a → Reach h v a
Reach-Marks p (here i) = here i
Reach-Marks p (into {v} {o} i e k m r) = elim (p (get_ptr v)) [
  | inl (e0, e1) ↦ cc
  | inr (o', b, e0, e1, _) ↦ into i e0 (ground (arith, children-set_mark b o')) m (Reach-Marks p r)
]
