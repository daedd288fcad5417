-- ===== src/Gc/Exact.antt =====
-- The mark phase of runtime/src/value.c against the objects that can be reached.
use mathlib.Core.List.{Memᴰ}
use mathlib.Core.List.Memᴰ
use bonzai.Base.{
  ℕ, ◌≤◌, ◌≡◌, ◌∙◌, inl, inr, true, false, some, List, [], ◌∷◌, arith, mem, sym, subst, length,
}
use bonzai.Word.{is_ptr, get_ptr}
use bonzai.Vm.{Heap, HeapValue}
use bonzai.Gc.{children}
use bonzai.Gc.Reach.{Reach, here, into, marked, WellFormed}
use bonzai.Gc.Marked.{Marked, AllMarked, unmarked}

pub unmarked-le-length : (h : Heap) (xs : List ℕ) → unmarked h xs ≤ length xs
unfolding unmarked
unmarked-le-length h [] = omega arith
unmarked-le-length h (a ∷ xs) = ground (arith, unmarked-le-length h xs)

AllMarked-mem :
    (h : Heap) (vs : List ℕ) {v : ℕ}
    → AllMarked h vs
    → Memᴰ v vs
    → is_ptr v ≡ true
    → marked h (get_ptr v) ≡ true
AllMarked-mem h [] l m i = absurd (Memᴰ.not-nil m)
AllMarked-mem h (w ∷ vs) l m i = elim (Memᴰ.cases_cons m) [
  | inl e ↦ subst (λ u. is_ptr u ≡ true → marked h (get_ptr u) ≡ true) (sym e) l.0 i
  | inr t ↦ AllMarked-mem h vs l.1 t i
]

module _ (xs vs : List ℕ) (h h' : Heap) (fresh : (a : ℕ) → mem a xs ≡ true → marked h a ≡ false)
    (objects : WellFormed xs h) (done : Marked vs h h') where
  -- what a marked object points to is marked
  complete :
      {v a : ℕ}
      → (is_ptr v ≡ true → marked h' (get_ptr v) ≡ true)
      → Reach h v a
      → marked h' a ≡ true
  complete m (here i) = m i
  complete m (into {v} {o} {cs} {c} i e k j r) =
      let (ds, k', live, inside) = objects (get_ptr v) o e in
      let same : ds ≡ cs = cc in
      elim inside [
        | inr empty ↦ absurd (Memᴰ.not-nil (subst (Memᴰ c) (sym same ∙ empty) j))
        | inl listed ↦
            complete
              (AllMarked-mem h' cs
                (done.black (get_ptr v) o e (fresh (get_ptr v) listed) (m i) cs k) j)
              r
      ]

  -- After the mark phase an object of the list is marked exactly when a root leads to it.
  pub marked_iff :
      (a : ℕ)
      → mem a xs ≡ true
      → ((marked h' a ≡ true) → (v : ℕ) × Memᴰ v vs × Reach h v a)
        × ((v : ℕ) → Memᴰ v vs → Reach h v a → marked h' a ≡ true)
  marked_iff a i = (
    λ m. (elim (done.sound a m) [ inl old ↦ absurd (clash (fresh a i) old) | inr found ↦ found ]),
    λ v j r. complete (AllMarked-mem h' vs done.roots j) r,
  )
    where
      clash : marked h a ≡ false → marked h a ≡ true → ⊥
      clash e e' = cc

  -- so is what it points to, if that is in the list
  pub marked-child :
      (a : ℕ) (o : HeapValue) (cs : List ℕ)
      → mem a xs ≡ true
      → marked h' a ≡ true
      → h a ≡ some o
      → children o ≡ some cs
      → AllMarked h' cs
  marked-child a o cs i m e k = done.black a o e (fresh a i) m cs k
