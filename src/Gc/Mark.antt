-- ===== src/Gc/Mark.antt =====
-- The mark phase of runtime/src/value.c, `mark_value` and the loops that call it, on a heap without
-- dangling pointers.
use bonzai.Base.{
  ℕ, zero, suc, ◌<◌, ◌≡◌, refl, ◌∙◌, inl, inr, true, false, Option, some, List, [], ◌∷◌, arith,
  Bool-cases, ap,
}
use bonzai.Word.{is_ptr, get_ptr}
use bonzai.Vm.{Heap, HeapValue}
use bonzai.Vm.Memory.{load, deref}
use bonzai.Gc.{children, mark_each, mark_value, mark_object}
use bonzai.Gc.Reach.{marked, AllLive, WellFormed, AllLive-Marks, WellFormed-Marks}
use bonzai.Gc.Marked.{
  Marked, Marked-cons, Marked-nil, Marked-skip, Marked-visit, Marks-marking, marking, unmarked,
  unmarked-lt, unmarked_mono,
}

-- One call of `mark_value`, or one run of the loop, from a heap with fewer than `n` unmarked
-- objects in the list `xs`.
abbrev Marking : List ℕ → ℕ → (Heap → Option Heap) → List ℕ → Type 0
Marking xs n run vs =
    (h : Heap)
    → WellFormed xs h
    → AllLive h vs
    → unmarked h xs < n
    → (h' : Heap) × (run h ≡ some h') × Marked vs h h'

mark_each-Marking :
    (xs : List ℕ) (n : ℕ) (mark : ℕ → Heap → Option Heap)
    → ((v : ℕ) → Marking xs n (mark v) (v ∷ []))
    → (vs : List ℕ) → Marking xs n (mark_each mark vs) vs
unfolding mark_each
mark_each-Marking xs n mark one [] h w l few = (h, refl, Marked-nil h)
mark_each-Marking xs n mark one (v ∷ vs) h w l few =
    let (h1, e1, p) = one v h w (l.0, tt) few in
    let (h2, e2, q) =
      mark_each-Marking xs n mark one vs h1 (WellFormed-Marks xs p.marks w)
        (AllLive-Marks vs p.marks l.1) (omega (arith, unmarked_mono xs p.marks)) in
    (h2, rw e1 e2, Marked-cons p q)

pub lookup_of_load : (h : Heap) (p : ℕ) {o : HeapValue} → load h p ≡ some o → h p ≡ some o
unfolding load
lookup_of_load h p e = ground arith

mark_object-open :
    (mark : ℕ → Heap → Option Heap) (p : ℕ) (o : HeapValue) (h : Heap) {cs : List ℕ}
    → o.is_marked ≡ false
    → children o ≡ some cs
    → mark_object mark p o h ≡ mark_each mark cs (marking h p o)
unfolding mark_object
mark_object-open mark p o h m k = ground arith

mark_object-Marking :
    (xs : List ℕ) (n : ℕ) (mark : ℕ → Heap → Option Heap)
    → ((v : ℕ) → Marking xs n (mark v) (v ∷ []))
    → (v : ℕ) (o : HeapValue) (h : Heap) → is_ptr v ≡ true
    → h (get_ptr v) ≡ some o
    → WellFormed xs h
    → unmarked h xs < suc n
    → (h' : Heap) × (mark_object mark (get_ptr v) o h ≡ some h') × Marked (v ∷ []) h h'
unfolding mark_object mark_each
mark_object-Marking xs n mark one v o h i e w few = elim (Bool-cases o.is_marked) [
  | inl m ↦ (h, rw m, Marked-skip (λ _. rw (e, marked) m))
  | inr m ↦
      let (cs, k, live, inside) = w (get_ptr v) o e in
      let step = Marks-marking h e in
      elim inside [
        | inr empty ↦
            let leaf = k ∙ ap some empty in
            (
              marking h (get_ptr v) o,
              mark_object-open mark (get_ptr v) o h m leaf,
              Marked-visit i e leaf (Marked-nil _),
            )
        | inl listed ↦
            let fewer = unmarked-lt (get_ptr v) xs step listed (rw (e, marked) m) (ground arith) in
            let (h', e', p) =
              mark_each-Marking xs n mark one cs (marking h (get_ptr v) o)
                (WellFormed-Marks xs step w) (AllLive-Marks cs step live) (omega arith) in
            (h', mark_object-open mark (get_ptr v) o h m k ∙ e', Marked-visit i e k p)
      ]
]

mark_value-Marking : (xs : List ℕ) (n v : ℕ) → Marking xs n (mark_value n v) (v ∷ [])
unfolding mark_value deref
mark_value-Marking xs zero v h w l few = absurd (omega arith)
mark_value-Marking xs (suc n) v h w l few = elim (Bool-cases (is_ptr v)) [
  | inr i ↦ (h, rw i, Marked-skip (λ t. cc))
  | inl i ↦
      let (o, e) = l.0 i in
      let (h', e', p) =
        mark_object-Marking xs n (mark_value n) (mark_value-Marking xs n) v o h i
          (lookup_of_load h (get_ptr v) e) w few in
      (h', rw (i, e) e', p)
]

pub mark_each-Marked :
    (xs vs : List ℕ) (n : ℕ) (h : Heap)
    → WellFormed xs h
    → AllLive h vs
    → unmarked h xs < n
    → (h' : Heap) × (mark_each (mark_value n) vs h ≡ some h') × Marked vs h h'
mark_each-Marked xs vs n h = mark_each-Marking xs n (mark_value n) (mark_value-Marking xs n) vs h
