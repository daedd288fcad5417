-- ===== src/Gc/Chain.antt =====
-- The list of objects that `Module.first_object` heads, and the cell that points at a place in it.
use bonzai.Base.{
  ◌↔◌, ℕ, ◌≤◌, ◌≡◌, ◌≢◌, refl, ◌∙◌, inl, inr, true, false, some, List, [], ◌∷◌, arith, mem, ◌==◌,
  ==_iff, if◌then◌else◌, Option-cases, Bool-cases, ap, sym, subst, length,
}
use bonzai.Vm.{ValueType, type_list, type_mutable, Heap, HeapValue, update}
use bonzai.Vm.Memory.{load}
use bonzai.Gc.{
  Pool, Link, head, next_of, set_next, set_mark, read_link, write_link, free_array, free_array_of,
  children, children_of,
}
use bonzai.Gc.Reach.{marked, Marks}

-- From `p` the `next` fields lead through the distinct objects of the list to NULL.
abbrev pub Chain : Heap → ℕ → List ℕ → Type 0
Chain h p [] = p ≡ 0
Chain h p (q ∷ xs) =
    (p ≡ q) × (q ≢ 0) × (mem q xs ≡ false) × ((o : HeapValue) × (h q ≡ some o) × Chain h o.next xs)

pub Chain-frame :
    {h h' : Heap} (p : ℕ) (xs : List ℕ)
    → Chain h p xs
    → ((a : ℕ) → mem a xs ≡ true → h' a ≡ h a)
    → Chain h' p xs
Chain-frame p [] c same = c
Chain-frame p (q ∷ xs) (e, ne, out, (o, here, rest)) same = (
  e,
  ne,
  out,
  (o, same q (ground arith) ∙ here, Chain-frame o.next xs rest (λ a i. same a (ground arith))),
)

-- the marked objects of a list
unfoldable pub survivors : Heap → List ℕ → List ℕ
survivors h [] = []
survivors h (a ∷ xs) = if marked h a then a ∷ survivors h xs else survivors h xs

pub survivors-frame :
    {h h' : Heap} (xs : List ℕ)
    → ((a : ℕ) → mem a xs ≡ true → h' a ≡ h a)
    → survivors h' xs ≡ survivors h xs
unfolding survivors
survivors-frame [] same = refl
survivors-frame (a ∷ xs) same =
    let rest = survivors-frame xs (λ b i. same b (ground arith)) in
    let here = same a (ground arith) in ground arith

pub not-mem-survivors :
    (h : Heap) (a : ℕ) (xs : List ℕ) → mem a xs ≡ false → mem a (survivors h xs) ≡ false
unfolding survivors
not-mem-survivors h a [] out = refl
not-mem-survivors h a (x ∷ xs) out = ground (arith, not-mem-survivors h a xs)

-- The link is not the `next` field of the object at `a`.
abbrev pub OffLink : Link → ℕ → Type 0
OffLink head a = Unit
OffLink (next_of q) a = (q == a) ≡ false

-- The link now holds `n`, and nothing else that it stands in has changed.
abbrev pub Relinked : Link → ℕ → Pool → Pool → Type 0
Relinked head n s s' = s'.first_object ≡ n
Relinked (next_of q) n s s' =
    (s'.first_object ≡ s.first_object)
    × ((o : HeapValue) → s.heap q ≡ some o → s'.heap q ≡ some (set_next n o))

pub write_link-Relinked :
    (l : Link) (n : ℕ) {p : ℕ} (s : Pool)
    → read_link s l ≡ some p
    → (s' : Pool) × (write_link s l n ≡ some s')
      × (read_link s' l ≡ some n)
      × Relinked l n s s'
      × ((a : ℕ) → OffLink l a → s'.heap a ≡ s.heap a)
      × (s'.num_objects ≡ s.num_objects)
unfolding read_link write_link load
write_link-Relinked head n s e =
    (record s { first_object = n }, refl, refl, refl, λ a _. refl, refl)
write_link-Relinked (next_of q) n s e = elim (Bool-cases (q == 0)) [
  | inl zero ↦ ground arith
  | inr pos ↦ elim (Option-cases (s.heap q)) [
    | inl gone ↦ ground arith
    | inr (o, there) ↦ (
      record s { heap = update s.heap q (some (set_next n o)) },
      ground arith,
      ground arith,
      (refl, λ o' e'. ground arith),
      λ a off. rw off refl,
      refl,
    )
  ]
]

-- An object that the mark phase can follow can be freed.
free_array_of-some :
    (t : ValueType) (o : HeapValue) (cs : List ℕ)
    → children_of t o ≡ some cs
    → free_array_of t o ≡ some tt
unfolding children_of free_array_of
free_array_of-some type_list o cs e = ground arith
free_array_of-some type_mutable o cs e = ground arith
free_array_of-some _ o cs e = refl

pub free_array-some : (o : HeapValue) (cs : List ℕ) → children o ≡ some cs → free_array o ≡ some tt
unfolding children free_array
free_array-some o cs e = free_array_of-some o.type o cs e

-- Marking leaves the `next` fields alone.
pub Chain-Marks : {h h' : Heap} (p : ℕ) (xs : List ℕ) → Marks h h' → Chain h p xs → Chain h' p xs
Chain-Marks p [] m c = c
Chain-Marks {h} p (q ∷ xs) m (e, ne, out, (o, there, rest)) = elim (m q) [
  | inl (e0, e1) ↦ cc
  | inr (o', b, e0, e1, _) ↦ (
    e,
    ne,
    out,
    (
      set_mark b o',
      e1,
      Chain-Marks o'.next xs m
          (subst (λ (x : HeapValue). Chain h x.next xs) (same_object (sym there ∙ e0)) rest),
    ),
  )
]
  where
    same_object : {o o' : HeapValue} → some o ≡ some o' → o ≡ o'
    same_object e = cc

pub mem-survivors :
    (h : Heap) (a : ℕ) (xs : List ℕ)
    → (mem a (survivors h xs) ≡ true) ↔ ((mem a xs ≡ true) × (marked h a ≡ true))
unfolding survivors
mem-survivors h a [] = ground arith
mem-survivors h a (x ∷ xs) = elim (Bool-cases (a == x)) [
  | inl e ↦
      let same = ap (marked h) ((==_iff a x).0 e) in ground (arith, mem-survivors h a xs, same)
  | inr e ↦ ground (arith, mem-survivors h a xs)
]

pub length-survivors-le : (h : Heap) (xs : List ℕ) → length (survivors h xs) ≤ length xs
unfolding survivors
length-survivors-le h [] = omega arith
length-survivors-le h (a ∷ xs) = ground (arith, length-survivors-le h xs)

children_of-set_next :
    (t : ValueType) (n : ℕ) (o : HeapValue) → children_of t (set_next n o) ≡ children_of t o
unfolding children_of
children_of-set_next type_list n o = refl
children_of-set_next _ n o = refl

pub children-set_next : (n : ℕ) (o : HeapValue) → children (set_next n o) ≡ children o
unfolding children
children-set_next n o = children_of-set_next o.type n o
