-- ===== src/Gc/Added.antt =====
-- A consistent state stays one when an object is added in front of the list of objects.
use bonzai.Base.{
  ℕ, suc, ◌<◌, ◌≤◌, ◌^◌, holds-some, take, ◌≡◌, ◌≢◌, refl, sym, ap, ◌∙◌, inl, inr, true, false,
  none, some, List, [], ◌∷◌, arith, mem, ◌==◌, ==_iff, Bool-cases, subst, length,
}
use bonzai.Word.{get_ptr}
use bonzai.Stack.{max_stack_size}
use bonzai.Vm.{Heap, HeapValue, Module}
use bonzai.Vm.Memory.{load}
use bonzai.Gc.{children}
use bonzai.Gc.Reach.{marked, AllLive, WellFormed}
use bonzai.Gc.Chain.{Chain, Chain-frame}
use bonzai.Gc.Collected.{Consistent, roots}

-- What was there is there.
abbrev pub Extends : Heap → Heap → Type 0
Extends h h' = (a : ℕ) (o : HeapValue) → h a ≡ some o → h' a ≡ some o

pub AllLive-Extends : {h h' : Heap} (vs : List ℕ) → Extends h h' → AllLive h vs → AllLive h' vs
unfolding load
AllLive-Extends [] e l = tt
AllLive-Extends {h} {h'} (v ∷ vs) e l = (λ i. live (l.0 i), AllLive-Extends vs e l.1)
  where
    live :
        (o : HeapValue) × (load h (get_ptr v) ≡ some o)
        → (o : HeapValue) × (load h' (get_ptr v) ≡ some o)
    live (o, there) = (o, ground (arith, e (get_ptr v) o))

Chain-there :
    (h : Heap) (p : ℕ) (xs : List ℕ) (a : ℕ)
    → Chain h p xs
    → mem a xs ≡ true
    → (o : HeapValue) × (h a ≡ some o)
Chain-there h p [] a c i = cc
Chain-there h p (q ∷ xs) a (e, ne, out, (o, here, rest)) i = elim (Bool-cases (a == q)) [
  | inl same ↦ (o, ap h ((==_iff a q).0 same) ∙ here)
  | inr other ↦ Chain-there h o.next xs a rest (ground arith)
]

-- The state `n` is `m` with the object `o` at `p` in front, whose words are `cs`.
pub record Added (p : ℕ) (o : HeapValue) (cs : List ℕ) (m n : Module) : Type 0 where
  pub address : p ≢ 0
  pub free : m.heap p ≡ none
  pub here : n.heap p ≡ some o
  pub others : (a : ℕ) → (a == p) ≡ false → n.heap a ≡ m.heap a
  pub first : n.first_object ≡ p
  pub next : o.next ≡ m.first_object
  pub unmarked : o.is_marked ≡ false
  pub words : children o ≡ some cs
  pub live : AllLive m.heap cs
  pub stack : n.stack ≡ m.stack
  pub counted : n.num_objects ≡ suc m.num_objects

module _ (p : ℕ) (o : HeapValue) (cs xs : List ℕ) (m n : Module) (d : Added p o cs m n)
    (c : Consistent xs m) where
  extends : Extends m.heap n.heap
  extends a x e = elim (Bool-cases (a == p)) [
    | inl same ↦ absurd (taken ((==_iff a p).0 same))
    | inr other ↦ d.others a other ∙ e
  ]
    where
      taken : a ≡ p → ⊥
      taken q = cc (e, ap m.heap q, d.free)

  is_new : mem p xs ≡ false
  is_new = elim (Bool-cases (mem p xs)) [
    | inl i ↦
        absurd (let (x, e) = Chain-there m.heap m.first_object xs p c.chain i in cc (e, d.free))
    | inr out ↦ out
  ]

  elsewhere : (a : ℕ) → mem a xs ≡ true → (a == p) ≡ false
  elsewhere a i = elim (Bool-cases (a == p)) [
    | inl same ↦ absurd (cc (ap (λ k. mem k xs) ((==_iff a p).0 same), i, is_new))
    | inr other ↦ other
  ]

  kept-same : (a : ℕ) → mem a xs ≡ true → n.heap a ≡ m.heap a
  kept-same a i = d.others a (elsewhere a i)

  objects_added : WellFormed (p ∷ xs) n.heap
  objects_added a x e = elim (Bool-cases (a == p)) [
    | inl same ↦
        let it = sym d.here ∙ ap n.heap (sym ((==_iff a p).0 same)) ∙ e in
        (
          cs,
          holds-some (λ y. children y ≡ some cs) d.words it,
          AllLive-Extends cs extends d.live,
          inl (rw same refl),
        )
    | inr other ↦
        let (ks, k, live, inside) = c.objects a x (sym (d.others a other) ∙ e) in
        (
          ks,
          k,
          AllLive-Extends ks extends live,
          elim inside [ inl i ↦ inl (rw (other, i) refl) | inr empty ↦ inr empty ],
        )
  ]

  unmarked_added : (a : ℕ) → mem a (p ∷ xs) ≡ true → marked n.heap a ≡ false
  unmarked_added a i = elim (Bool-cases (a == p)) [
    | inl same ↦ rw (ap n.heap ((==_iff a p).0 same) ∙ d.here, marked) d.unmarked
    | inr other ↦ let j = rw other at i in rw (kept-same a j, marked) (c.unmarked a j)
  ]

  pub Added-Consistent : suc m.num_objects < 2 ^ 29 → Consistent (p ∷ xs) n
  Added-Consistent small = record {
    chain = (
      d.first,
      d.address,
      is_new,
      (
        o,
        d.here,
        subst (λ q. Chain n.heap q xs) (sym d.next)
            (Chain-frame m.first_object xs c.chain kept-same),
      ),
    );
    unmarked = unmarked_added;
    objects = objects_added;
    slots = subst (λ s. max_stack_size ≤ length s.values) (sym d.stack) c.slots;
    live =
        subst (λ s. AllLive n.heap (take max_stack_size s.values)) (sym d.stack)
          (AllLive-Extends (roots m) extends c.live);
    counted = d.counted ∙ ap suc c.counted;
    small = omega (arith, d.counted);
  }
