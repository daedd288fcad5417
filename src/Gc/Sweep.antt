-- ===== src/Gc/Sweep.antt =====
-- `sweep` of runtime/src/value.c on the list of objects, for the environments in which the `next`
-- field of an object that was just freed can still be read.
use bonzai.Base.{
  ℕ, zero, suc, ◌^◌, ◌≤◌, ◌<◌, ◌≡◌, ◌≢◌, refl, ◌∙◌, inl, inr, true, false, none, some, List, [],
  ◌∷◌, arith, mem, ◌==◌, ==_iff, Bool-cases, ap, sym, subst, length,
}
use bonzai.Vm.{Heap, HeapValue, update}
use bonzai.Vm.Memory.{Env, load}
use bonzai.Gc.{
  Pool, Link, head, next_of, set_next, read_link, write_link, free_array, sweep_loop, keep_object,
  drop_object, decrease,
}
use bonzai.Gc.Chain.{
  Chain, Chain-frame, survivors, survivors-frame, OffLink, Relinked, write_link-Relinked,
}
use bonzai.Gc.Swept.{
  Swept, Swept-keep, Freeable, KeepsLink, Outside, Swept-nil, listed, marked-frame, marked_at,
}

Outside-OffLink : (l : Link) (ys : List ℕ) (a : ℕ) → Outside l ys → mem a ys ≡ true → OffLink l a
Outside-OffLink head ys a apart i = tt
Outside-OffLink (next_of q) ys a apart i = elim (Bool-cases (q == a)) [
  | inl e ↦ let same = (==_iff q a).0 e in cc
  | inr e ↦ e
]

Relinked-trans :
    (l : Link) (n n' : ℕ) (s s1 s2 : Pool)
    → Relinked l n s s1
    → Relinked l n' s1 s2
    → Relinked l n' s s2
Relinked-trans head n n' s s1 s2 p q = q
Relinked-trans (next_of k) n n' s s1 s2 p q = (q.0 ∙ p.0, λ o e. q.1 (set_next n o) (p.1 o e))

-- the pool after the object at `p` is freed
abbrev without : ℕ → Pool → Pool
without p s = record s { heap = update s.heap p none; num_objects = decrease s.num_objects }

Relinked-without :
    (l : Link) (n p : ℕ) (s s2 : Pool)
    → OffLink l p
    → Relinked l n (without p s) s2
    → Relinked l n s s2
Relinked-without head n p s s2 off re = re
Relinked-without (next_of q) n p s s2 off re = (re.0, λ o e. re.1 o (ground arith))

unchanged :
    (l : Link) (p : ℕ) (xs : List ℕ) (s s2 : Pool)
    → Outside l (p ∷ xs)
    → mem p xs ≡ false
    → ((a : ℕ) → OffLink l a → s2.heap a ≡ (without p s).heap a)
    → (a : ℕ) → mem a xs ≡ true
    → s2.heap a ≡ s.heap a
unchanged l p xs s s2 apart out off a i =
    off a (Outside-OffLink l (p ∷ xs) a apart (ground arith))
    ∙ (elim (Bool-cases (p == a)) [ inl e ↦ let same = (==_iff p a).0 e in cc | inr e ↦ rw e refl ])

off_head : (l : Link) (p : ℕ) (xs : List ℕ) → Outside l (p ∷ xs) → OffLink l p
off_head l p xs apart = Outside-OffLink l (p ∷ xs) p apart (ground arith)

-- The chain's head is not marked: it is freed, and the link skips it.
module _ (l : Link) (p : ℕ) (o : HeapValue) (xs : List ℕ) (s s2 s' : Pool)
    (apart : Outside l (p ∷ xs)) (here : s.heap p ≡ some o) (out : mem p xs ≡ false)
    (m : o.is_marked ≡ false) (re : Relinked l o.next (without p s) s2)
    (off : (a : ℕ) → OffLink l a → s2.heap a ≡ (without p s).heap a)
    (num : s2.num_objects ≡ decrease s.num_objects) (few : suc (length xs) ≤ s.num_objects)
    (small : s.num_objects < 2 ^ 32) (r : Swept l xs s2 s') where
  Swept-drop : Swept l (p ∷ xs) s s'
  unfolding survivors
  Swept-drop = record {
    first = r.first;
    link = r.link;
    relinked =
        Relinked-trans l o.next r.first s s2 s'
          (Relinked-without l o.next p s s2 (off_head l p xs apart) re) r.relinked;
    chain =
        rw (marked_at s.heap here m)
          (subst (Chain s'.heap r.first) (survivors-frame xs same) r.chain);
    kept = λ a o' i e m'. elim (Bool-cases (a == p)) [
      | inl k ↦ absurd (not_head a o' ((==_iff a p).0 k) e m')
      | inr k ↦ let j = in_rest a k i in r.kept a o' j (same a j ∙ e) m'
    ];
    freed = λ a i e. elim (Bool-cases (a == p)) [
      | inl k ↦ subst (λ b. s'.heap b ≡ none) (sym ((==_iff a p).0 k)) gone
      | inr k ↦ let j = in_rest a k i in r.freed a j (marked-frame s.heap s2.heap a (same a j) e)
    ];
    same = λ a i k. r.same a (ground arith) k ∙ off a k ∙ ground arith;
    count =
        rw (marked_at s.heap here m)
          (omega (arith, r.count, num, ap length (survivors-frame xs same)));
  }
    where
      same : (a : ℕ) → mem a xs ≡ true → s2.heap a ≡ s.heap a
      same = unchanged l p xs s s2 apart out off

      in_rest : (a : ℕ) → (a == p) ≡ false → mem a (p ∷ xs) ≡ true → mem a xs ≡ true
      in_rest a k i = ground arith

      not_head : (a : ℕ) (o' : HeapValue) → a ≡ p → s.heap a ≡ some o' → o'.is_marked ≡ true → ⊥
      not_head a o' k e t = let same : o ≡ o' = cc in cc (ap (λ (x : HeapValue). x.is_marked) same)

      gone : s'.heap p ≡ none
      gone = r.same p out (off_head l p xs apart) ∙ off p (off_head l p xs apart) ∙ ground arith

pub read_link-keep :
    (p : ℕ) (o : HeapValue) (s : Pool)
    → p ≢ 0
    → read_link (keep_object p o s) (next_of p) ≡ some o.next
unfolding read_link load keep_object
read_link-keep p o s ne = ground arith

Freeable-frame :
    (q : ℕ) (xs : List ℕ) (h h' : Heap)
    → Freeable (q ∷ xs) h
    → ((a : ℕ) → mem a xs ≡ true → h' a ≡ h a)
    → Freeable xs h'
Freeable-frame q xs h h' f same a o i e = f a o (ground arith) (sym (same a i) ∙ e)

Outside-tail : (l : Link) (q : ℕ) (xs : List ℕ) → Outside l (q ∷ xs) → Outside l xs
Outside-tail head q xs apart = tt
Outside-tail (next_of k) q xs apart = ground arith

read_link-without :
    (l : Link) (p : ℕ) (s : Pool) → OffLink l p → read_link (without p s) l ≡ read_link s l
unfolding read_link load
read_link-without head p s off = refl
read_link-without (next_of q) p s off = ground arith

module _ (env : Env) (n : ℕ) (l : Link) (s : Pool) (p : ℕ) (o : HeapValue)
    (at : read_link s l ≡ some p) (ne : p ≢ 0) (here : s.heap p ≡ some o) where
  pub sweep_loop-keep :
      o.is_marked ≡ true
      → sweep_loop env (suc n) l s ≡ sweep_loop env n (next_of p) (keep_object p o s)
  unfolding sweep_loop load
  sweep_loop-keep m = ground arith

  sweep_loop-drop :
      {s2 : Pool}
      → o.is_marked ≡ false
      → free_array o ≡ some tt
      → env.stale_next o ≡ some o.next
      → write_link (without p s) l o.next ≡ some s2
      → sweep_loop env (suc n) l s ≡ sweep_loop env n l s2
  unfolding sweep_loop load drop_object
  sweep_loop-drop m f stale w = ground arith

pub sweep_loop-Swept :
    (env : Env) (xs : List ℕ) (n : ℕ) (l : Link) (s : Pool) (p : ℕ)
    → KeepsLink env
    → read_link s l ≡ some p
    → Chain s.heap p xs
    → Outside l xs
    → Freeable xs s.heap
    → length xs < n
    → length xs ≤ s.num_objects
    → s.num_objects < 2 ^ 32
    → (s' : Pool) × (sweep_loop env n l s ≡ some s') × Swept l xs s s'
unfolding sweep_loop
sweep_loop-Swept env xs zero l s p keeps at chain apart freeable fuel few small =
    absurd (omega arith)
sweep_loop-Swept env [] (suc n) l s p keeps at chain apart freeable fuel few small =
    (s, ground arith, Swept-nil l s (at ∙ ap some chain))
sweep_loop-Swept env (q ∷ xs) (suc n) l s p keeps at (e, ne, out, (o, here, rest)) apart freeable
      fuel few small =
    elim (Bool-cases o.is_marked) [
      | inl m ↦
          let s1 = keep_object q o s in
          let same = listed q o xs s out in
          let (s', done, r) =
            sweep_loop-Swept env xs n (next_of q) s1 o.next keeps (read_link-keep q o s ne)
              (Chain-frame o.next xs rest same) out
              (Freeable-frame q xs s.heap s1.heap freeable same) (omega arith) (omega arith)
              small in
          (
            s',
            sweep_loop-keep env n l s q o (at ∙ ap some e) ne here m ∙ done,
            Swept-keep l q o xs s s' (at ∙ ap some e) apart here ne out m r,
          )
      | inr m ↦
          let off_q = off_head l q xs apart in
          let (s2, w, read, re, off, num) =
            write_link-Relinked l o.next (without q s) (read_link-without l q s off_q ∙ at) in
          let same = unchanged l q xs s s2 apart out off in
          let (s', done, r) =
            sweep_loop-Swept env xs n l s2 o.next keeps read (Chain-frame o.next xs rest same)
              (Outside-tail l q xs apart) (Freeable-frame q xs s.heap s2.heap freeable same)
              (omega arith) (omega (arith, num)) (omega (arith, num)) in
          (
            s',
            sweep_loop-drop env n l s q o (at ∙ ap some e) ne here m
                  (freeable q o (ground arith) here) (keeps o) w
                ∙ done,
            Swept-drop l q o xs s s2 s' apart here out m re off num few small r,
          )
    ]
