-- ===== src/Gc/Stale.antt =====
-- `sweep` of runtime/src/value.c reads `unreached->next` after `free(unreached)`. This file is about
-- the environments in which freed memory cannot be read.
use bonzai.Base.{
  ℕ, zero, suc, ◌≡◌, ◌≢◌, refl, ◌∙◌, inl, inr, true, false, none, some, List, [], ◌∷◌, arith, mem,
  ◌==◌, ==_iff, Bool-cases, Option-cases, ap, sym, subst,
}
use bonzai.Vm.{HeapValue}
use bonzai.Vm.Memory.{Env, load}
use bonzai.Gc.{Pool, Link, next_of, read_link, sweep_loop, keep_object, drop_object, free_array}
use bonzai.Gc.Reach.{marked}
use bonzai.Gc.Chain.{Chain, Chain-frame}
use bonzai.Gc.Sweep.{sweep_loop-keep, read_link-keep}
use bonzai.Gc.Swept.{listed, marked_at, marked-frame}

-- Nothing can be read from an object that was freed.
abbrev pub LosesLink : Env → Type 0
LosesLink env = (o : HeapValue) → env.stale_next o ≡ none

stale_drop :
    (env : Env) (n : ℕ) (l : Link) (s : Pool) (p : ℕ) (o : HeapValue)
    → LosesLink env
    → read_link s l ≡ some p
    → p ≢ 0
    → s.heap p ≡ some o
    → o.is_marked ≡ false
    → sweep_loop env (suc n) l s ≡ none
unfolding sweep_loop drop_object load
stale_drop env n l s p o loses at ne here m = elim (Option-cases (free_array o)) [
  | inl e ↦ ground arith
  | inr (u, e) ↦ ground (arith, loses o)
]

-- If nothing can be read from freed memory, a sweep with an unmarked object anywhere in its list
-- never completes, whatever its fuel.
pub sweep_loop-stale :
    (env : Env) (xs : List ℕ) (n : ℕ) (l : Link) (s : Pool) (p a : ℕ)
    → LosesLink env
    → read_link s l ≡ some p
    → Chain s.heap p xs
    → mem a xs ≡ true
    → marked s.heap a ≡ false
    → sweep_loop env n l s ≡ none
sweep_loop-stale env xs zero l s p a loses at chain i m = unfold sweep_loop in refl
sweep_loop-stale env [] (suc n) l s p a loses at chain i m = cc
sweep_loop-stale env (q ∷ xs) (suc n) l s p a loses at (e, ne, out, (o, here, rest)) i m =
    elim (Bool-cases o.is_marked) [
      | inr t ↦ stale_drop env n l s q o loses (at ∙ ap some e) ne here t
      | inl t ↦ elim (Bool-cases (a == q)) [
        | inl k ↦
            let clash =
              sym (marked_at s.heap here t)
              ∙ subst (λ b. marked s.heap b ≡ false) ((==_iff a q).0 k) m in
            cc
        | inr k ↦
            let same = listed q o xs s out in
            let j : mem a xs ≡ true = ground arith in
            sweep_loop-keep env n l s q o (at ∙ ap some e) ne here t
            ∙ sweep_loop-stale env xs n (next_of q) (keep_object q o s) o.next a loses
                (read_link-keep q o s ne) (Chain-frame o.next xs rest same) j
                (marked-frame s.heap (keep_object q o s).heap a (same a j) m)
      ]
    ]
