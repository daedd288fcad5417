-- ===== src/Examples/Heaps.antt =====
-- A collection of the small machine's heap.
use bonzai.Base.{
  ℕ, zero, suc, ◌-◌, ◌^◌, subst, ◌≡◌, ◌<◌, refl, sym, ap, ◌∙◌, ◌⊎◌, inl, inr, true, false, none,
  some, List, [], ◌∷◌, arith, mem, take, replicate, length-replicate, Bool-cases, ==_iff, ◌==◌,
}
use bonzai.Word.{is_ptr, get_ptr, make_ptr, make_integer}
use bonzai.Word.Layout.{is_ptr_lem, is_ptr-make_integer, get_ptr-make_ptr}
use bonzai.Stack.{max_stack_size}
use bonzai.Vm.{HeapValue, Module, ok, crash}
use bonzai.Vm.Memory.{load}
use bonzai.Gc.{head, read_link, children, sweep_loop, pool_of, gc}
use bonzai.Gc.Reach.{AllLive, WellFormed, marked}
use bonzai.Gc.Marked.{Marked, unmarked}
use bonzai.Gc.Chain.{Chain}
use bonzai.Gc.Collect.{Garbage, AllOnStack, gc_lem}
use bonzai.Gc.Collected.{Consistent, Collected}
use bonzai.Gc.Stale.{sweep_loop-stale}
use bonzai.Examples.Machine.{strict_env, machine, heap, a_stack, pair, text, cell}

abbrev pub objects : List ℕ
objects = 16 ∷ 32 ∷ 48 ∷ []

live_word :
    (p : ℕ) {o : HeapValue}
    → p < 2 ^ 48
    → load heap p ≡ some o
    → load heap (get_ptr (make_ptr p)) ≡ some o
live_word p small e = ap (load heap) (get_ptr-make_ptr p small) ∙ e

-- what `WellFormed` asks of the object at an address
abbrev Followed : ℕ → HeapValue → Type 0
Followed a o =
    (cs : List ℕ) × (children o ≡ some cs) × AllLive heap cs × ((mem a objects ≡ true) ⊎ (cs ≡ []))

followed :
    (a b : ℕ) (o o' : HeapValue) → (a == b) ≡ true → Followed b o → some o ≡ some o' → Followed a o'
followed a b o o' k f e =
    let same : o ≡ o' = cc in
    let there : b ≡ a = sym ((==_iff a b).0 k) in
    subst (λ c. Followed c o') there (subst (Followed b) same f)

heap-WellFormed : WellFormed objects heap
unfolding children load
heap-WellFormed a o e = elim (Bool-cases (a == 16)) [
  | inl k ↦
      followed a 16 pair o k
        (
          make_ptr 32 ∷ make_integer 7 ∷ [],
          refl,
          (λ _. (text, live_word 32 (omega arith) refl), (λ i. absurd (not_pointer i), tt)),
          inl refl,
        )
        (ground arith)
  | inr k1 ↦ elim (Bool-cases (a == 32)) [
    | inl k ↦ followed a 32 text o k ([], refl, tt, inl refl) (ground arith)
    | inr k2 ↦ elim (Bool-cases (a == 48)) [
      | inl k ↦
          followed a 48 cell o k
            (make_ptr 48 ∷ [], refl, (λ _. (cell, live_word 48 (omega arith) refl), tt), inl refl)
            (ground arith)
      | inr k3 ↦ ground arith
    ]
  ]
]
  where
    not_pointer : is_ptr (make_integer 7) ≡ true → ⊥
    not_pointer i = let no = is_ptr-make_integer 7 in cc

zeros-AllLive : (n k : ℕ) → AllLive heap (take n (replicate k 0))
zeros-AllLive zero k = tt
zeros-AllLive (suc n) zero = tt
zeros-AllLive (suc n) (suc k) = (λ i. absurd (not_pointer i), zeros-AllLive n k)
  where
    not_pointer : is_ptr 0 ≡ true → ⊥
    not_pointer i = ground (arith, is_ptr_lem 0)

abbrev pub start : Module
start = machine a_stack heap

heap-Chain : Chain heap 16 objects
heap-Chain = (
  refl,
  omega arith,
  refl,
  (
    pair,
    refl,
    (refl, omega arith, refl, (text, refl, (refl, omega arith, refl, (cell, refl, refl)))),
  ),
)

unmarked_at : (a : ℕ) → mem a objects ≡ true → marked heap a ≡ false
unmarked_at a i = elim (Bool-cases (a == 16)) [
  | inl k ↦ at 16 k refl
  | inr k1 ↦ elim (Bool-cases (a == 32)) [
    | inl k ↦ at 32 k refl
    | inr k2 ↦ elim (Bool-cases (a == 48)) [ inl k ↦ at 48 k refl | inr k3 ↦ ground arith ]
  ]
]
  where
    at : (b : ℕ) → (a == b) ≡ true → marked heap b ≡ false → marked heap a ≡ false
    at b k e = subst (λ c. marked heap c ≡ false) (sym ((==_iff a b).0 k)) e

pub start-Consistent : Consistent objects start
unfolding load
start-Consistent = record {
  chain = heap-Chain;
  unmarked = unmarked_at;
  objects = heap-WellFormed;
  slots = omega (arith, length-replicate {A = ℕ} (max_stack_size - 1) 0);
  live = (λ _. (pair, live_word 16 (omega arith) refl), zeros-AllLive 32767 32767);
  counted = refl;
  small = omega arith;
}

gc_lem_example :
    (AllOnStack objects start
      × (m' : Module) × (gc strict_env start ≡ ok tt m')
      × Collected objects objects start m')
    ⊎ (Garbage objects start × (gc strict_env start ≡ crash))
gc_lem_example = gc_lem strict_env objects start start-Consistent (omega arith) (λ o. refl)

sweep_loop-stale_example : sweep_loop strict_env 4 head (pool_of start) ≡ none
unfolding read_link
sweep_loop-stale_example =
    sweep_loop-stale strict_env objects 4 head (pool_of start) 16 48 (λ o. refl) refl heap-Chain
      refl refl
