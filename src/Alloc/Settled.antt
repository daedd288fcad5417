-- ===== src/Alloc/Settled.antt =====
-- The collection that is due before an allocation of runtime/src/value.c, and live words.
use mathlib.Core.List.{Memᴰ}
use mathlib.Core.List.Memᴰ
use bonzai.Base.{
  ℕ, ◌^◌, ◌≤◌, ◌<◌, ◌≡◌, ◌≢◌, refl, sym, ap, ◌⊎◌, inl, inr, ==_iff, true, none, some, List, [], ◌∷◌,
  arith, ◌==◌, Bool-cases, if◌then◌else◌, subst, length, take,
}
use bonzai.Word.{is_ptr, get_ptr}
use bonzai.Vm.{Heap, HeapValue, Module, Run, ok, crash, pure}
use bonzai.Vm.Memory.{Env, load}
use bonzai.Gc.{gc}
use bonzai.Gc.Reach.{AllLive}
use bonzai.Gc.Stale.{LosesLink}
use bonzai.Gc.Collected.{Consistent}
use bonzai.Gc.Collect.{Garbage, gc_lem}

-- `malloc` gives NULL, or a 48-bit address where nothing lives.
unfoldable pub Malloc : Env → Type 0
Malloc env = (h : Heap) → env.malloc h ≢ 0 → (env.malloc h < 2 ^ 48) × (h (env.malloc h) ≡ none)

-- the collection that is due, or none
unfoldable pub due : Env → Module → Run (Unit {0})
due env m = (if m.num_objects == m.max_objects then gc env else pure tt) m

-- the state in which the object is allocated
pub record Settled (env : Env) (m : Module) : Type 0 where
  pub state : Module
  pub objects : List ℕ
  pub run : due env m ≡ ok tt state
  pub consistent : Consistent objects state
  pub stack : state.stack ≡ m.stack
  pub fewer : state.num_objects ≤ m.num_objects

-- A collection is due, finds an object to free, and reads it after that.
pub record Undefined (env : Env) (xs : List ℕ) (m : Module) : Type 0 where
  pub full : m.num_objects ≡ m.max_objects
  pub garbage : Garbage xs m
  pub run : due env m ≡ crash

pub settled :
    (env : Env) (xs : List ℕ) (m : Module)
    → LosesLink env
    → Consistent xs m
    → m.num_objects < env.c_stack
    → Settled env m ⊎ Undefined env xs m
unfolding due
settled env xs m loses c deep = elim (Bool-cases (m.num_objects == m.max_objects)) [
  | inl full ↦ elim (gc_lem env xs m c deep loses) [
    | inl (all, k, e, d) ↦ inl (record {
      state = k;
      objects = xs;
      run = rw full e;
      consistent = d.consistent;
      stack = d.stack;
      fewer = d.fewer;
    })
    | inr (g, e) ↦ inr (record {
      full = (==_iff m.num_objects m.max_objects).0 full;
      garbage = g;
      run = rw full e;
    })
  ]
  | inr room ↦ inl (record {
    state = m;
    objects = xs;
    run = rw room refl;
    consistent = c;
    stack = refl;
    fewer = omega arith;
  })
]

AllLive-mem : (h : Heap) (vs : List ℕ) (v : ℕ) → AllLive h vs → Memᴰ v vs → AllLive h (v ∷ [])
AllLive-mem h [] v l i = absurd (Memᴰ.not-nil i)
AllLive-mem h (w ∷ vs) v l i = elim (Memᴰ.cases_cons i) [
  | inl e ↦ (
    subst (λ u. is_ptr u ≡ true → (o : HeapValue) × (load h (get_ptr u) ≡ some o)) (sym e) l.0,
    tt,
  )
  | inr t ↦ AllLive-mem h vs v l.1 t
]

-- words from among live ones are live
pub AllLive-among :
    (h : Heap) (vs ws : List ℕ) → AllLive h vs → ((v : ℕ) → Memᴰ v ws → Memᴰ v vs) → AllLive h ws
AllLive-among h vs [] l among = tt
AllLive-among h vs (w ∷ ws) l among = (
  (AllLive-mem h vs w l (among w (Memᴰ.head refl))).0,
  AllLive-among h vs ws l (λ v i. among v (Memᴰ.tail i)),
)

pub take_all : (xs : List ℕ) → take (length xs) xs ≡ xs
take_all [] = refl
take_all (x ∷ xs) = ap (λ l. x ∷ l) (take_all xs)
