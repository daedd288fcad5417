-- ===== src/Alloc/Blank.antt =====
-- A new object of runtime/src/value.c holds nothing yet.
use bonzai.Base.{ℕ, ◌≡◌, refl, some, ◌==◌, if◌then◌else◌, true, false, Bool-cases, inl, inr, arith}
use bonzai.Vm.{
  Module, HeapValue, Run, Error, ok, throw, crash, pure, and_then, uninitialised, ValueType,
}
use bonzai.Vm.Memory.{Env, load}
use bonzai.Gc.{gc}
use bonzai.Alloc.{allocate_object, allocate}

-- If the run returns an address, the object there has its union unset.
pub data Blank : Run ℕ → Type 0 where
  blank :
      {p : ℕ} {n : Module} {o : HeapValue}
      → load n.heap p ≡ some o
      → o.payload ≡ uninitialised
      → Blank (ok p n)
  throws : {e : Error} → Blank (throw e)
  crashes : Blank crash

allocate_object-Blank : (env : Env) (t : ValueType) (m : Module) → Blank (allocate_object env t m)
unfolding allocate_object load
allocate_object-Blank env t m = elim (Bool-cases (env.malloc m.heap == 0)) [
  | inl no_memory ↦ rw no_memory crashes
  | inr found ↦ rw found (blank {o = new_object} (rw (found, same (env.malloc m.heap)) refl) refl)
]
  where
    new_object : HeapValue
    new_object = record {
      type = t;
      size = env.junk;
      is_marked = false;
      next = m.first_object;
      payload = uninitialised;
    }

    same : (p : ℕ) → (p == p) ≡ true
    same p = ground arith

after_gc :
    (env : Env) (t : ValueType) (r : Run (Unit {0}))
    → Blank (and_then r (λ _. allocate_object env t))
after_gc env t (ok u n) = allocate_object-Blank env t n
after_gc env t (throw e) = throws
after_gc env t crash = crashes

pub allocate-Blank : (env : Env) (t : ValueType) (m : Module) → Blank (allocate env t m)
unfolding allocate
allocate-Blank env t m =
    after_gc env t ((if m.num_objects == m.max_objects then gc env else pure tt) m)
