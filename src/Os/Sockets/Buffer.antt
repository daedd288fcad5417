-- ===== src/Os/Sockets/Buffer.antt =====
-- `get_buffer` of bindings/src/http.c receives through a pointer that nobody has set.
use bonzai.Base.{ℕ, ◌≡◌, refl, true, List, [], ◌∷◌, Bool-cases, inl, inr}
use bonzai.Vm.{Module, Run, Error, ok, throw, crash, type_string}
use bonzai.Vm.Memory.{Env}
use bonzai.Alloc.{allocate, make_string}
use bonzai.Alloc.Blank.{Blank, blank, allocate-Blank}
use bonzai.Os.{Call, Os, and_then_io, lift, negative, recv, ◌>>=◌}
use bonzai.Os.Sockets.{integer_argument, get_buffer, with_buffer}

-- How the native ends: with the process, in undefined behaviour, or, after a `recv` that failed,
-- with what `MAKE_STRING` of the empty string returned.
pub data Buffers (env : Env) (os : Os) : List Call × Run ℕ → Type 0 where
  ends : {cs : List Call} {e : Error} → Buffers env os (cs, throw e)
  is_undefined : {cs : List Call} → Buffers env os (cs, crash)
  is_empty :
      {cs : List Call} {fd v : ℕ} {n : Module} (m : Module)
      → negative (os.number cs (recv fd)) ≡ true
      → make_string env [] m ≡ ok v n
      → Buffers env os (recv fd ∷ cs, ok v n)

failed :
    (env : Env) (os : Os) (fd : ℕ) (cs : List Call) (m : Module)
    → negative (os.number cs (recv fd)) ≡ true
    → (r : Run ℕ) → make_string env [] m ≡ r
    → Buffers env os (recv fd ∷ cs, r)
failed env os fd cs m neg (ok v n) e = is_empty m neg e
failed env os fd cs m neg (throw x) e = ends
failed env os fd cs m neg crash e = is_undefined

allocated :
    (env : Env) (os : Os) (fd : ℕ) (cs : List Call) (r : Run ℕ)
    → Blank r
    → Buffers env os (and_then_io cs r (with_buffer env os fd))
unfolding with_buffer
allocated env os fd cs r (blank there unset) =
    elim (Bool-cases (negative (os.number cs (recv fd)))) [
      | inl neg ↦ rw (there, neg) (failed env os fd cs _ neg _ refl)
      | inr got ↦ rw (there, got, unset) is_undefined
    ]
allocated env os fd cs r Blank.throws = ends
allocated env os fd cs r Blank.crashes = is_undefined

argument :
    (env : Env) (os : Os) (cs : List Call) (r : Run ℕ)
    → Buffers env os
        (and_then_io cs r (λ fd. lift (allocate env type_string) >>= with_buffer env os fd))
argument env os cs (ok fd m) =
    allocated env os fd cs (allocate env type_string m) (allocate-Blank env type_string m)
argument env os cs (throw e) = ends
argument env os cs crash = is_undefined

-- `get_buffer` ends the process, or in undefined behaviour, or comes back after a `recv` that
-- failed with what making the empty string returned; whatever is received, it never comes back
-- with it.
pub get_buffer_lem :
    (env : Env) (os : Os) (args : List ℕ) (argc : ℕ) (cs : List Call) (m : Module)
    → Buffers env os (get_buffer env os args argc cs m)
unfolding get_buffer
get_buffer_lem env os args argc cs m =
    let r = integer_argument args argc cs m in argument env os (r.0) (r.1)
