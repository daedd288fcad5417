-- ===== src/Os.antt =====
-- The calls of the operating system that the natives of bindings/src/http.c and
-- bindings/src/operations.c make. A native runs with the calls made so far, the last one first, and
-- adds its own; what a call answers is a parameter.
pub mod Sockets
pub mod Natives
use bonzai.Base.{ℕ, Bool, Option, List, ◌∷◌, if◌then◌else◌}
use bonzai.Stack.{lt_int}
use bonzai.Vm.{Module, Run, Error, ok, throw, crash, Cmd}

pub data Call : Type 0 where
  socket : Call
  bind : ℕ → ℕ → Call
  listen : ℕ → Call
  accept : ℕ → Call
  close : ℕ → Call
  recv : ℕ → Call
  send : ℕ → List ℕ → Call
  system : List ℕ → Call
  getcwd : Call
  getenv : List ℕ → Call
  fopen : List ℕ → Call
  fclose : List ℕ → Call
  stat : List ℕ → Call
  printf : List ℕ → Call
  pthread_exit : Call

-- What the calls answer, after the calls before: an `int32_t` is its pattern, so -1 is 2 ^ 32 - 1.
pub record Os : Type 0 where
  pub number : List Call → Call → ℕ
  pub text : List Call → Call → Option (List ℕ)
  pub test : List Call → Call → Bool

-- the calls made, and how the native ended
abbrev pub Io {ℓ} : Type ℓ → Type ℓ
Io A = List Call → Module → List Call × Run A

abbrev pub and_then_io {ℓ κ} :
    {A : Type ℓ} {B : Type κ} → List Call → Run A → (A → Io B) → List Call × Run B
and_then_io calls (ok a m) f = f a calls m
and_then_io calls (throw e) f = (calls, throw e)
and_then_io calls crash f = (calls, crash)

infixl 5 ◌>>=◌ ◌>>◌
abbrev pub ◌>>=◌ {ℓ κ} : {A : Type ℓ} {B : Type κ} → Io A → (A → Io B) → Io B
◌>>=◌ c f calls m = let r = c calls m in and_then_io r.0 r.1 f

abbrev pub ◌>>◌ {ℓ} : {B : Type ℓ} → Io (Unit {0}) → Io B → Io B
c >> k = c >>= λ _. k

abbrev pub lift {ℓ} : {A : Type ℓ} → Cmd A → Io A
lift c calls m = (calls, c m)

abbrev pub ask {ℓ} : {A : Type ℓ} → (List Call → Call → A) → Call → Io A
ask reply c calls m = (c ∷ calls, ok (reply calls c) m)

-- a call whose answer is not looked at
abbrev pub tell : Call → Io (Unit {0})
tell c calls m = (c ∷ calls, ok tt m)

-- `x < 0`
abbrev pub negative : ℕ → Bool
negative x = lt_int x 0
