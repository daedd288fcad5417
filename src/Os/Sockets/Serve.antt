-- ===== src/Os/Sockets/Serve.antt =====
-- The sockets that are open after `start_http_server` and `accept_request` of bindings/src/http.c.
use bonzai.Base.{
  ℕ, ◌%◌, ◌^◌, ◌≡◌, ◌<◌, ◌+◌, length, inl, inr, refl, true, false, List, [], ◌∷◌, mem, ◌==◌,
  if◌then◌else◌, Bool-cases, arith,
}
use bonzai.Word.{make_integer}
use bonzai.Word.Layout.{get_int-make_integer}
use bonzai.Vm.{Module, Run, Error, ok, throw}
use bonzai.Vm.Access.{type_at-ok, assert_type}
use bonzai.Vm.TypeOf.{get_type-make_integer}
use bonzai.Maths.{arg}
use bonzai.Os.{
  Call, Os, negative, socket, bind, listen, accept, close, recv, send, system, getcwd, getenv,
  fopen, fclose, stat, printf, pthread_exit,
}
use bonzai.Os.Sockets.{integer_argument, start_http_server}

pub remove : ℕ → List ℕ → List ℕ
remove fd [] = []
remove fd (x ∷ xs) = if fd == x then remove fd xs else x ∷ remove fd xs

-- a descriptor that a call gave, unless it failed
abbrev pub opened : ℕ → List ℕ → List ℕ
opened fd fds = if negative fd then fds else fd ∷ fds

-- the sockets that are open after these calls
pub open_sockets : Os → List Call → List ℕ
unfolding remove
open_sockets os [] = []
open_sockets os (socket ∷ cs) = opened (os.number cs socket) (open_sockets os cs)
open_sockets os (accept fd ∷ cs) = opened (os.number cs (accept fd)) (open_sockets os cs)
open_sockets os (close fd ∷ cs) = remove fd (open_sockets os cs)
open_sockets os (_ ∷ cs) = open_sockets os cs

-- The system gives a descriptor that is not in use.
pub NewSockets : Os → Type 0
NewSockets os =
    (cs : List Call)
    → negative (os.number cs socket) ≡ false
    → mem (os.number cs socket) (open_sockets os cs) ≡ false

remove-new : (fd : ℕ) (xs : List ℕ) → mem fd xs ≡ false → remove fd xs ≡ xs
unfolding remove
remove-new fd [] h = refl
remove-new fd (x ∷ xs) h = ground (arith, remove-new fd xs)

remove-opened : (fd : ℕ) (xs : List ℕ) → mem fd xs ≡ false → remove fd (fd ∷ xs) ≡ xs
unfolding remove
remove-opened fd xs h = ground (arith, remove-new fd xs h)

integer_argument-ok :
    (p : ℕ) (cs : List Call) (m : Module)
    → integer_argument (make_integer p ∷ []) 1 cs m ≡ (cs, ok (p % 2 ^ 32) m)
unfolding integer_argument arg assert_type
integer_argument-ok p cs m =
    rw (type_at-ok (make_integer p) m (get_type-make_integer m.heap p), get_int-make_integer p) refl

-- a socket that is returned is open; otherwise none is left
pub data Serves (os : Os) (cs : List Call) (m : Module) : List Call × Run ℕ → Type 0 where
  serves :
      {fd : ℕ} {cs' : List Call}
      → open_sockets os cs' ≡ fd ∷ open_sockets os cs
      → Serves os cs m (cs', ok (make_integer fd) m)
  fails :
      {e : Error} {cs' : List Call}
      → open_sockets os cs' ≡ open_sockets os cs
      → Serves os cs m (cs', throw e)

-- the socket that was opened, and closed again
reopened :
    (os : Os) (cs : List Call)
    → NewSockets os
    → negative (os.number cs socket) ≡ false
    → remove (os.number cs socket) (opened (os.number cs socket) (open_sockets os cs))
      ≡ open_sockets os cs
unfolding NewSockets
reopened os cs h ok_socket = rw ok_socket (remove-opened _ (open_sockets os cs) (h cs ok_socket))

-- If the system gives descriptors that are not in use, `start_http_server` on an integer returns
-- the one socket that is open after it and was not before, or ends the process with just the
-- sockets open that were.
pub start_http_server_lem :
    (os : Os) (p : ℕ) (cs : List Call) (m : Module)
    → NewSockets os
    → Serves os cs m (start_http_server os (make_integer p ∷ []) 1 cs m)
unfolding start_http_server open_sockets
start_http_server_lem os p cs m h =
    rw (integer_argument-ok p cs m) (elim (Bool-cases (negative fd)) [
      | inl bad ↦ rw bad (fails (rw bad refl))
      | inr good ↦ rw good (elim (Bool-cases (negative (os.number (socket ∷ cs) bind_call))) [
        | inl bad ↦ rw bad (fails (reopened os cs h good))
        | inr bound ↦
            rw bound
              (elim (Bool-cases (negative (os.number (bind_call ∷ socket ∷ cs) (listen fd)))) [
                | inl bad ↦ rw bad (fails (reopened os cs h good))
                | inr listening ↦ rw listening (serves (rw good refl))
              ])
      ])
    ])
  where
    fd : ℕ
    fd = os.number cs socket

    bind_call : Call
    bind_call = bind (os.number cs socket) (p % 2 ^ 32 % 2 ^ 16)

mem-remove : (a fd : ℕ) (xs : List ℕ) → mem a (remove fd xs) ≡ true → mem a xs ≡ true
unfolding remove
mem-remove a fd [] h = h
mem-remove a fd (x ∷ xs) h = ground (arith, mem-remove a fd xs)

opened-below :
    (a fd b : ℕ) (xs : List ℕ)
    → fd < b
    → (mem a xs ≡ true → a < b)
    → mem a (opened fd xs) ≡ true
    → a < b
opened-below a fd b xs lt h i = elim (Bool-cases (negative fd)) [
  | inl bad ↦ h (rw bad at i)
  | inr good ↦ among (rw good at i)
]
  where
    among : mem a (fd ∷ xs) ≡ true → a < b
    among j = ground (arith, h)

module _ (os : Os) (rising : (cs : List Call) (c : Call) → os.number cs c ≡ 3 + length cs) where
  open-below : (cs : List Call) (a : ℕ) → mem a (open_sockets os cs) ≡ true → a < 3 + length cs
  unfolding open_sockets
  open-below [] a h = cc
  open-below (socket ∷ cs) a h =
      opened-below a _ (3 + length (socket ∷ cs)) (open_sockets os cs)
        (omega (arith, rising cs socket)) (λ i. omega (arith, open-below cs a i)) h
  open-below (accept fd ∷ cs) a h =
      opened-below a _ (3 + length (accept fd ∷ cs)) (open_sockets os cs)
        (omega (arith, rising cs (accept fd))) (λ i. omega (arith, open-below cs a i)) h
  open-below (close fd ∷ cs) a h =
      omega (arith, open-below cs a (mem-remove a fd (open_sockets os cs) h))
  open-below (bind fd p ∷ cs) a h = omega (arith, open-below cs a h)
  open-below (listen fd ∷ cs) a h = omega (arith, open-below cs a h)
  open-below (recv fd ∷ cs) a h = omega (arith, open-below cs a h)
  open-below (send fd bytes ∷ cs) a h = omega (arith, open-below cs a h)
  open-below (system c ∷ cs) a h = omega (arith, open-below cs a h)
  open-below (getcwd ∷ cs) a h = omega (arith, open-below cs a h)
  open-below (getenv c ∷ cs) a h = omega (arith, open-below cs a h)
  open-below (fopen c ∷ cs) a h = omega (arith, open-below cs a h)
  open-below (fclose c ∷ cs) a h = omega (arith, open-below cs a h)
  open-below (stat c ∷ cs) a h = omega (arith, open-below cs a h)
  open-below (printf c ∷ cs) a h = omega (arith, open-below cs a h)
  open-below (pthread_exit ∷ cs) a h = omega (arith, open-below cs a h)

  -- descriptors that rise with every call are new
  pub rising-NewSockets : NewSockets os
  unfolding NewSockets
  rising-NewSockets cs good = elim (Bool-cases (mem (os.number cs socket) (open_sockets os cs))) [
    | inl used ↦ absurd (omega (arith, open-below cs (os.number cs socket) used, rising cs socket))
    | inr free ↦ free
  ]
