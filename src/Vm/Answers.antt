-- ===== src/Vm/Answers.antt =====
-- Commands that only look at the machine, and those among them that answer a question: `Looks` and
-- `Answers`, with one rule for each way to build them.
use bonzai.Base.{
  ◌≡◌, ◌⊎◌, inl, inr, refl, subst, ℕ, Bool, true, false, Option, none, some, if◌then◌else◌,
}
use bonzai.Word.{make_integer, int_of, get_int}
use bonzai.Vm.{
  Module, Error, Run, ok, throw, crash, Cmd, and_then, ◌>>=◌, pure, fail, or_crash, assert,
  type_integer,
}
use bonzai.Vm.TypeOf.{get_type, get_type-make_integer}
use bonzai.Word.Layout.{get_int-make_integer}
use bonzai.Vm.Access.{type_at, object_at, get_string, list_elements, get_mutable}

-- If the run returns, it leaves `m` itself.
pub data Unchanged {A : Type 0} (m : Module) : Run A → Type 0 where
  returns : {a : A} → Unchanged m (ok a m)
  throws : {e : Error} → Unchanged m (throw e)
  crashes : Unchanged m crash

pub record Looks {A : Type 0} (c : Cmd A) : Type 0 where
  pub at : (m : Module) → Unchanged m (c m)

-- If the run returns, it leaves `m` itself, and the word is the integer 1 or the integer 0.
pub data Answered (m : Module) : Run ℕ → Type 0 where
  says : (b : Bool) → Answered m (ok (make_integer (int_of b)) m)
  no_answer : {e : Error} → Answered m (throw e)
  undefined : Answered m crash

pub record Answers (c : Cmd ℕ) : Type 0 where
  pub at : (m : Module) → Answered m (c m)

pub Answers-Looks : (c : Cmd ℕ) → Answers c → Looks c
Answers-Looks c h = record { at = λ m. forget (h.at m) }
  where
    forget : {m : Module} {r : Run ℕ} → Answered m r → Unchanged m r
    forget (says b) = returns
    forget no_answer = throws
    forget undefined = crashes

Looks-then :
    {A B : Type 0} {m : Module} {r : Run A} (f : A → Cmd B)
    → Unchanged m r
    → ((a : A) → Looks (f a))
    → Unchanged m (and_then r f)
Looks-then {m = m} f (returns {a}) h = (h a).at m
Looks-then f throws h = throws
Looks-then f crashes h = crashes

pub Looks-bind :
    {A B : Type 0} (c : Cmd A) (f : A → Cmd B) → Looks c → ((a : A) → Looks (f a)) → Looks (c >>= f)
Looks-bind c f h k = record { at = λ m. Looks-then f (h.at m) k }

Answers-then :
    {A : Type 0} {m : Module} {r : Run A} (f : A → Cmd ℕ)
    → Unchanged m r
    → ((a : A) → Answers (f a))
    → Answered m (and_then r f)
Answers-then {m = m} f (returns {a}) h = (h a).at m
Answers-then f throws h = no_answer
Answers-then f crashes h = undefined

pub Answers-bind :
    {A : Type 0} (c : Cmd A) (f : A → Cmd ℕ)
    → Looks c
    → ((a : A) → Answers (f a))
    → Answers (c >>= f)
Answers-bind c f h k = record { at = λ m. Answers-then f (h.at m) k }

pub Looks-pure : {A : Type 0} (a : A) → Looks (pure a)
Looks-pure a = record { at = λ m. returns }

pub Looks-crash : {A : Type 0} → Looks {A = A} (λ m. crash)
Looks-crash = record { at = λ m. crashes }

pub Looks-or_crash : {A : Type 0} (o : Option A) → Looks (or_crash o)
Looks-or_crash none = record { at = λ m. crashes }
Looks-or_crash (some a) = record { at = λ m. returns }

pub Looks-read : {A : Type 0} (f : Module → Option A) → Looks (λ m. or_crash (f m) m)
Looks-read f = record { at = λ m. (Looks-or_crash (f m)).at m }

pub Looks-if :
    {A : Type 0} (b : Bool) (c d : Cmd A) → Looks c → Looks d → Looks (if b then c else d)
Looks-if true c d h k = h
Looks-if false c d h k = k

pub Looks-fail : {A : Type 0} (e : Error) → Looks (fail {A = A} e)
Looks-fail e = record { at = λ m. throws }

pub Looks-assert : (b : Bool) (e : Error) → Looks (assert b e)
Looks-assert true e = record { at = λ m. returns }
Looks-assert false e = record { at = λ m. throws }

pub Answers-bool : (b : Bool) → Answers (pure (make_integer (int_of b)))
Answers-bool b = record { at = λ m. says b }

pub Answers-fail : (e : Error) → Answers (fail e)
Answers-fail e = record { at = λ m. no_answer }

pub Answers-crash : Answers (λ m. crash)
Answers-crash = record { at = λ m. undefined }

pub Answers-if : (b : Bool) (c d : Cmd ℕ) → Answers c → Answers d → Answers (if b then c else d)
Answers-if true c d h k = h
Answers-if false c d h k = k

pub ruleset look_rules = (
  Looks-bind, Looks-pure, Looks-or_crash, Looks-if, Looks-fail, Looks-assert, Answers-bind,
  Answers-bool, Answers-fail, Answers-crash, Answers-if,
)

pub type_at-Looks : (v : ℕ) → Looks (type_at v)
unfolding type_at
type_at-Looks v = Looks-read _

pub object_at-Looks : (v : ℕ) → Looks (object_at v)
unfolding object_at
object_at-Looks v = Looks-read _

pub get_string-Looks : (v : ℕ) → Looks (get_string v)
unfolding get_string
get_string-Looks v = search (look_rules, object_at-Looks)

pub list_elements-Looks : (v : ℕ) → Looks (list_elements v)
unfolding list_elements
list_elements-Looks v = search (look_rules, object_at-Looks)

pub get_mutable-Looks : (v : ℕ) → Looks (get_mutable v)
unfolding get_mutable
get_mutable-Looks v = search (look_rules, object_at-Looks)

pub ruleset answer_rules = (
  look_rules, type_at-Looks, object_at-Looks, get_string-Looks, list_elements-Looks,
  get_mutable-Looks,
)

-- what an answer is, if there is one
IsAnswer : Module → Run ℕ → Type 0
IsAnswer m (ok r n) =
    (n ≡ m) × (get_type n.heap r ≡ some type_integer) × ((get_int r ≡ 0) ⊎ (get_int r ≡ 1))
IsAnswer m (throw e) = Unit {0}
IsAnswer m crash = Unit {0}

bit : (b : Bool) → (get_int (make_integer (int_of b)) ≡ 0) ⊎ (get_int (make_integer (int_of b)) ≡ 1)
bit false = inl (get_int-make_integer 0)
bit true = inr (get_int-make_integer 1)

pub answered :
    {m n : Module} {run : Run ℕ} {r : ℕ}
    → Answered m run
    → run ≡ ok r n
    → (n ≡ m) × (get_type n.heap r ≡ some type_integer) × ((get_int r ≡ 0) ⊎ (get_int r ≡ 1))
unfolding IsAnswer
answered {m} (says b) e =
    subst (IsAnswer m) e (refl, get_type-make_integer m.heap (int_of b), bit b)
answered no_answer e = cc
answered undefined e = cc
