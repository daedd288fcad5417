-- ===== src/Vm/Keeps.antt =====
-- What no command takes back: the program stays as it was loaded, an actor keeps its place, its event
-- and its messages, and a machine that has halted has halted. One rule for each way to build a
-- command; a run that does not return keeps everything.
use bonzai.Base.{
  ℕ, ◌≡◌, refl, ◌∙◌, Bool, true, false, Option, none, some, List, [], ◌++◌, append_assoc,
  append_nil, if◌then◌else◌, get_elem?, ap, sym,
}
use bonzai.Vm.{
  Module, Actor, Message, Error, Run, ok, throw, crash, Cmd, and_then, ◌>>=◌, pure, fail, or_crash,
  assert, get, modify, ValueType,
}
use bonzai.Vm.Answers
use bonzai.Vm.Answers.{Looks, Unchanged}
use bonzai.Vm.Access.{type_at, object_at, get_string, list_elements, get_mutable, assert_type}

-- Every actor is where it was, with the same event, and perhaps with more messages at the end;
-- with none where it is quiet.
abbrev pub Grown : Bool → List Actor → List Actor → Type 0
Grown quiet as' bs =
    (i : ℕ) (a : Actor)
    → get_elem? as' i ≡ some a
    → (msgs : List Message) × (get_elem? bs i ≡ some (record a { queue = a.queue ++ msgs }))
      × (quiet ≡ true → msgs ≡ [])

pub record Keeps (quiet : Bool) (m n : Module) : Type 0 where
  pub instrs : n.instrs ≡ m.instrs
  pub constants : n.constants ≡ m.constants
  pub handles : n.handles ≡ m.handles
  pub args : (n.argc ≡ m.argc) × (n.argv ≡ m.argv)
  pub halted : m.is_terminated ≡ true → n.is_terminated ≡ true
  pub events : Grown quiet m.events n.events

pub Grown-refl : {quiet : Bool} → (as' : List Actor) → Grown quiet as' as'
Grown-refl as' i a e =
    ([], e ∙ ap (λ q. some (record a { queue = q })) (sym (append_nil a.queue)), λ h. refl)

Grown-trans :
    {quiet : Bool}
    → (as' bs cs : List Actor) → Grown quiet as' bs
    → Grown quiet bs cs
    → Grown quiet as' cs
Grown-trans as' bs cs g k i a e =
    let (xs, f, none_x) = g i a e in
    let (ys, t, none_y) = k i (record a { queue = a.queue ++ xs }) f in
    (
      xs ++ ys,
      t ∙ ap (λ q. some (record a { queue = q })) (append_assoc a.queue xs ys),
      λ h. rw (none_x h, none_y h) refl,
    )

pub Keeps-refl : {quiet : Bool} → (m : Module) → Keeps quiet m m
Keeps-refl m = record {
  instrs = refl;
  constants = refl;
  handles = refl;
  args = (refl, refl);
  halted = λ h. h;
  events = Grown-refl m.events;
}

pub Keeps-trans :
    {quiet : Bool} → {m n k : Module} → Keeps quiet m n → Keeps quiet n k → Keeps quiet m k
Keeps-trans {m = m} {n = n} {k = k} p q = record {
  instrs = q.instrs ∙ p.instrs;
  constants = q.constants ∙ p.constants;
  handles = q.handles ∙ p.handles;
  args = (q.args.0 ∙ p.args.0, q.args.1 ∙ p.args.1);
  halted = λ h. q.halted (p.halted h);
  events = Grown-trans m.events n.events k.events p.events q.events;
}

-- A change of the registers, the stack, the heap or the collector's fields only.
pub Keeps-others :
    {quiet : Bool}
    → (m n : Module) → n.instrs ≡ m.instrs
    → n.constants ≡ m.constants
    → n.handles ≡ m.handles
    → n.argc ≡ m.argc
    → n.argv ≡ m.argv
    → n.is_terminated ≡ m.is_terminated
    → n.events ≡ m.events
    → Keeps quiet m n
Keeps-others m n i c h a v t e = record {
  instrs = i;
  constants = c;
  handles = h;
  args = (a, v);
  halted = λ k. t ∙ k;
  events = λ j b at.
      let (msgs, f, no_more) = Grown-refl m.events j b at in
      (msgs, ap (λ l. get_elem? l j) e ∙ f, no_more);
}

-- If the run returns, the state that it leaves keeps what `m` had.
pub data Ends (quiet : Bool) {A : Type 0} (m : Module) : Run A → Type 0 where
  returns : {a : A} {n : Module} → Keeps quiet m n → Ends quiet m (ok a n)
  throws : {e : Error} → Ends quiet m (throw e)
  crashes : Ends quiet m crash

pub record Respects (quiet : Bool) {A : Type 0} (c : Cmd A) : Type 0 where
  pub at : (m : Module) → Ends quiet m (c m)

weaken :
    {quiet : Bool}
    → {B : Type 0} {m n : Module} {r : Run B} → Keeps quiet m n
    → Ends quiet n r
    → Ends quiet m r
weaken t (returns q) = returns (Keeps-trans t q)
weaken t throws = throws
weaken t crashes = crashes

bound :
    {quiet : Bool}
    → {A B : Type 0} (m : Module) {r : Run A} (f : A → Cmd B) → Ends quiet m r
    → ((a : A) → Respects quiet (f a))
    → Ends quiet m (and_then r f)
bound m f (returns {a = a} {n = n} q) rf = weaken q ((rf a).at n)
bound m f throws rf = throws
bound m f crashes rf = crashes

pub Respects-bind :
    {quiet : Bool}
    → {A B : Type 0} (c : Cmd A) (f : A → Cmd B) → Respects quiet c
    → ((a : A) → Respects quiet (f a))
    → Respects quiet (c >>= f)
Respects-bind c f rc rf = record { at = λ m. bound m f (rc.at m) rf }

pub Respects-pure : {quiet : Bool} → {A : Type 0} (a : A) → Respects quiet (pure a)
Respects-pure a = record { at = λ m. returns (Keeps-refl m) }

pub Respects-fail : {quiet : Bool} → {A : Type 0} (e : Error) → Respects quiet (fail {A = A} e)
Respects-fail e = record { at = λ m. throws }

pub Respects-crash : {quiet : Bool} → {A : Type 0} → Respects quiet {A = A} (λ m. crash)
Respects-crash = record { at = λ m. crashes }

pub Respects-get : {quiet : Bool} → {A : Type 0} (f : Module → A) → Respects quiet (get f)
Respects-get f = record { at = λ m. returns (Keeps-refl m) }

pub Respects-or_crash : {quiet : Bool} → {A : Type 0} (o : Option A) → Respects quiet (or_crash o)
Respects-or_crash none = record { at = λ m. crashes }
Respects-or_crash (some a) = record { at = λ m. returns (Keeps-refl m) }

pub Respects-read :
    {quiet : Bool} → {A : Type 0} (f : Module → Option A) → Respects quiet (λ m. or_crash (f m) m)
Respects-read f = record { at = λ m. (Respects-or_crash (f m)).at m }

pub Respects-if :
    {quiet : Bool}
    → {A : Type 0} (b : Bool) (c d : Cmd A) → Respects quiet c
    → Respects quiet d
    → Respects quiet (if b then c else d)
Respects-if true c d rc rd = rc
Respects-if false c d rc rd = rd

pub Respects-assert : {quiet : Bool} → (b : Bool) (e : Error) → Respects quiet (assert b e)
Respects-assert true e = record { at = λ m. returns (Keeps-refl m) }
Respects-assert false e = record { at = λ m. throws }

pub Looks-Respects : {quiet : Bool} → {A : Type 0} (c : Cmd A) → Looks c → Respects quiet c
Looks-Respects {A = A} c h = record { at = λ m. looked (h.at m) }
  where
    looked : {quiet : Bool} → {m : Module} {r : Run A} → Unchanged m r → Ends quiet m r
    looked {m = m} Answers.returns = returns (Keeps-refl m)
    looked Answers.throws = throws
    looked Answers.crashes = crashes

pub Respects-modify :
    {quiet : Bool}
    → (f : Module → Module) → ((m : Module) → Keeps quiet m (f m))
    → Respects quiet (modify f)
Respects-modify f h = record { at = λ m. returns (h m) }

pub ruleset keeps_rules = (
  Respects-bind, Respects-pure, Respects-fail, Respects-crash, Respects-get, Respects-or_crash,
  Respects-if, Respects-assert,
)

pub type_at-Respects : {quiet : Bool} → (v : ℕ) → Respects quiet (type_at v)
unfolding type_at
type_at-Respects v = Respects-read _

pub object_at-Respects : {quiet : Bool} → (v : ℕ) → Respects quiet (object_at v)
unfolding object_at
object_at-Respects v = Respects-read _

pub get_string-Respects : {quiet : Bool} → (v : ℕ) → Respects quiet (get_string v)
unfolding get_string
get_string-Respects v = search (keeps_rules, object_at-Respects)

pub list_elements-Respects : {quiet : Bool} → (v : ℕ) → Respects quiet (list_elements v)
unfolding list_elements
list_elements-Respects v = search (keeps_rules, object_at-Respects)

pub get_mutable-Respects : {quiet : Bool} → (v : ℕ) → Respects quiet (get_mutable v)
unfolding get_mutable
get_mutable-Respects v = search (keeps_rules, object_at-Respects)

pub assert_type-Respects :
    {quiet : Bool} → (v : ℕ) (t : ValueType) → Respects quiet (assert_type v t)
unfolding assert_type
assert_type-Respects v t = search (keeps_rules, type_at-Respects)

pub ruleset access_rules = (
  keeps_rules, type_at-Respects, object_at-Respects, get_string-Respects, list_elements-Respects,
  get_mutable-Respects, assert_type-Respects,
)
