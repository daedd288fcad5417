-- ===== src/Maths/Answers.antt =====
-- What the comparing natives of bindings/src/maths.c answer with.
use bonzai.Base.{◌≡◌, ◌⊎◌, ℕ, Bool, List, some}
use bonzai.Word.{get_int}
use bonzai.Vm.{
  ValueType, Module, ok, Cmd, type_integer, type_float, type_string, type_list, type_special,
  type_mutable, type_function, type_funcenv, type_unknown, type_api, type_event, type_frame,
  type_event_on,
}
use bonzai.Vm.Memory.{Env}
use bonzai.Vm.TypeOf.{get_type}
use bonzai.Vm.Answers.{Looks, Looks-read, Answers, answered, answer_rules}
use bonzai.ValueEq.Answers.{value_eq_lists-Looks}
use bonzai.Maths.{
  arg, operands, eq_typed, eq_value, ordered, lt_value, gt_value, lte_value, gte_value, logical,
  and_value, or_value, negate_typed, not_value,
}

arg-Looks : (args : List ℕ) (i : ℕ) → Looks (arg args i)
unfolding arg
arg-Looks args i = Looks-read _

operands-Looks : (args : List ℕ) (argc : ℕ) → Looks (operands args argc)
unfolding operands
operands-Looks args argc = search (answer_rules, arg-Looks) depth 20

ruleset native_rules = (answer_rules, operands-Looks, arg-Looks)

eq_typed-Answers : (env : Env) (t : ValueType) (a b : ℕ) → Answers (eq_typed env t a b)
unfolding eq_typed
eq_typed-Answers env type_integer a b = search answer_rules
eq_typed-Answers env type_float a b = search answer_rules
eq_typed-Answers env type_string a b = search answer_rules
eq_typed-Answers env type_list a b = search (answer_rules, value_eq_lists-Looks)
eq_typed-Answers env type_special a b = search answer_rules
eq_typed-Answers env type_mutable a b = search answer_rules
eq_typed-Answers env type_function a b = search answer_rules
eq_typed-Answers env type_funcenv a b = search answer_rules
eq_typed-Answers env type_unknown a b = search answer_rules
eq_typed-Answers env type_api a b = search answer_rules
eq_typed-Answers env type_event a b = search answer_rules
eq_typed-Answers env type_frame a b = search answer_rules
eq_typed-Answers env type_event_on a b = search answer_rules

ordered-Answers : (f g : ℕ → ℕ → Bool) (t : ValueType) (a b : ℕ) → Answers (ordered f g t a b)
unfolding ordered
ordered-Answers f g type_integer a b = search answer_rules
ordered-Answers f g type_float a b = search answer_rules
ordered-Answers f g type_string a b = search answer_rules
ordered-Answers f g type_list a b = search answer_rules
ordered-Answers f g type_special a b = search answer_rules
ordered-Answers f g type_mutable a b = search answer_rules
ordered-Answers f g type_function a b = search answer_rules
ordered-Answers f g type_funcenv a b = search answer_rules
ordered-Answers f g type_unknown a b = search answer_rules
ordered-Answers f g type_api a b = search answer_rules
ordered-Answers f g type_event a b = search answer_rules
ordered-Answers f g type_frame a b = search answer_rules
ordered-Answers f g type_event_on a b = search answer_rules

logical-Answers : (f : Bool → Bool → Bool) (t : ValueType) (a b : ℕ) → Answers (logical f t a b)
unfolding logical
logical-Answers f type_integer a b = search answer_rules
logical-Answers f type_float a b = search answer_rules
logical-Answers f type_string a b = search answer_rules
logical-Answers f type_list a b = search answer_rules
logical-Answers f type_special a b = search answer_rules
logical-Answers f type_mutable a b = search answer_rules
logical-Answers f type_function a b = search answer_rules
logical-Answers f type_funcenv a b = search answer_rules
logical-Answers f type_unknown a b = search answer_rules
logical-Answers f type_api a b = search answer_rules
logical-Answers f type_event a b = search answer_rules
logical-Answers f type_frame a b = search answer_rules
logical-Answers f type_event_on a b = search answer_rules

negate_typed-Answers : (t : ValueType) (a : ℕ) → Answers (negate_typed t a)
unfolding negate_typed
negate_typed-Answers type_integer a = search answer_rules
negate_typed-Answers type_float a = search answer_rules
negate_typed-Answers type_string a = search answer_rules
negate_typed-Answers type_list a = search answer_rules
negate_typed-Answers type_special a = search answer_rules
negate_typed-Answers type_mutable a = search answer_rules
negate_typed-Answers type_function a = search answer_rules
negate_typed-Answers type_funcenv a = search answer_rules
negate_typed-Answers type_unknown a = search answer_rules
negate_typed-Answers type_api a = search answer_rules
negate_typed-Answers type_event a = search answer_rules
negate_typed-Answers type_frame a = search answer_rules
negate_typed-Answers type_event_on a = search answer_rules

-- the natives that ask
pub data Asks (env : Env) : (List ℕ → ℕ → Cmd ℕ) → Type 0 where
  eq : Asks env (eq_value env)
  lt : Asks env (lt_value env)
  gt : Asks env (gt_value env)
  lte : Asks env (lte_value env)
  gte : Asks env (gte_value env)
  and : Asks env and_value
  or : Asks env or_value
  not : Asks env not_value

Asks-Answers :
    (env : Env) (args : List ℕ) (argc : ℕ) {f : List ℕ → ℕ → Cmd ℕ}
    → Asks env f
    → Answers (f args argc)
unfolding eq_value lt_value gt_value lte_value gte_value and_value or_value not_value
Asks-Answers env args argc eq = search (native_rules, eq_typed-Answers) depth 20
Asks-Answers env args argc lt = search (native_rules, ordered-Answers) depth 20
Asks-Answers env args argc gt = search (native_rules, ordered-Answers) depth 20
Asks-Answers env args argc lte = search (native_rules, ordered-Answers) depth 20
Asks-Answers env args argc gte = search (native_rules, ordered-Answers) depth 20
Asks-Answers env args argc and = search (native_rules, logical-Answers) depth 20
Asks-Answers env args argc or = search (native_rules, logical-Answers) depth 20
Asks-Answers env args argc not = search (native_rules, negate_typed-Answers) depth 20

-- A comparing or logical native that returns leaves the machine as it was and answers with a word
-- of the type integer, 0 or 1, whatever its arguments.
pub asks_lem :
    (env : Env) (args : List ℕ) (argc : ℕ) (m n : Module) {f : List ℕ → ℕ → Cmd ℕ} {r : ℕ}
    → Asks env f
    → f args argc m ≡ ok r n
    → (n ≡ m) × (get_type n.heap r ≡ some type_integer) × ((get_int r ≡ 0) ⊎ (get_int r ≡ 1))
asks_lem env args argc m n h run = answered ((Asks-Answers env args argc h).at m) run
