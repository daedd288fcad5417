-- ===== src/ValueEq/Answers.antt =====
-- `value_eq` of runtime/src/value.c only looks at the machine.
use bonzai.Base.{ℕ, zero, suc, Bool, true, false, List, [], ◌∷◌}
use bonzai.Vm.{
  ValueType, Cmd, type_integer, type_float, type_string, type_list, type_special, type_mutable,
  type_function, type_funcenv, type_unknown, type_api, type_event, type_frame, type_event_on,
}
use bonzai.Vm.Memory.{Env}
use bonzai.Vm.Answers.{
  Looks, Looks-bind, Looks-if, Looks-pure, Looks-crash, object_at-Looks, list_elements-Looks,
  answer_rules,
}
use bonzai.ValueEq.{eq_each, eq_lists, eq_typed, value_eq, value_eq_lists}

abbrev Question : (ℕ → ℕ → Cmd Bool) → Type 0
Question f = (a b : ℕ) → Looks (f a b)

eq_each-Looks : (f : ℕ → ℕ → Cmd Bool) (xs ys : List ℕ) → Question f → Looks (eq_each f xs ys)
unfolding eq_each
eq_each-Looks f [] ys h = Looks-pure true
eq_each-Looks f (x ∷ xs) [] h = Looks-pure true
eq_each-Looks f (x ∷ xs) (y ∷ ys) h =
    Looks-bind _ _ (h x y) (λ same. Looks-if same _ _ (eq_each-Looks f xs ys h) (Looks-pure false))

eq_lists-Looks : (f : ℕ → ℕ → Cmd Bool) (a b : ℕ) → Question f → Looks (eq_lists f a b)
unfolding eq_lists
eq_lists-Looks f a b h = Looks-bind _ _ (object_at-Looks a) λ o.
    Looks-bind _ _ (object_at-Looks b) λ o'. Looks-if _ _ _ (Looks-pure false) (
      Looks-bind _ _ (list_elements-Looks a)
        λ p. Looks-bind _ _ (list_elements-Looks b) λ q. eq_each-Looks f (p.1) (q.1) h)

eq_typed-Looks :
    (env : Env) (f : ℕ → ℕ → Cmd Bool) (t : ValueType) → Question f → Question (eq_typed env f t)
unfolding eq_typed
eq_typed-Looks env f type_integer h a b = search answer_rules
eq_typed-Looks env f type_float h a b = search answer_rules
eq_typed-Looks env f type_string h a b = search answer_rules
eq_typed-Looks env f type_list h a b = eq_lists-Looks f a b h
eq_typed-Looks env f type_mutable h a b = search (answer_rules, h)
eq_typed-Looks env f type_special h a b = search answer_rules
eq_typed-Looks env f type_function h a b = search answer_rules
eq_typed-Looks env f type_funcenv h a b = search answer_rules
eq_typed-Looks env f type_unknown h a b = search answer_rules
eq_typed-Looks env f type_api h a b = search answer_rules
eq_typed-Looks env f type_event h a b = search answer_rules
eq_typed-Looks env f type_frame h a b = search answer_rules
eq_typed-Looks env f type_event_on h a b = search answer_rules

pub value_eq-Looks : (env : Env) (depth : ℕ) → Question (value_eq env depth)
unfolding value_eq
value_eq-Looks env zero a b = Looks-crash
value_eq-Looks env (suc depth) a b =
    let inner = value_eq-Looks env depth in search (answer_rules, eq_typed-Looks, inner)

pub value_eq_lists-Looks : (env : Env) (a b : ℕ) → Looks (value_eq_lists env a b)
unfolding value_eq_lists
value_eq_lists-Looks env a b = eq_lists-Looks _ a b (value_eq-Looks env env.c_stack)
