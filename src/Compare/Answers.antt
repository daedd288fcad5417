-- ===== src/Compare/Answers.antt =====
-- What the comparisons of runtime/src/compare.c answer with.
use bonzai.Base.{
  ◌≡◌, ◌⊎◌, subst, ℕ, zero, suc, Bool, true, false, List, [], ◌∷◌, ◌==◌, Option, none, some,
  if◌then◌else◌,
}
use bonzai.Vm.{
  ValueType, Module, ok, Cmd, type_integer, type_float, type_string, type_list, type_special,
  type_mutable, type_function, type_funcenv, type_unknown, type_api, type_event, type_frame,
  type_event_on,
}
use bonzai.Vm.Memory.{Env}
use bonzai.Word.{get_int}
use bonzai.Vm.TypeOf.{get_type}
use bonzai.Vm.Answers.{
  Answers, Looks, Answers-bind, Answers-if, Answers-bool, Answers-crash, Answers-Looks,
  object_at-Looks, list_elements-Looks, answer_rules, answered,
}
use bonzai.Compare.{
  compare_each, compare_lists, compare_strings, compare_typed, compare_eq, integer_too,
  both_integers, compare_and, compare_or, compare_gt, comparison_table,
}

-- A comparison that answers whatever it compares.
abbrev pub Comparison : (ℕ → ℕ → Cmd ℕ) → Type 0
Comparison f = (a b : ℕ) → Answers (f a b)

compare_each-Answers :
    (f : ℕ → ℕ → Cmd ℕ) (xs ys : List ℕ) → Comparison f → Answers (compare_each f xs ys)
unfolding compare_each
compare_each-Answers f [] [] h = Answers-bool true
compare_each-Answers f [] (y ∷ ys) h = Answers-bool true
compare_each-Answers f (x ∷ xs) [] h = Answers-bool true
compare_each-Answers f (x ∷ xs) (y ∷ ys) h =
    Answers-bind _ _ (Answers-Looks _ (h x y))
      (λ r. Answers-if (r == 0) _ _ (Answers-bool false) (compare_each-Answers f xs ys h))

compare_lists-Answers : (f : ℕ → ℕ → Cmd ℕ) (a b : ℕ) → Comparison f → Answers (compare_lists f a b)
unfolding compare_lists
compare_lists-Answers f a b h = Answers-bind _ _ (object_at-Looks a) λ o.
    Answers-bind _ _ (object_at-Looks b) λ o'. Answers-if _ _ _ (Answers-bool false) (
      Answers-bind _ _ (list_elements-Looks a)
        λ p. Answers-bind _ _ (list_elements-Looks b) λ q. compare_each-Answers f (p.1) (q.1) h)

compare_strings-Answers : Comparison compare_strings
unfolding compare_strings
compare_strings-Answers a b = search answer_rules

compare_typed-Answers :
    (env : Env) (f : ℕ → ℕ → Cmd ℕ) (t : ValueType)
    → Comparison f
    → Comparison (compare_typed env f t)
unfolding compare_typed
compare_typed-Answers env f type_integer h a b = search answer_rules
compare_typed-Answers env f type_float h a b = search answer_rules
compare_typed-Answers env f type_string h a b = compare_strings-Answers a b
compare_typed-Answers env f type_function h a b = search answer_rules
compare_typed-Answers env f type_funcenv h a b = search answer_rules
compare_typed-Answers env f type_mutable h a b = search answer_rules
compare_typed-Answers env f type_list h a b = compare_lists-Answers f a b h
compare_typed-Answers env f type_special h a b = search answer_rules
compare_typed-Answers env f type_unknown h a b = search answer_rules
compare_typed-Answers env f type_api h a b = search answer_rules
compare_typed-Answers env f type_event h a b = search answer_rules
compare_typed-Answers env f type_frame h a b = search answer_rules
compare_typed-Answers env f type_event_on h a b = search answer_rules

compare_eq-Answers : (env : Env) (depth : ℕ) → Comparison (compare_eq env depth)
unfolding compare_eq
compare_eq-Answers env zero a b = Answers-crash
compare_eq-Answers env (suc depth) a b =
    let inner = compare_eq-Answers env depth in search (answer_rules, compare_typed-Answers, inner)

both_integers-Looks : (a b : ℕ) → Looks (both_integers a b)
unfolding both_integers integer_too
both_integers-Looks a b = search answer_rules

compare_and-Answers : Comparison compare_and
unfolding compare_and
compare_and-Answers a b = search (answer_rules, both_integers-Looks)

compare_or-Answers : Comparison compare_or
unfolding compare_or
compare_or-Answers a b = search (answer_rules, both_integers-Looks)

compare_gt-Answers : Comparison compare_gt
unfolding compare_gt
compare_gt-Answers a b = search (answer_rules, both_integers-Looks)

-- an entry of the table
pub data Entry : Option (ℕ → ℕ → Cmd ℕ) → Type 0 where
  missing : Entry none
  entry : {f : ℕ → ℕ → Cmd ℕ} → Comparison f → Entry (some f)

Entry-if :
    (b : Bool) {f : ℕ → ℕ → Cmd ℕ} {o : Option (ℕ → ℕ → Cmd ℕ)}
    → Comparison f
    → Entry o
    → Entry (if b then some f else o)
Entry-if true h k = entry h
Entry-if false h k = k

pub comparison_table-Entry : (env : Env) (i : ℕ) → Entry (comparison_table env i)
unfolding comparison_table
comparison_table-Entry env i = Entry-if (i == 1) compare_gt-Answers (
    Entry-if (i == 2) (compare_eq-Answers env env.c_stack)
      (Entry-if (i == 5) compare_and-Answers (Entry-if (i == 6) compare_or-Answers missing)))

-- A comparison of the table that returns leaves the machine as it was and answers with a word of
-- the type integer, 0 or 1, whatever words it compared.
pub comparison_table_lem :
    (env : Env) (i a b : ℕ) (m n : Module) {f : ℕ → ℕ → Cmd ℕ} {r : ℕ}
    → comparison_table env i ≡ some f
    → f a b m ≡ ok r n
    → (n ≡ m) × (get_type n.heap r ≡ some type_integer) × ((get_int r ≡ 0) ⊎ (get_int r ≡ 1))
comparison_table_lem env i a b m n {f} e run =
    answered (((by_entry (subst Entry e (comparison_table-Entry env i))) a b).at m) run
  where
    by_entry : {g : ℕ → ℕ → Cmd ℕ} → Entry (some g) → Comparison g
    by_entry (entry h) = h
