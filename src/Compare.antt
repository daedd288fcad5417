-- ===== src/Compare.antt =====
-- The comparisons of the `Compare` instruction, runtime/src/compare.c. A comparison answers with an
-- integer word.
pub mod Lists
pub mod Keeps
pub mod Answers
use bonzai.Base.{
  ℕ, zero, suc, Bool, true, false, ◌&&◌, ◌||◌, Option, none, some, List, [], ◌∷◌, ltb, ◌==◌, not,
  length, if◌then◌else◌,
}
use bonzai.Word.{make_integer, get_int, int_of}
use bonzai.Vm.{
  ValueType, type_integer, type_float, type_string, type_list, type_mutable, type_special,
  type_function, type_funcenv, is_type, HeapValue, Cmd, crash, pure, fail, assert, or_crash, ◌>>=◌,
  ◌>>◌, different_types, unsupported_type, expected_integers,
}
use bonzai.Vm.Memory.{Env}
use bonzai.Vm.Access.{type_at, object_at, get_string, list_elements, same_bytes}

abbrev pub answer : Bool → Cmd ℕ
answer b = pure (make_integer (int_of b))

-- `if (!compare_eq(…)) return MAKE_INTEGER(0);`, where `!` is applied to the word returned
unfoldable pub compare_each : (ℕ → ℕ → Cmd ℕ) → List ℕ → List ℕ → Cmd ℕ
compare_each compare (a ∷ as') (b ∷ bs) = do
  r ← compare a b
  if r == 0 then answer false else compare_each compare as' bs
compare_each compare _ _ = answer true

unfoldable pub compare_lists : (ℕ → ℕ → Cmd ℕ) → ℕ → ℕ → Cmd ℕ
unfolding compare_each
compare_lists compare a b = do
  o ← object_at a
  o' ← object_at b
  if not (o.size == o'.size)
      then answer false
      else (do (_, xs) ← list_elements a; (_, ys) ← list_elements b; compare_each compare xs ys)

pub compare_strings : ℕ → ℕ → Cmd ℕ
compare_strings a b = do
  s ← get_string a
  t ← get_string b
  if not (length s == length t) then answer false else answer (same_bytes s t)

pub compare_typed : Env → (ℕ → ℕ → Cmd ℕ) → ValueType → ℕ → ℕ → Cmd ℕ
unfolding compare_strings compare_lists
compare_typed env compare type_integer a b = answer (a == b)
compare_typed env compare type_float a b = answer (env.float_eq a b)
compare_typed env compare type_string a b = compare_strings a b
compare_typed env compare type_function a b = answer (a == b)
compare_typed env compare type_funcenv a b = answer (a == b)
compare_typed env compare type_mutable a b = answer (a == b)
compare_typed env compare type_list a b = compare_lists compare a b
compare_typed env compare type_special a b = answer true
compare_typed env compare _ a b = fail unsupported_type

-- The recursion goes as deep as the C stack allows; beyond that the process crashes.
unfoldable pub compare_eq : Env → ℕ → ℕ → ℕ → Cmd ℕ
unfolding compare_typed
compare_eq env zero a b = λ _. crash
compare_eq env (suc depth) a b = do
  ty ← type_at a
  t ← type_at b
  assert (is_type ty t) different_types
  compare_typed env (compare_eq env depth) ty a b

integer_too : ℕ → Cmd (Unit {0})
integer_too b = do u ← type_at b; assert (is_type u type_integer) expected_integers

-- `ASSERT(get_type(a) == TYPE_INTEGER && get_type(b) == TYPE_INTEGER)`
pub both_integers : ℕ → ℕ → Cmd (Unit {0})
unfolding integer_too
both_integers a b = do
  t ← type_at a
  if is_type t type_integer then integer_too b else fail expected_integers

abbrev truth : ℕ → Bool
truth n = if n == 0 then false else true

pub compare_and : ℕ → ℕ → Cmd ℕ
unfolding both_integers
compare_and a b = both_integers a b >> answer (truth (get_int a) && truth (get_int b))

pub compare_or : ℕ → ℕ → Cmd ℕ
unfolding both_integers
compare_or a b = both_integers a b >> answer (truth (get_int a) || truth (get_int b))

pub compare_gt : ℕ → ℕ → Cmd ℕ
unfolding both_integers
compare_gt a b = both_integers a b >> answer (ltb (get_int b) (get_int a))

-- `comparison_table`; the entries that are NULL, and what lies beyond the table, cannot be called.
unfoldable pub comparison_table : Env → ℕ → Option (ℕ → ℕ → Cmd ℕ)
unfolding compare_eq compare_and compare_or compare_gt
comparison_table env i =
    if i == 1
    then some compare_gt
    else if i == 2
    then some (compare_eq env env.c_stack)
    else if i == 5
    then some compare_and
    else if i == 6
    then some compare_or
    else none
