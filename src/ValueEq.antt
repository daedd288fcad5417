-- ===== src/ValueEq.antt =====
-- `value_eq` of runtime/src/value.c.
pub mod Lists
pub mod Answers
use bonzai.Base.{
  ℕ, zero, suc, Bool, true, false, Option, none, some, List, [], ◌∷◌, ◌==◌, if◌then◌else◌, not,
}
use bonzai.Word.{get_int}
use bonzai.Vm.{
  ValueType, type_integer, type_float, type_string, type_list, type_mutable, type_special,
  type_function, type_funcenv, is_type, HeapValue, Cmd, crash, pure, fail, assert, or_crash, ◌>>=◌,
  ◌>>◌, wrong_type,
}
use bonzai.Vm.Memory.{Env, array_of}
use bonzai.Vm.Access.{type_at, object_at, get_string, list_elements, same_bytes, get_mutable}

-- The loop over two lists of one length, which stops at the first difference.
unfoldable pub eq_each : (ℕ → ℕ → Cmd Bool) → List ℕ → List ℕ → Cmd Bool
eq_each eq (a ∷ as') (b ∷ bs) = do same ← eq a b; if same then eq_each eq as' bs else pure false
eq_each eq _ _ = pure true

pub eq_lists : (ℕ → ℕ → Cmd Bool) → ℕ → ℕ → Cmd Bool
unfolding eq_each
eq_lists eq a b = do
  o ← object_at a
  o' ← object_at b
  if not (o.size == o'.size)
      then pure false
      else (do (_, xs) ← list_elements a; (_, ys) ← list_elements b; eq_each eq xs ys)

pub eq_typed : Env → (ℕ → ℕ → Cmd Bool) → ValueType → ℕ → ℕ → Cmd Bool
unfolding eq_lists
eq_typed env eq type_integer a b = pure (get_int a == get_int b)
eq_typed env eq type_float a b = pure (env.float_eq a b)
eq_typed env eq type_string a b = do s ← get_string a; t ← get_string b; pure (same_bytes s t)
eq_typed env eq type_list a b = eq_lists eq a b
eq_typed env eq type_mutable a b = do x ← get_mutable a; y ← get_mutable b; eq x y
eq_typed env eq type_special a b = pure true
eq_typed env eq type_function a b = pure true
eq_typed env eq type_funcenv a b = pure true
eq_typed env eq _ a b = pure false

-- The recursion goes as deep as the C stack allows; beyond that the process crashes.
unfoldable pub value_eq : Env → ℕ → ℕ → ℕ → Cmd Bool
unfolding eq_typed
value_eq env zero a b = λ _. crash
value_eq env (suc depth) a b = do
  ty ← type_at a
  t ← type_at b
  assert (is_type t ty) wrong_type
  eq_typed env (value_eq env depth) ty a b

-- the loop of `eq_value`, which is the same as for lists inside lists
pub value_eq_lists : Env → ℕ → ℕ → Cmd Bool
unfolding eq_lists
value_eq_lists env a b = eq_lists (value_eq env env.c_stack) a b
