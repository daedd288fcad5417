-- ===== src/Maths.antt =====
-- The arithmetic natives of bindings/src/maths.c. A native takes the arguments and their number;
-- float arithmetic and float tests come from `Env`.
pub mod Integers
pub mod Answers
use bonzai.Base.{
  ℕ, ◌+◌, ◌-◌, ◌*◌, ◌/◌, ◌%◌, ◌^◌, Bool, true, false, ◌&&◌, ◌||◌, not, Option, List, [], ◌∷◌, ◌++◌,
  ltb, leb, ◌==◌, if◌then◌else◌, get_elem?,
}
use bonzai.Word.{make_integer, get_int, int_of}
use bonzai.Vm.{
  ValueType, type_integer, type_float, type_string, type_list, is_type, Cmd, pure, fail, get,
  assert, or_crash, crash, ◌>>=◌, ◌>>◌, wrong_argc, wrong_type, unsupported_type,
}
use bonzai.Vm.Memory.{Env}
use bonzai.Vm.TypeOf.{get_type}
use bonzai.Vm.Access.{type_at, get_string, list_elements, same_bytes}
use bonzai.Alloc.{make_string, make_list}
use bonzai.ValueEq.{value_eq_lists}

-- `args[i]`
unfoldable pub arg : List ℕ → ℕ → Cmd ℕ
arg args i m = or_crash (get_elem? args i) m

-- How a binary native begins: two arguments, of one type.
pub operands : List ℕ → ℕ → Cmd (ValueType × ℕ × ℕ)
unfolding arg
operands args argc = do
  assert (argc == 2) wrong_argc
  a ← arg args 0
  b ← arg args 1
  ty ← type_at b
  t ← type_at a
  assert (is_type t ty) wrong_type
  pure (ty, a, b)

-- `MAKE_INTEGER` of a test
abbrev answer : Bool → Cmd ℕ
answer b = pure (make_integer (int_of b))

add_typed : Env → ValueType → ℕ → ℕ → Cmd ℕ
add_typed env type_integer a b = pure (make_integer ((get_int a + get_int b) % 2 ^ 64))
add_typed env type_float a b = pure (env.float_add a b)
add_typed env type_string a b = do s ← get_string a; t ← get_string b; make_string env (s ++ t)
add_typed env type_list a b = do
  (n, xs) ← list_elements a
  (k, ys) ← list_elements b
  make_list env (xs ++ ys) ((n + k) % 2 ^ 32)
add_typed env _ a b = fail unsupported_type

pub add_value : Env → List ℕ → ℕ → Cmd ℕ
unfolding operands add_typed
add_value env args argc = do (ty, a, b) ← operands args argc; add_typed env ty a b

sub_typed : Env → ValueType → ℕ → ℕ → Cmd ℕ
sub_typed env type_integer a b = pure (make_integer ((get_int a + 2 ^ 64 - get_int b) % 2 ^ 64))
sub_typed env type_float a b = pure (env.float_sub a b)
sub_typed env _ a b = fail unsupported_type

pub sub_value : Env → List ℕ → ℕ → Cmd ℕ
unfolding operands sub_typed
sub_value env args argc = do (ty, a, b) ← operands args argc; sub_typed env ty a b

mul_typed : Env → ValueType → ℕ → ℕ → Cmd ℕ
mul_typed env type_integer a b = pure (make_integer (get_int a * get_int b % 2 ^ 64))
mul_typed env type_float a b = pure (env.float_mul a b)
mul_typed env _ a b = fail unsupported_type

pub mul_value : Env → List ℕ → ℕ → Cmd ℕ
unfolding operands mul_typed
mul_value env args argc = do (ty, a, b) ← operands args argc; mul_typed env ty a b

-- An integer division by zero has no result in C.
div_typed : Env → ValueType → ℕ → ℕ → Cmd ℕ
div_typed env type_integer a b =
    if get_int b == 0 then (λ _. crash) else pure (make_integer (get_int a / get_int b))
div_typed env type_float a b = pure (env.float_div a b)
div_typed env _ a b = fail unsupported_type

pub div_value : Env → List ℕ → ℕ → Cmd ℕ
unfolding operands div_typed
div_value env args argc = do (ty, a, b) ← operands args argc; div_typed env ty a b

pub eq_typed : Env → ValueType → ℕ → ℕ → Cmd ℕ
eq_typed env type_integer a b = answer (get_int a == get_int b)
eq_typed env type_float a b = answer (env.float_eq a b)
eq_typed env type_string a b = do s ← get_string a; t ← get_string b; answer (same_bytes s t)
eq_typed env type_list a b = do same ← value_eq_lists env a b; answer same
eq_typed env _ a b = fail unsupported_type

pub eq_value : Env → List ℕ → ℕ → Cmd ℕ
unfolding operands eq_typed
eq_value env args argc = do (ty, a, b) ← operands args argc; eq_typed env ty a b

-- `<`, `>`, `<=` and `>=`: a test on the payloads, and one on floats
pub ordered : (ℕ → ℕ → Bool) → (ℕ → ℕ → Bool) → ValueType → ℕ → ℕ → Cmd ℕ
ordered on_integers on_floats type_integer a b = answer (on_integers (get_int a) (get_int b))
ordered on_integers on_floats type_float a b = answer (on_floats a b)
ordered on_integers on_floats _ a b = fail unsupported_type

pub lt_value : Env → List ℕ → ℕ → Cmd ℕ
unfolding operands ordered
lt_value env args argc = do (ty, a, b) ← operands args argc; ordered ltb env.float_lt ty a b

pub gt_value : Env → List ℕ → ℕ → Cmd ℕ
unfolding operands ordered
gt_value env args argc = do
  (ty, a, b) ← operands args argc
  ordered (λ x y. ltb y x) (λ x y. env.float_lt y x) ty a b

pub lte_value : Env → List ℕ → ℕ → Cmd ℕ
unfolding operands ordered
lte_value env args argc = do
  (ty, a, b) ← operands args argc
  ordered leb (λ x y. env.float_lt x y || env.float_eq x y) ty a b

pub gte_value : Env → List ℕ → ℕ → Cmd ℕ
unfolding operands ordered
gte_value env args argc = do
  (ty, a, b) ← operands args argc
  ordered (λ x y. leb y x) (λ x y. env.float_lt y x || env.float_eq x y) ty a b

-- a C truth value
abbrev truth : ℕ → Bool
truth n = if n == 0 then false else true

-- `&&` and `||` on the payloads
pub logical : (Bool → Bool → Bool) → ValueType → ℕ → ℕ → Cmd ℕ
logical f type_integer a b = answer (f (truth (get_int a)) (truth (get_int b)))
logical f _ a b = fail unsupported_type

pub and_value : List ℕ → ℕ → Cmd ℕ
unfolding operands logical
and_value args argc = do (ty, a, b) ← operands args argc; logical ◌&&◌ ty a b

pub or_value : List ℕ → ℕ → Cmd ℕ
unfolding operands logical
or_value args argc = do (ty, a, b) ← operands args argc; logical ◌||◌ ty a b

pub negate_typed : ValueType → ℕ → Cmd ℕ
negate_typed type_integer a = answer (not (truth (get_int a)))
negate_typed _ a = fail unsupported_type

-- The second check compares the type with itself.
pub not_value : List ℕ → ℕ → Cmd ℕ
unfolding negate_typed arg
not_value args argc = do
  assert (argc == 1) wrong_argc
  a ← arg args 0
  ty ← type_at a
  t ← type_at a
  assert (is_type t ty) wrong_type
  negate_typed ty a
