-- ===== src/Maths/Integers.antt =====
-- The arithmetic natives of bindings/src/maths.c on integer words.
use bonzai.Base.{
  ℕ, ◌+◌, ◌-◌, ◌%◌, ◌^◌, ◌<◌, ◌≡◌, refl, ap, ◌∙◌, Bool, true, false, List, [], ◌∷◌, arith, ltb, leb,
}
use bonzai.Word.{make_integer, int_of}
use bonzai.Word.Layout.{make_integer_lem, get_int-make_integer}
use bonzai.Stack.{lt_int}
use bonzai.Vm.{Module, type_integer, ok}
use bonzai.Vm.Memory.{Env}
use bonzai.Vm.TypeOf.{get_type-make_integer}
use bonzai.Vm.Access.{type_at-ok}
use bonzai.Maths.{operands, add_value, sub_value, lt_value}

-- a call with two integers
abbrev pub integers : ℕ → ℕ → List ℕ
integers x y = make_integer x ∷ make_integer y ∷ []

pub operands-integers :
    (x y : ℕ) (m : Module)
    → operands (integers x y) 2 m ≡ ok (type_integer, make_integer x, make_integer y) m
unfolding operands
operands-integers x y m =
    rw
      (
        type_at-ok (make_integer y) m (get_type-make_integer m.heap y),
        type_at-ok (make_integer x) m (get_type-make_integer m.heap x),
      )
      refl

make_integer_wrap : (x y : ℕ) → x % 2 ^ 32 ≡ y % 2 ^ 32 → make_integer x ≡ make_integer y
make_integer_wrap x y e = ground (arith, make_integer_lem x, make_integer_lem y)

add_value-integers :
    (env : Env) (x y : ℕ) (m : Module)
    → add_value env (integers x y) 2 m ≡ ok (make_integer (x + y)) m
unfolding add_value
add_value-integers env x y m = rw (operands-integers x y m) (
    ap (λ v. ok v m)
      (make_integer_wrap _ _ (omega (arith, get_int-make_integer x, get_int-make_integer y))))

-- `-` on patterns, with the modulus added first since `-` stops at 0
sub_value-integers :
    (env : Env) (x y : ℕ) (m : Module)
    → sub_value env (integers x y) 2 m ≡ ok (make_integer (x + (2 ^ 32 - y % 2 ^ 32))) m
unfolding sub_value
sub_value-integers env x y m = rw (operands-integers x y m) (
    ap (λ v. ok v m)
      (make_integer_wrap _ _ (omega (arith, get_int-make_integer x, get_int-make_integer y))))

-- On integers `+` answers with the sum modulo 2 ^ 32, and subtracting the second operand from it
-- gives the first one, for an `int32_t` pattern as the first; neither changes the state.
pub sub_value-add_value :
    (env : Env) (x y : ℕ) (m : Module)
    → x < 2 ^ 32
    → (add_value env (integers x y) 2 m ≡ ok (make_integer (x + y)) m)
      × (sub_value env (integers (x + y) y) 2 m ≡ ok (make_integer x) m)
sub_value-add_value env x y m h = (
  add_value-integers env x y m,
  sub_value-integers env (x + y) y m ∙ ap (λ v. ok v m) (make_integer_wrap _ _ (omega arith)),
)

ordered_answer :
    (env : Env) (x y : ℕ) (m : Module)
    → lt_value env (integers x y) 2 m ≡ ok (make_integer (int_of (ltb (x % 2 ^ 32) (y % 2 ^ 32)))) m
unfolding lt_value
ordered_answer env x y m =
    rw (operands-integers x y m, get_int-make_integer x, get_int-make_integer y) refl

abbrev pub is_negative : ℕ → Bool
is_negative x = leb (2 ^ 31) x

-- one of the two, and not both
abbrev pub differ : Bool → Bool → Bool
differ true true = false
differ true false = true
differ false b = b

-- `<` on two `int32_t` integers answers with their signed order, turned round if exactly one of
-- the two is negative, and changes nothing.
pub lt_value-signed :
    (env : Env) (x y : ℕ) (m : Module)
    → x < 2 ^ 32
    → y < 2 ^ 32
    → lt_value env (integers x y) 2 m
      ≡ ok (make_integer (int_of (differ (differ (is_negative x) (is_negative y)) (lt_int x y)))) m
lt_value-signed env x y m hx hy =
    ordered_answer env x y m ∙ ap (λ b. ok (make_integer (int_of b)) m) orders
  where
    orders :
        ltb (x % 2 ^ 32) (y % 2 ^ 32) ≡ differ (differ (is_negative x) (is_negative y)) (lt_int x y)
    orders = ground arith
