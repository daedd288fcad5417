-- ===== src/Word/Function.antt =====
-- Function words: what `MAKE_FUNCTION` packs and `op_call` unpacks (runtime/include/value.h,
-- runtime/src/call.c).
use bonzai.Base.{ℕ, ◌+◌, ◌-◌, ◌/◌, ◌^◌, ◌≤◌, ◌<◌, ◌≡◌, true, false, arith}
use bonzai.Word.{is_ptr, is_fun, make_function, function_ipc, function_local_space}
use bonzai.Word.Layout.{signature_lem, get_int_lem, make_function_lem, make_function_wide}

-- For a code address and a slot count below 2 ^ 15, `MAKE_FUNCTION` builds a word that `IS_FUN`
-- accepts, and a call reads the same address and the same slot count back.
pub make_function_roundtrip :
    (x y : ℕ)
    → x < 2 ^ 15
    → y < 2 ^ 15
    → (is_fun (make_function x y) ≡ true)
      × (function_ipc (make_function x y) ≡ x)
      × (function_local_space (make_function x y) ≡ y)
unfolding is_fun function_ipc function_local_space
make_function_roundtrip x y hx hy = ground (
  arith,
  make_function_lem x y,
  signature_lem (make_function x y),
  get_int_lem (make_function x y),
  get_int_lem (make_function x y / 2 ^ 16),
)

-- For a code address from 2 ^ 15 up to 2 ^ 16 and a slot count below 2 ^ 15 `IS_FUN` accepts the
-- word, and the call jumps to that address minus 2 ^ 16, a negative `int32_t`.
pub make_function_far :
    (x y : ℕ)
    → 2 ^ 15 ≤ x
    → x < 2 ^ 16
    → y < 2 ^ 15
    → (is_fun (make_function x y) ≡ true)
      × (function_ipc (make_function x y) ≡ x + (2 ^ 32 - 2 ^ 16))
unfolding is_fun function_ipc
make_function_far x y lo hx hy = ground (
  arith,
  make_function_lem x y,
  signature_lem (make_function x y),
  get_int_lem (make_function x y),
)

-- For a slot count from 2 ^ 15 up to 2 ^ 16 and a code address below 2 ^ 16 the word that
-- `MAKE_FUNCTION` builds is neither a function nor a pointer, so no call accepts it.
pub make_function_not_callable :
    (x y : ℕ)
    → x < 2 ^ 16
    → 2 ^ 15 ≤ y
    → y < 2 ^ 16
    → (is_fun (make_function x y) ≡ false) × (is_ptr (make_function x y) ≡ false)
unfolding is_fun is_ptr
make_function_not_callable x y hx lo hy =
    ground (arith, make_function_wide x y, signature_lem (make_function x y))
