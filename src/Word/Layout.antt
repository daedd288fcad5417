-- ===== src/Word/Layout.antt =====
-- The layout of a word in value.h as arithmetic: what each macro builds, and what reads it back.
use bonzai.Base.{ℕ, ◌+◌, ◌*◌, ◌/◌, ◌%◌, ◌^◌, ◌≤◌, ◌<◌, ◌≡◌, false, ◌==◌, arith, bit_and}
use bonzai.Base.Bits.{or-fields, or-split, zero-or, or-zero, and-low_mask, and-high_mask}
use bonzai.Word.{
  is_ptr, mask_exponent, complement, signature, get_ptr, get_int, make_integer, make_ptr,
  make_function,
}

pub signature_lem : (v : ℕ) → signature v ≡ v / 2 ^ 48 % 2 ^ 16 * 2 ^ 48
unfolding signature
signature_lem v = omega (arith, and-high_mask 48 v 0xffff, and-low_mask 16 (v / 2 ^ 48))

pub get_int_lem : (v : ℕ) → get_int v ≡ v % 2 ^ 32
unfolding get_int
get_int_lem v = and-low_mask 32 v

pub get_ptr_lem : (v : ℕ) → get_ptr v ≡ v % 2 ^ 48
unfolding get_ptr
get_ptr_lem v = and-low_mask 48 v

pub exponent_lem :
    (v : ℕ) → bit_and (complement v) mask_exponent ≡ complement v / 2 ^ 52 % 2 ^ 11 * 2 ^ 52
exponent_lem v =
    omega (arith, and-high_mask 52 (complement v) 0x7ff, and-low_mask 11 (complement v / 2 ^ 52))

pub make_integer_lem : (x : ℕ) → make_integer x ≡ 0x7ffa * 2 ^ 48 + x % 2 ^ 32
unfolding make_integer
make_integer_lem x = or-fields 48 0x7ffa (x % 2 ^ 32) (omega arith)

pub make_ptr_lem : (p : ℕ) → p < 2 ^ 48 → make_ptr p ≡ 0xfff8 * 2 ^ 48 + p
unfolding make_ptr
make_ptr_lem p h = or-fields 48 0xfff8 p h

pub is_ptr_lem : (v : ℕ) → is_ptr v ≡ (v / 2 ^ 48 % 2 ^ 16 == 0xfff8)
unfolding is_ptr
is_ptr_lem v = ground (arith, signature_lem v)

pub is_ptr-make_integer : (x : ℕ) → is_ptr (make_integer x) ≡ false
is_ptr-make_integer x = ground (arith, is_ptr_lem (make_integer x), make_integer_lem x)

pub get_int-make_integer : (x : ℕ) → get_int (make_integer x) ≡ x % 2 ^ 32
get_int-make_integer x = omega (arith, get_int_lem (make_integer x), make_integer_lem x)

pub get_ptr-make_ptr : (p : ℕ) → p < 2 ^ 48 → get_ptr (make_ptr p) ≡ p
get_ptr-make_ptr p h = omega (arith, get_ptr_lem (make_ptr p), make_ptr_lem p h)

-- `MAKE_FUNCTION` for a slot count below 2 ^ 15: three fields side by side.
pub make_function_lem :
    (x y : ℕ) → x < 2 ^ 16 → y < 2 ^ 15 → make_function x y ≡ 0x7ffc * 2 ^ 48 + y * 2 ^ 16 + x
unfolding make_function
make_function_lem x y hx hy = ground (
  arith,
  or-fields 48 0x7ffc (x % 2 ^ 16),
  or-split 16 (0x7ffc * 2 ^ 32) x y 0,
  or-fields 32 0x7ffc y,
  or-zero x,
)

-- A slot count of 2 ^ 15 or more: the sign of the shifted `int` fills the upper half.
pub make_function_wide :
    (x y : ℕ)
    → x < 2 ^ 16
    → 2 ^ 15 ≤ y
    → y < 2 ^ 16
    → make_function x y ≡ 0xffff_ffff * 2 ^ 32 + y * 2 ^ 16 + x
unfolding make_function
make_function_wide x y hx lo hy = ground (
  arith,
  or-fields 48 0x7ffc (x % 2 ^ 16),
  or-split 16 (0x7ffc * 2 ^ 32) x (0xffff_ffff * 2 ^ 16 + y) 0,
  or-split 32 0x7ffc 0 0xffff (0xffff * 2 ^ 16 + y),
  zero-or (0xffff * 2 ^ 16 + y),
  or-zero x,
)
