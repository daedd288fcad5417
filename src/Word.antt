-- ===== src/Word.antt =====
-- The NaN-boxed 64-bit values of runtime/include/value.h: masks, signatures, and the macros that
-- build and read a word. A word is its bit pattern, a number below 2 ^ 64; an `int32_t` operand is
-- its pattern below 2 ^ 32.
pub mod Layout
pub mod Function
use bonzai.Base.{ℕ, ◌+◌, ◌-◌, ◌*◌, ◌/◌, ◌%◌, ◌^◌, Bool, bit_and, bit_or, ltb, ◌==◌, if◌then◌else◌}

abbrev pub mask_sign : ℕ
mask_sign = 0x8000_0000_0000_0000

abbrev pub mask_exponent : ℕ
mask_exponent = 0x7ff0_0000_0000_0000

abbrev pub mask_quiet : ℕ
mask_quiet = 0x0008_0000_0000_0000

abbrev pub mask_signature : ℕ
mask_signature = 0xffff_0000_0000_0000

abbrev pub mask_payload_ptr : ℕ
mask_payload_ptr = 0x0000_ffff_ffff_ffff

abbrev pub mask_payload_int : ℕ
mask_payload_int = 0x0000_0000_ffff_ffff

abbrev pub mask_type_special : ℕ
mask_type_special = 0x0001_0000_0000_0000

abbrev pub mask_type_integer : ℕ
mask_type_integer = 0x0002_0000_0000_0000

abbrev pub mask_type_function : ℕ
mask_type_function = 0x0004_0000_0000_0000

abbrev pub mask_type_funcenv : ℕ
mask_type_funcenv = 0x0005_0000_0000_0000

-- `kNaN` and `kNull`
abbrev pub k_nan : ℕ
k_nan = bit_or mask_exponent mask_quiet

abbrev pub k_null : ℕ
k_null = bit_or k_nan mask_type_special

abbrev pub signature_integer : ℕ
signature_integer = bit_or k_nan mask_type_integer

abbrev pub signature_function : ℕ
signature_function = bit_or k_nan mask_type_function

abbrev pub signature_funcenv : ℕ
signature_funcenv = bit_or k_nan mask_type_funcenv

abbrev pub signature_pointer : ℕ
signature_pointer = bit_or k_nan mask_sign

-- `~x` on a 64-bit word
abbrev pub complement : ℕ → ℕ
complement v = 2 ^ 64 - 1 - v

-- `(uint64_t) x` of an `int` with pattern x, which copies the sign bit upwards
abbrev pub extend_int : ℕ → ℕ
extend_int x = if ltb x (2 ^ 31) then x else x + (2 ^ 64 - 2 ^ 32)

-- `(int16_t) x`, as the pattern of the `int32_t` that it is then assigned to or added to
abbrev pub int16 : ℕ → ℕ
int16 x = if ltb (x % 2 ^ 16) (2 ^ 15) then x % 2 ^ 16 else x % 2 ^ 16 + (2 ^ 32 - 2 ^ 16)

pub signature : ℕ → ℕ
signature v = bit_and v mask_signature

pub is_ptr : ℕ → Bool
unfolding signature
is_ptr v = signature v == signature_pointer

pub is_fun : ℕ → Bool
unfolding signature
is_fun v = signature v == signature_function

-- the address in a pointer word
pub get_ptr : ℕ → ℕ
get_ptr v = bit_and v mask_payload_ptr

pub get_int : ℕ → ℕ
get_int v = bit_and v mask_payload_int

pub make_integer : ℕ → ℕ
make_integer x = bit_or signature_integer (x % 2 ^ 32)

pub make_ptr : ℕ → ℕ
make_ptr p = bit_or signature_pointer p

-- A C comparison or `!` is the `int` 1 or 0.
abbrev pub int_of : Bool → ℕ
int_of b = if b then 1 else 0

-- `x` is the code address and `y` the number of local slots; the shift is of an `int`.
pub make_function : ℕ → ℕ → ℕ
make_function x y =
    bit_or (bit_or signature_function (x % 2 ^ 16)) (extend_int (y % 2 ^ 16 * 2 ^ 16 % 2 ^ 32))

-- `ipc` and `local_space` as `op_call` and `call_threaded` read them from a callee
pub function_ipc : ℕ → ℕ
unfolding get_int
function_ipc callee = int16 (get_int callee)

pub function_local_space : ℕ → ℕ
unfolding get_int
function_local_space callee = int16 (get_int (callee / 2 ^ 16))
