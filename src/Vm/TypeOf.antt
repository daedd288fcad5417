-- ===== src/Vm/TypeOf.antt =====
-- `get_type` of runtime/src/value.c, on each kind of word.
use bonzai.Base.{
  ℕ, ◌+◌, ◌*◌, ◌/◌, ◌%◌, ◌^◌, ◌<◌, ◌≡◌, refl, ap, sym, ◌∙◌, Bool, true, false, Option, none, some,
  arith, bit_and, ◌==◌, if◌then◌else◌,
}
use mathlib.Core.Option
use bonzai.Word.{
  mask_exponent, complement, signature, signature_pointer, signature_integer, signature_function,
  signature_funcenv, k_nan, k_null, make_integer, make_ptr, make_function,
}
use bonzai.Word.Layout.{
  signature_lem, exponent_lem, make_integer_lem, make_ptr_lem, get_ptr-make_ptr, make_function_lem,
}
use bonzai.Vm.{
  ValueType, type_integer, type_float, type_special, type_function, type_funcenv, type_unknown,
  Heap, HeapValue,
}
use bonzai.Vm.Memory.{load, deref}

abbrev is_float_word : ℕ → Bool
is_float_word v = if bit_and (complement v) mask_exponent == 0 then false else true

-- the short encoded types
short_type : ℕ → ValueType
short_type s =
    if s == k_nan
    then type_unknown
    else if s == k_null
    then type_special
    else if s == signature_integer
    then type_integer
    else if s == signature_function
    then type_function
    else if s == signature_funcenv
    then type_funcenv
    else type_unknown

-- `none` is a pointer word that leads to no object.
unfoldable pub get_type : Heap → ℕ → Option ValueType
unfolding short_type
get_type h v =
    if is_float_word v
    then some type_float
    else if signature v == signature_pointer
    then Option.map (λ o. o.type) (deref h v)
    else some (short_type (signature v))

pub get_type-make_integer : (h : Heap) (x : ℕ) → get_type h (make_integer x) ≡ some type_integer
unfolding get_type
get_type-make_integer h x =
    ground
      (arith, make_integer_lem x, signature_lem (make_integer x), exponent_lem (make_integer x))

pub deref-make_ptr : (h : Heap) (p : ℕ) → p < 2 ^ 48 → deref h (make_ptr p) ≡ load h p
unfolding deref
deref-make_ptr h p small = ap (load h) (get_ptr-make_ptr p small)

-- A pointer word with a 48-bit address has the type of the object there.
pub get_type-make_ptr :
    (h : Heap) (p : ℕ)
    → p < 2 ^ 48
    → get_type h (make_ptr p) ≡ Option.map (λ (o : HeapValue). o.type) (load h p)
unfolding get_type
get_type-make_ptr h p small = rw (pointer, no_float, deref-make_ptr h p small) refl
  where
    no_float : is_float_word (make_ptr p) ≡ false
    no_float = ground (arith, make_ptr_lem p small, exponent_lem (make_ptr p))

    pointer : (signature (make_ptr p) == signature_pointer) ≡ true
    pointer = ground (arith, make_ptr_lem p small, signature_lem (make_ptr p))

get_type-make_function :
    (h : Heap) (x y : ℕ)
    → x < 2 ^ 16
    → y < 2 ^ 15
    → get_type h (make_function x y) ≡ some type_function
unfolding get_type
get_type-make_function h x y hx hy = ground (
  arith,
  make_function_lem x y,
  signature_lem (make_function x y),
  exponent_lem (make_function x y),
)

-- The exponent bits of a double, below all ones for a finite number.
abbrev pub exponent : ℕ → ℕ
exponent v = v / 2 ^ 52 % 2 ^ 11

get_type-finite :
    (h : Heap) (v : ℕ) → v < 2 ^ 64 → exponent v < 2047 → get_type h v ≡ some type_float
unfolding get_type
get_type-finite h v small finite = ground (arith, exponent_lem v)

-- The words that the runtime makes keep their kinds apart: an integer word is an integer, a
-- function word with a code address below 2 ^ 16 and a slot count below 2 ^ 15 a function, a
-- pointer word with a 48-bit address has its object's type, and a finite double is a float.
pub get_type_lem :
    (h : Heap) (i x y p v : ℕ)
    → x < 2 ^ 16
    → y < 2 ^ 15
    → p < 2 ^ 48
    → v < 2 ^ 64
    → exponent v < 2047
    → (get_type h (make_integer i) ≡ some type_integer)
      × (get_type h (make_function x y) ≡ some type_function)
      × (get_type h (make_ptr p) ≡ Option.map (λ (o : HeapValue). o.type) (load h p))
      × (get_type h v ≡ some type_float)
get_type_lem h i x y p v hx hy hp hv finite = (
  get_type-make_integer h i,
  get_type-make_function h x y hx hy,
  get_type-make_ptr h p hp,
  get_type-finite h v hv finite,
)

-- The words with `0x7ff0` or `0xfff0` in the 16 upper bits, the two infinities among them, and
-- those with `0x7ff8` have the unknown type; the type of `0xfff8000000000000`, the NaN that an
-- x86 processor makes, is read through NULL.
pub get_type-special :
    (h : Heap) (r : ℕ)
    → r < 2 ^ 48
    → (get_type h (0x7ff0 * 2 ^ 48 + r) ≡ some type_unknown)
      × (get_type h (0xfff0 * 2 ^ 48 + r) ≡ some type_unknown)
      × (get_type h (0x7ff8 * 2 ^ 48 + r) ≡ some type_unknown)
      × (get_type h (0xfff8 * 2 ^ 48) ≡ none)
unfolding get_type load
get_type-special h r small = (
  ground (arith, exponent_lem (0x7ff0 * 2 ^ 48 + r), signature_lem (0x7ff0 * 2 ^ 48 + r)),
  ground (arith, exponent_lem (0xfff0 * 2 ^ 48 + r), signature_lem (0xfff0 * 2 ^ 48 + r)),
  ground (arith, exponent_lem (0x7ff8 * 2 ^ 48 + r), signature_lem (0x7ff8 * 2 ^ 48 + r)),
  ap (get_type h) (sym (make_ptr_lem 0 (omega arith))) ∙ get_type-make_ptr h 0 (omega arith),
)
