-- ===== src/Print/Lists.antt =====
-- What `native_print` of runtime/src/value.c prints for a list, and `DEBUG_STACK` of
-- runtime/include/debug.h for a stack.
use bonzai.Base.{
  ℕ, suc, ◌%◌, ◌^◌, ◌<◌, ◌≡◌, ◌≢◌, refl, ap, ◌∙◌, false, List, [], ◌∷◌, ◌++◌, map, ◌==◌, arith,
}
use bonzai.Word.{make_integer}
use bonzai.Word.Layout.{make_integer_lem}
use bonzai.Vm.{Module, Cmd, ok}
use bonzai.Vm.Access.{type_at-ok, IsList, list_elements-ok}
use bonzai.Vm.TypeOf.{get_type-make_integer}
use bonzai.Print.{comma, decimal, print_elements, print_list, native_print}
use bonzai.Print.Decimal.{read_decimal, read_decimal-decimal}

-- the texts with a separator between each two
pub join : List ℕ → List (List ℕ) → List ℕ
join sep [] = []
join sep (x ∷ []) = x
join sep (x ∷ y ∷ xs) = x ++ (sep ++ join sep (y ∷ xs))

print_elements-join :
    (print : ℕ → Cmd (List ℕ)) (word : ℕ → ℕ) (text : ℕ → List ℕ) (m : Module) (xs : List ℕ)
    → ((x : ℕ) → print (word x) m ≡ ok (text x) m)
    → print_elements print (map word xs) m ≡ ok (join comma (map text xs)) m
unfolding print_elements join
print_elements-join print word text m [] h = refl
print_elements-join print word text m (x ∷ []) h = h x
print_elements-join print word text m (x ∷ y ∷ xs) h =
    rw (h x, print_elements-join print word text m (y ∷ xs) h) refl

int_text : ℕ → List ℕ
int_text x = decimal (x % 2 ^ 32)

nonzero : (x : ℕ) → (make_integer x == 0) ≡ false
nonzero x = ground (arith, make_integer_lem x)

pub native_print-integer :
    (format_float : ℕ → List ℕ) (depth x : ℕ) (m : Module)
    → native_print format_float (suc depth) (make_integer x) m ≡ ok (decimal (x % 2 ^ 32)) m
unfolding native_print
native_print-integer format_float depth x m =
    rw (nonzero x, type_at-ok (make_integer x) m (get_type-make_integer m.heap x))
      (ap (λ n. ok (decimal n) m) low)
  where
    low : make_integer x % 2 ^ 32 ≡ x % 2 ^ 32
    low = omega (arith, make_integer_lem x)

-- A list of integers is printed as their decimal texts, a comma and a space between each two, in
-- brackets.
pub native_print-list :
    (format_float : ℕ → List ℕ) (depth v : ℕ) (xs : List ℕ) (m : Module)
    → v ≢ 0
    → IsList m v (map make_integer xs)
    → native_print format_float (suc (suc depth)) v m
      ≡ ok (91 ∷ join comma (map (λ x. decimal (x % 2 ^ 32)) xs) ++ 93 ∷ []) m
unfolding native_print print_list
native_print-list format_float depth v xs m ne p =
    rw (not_null, type_at-ok v m p.list, list_elements-ok v m p, elements_text) refl
  where
    not_null : (v == 0) ≡ false
    not_null = ground arith

    elements_text :
        print_elements (native_print format_float (suc depth)) (map make_integer xs) m
        ≡ ok (join comma (map (λ x. decimal (x % 2 ^ 32)) xs)) m
    elements_text =
        print_elements-join _ make_integer (λ x. decimal (x % 2 ^ 32)) m xs
          (λ x. native_print-integer format_float depth x m)

-- An `int32_t` pattern is printed as a decimal text that reads back as that pattern, negative
-- numbers included, and nothing changes.
pub native_print_roundtrip :
    (format_float : ℕ → List ℕ) (depth x : ℕ) (m : Module)
    → x < 2 ^ 32
    → (text : List ℕ) × (native_print format_float (suc depth) (make_integer x) m ≡ ok text m)
      × (read_decimal text ≡ x)
native_print_roundtrip format_float depth x m h = (
  decimal (x % 2 ^ 32),
  native_print-integer format_float depth x m,
  read_decimal-decimal (x % 2 ^ 32) (omega arith) ∙ omega arith,
)
