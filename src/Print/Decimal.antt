-- ===== src/Print/Decimal.antt =====
-- Printed numbers, read back: `%d` in runtime/src/value.c.
use bonzai.Base.{
  ℕ, zero, suc, ◌+◌, ◌-◌, ◌*◌, ◌/◌, ◌%◌, ◌^◌, ◌<◌, ◌≤◌, ◌≡◌, refl, ap, ◌∙◌, true, false, List, [],
  ◌∷◌, ◌++◌, ltb, ◌==◌, if◌then◌else◌, arith, Bool-cases, inl, inr,
}
use native.Mathlib.Numerals.{unary_clauses}
use bonzai.Stack.{lt_int}
use bonzai.Print.{digits, decimal}

-- the number that decimal digits stand for, after those read before
unfoldable pub read_digits : ℕ → List ℕ → ℕ
read_digits n [] = n
read_digits n (d ∷ ds) = read_digits (n * 10 + (d - 48)) ds

-- an `int32_t` from its decimal text, as a pattern
pub read_decimal : List ℕ → ℕ
unfolding read_digits
read_decimal [] = 0
read_decimal (c ∷ ds) = if c == 45 then 2 ^ 32 - read_digits 0 ds else read_digits 0 (c ∷ ds)

read_digits-append :
    (n : ℕ) (ds : List ℕ) (d : ℕ) → read_digits n (ds ++ d ∷ []) ≡ read_digits n ds * 10 + (d - 48)
unfolding read_digits
read_digits-append n [] d = refl
read_digits-append n (e ∷ ds) d = read_digits-append (n * 10 + (e - 48)) ds d

pub read_digits-digits : (fuel n : ℕ) → n < 10 ^ fuel → read_digits 0 (digits fuel n) ≡ n
unfolding read_digits digits
read_digits-digits zero n h = omega arith
read_digits-digits (suc fuel) n h = elim (Bool-cases (ltb n 10)) [
  | inl small ↦ rw small (omega arith)
  | inr large ↦ rw large (
      read_digits-append 0 (digits fuel (n / 10)) (48 + n % 10)
      ∙ omega (arith, read_digits-digits fuel (n / 10) shorter))
]
  where
    ten_times : n < 10 ^ fuel * 10
    ten_times = simp unary_clauses at h

    shorter : n / 10 < 10 ^ fuel
    shorter = omega (arith, ten_times)

-- a text of digits begins with a digit
Begins : List ℕ → Type 0
Begins xs = (d : ℕ) × (ds : List ℕ) × (xs ≡ d ∷ ds) × (48 ≤ d)

Begins-append : (xs ys : List ℕ) → Begins xs → Begins (xs ++ ys)
unfolding Begins
Begins-append xs ys (d, ds, e, le) = (d, ds ++ ys, ap (λ l. l ++ ys) e, le)

digits-Begins : (fuel n : ℕ) → Begins (digits (suc fuel) n)
unfolding Begins digits
digits-Begins zero n = elim (Bool-cases (ltb n 10)) [
  | inl small ↦ (48 + n, [], rw small refl, omega arith)
  | inr large ↦ (48 + n % 10, [], rw large refl, omega arith)
]
digits-Begins (suc fuel) n = elim (Bool-cases (ltb n 10)) [
  | inl small ↦ (48 + n, [], rw small refl, omega arith)
  | inr large ↦ rw large (Begins-append _ _ (digits-Begins fuel (n / 10)))
]

read_decimal-Begins : (xs : List ℕ) → Begins xs → read_decimal xs ≡ read_digits 0 xs
unfolding Begins read_decimal
read_decimal-Begins xs (d, ds, e, le) = rw e (rw no_sign refl)
  where
    no_sign : (d == 45) ≡ false
    no_sign = ground arith

pub read_decimal-decimal : (n : ℕ) → n < 2 ^ 32 → read_decimal (decimal n) ≡ n
unfolding decimal read_decimal
read_decimal-decimal n h = elim (Bool-cases (lt_int n 0)) [
  | inl negative ↦ rw negative (
      minus (digits 10 (2 ^ 32 - n))
      ∙ omega (arith, below negative, read_digits-digits 10 (2 ^ 32 - n)))
  | inr other ↦ rw other (
      read_decimal-Begins (digits 10 n) (digits-Begins 9 n) ∙ read_digits-digits 10 n (omega arith))
]
  where
    minus : (ds : List ℕ) → read_decimal (45 ∷ ds) ≡ 2 ^ 32 - read_digits 0 ds
    minus ds = refl

    below : lt_int n 0 ≡ true → 2 ^ 32 - n < 10 ^ 10
    below e = omega arith
