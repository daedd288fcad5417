-- ===== src/Base/Bits.antt =====
-- `&` and `|` with masks and shifted fields, as arithmetic, at every width.
use Prim.Native.Nat.{
  ℕ, zero, suc, ◌+◌, ◌-◌, ◌*◌, ◌/◌, ◌%◌, ◌^◌, ◌≤◌, ◌<◌, min, max, bit_and, bit_or, digits, bitwise,
  bit_and-bitwise, bit_or-bitwise,
}
use mathlib.Core.Path.{◌≡◌, refl, ap}
use native.Mathlib.Nat.{pow-suc}
use native.Mathlib.Omega.{arith}

-- A native operation stands for a recursion on binary digits whose fuel is its first argument;
-- any fuel that is large enough gives the same digits.
module _ (z : ℕ → ℕ) (f : ℕ → ℕ → ℕ) where
  digits-fuel_irrelevant : (n m a b : ℕ) → a ≤ n → a ≤ m → digits z f n a b ≡ digits z f m a b
  digits-fuel_irrelevant zero zero a b p q = refl
  digits-fuel_irrelevant zero (suc m) zero b p q = refl
  digits-fuel_irrelevant zero (suc m) (suc a) b p q = absurd (omega arith)
  digits-fuel_irrelevant (suc n) zero zero b p q = refl
  digits-fuel_irrelevant (suc n) zero (suc a) b p q = absurd (omega arith)
  digits-fuel_irrelevant (suc n) (suc m) zero b p q = refl
  digits-fuel_irrelevant (suc n) (suc m) (suc a) b p q =
      rw (digits-fuel_irrelevant n m (suc a / 2) (b / 2) (omega arith) (omega arith))

  bitwise-lowest :
      (a b : ℕ)
      → bitwise z f (suc a) b ≡ bitwise z f (suc a / 2) (b / 2) * 2 + f (suc a % 2) (b % 2)
  bitwise-lowest a b =
      omega (
        arith,
        digits-fuel_irrelevant a (suc a / 2) (suc a / 2) (b / 2) (omega arith) (omega arith),
      )

or_lowest : (a b : ℕ) → bit_or a b ≡ bit_or (a / 2) (b / 2) * 2 + max (a % 2) (b % 2)
or_lowest zero b = simp bit_or-bitwise (omega arith)
or_lowest (suc a) b = simp bit_or-bitwise (bitwise-lowest (λ y. y) max a b)

and_lowest : (a b : ℕ) → bit_and a b ≡ bit_and (a / 2) (b / 2) * 2 + min (a % 2) (b % 2)
and_lowest zero b = simp bit_and-bitwise (omega arith)
and_lowest (suc a) b = simp bit_and-bitwise (bitwise-lowest (λ y. 0) min a b)

below-or_zero : (n a : ℕ) → a ≤ n → bit_or a 0 ≡ a
below-or_zero n zero h = refl
below-or_zero zero (suc a) h = absurd (omega arith)
below-or_zero (suc n) (suc a) h =
    omega (arith, or_lowest (suc a) 0, below-or_zero n (suc a / 2) (omega arith))

below-and_zero : (n a : ℕ) → a ≤ n → bit_and a 0 ≡ 0
below-and_zero n zero h = refl
below-and_zero zero (suc a) h = absurd (omega arith)
below-and_zero (suc n) (suc a) h =
    omega (arith, and_lowest (suc a) 0, below-and_zero n (suc a / 2) (omega arith))

pow_pos : (k : ℕ) → 0 < 2 ^ k
pow_pos zero = omega arith
pow_pos (suc k) = omega (arith, pow-suc 2 k, pow_pos k)

shifted : (q k : ℕ) → q * 2 ^ suc k ≡ 2 * (q * 2 ^ k)
shifted q k = omega (arith, ap (λ (t : ℕ). q * t) (pow-suc 2 k))

-- `(q << k) | r` is a sum when `r` has at most `k` bits.
pub or-fields : (k q r : ℕ) → r < 2 ^ k → bit_or (q * 2 ^ k) r ≡ q * 2 ^ k + r
or-fields zero q r fits = ground (arith, below-or_zero q q)
or-fields (suc k) q r fits =
    ground (arith, or_lowest (q * 2 ^ suc k) r, shifted q k, pow-suc 2 k, or-fields k q (r / 2))

-- `|` acts on the fields above and below bit `k` separately.
pub or-split :
    (k q r m s : ℕ)
    → r < 2 ^ k
    → s < 2 ^ k
    → bit_or (q * 2 ^ k + r) (m * 2 ^ k + s) ≡ bit_or q m * 2 ^ k + bit_or r s
or-split zero q r m s hr hs = ground (
  arith,
  ap (λ (t : ℕ). bit_or (q * 1 + t) (m * 1 + s)) (zero_below r hr),
  ap (λ (t : ℕ). bit_or r t) (zero_below s hs),
  below-or_zero r r,
)
  where
    zero_below : (r : ℕ) → r < 1 → r ≡ 0
    zero_below r h = omega arith
or-split (suc k) q r m s hr hs = ground (
  arith,
  or_lowest (q * 2 ^ suc k + r) (m * 2 ^ suc k + s),
  or_lowest r s,
  shifted q k,
  shifted m k,
  shifted (bit_or q m) k,
  pow-suc 2 k,
  or-split k q (r / 2) m (s / 2),
)

pub zero-or : (a : ℕ) → bit_or 0 a ≡ a
zero-or a = simp bit_or-bitwise refl

pub or-zero : (a : ℕ) → bit_or a 0 ≡ a
or-zero a = below-or_zero a a (omega arith)

low_part : (k q r : ℕ) → r < 2 ^ k → bit_and (q * 2 ^ k + r) (2 ^ k - 1) ≡ r
low_part zero q r fits = ground (arith, below-and_zero (q * 1 + r) (q * 1 + r))
low_part (suc k) q r fits = ground (
  arith,
  and_lowest (q * 2 ^ suc k + r) (2 ^ suc k - 1),
  shifted q k,
  pow-suc 2 k,
  pow_pos k,
  low_part k q (r / 2),
)

-- `a & mask` for a mask of the `k` lowest bits is the remainder by `2 ^ k`.
pub and-low_mask : (k a : ℕ) → bit_and a (2 ^ k - 1) ≡ a % 2 ^ k
and-low_mask k a = ground (arith, pow_pos k, low_part k (a / 2 ^ k) (a % 2 ^ k))

high_part : (k q r m : ℕ) → r < 2 ^ k → bit_and (q * 2 ^ k + r) (m * 2 ^ k) ≡ bit_and q m * 2 ^ k
high_part zero q r m fits = ground (arith, ap (λ (t : ℕ). bit_and t m) (drop_zero q r fits))
  where
    drop_zero : (q r : ℕ) → r < 1 → q * 1 + r ≡ q
    drop_zero q r fits = omega arith
high_part (suc k) q r m fits = ground (
  arith,
  and_lowest (q * 2 ^ suc k + r) (m * 2 ^ suc k),
  shifted q k,
  shifted m k,
  shifted (bit_and q m) k,
  pow-suc 2 k,
  high_part k q (r / 2) m,
)

-- A mask whose `k` lowest bits are clear reads only what stands above them.
pub and-high_mask : (k a m : ℕ) → bit_and a (m * 2 ^ k) ≡ bit_and (a / 2 ^ k) m * 2 ^ k
and-high_mask k a m = ground (arith, pow_pos k, high_part k (a / 2 ^ k) (a % 2 ^ k) m)
