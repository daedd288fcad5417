-- ===== src/Print/Reading.antt =====
-- Reading a number at the front of a text: what `digits` writes, as `%d` and `%zu` do.
use bonzai.Base.{
  ℕ, zero, suc, ◌+◌, ◌-◌, ◌*◌, ◌/◌, ◌%◌, ◌≤◌, ◌≡◌, refl, Bool, true, false, ◌&&◌, List, [], ◌∷◌,
  ◌++◌, ltb, leb, if◌then◌else◌, length, length-append, arith, Bool-cases, inl, inr,
}
use bonzai.Print.{digits}
use bonzai.Print.Decimal.{read_digits}

abbrev pub is_digit : ℕ → Bool
is_digit c = leb 48 c && ltb c 58

-- the number at the front, and what follows
unfoldable pub read_number : ℕ → List ℕ → ℕ × List ℕ
read_number n [] = (n, [])
read_number n (c ∷ cs) =
    let rest = read_number (n * 10 + (c - 48)) cs in if is_digit c then rest else (n, c ∷ cs)

-- A text of decimal digits.
pub AllDigits : List ℕ → Type 0
AllDigits [] = Unit {0}
AllDigits (c ∷ cs) = (is_digit c ≡ true) × AllDigits cs

AllDigits-append :
    (cs : List ℕ) (d : ℕ) → AllDigits cs → is_digit d ≡ true → AllDigits (cs ++ d ∷ [])
unfolding AllDigits
AllDigits-append [] d h e = (e, tt)
AllDigits-append (c ∷ cs) d (p, h) e = (p, AllDigits-append cs d h e)

pub digits-AllDigits : (fuel n : ℕ) → AllDigits (digits fuel n)
unfolding AllDigits digits
digits-AllDigits zero n = tt
digits-AllDigits (suc fuel) n = elim (Bool-cases (ltb n 10)) [
  | inl small ↦ rw small (ground arith, tt)
  | inr large ↦ rw large (
      AllDigits-append (digits fuel (n / 10)) (48 + n % 10) (digits-AllDigits fuel (n / 10))
        (ground arith))
]

pub read_number-digits :
    (n : ℕ) (ds : List ℕ) (c : ℕ) (cs : List ℕ)
    → AllDigits ds
    → is_digit c ≡ false
    → read_number n (ds ++ c ∷ cs) ≡ (read_digits n ds, c ∷ cs)
unfolding read_number read_digits AllDigits
read_number-digits n [] c cs h e = rw e refl
read_number-digits n (d ∷ ds) c cs (p, h) e =
    rw p (read_number-digits (n * 10 + (d - 48)) ds c cs h e)

pub length-digits : (fuel n : ℕ) → length (digits fuel n) ≤ fuel
unfolding digits
length-digits zero n = omega arith
length-digits (suc fuel) n = elim (Bool-cases (ltb n 10)) [
  | inl small ↦ rw small (omega arith)
  | inr large ↦ rw large (
      omega (
        arith,
        length-digits fuel (n / 10),
        length-append (digits fuel (n / 10)) ((48 + n % 10) ∷ []),
      ))
]
