-- ===== src/Operations/Lists.antt =====
-- `slice` of bindings/src/operations.c on a list and two bounds.
use bonzai.Base.{
  ℕ, zero, suc, ◌+◌, ◌-◌, ◌%◌, ◌^◌, ◌≤◌, ◌<◌, ◌≡◌, refl, ◌∙◌, ap, sym, not, true, ◌||◌, List, [],
  ◌∷◌, arith, ltb, leb, Bool-cases, inl, inr, if◌then◌else◌, take, drop, length,
}
use native.Mathlib.Decide.{dec_lt}
use bonzai.Word.{make_integer, get_int}
use bonzai.Word.Layout.{get_int-make_integer}
use bonzai.Vm.{Cmd, assert, ◌>>◌, Module, throw, ok, index_out_of_bounds, type_list, type_integer}
use bonzai.Vm.Memory.{Env}
use bonzai.Vm.TypeOf.{get_type-make_integer}
use bonzai.Vm.Access.{IsList, type_at-ok, object_at-ok, size-IsList, array-IsList, assert_type}
use bonzai.Alloc.{make_list}
use bonzai.Maths.{arg}
use bonzai.Operations.{slice, copy, segment}

take-take : (k n : ℕ) (xs : List ℕ) → k ≤ n → take k (take n xs) ≡ take k xs
take-take zero n xs h = refl
take-take (suc k) zero xs h = absurd (omega arith)
take-take (suc k) (suc n) [] h = refl
take-take (suc k) (suc n) (x ∷ xs) h = ap (λ t. x ∷ t) (take-take k n xs (omega arith))

-- elements before a cut
take-drop-take :
    (s k n : ℕ) (xs : List ℕ) → s + k ≤ n → take k (drop s (take n xs)) ≡ take k (drop s xs)
take-drop-take zero k n xs h = take-take k n xs (omega arith)
take-drop-take (suc s) k zero xs h = absurd (omega arith)
take-drop-take (suc s) k (suc n) [] h = refl
take-drop-take (suc s) k (suc n) (x ∷ xs) h = take-drop-take s k n xs (omega arith)

-- the elements between two bounds, the second inside the list
segment-take :
    (s e n : ℕ) (xs : List ℕ) → e ≤ n → take (e - s) (drop s (take n xs)) ≡ take (e - s) (drop s xs)
segment-take s e n xs h = elim (dec_lt s e) [
  | yes lt ↦ take-drop-take s (e - s) n xs (omega arith)
  | no ge ↦ let none_left : e - s ≡ 0 = omega arith in rw none_left refl
]

-- the arguments of a call
abbrev pub bounds : ℕ → ℕ → ℕ → List ℕ
bounds a s e = a ∷ make_integer s ∷ make_integer e ∷ []

assert_type-ok :
    (v : ℕ) (m : Module) {xs : List ℕ} → IsList m v xs → assert_type v type_list m ≡ ok tt m
unfolding assert_type
assert_type-ok v m p = rw (type_at-ok v m p.list) refl

assert_type-make_integer :
    (x : ℕ) (m : Module) → assert_type (make_integer x) type_integer m ≡ ok tt m
unfolding assert_type
assert_type-make_integer x m =
    rw (type_at-ok (make_integer x) m (get_type-make_integer m.heap x)) refl

copy-ok :
    (env : Env) (a s e : ℕ) (m : Module) {xs : List ℕ} (p : IsList m a xs)
    → e ≤ p.object.size
    → copy env p.object s e m
      ≡ make_list env (take (e - s) (drop s xs)) ((e + (2 ^ 32 - s)) % 2 ^ 32) m
unfolding copy segment
copy-ok env a s e m p h =
    let (ys, there, enough, same) = array-IsList a m p in
    let inside : leb e (length ys) ≡ true = ground arith in
    rw (there, inside, sym same, segment-take s e p.object.size ys h) refl

-- a new list of the elements from `s` up to `e`
abbrev pub sliced : Env → ℕ → ℕ → List ℕ → Cmd ℕ
sliced env s e xs = make_list env (take (e - s) (drop s xs)) ((e + (2 ^ 32 - s)) % 2 ^ 32)

-- For a list and two `int32_t` bounds `slice` ends the process if one of the bounds, read as an
-- unsigned number, is greater than the list's length, and otherwise makes the list of the
-- elements from the first bound up to the second, whose length field is the difference modulo 2 ^
-- 32.
pub slice_lem :
    (env : Env) (a s e : ℕ) (m : Module) (xs : List ℕ)
    → IsList m a xs
    → s < 2 ^ 32
    → e < 2 ^ 32
    → slice env (bounds a s e) 3 m ≡ (
        if ltb (length xs) s || ltb (length xs) e
        then throw index_out_of_bounds
        else sliced env s e xs m)
unfolding slice arg
slice_lem env a s e m xs p hs he =
    rw
      (
        assert_type-ok a m p,
        assert_type-make_integer s m,
        assert_type-make_integer e m,
        object_at-ok a m p.here,
        start,
        stop,
      )
      (checked
        ∙ ap (λ n. if ltb n s || ltb n e then throw index_out_of_bounds else sliced env s e xs m)
            (size-IsList a m p))
  where
    checked :
        (assert (not (ltb p.object.size s || ltb p.object.size e)) index_out_of_bounds
            >> copy env p.object s e)
          m
        ≡ (if ltb p.object.size s || ltb p.object.size e
            then throw index_out_of_bounds
            else sliced env s e xs m)
    checked = elim (Bool-cases (ltb p.object.size s || ltb p.object.size e)) [
      | inl out ↦ rw out refl
      | inr fits ↦ rw fits (copy-ok env a s e m p (ground arith))
    ]

    start : get_int (make_integer s) ≡ s
    start = omega (arith, get_int-make_integer s)

    stop : get_int (make_integer e) ≡ e
    stop = omega (arith, get_int-make_integer e)
