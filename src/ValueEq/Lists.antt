-- ===== src/ValueEq/Lists.antt =====
-- `value_eq` of runtime/src/value.c on two lists of integers of one length.
use bonzai.Base.{
  ℕ, suc, ◌%◌, ◌^◌, ◌<◌, ◌≡◌, ◌↔◌, refl, ◌∙◌, sym, true, false, Bool, List, [], ◌∷◌, arith, ◌==◌,
  map, length, length-map, if◌then◌else◌,
}
use bonzai.Word.{make_integer}
use bonzai.Word.Layout.{get_int-make_integer}
use bonzai.Vm.{Module, Cmd, ok}
use bonzai.Vm.Memory.{Env}
use bonzai.Vm.TypeOf.{get_type-make_integer}
use bonzai.Vm.Access.{IsList, type_at-ok, object_at-ok, list_elements-ok, size-IsList}
use bonzai.ValueEq.{value_eq, eq_each, eq_lists}

-- equality of the payloads, element by element
abbrev pub same_payloads : List ℕ → List ℕ → Bool
same_payloads (x ∷ xs) (y ∷ ys) = if x % 2 ^ 32 == y % 2 ^ 32 then same_payloads xs ys else false
same_payloads _ _ = true

value_eq-integers :
    (env : Env) (d x y : ℕ) (m : Module)
    → value_eq env (suc d) (make_integer x) (make_integer y) m ≡ ok (x % 2 ^ 32 == y % 2 ^ 32) m
unfolding value_eq
value_eq-integers env d x y m =
    rw
      (
        type_at-ok (make_integer x) m (get_type-make_integer m.heap x),
        type_at-ok (make_integer y) m (get_type-make_integer m.heap y),
        get_int-make_integer x,
        get_int-make_integer y,
      )
      refl

eq_each-integers :
    (env : Env) (d : ℕ) (m : Module) (xs ys : List ℕ)
    → eq_each (value_eq env (suc d)) (map make_integer xs) (map make_integer ys) m
      ≡ ok (same_payloads xs ys) m
unfolding eq_each
eq_each-integers env d m [] ys = refl
eq_each-integers env d m (x ∷ xs) [] = refl
eq_each-integers env d m (x ∷ xs) (y ∷ ys) =
    ground (arith, value_eq-integers env d x y m, eq_each-integers env d m xs ys)

eq_lists-ok :
    (eq : ℕ → ℕ → Cmd Bool) (m : Module) (a b : ℕ) {xs ys : List ℕ}
    → IsList m a xs
    → IsList m b ys
    → length xs ≡ length ys
    → eq_lists eq a b m ≡ eq_each eq xs ys m
unfolding eq_lists
eq_lists-ok eq m a b p q same =
    let sizes : (p.object.size == q.object.size) ≡ true =
      ground (arith, size-IsList a m p, size-IsList b m q) in
    rw
      (
        object_at-ok a m p.here,
        object_at-ok b m q.here,
        sizes,
        list_elements-ok a m p,
        list_elements-ok b m q,
      )
      refl

-- all elements are `int32_t` patterns
abbrev pub AllInt32 : List ℕ → Type 0
AllInt32 [] = Unit
AllInt32 (x ∷ xs) = (x < 2 ^ 32) × AllInt32 xs

same_payloads_iff :
    (xs ys : List ℕ)
    → AllInt32 xs
    → AllInt32 ys
    → length xs ≡ length ys
    → (same_payloads xs ys ≡ true) ↔ (xs ≡ ys)
same_payloads_iff [] [] hx hy same = (λ _. refl, λ _. refl)
same_payloads_iff [] (y ∷ ys) hx hy same = absurd (omega arith)
same_payloads_iff (x ∷ xs) [] hx hy same = absurd (omega arith)
same_payloads_iff (x ∷ xs) (y ∷ ys) hx hy same = ground (arith, same_payloads_iff xs ys hx.1 hy.1)

-- For two lists of `int32_t` integers of one length `value_eq` returns, changes nothing, and
-- answers true exactly when the lists are equal.
pub value_eq-lists :
    (env : Env) (d : ℕ) (m : Module) (a b : ℕ) (xs ys : List ℕ)
    → IsList m a (map make_integer xs)
    → IsList m b (map make_integer ys)
    → AllInt32 xs
    → AllInt32 ys
    → length xs ≡ length ys
    → (same : Bool) × (value_eq env (suc (suc d)) a b m ≡ ok same m) × ((same ≡ true) ↔ (xs ≡ ys))
unfolding value_eq
value_eq-lists env d m a b xs ys p q hx hy same = (
  same_payloads xs ys,
  rw (type_at-ok a m p.list, type_at-ok b m q.list)
      (eq_lists-ok (value_eq env (suc d)) m a b p q
          (length-map make_integer xs ∙ same ∙ sym (length-map make_integer ys))
        ∙ eq_each-integers env d m xs ys),
  same_payloads_iff xs ys hx hy same,
)
