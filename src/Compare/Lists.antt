-- ===== src/Compare/Lists.antt =====
-- `compare_eq` of runtime/src/compare.c on two lists of integers of one length.
use bonzai.Base.{
  ℕ, suc, ◌≡◌, refl, ◌∙◌, sym, true, false, List, [], ◌∷◌, arith, ◌==◌, map, length, length-map,
}
use bonzai.Word.{make_integer, int_of}
use bonzai.Word.Layout.{make_integer_lem}
use bonzai.Vm.{Cmd, Module, type_integer, ok}
use bonzai.Vm.Memory.{Env}
use bonzai.Vm.TypeOf.{get_type-make_integer}
use bonzai.Vm.Access.{IsList, type_at-ok, object_at-ok, list_elements-ok, size-IsList, type_at}
use bonzai.Compare.{compare_each, compare_eq, compare_lists}

type_at-make_integer : (x : ℕ) (m : Module) → type_at (make_integer x) m ≡ ok type_integer m
type_at-make_integer x m = type_at-ok (make_integer x) m (get_type-make_integer m.heap x)

compare_eq-integers :
    (env : Env) (d x y : ℕ) (m : Module)
    → compare_eq env (suc d) (make_integer x) (make_integer y) m
      ≡ ok (make_integer (int_of (make_integer x == make_integer y))) m
unfolding compare_eq
compare_eq-integers env d x y m = rw (type_at-make_integer x m, type_at-make_integer y m) refl

answer_not_zero : (x : ℕ) → (make_integer x == 0) ≡ false
answer_not_zero x = ground (arith, make_integer_lem x)

compare_each-integers :
    (env : Env) (d : ℕ) (m : Module) (xs ys : List ℕ)
    → compare_each (compare_eq env (suc d)) (map make_integer xs) (map make_integer ys) m
      ≡ ok (make_integer 1) m
unfolding compare_each
compare_each-integers env d m [] ys = refl
compare_each-integers env d m (x ∷ xs) [] = refl
compare_each-integers env d m (x ∷ xs) (y ∷ ys) =
    rw (compare_eq-integers env d x y m, answer_not_zero) (compare_each-integers env d m xs ys)

compare_lists-ok :
    (cmp : ℕ → ℕ → Cmd ℕ) (m : Module) (a b : ℕ) {xs ys : List ℕ}
    → IsList m a xs
    → IsList m b ys
    → length xs ≡ length ys
    → compare_lists cmp a b m ≡ compare_each cmp xs ys m
unfolding compare_lists
compare_lists-ok cmp m a b p q same =
    let sizes : (p.object.size == q.object.size) ≡ true =
      ground (arith, size-IsList a m p, size-IsList b m q) in
    rw
      (
        object_at-ok a m p.here,
        object_at-ok b m q.here,
        sizes,
        list_elements-ok a m p,
        list_elements-ok b m q,
      )
      refl

-- Two lists of integers of one length compare as equal, whatever the integers are.
pub compare_eq-lists :
    (env : Env) (d : ℕ) (m : Module) (a b : ℕ) (xs ys : List ℕ)
    → IsList m a (map make_integer xs)
    → IsList m b (map make_integer ys)
    → length xs ≡ length ys
    → compare_eq env (suc (suc d)) a b m ≡ ok (make_integer 1) m
unfolding compare_eq
compare_eq-lists env d m a b xs ys p q same =
    rw (type_at-ok a m p.list, type_at-ok b m q.list)
      (compare_lists-ok (compare_eq env (suc d)) m a b p q
          (length-map make_integer xs ∙ same ∙ sym (length-map make_integer ys))
        ∙ compare_each-integers env d m xs ys)
