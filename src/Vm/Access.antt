-- ===== src/Vm/Access.antt =====
-- Reads through a value in the middle of an operation: the type, the object, a string's bytes, a
-- list's elements (`GET_PTR`, `GET_STRING`, `GET_LIST` of value.h).
use bonzai.Base.{
  Option-cases, inl, inr, ℕ, zero, suc, ◌≤◌, ◌≡◌, refl, ap, arith, Bool, true, false, ◌&&◌, Option,
  none, some, List, [], ◌∷◌, leb, ◌==◌, if◌then◌else◌, length, take,
}
use bonzai.Vm.{
  assert, is_type, wrong_type, Module, ok, type_list, ValueType, HeapValue, Cmd, pure, or_crash,
  ◌>>=◌,
}
use bonzai.Vm.Memory.{deref, string_of, array_of}
use bonzai.Vm.TypeOf.{get_type}

unfoldable pub type_at : ℕ → Cmd ValueType
type_at v m = or_crash (get_type m.heap v) m

unfoldable pub object_at : ℕ → Cmd HeapValue
object_at v m = or_crash (deref m.heap v) m

unfoldable pub get_string : ℕ → Cmd (List ℕ)
unfolding object_at
get_string v = do o ← object_at v; or_crash (string_of o.payload)

-- the `size` first elements of an array, all of which have to be there
unfoldable pub elements : HeapValue → Option (List ℕ)
elements o = elim (array_of o.payload) [
  | none ↦ none
  | some xs ↦ if leb o.size (length xs) then some (take o.size xs) else none
]

-- a list's `length` field, and that many elements
unfoldable pub list_elements : ℕ → Cmd (ℕ × List ℕ)
unfolding object_at elements
list_elements v = do o ← object_at v; xs ← or_crash (elements o); pure (o.size, xs)

-- `strcmp(s, t) == 0`
unfoldable pub same_bytes : List ℕ → List ℕ → Bool
same_bytes [] [] = true
same_bytes [] (_ ∷ _) = false
same_bytes (_ ∷ _) [] = false
same_bytes (a ∷ s) (b ∷ t) = (a == b) && same_bytes s t

first_element : List ℕ → Option ℕ
first_element [] = none
first_element (x ∷ _) = some x

-- `GET_MUTABLE`
unfoldable pub get_mutable : ℕ → Cmd ℕ
unfolding object_at first_element
get_mutable v = do o ← object_at v; xs ← or_crash (array_of o.payload); or_crash (first_element xs)

-- `ASSERT_TYPE`
unfoldable pub assert_type : ℕ → ValueType → Cmd (Unit {0})
unfolding type_at
assert_type v t = do u ← type_at v; assert (is_type u t) wrong_type

pub type_at-ok :
    (v : ℕ) (m : Module) {t : ValueType} → get_type m.heap v ≡ some t → type_at v m ≡ ok t m
unfolding type_at
type_at-ok v m e = rw e refl

pub object_at-ok :
    (v : ℕ) (m : Module) {o : HeapValue} → deref m.heap v ≡ some o → object_at v m ≡ ok o m
unfolding object_at
object_at-ok v m e = rw e refl

-- The word leads to a list object with these elements.
pub record IsList (m : Module) (v : ℕ) (xs : List ℕ) : Type 0 where
  pub object : HeapValue
  pub here : deref m.heap v ≡ some object
  pub list : get_type m.heap v ≡ some type_list
  pub contents : elements object ≡ some xs

pub list_elements-ok :
    (v : ℕ) (m : Module) {xs : List ℕ} (p : IsList m v xs)
    → list_elements v m ≡ ok (p.object.size, xs) m
unfolding list_elements
list_elements-ok v m p = rw (p.here, p.contents) refl

length-take : (n : ℕ) (xs : List ℕ) → n ≤ length xs → length (take n xs) ≡ n
length-take zero xs h = refl
length-take (suc n) [] h = absurd (omega arith)
length-take (suc n) (x ∷ xs) h = ap suc (length-take n xs (omega arith))

pub size-IsList : (v : ℕ) (m : Module) {xs : List ℕ} (p : IsList m v xs) → p.object.size ≡ length xs
unfolding elements
size-IsList v m {xs} p = elim (Option-cases (array_of p.object.payload)) [
  | inl none_there ↦ ground arith
  | inr (ys, e) ↦ ground (arith, length-take p.object.size ys)
]

-- the array behind a list, whose first elements are those of the list
pub array-IsList :
    (v : ℕ) (m : Module) {xs : List ℕ} (p : IsList m v xs)
    → (ys : List ℕ) × (array_of p.object.payload ≡ some ys)
      × (p.object.size ≤ length ys)
      × (take p.object.size ys ≡ xs)
unfolding elements
array-IsList v m p = elim (Option-cases (array_of p.object.payload)) [
  | inl none_there ↦ absurd (contents_there none_there)
  | inr (ys, e) ↦ (ys, e, ground arith, ground arith)
]
  where
    contents_there : array_of p.object.payload ≡ none → ⊥
    contents_there e = ground arith
