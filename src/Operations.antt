-- ===== src/Operations.antt =====
-- The natives of bindings/src/operations.c that stay inside the machine: `mutable_value`, `get_args`,
-- `slice` and `length`.
pub mod Lists
use bonzai.Base.{
  ℕ, ◌+◌, ◌-◌, ◌%◌, ◌^◌, Bool, true, false, ◌||◌, Option, none, some, List, [], ◌∷◌, ltb, leb, ◌==◌,
  not, if◌then◌else◌, take, drop, get_elem?,
}
use bonzai.Base
use bonzai.Word.{make_integer, get_int}
use bonzai.Stack.{lt_int}
use bonzai.Vm.{
  ValueType, type_integer, type_string, type_list, type_mutable, HeapValue, Module, Cmd, crash,
  pure, fail, get, assert, or_crash, ◌>>=◌, ◌>>◌, wrong_argc, unsupported_type, index_out_of_bounds,
}
use bonzai.Vm.Memory.{Env, array_of}
use bonzai.Vm.Access.{type_at, object_at, get_string, get_mutable, assert_type}
use bonzai.Alloc.{make_list}
use bonzai.Maths.{arg}

pub mutable_value : List ℕ → ℕ → Cmd ℕ
mutable_value args argc = do
  assert (argc == 1) wrong_argc
  a ← arg args 0
  assert_type a type_mutable
  get_mutable a

-- the elements from `start` up to `stop`, all of which have to be there
pub segment : List ℕ → ℕ → ℕ → Option (List ℕ)
segment xs start stop =
    if leb stop (Base.length xs) then some (take (stop - start) (drop start xs)) else none

pub get_args : Env → List ℕ → ℕ → Cmd ℕ
get_args env args argc = do
  assert (argc == 0) wrong_argc
  m ← get (λ m. m)
  argv ← or_crash (if lt_int m.argc 0 then none else segment m.argv 0 m.argc)
  make_list env argv m.argc

-- The new list's length is the difference as a `uint32_t`, also where `start` is the larger.
copy : Env → HeapValue → ℕ → ℕ → Cmd ℕ
copy env o start stop = do
  xs ← or_crash (array_of o.payload)
  part ← or_crash (segment xs start stop)
  make_list env part ((stop + (2 ^ 32 - start)) % 2 ^ 32)

pub slice : Env → List ℕ → ℕ → Cmd ℕ
slice env args argc = do
  assert (argc == 3) wrong_argc
  list ← arg args 0
  a ← arg args 1
  b ← arg args 2
  assert_type list type_list
  assert_type a type_integer
  assert_type b type_integer
  o ← object_at list
  let start = get_int a
  let stop = get_int b
  assert (not (ltb o.size start || ltb o.size stop)) index_out_of_bounds
  copy env o start stop

length_of : ValueType → ℕ → Cmd ℕ
length_of type_string v = do s ← get_string v; pure (make_integer (Base.length s))
length_of type_list v = do o ← object_at v; pure (make_integer o.size)
length_of _ v = fail unsupported_type

pub length : List ℕ → ℕ → Cmd ℕ
length args argc = do assert (argc == 1) wrong_argc; v ← arg args 0; t ← type_at v; length_of t v
