-- ===== src/Start.antt =====
-- The start of the runtime: runtime/src/main.c. The dynamic linker's `load_library` and the file
-- that `fopen` opens are parameters.
pub mod Libraries
use bonzai.Base.{
  ℕ, zero, suc, ◌+◌, Bool, true, false, not, Option, none, some, List, [], ◌∷◌, ◌++◌, if◌then◌else◌,
  get_elem?, length,
}
use bonzai.Stack.{lt_int, stack_new}
use bonzai.Vm.{
  Module, Cmd, pure, fail, get, modify, assert, or_crash, ◌>>=◌, ◌>>◌, usage, could_not_open_file,
}
use bonzai.Vm.Memory.{Env}
use bonzai.Vm.Access.{same_bytes}
use bonzai.Alloc.{make_string, force_sweep}
use bonzai.Deserialize.{deserialize, free_constant}
use bonzai.Interpreter.Step.{run_interpreter}

-- The linked list of these is a list here. The name after a last `-l` is `argv[argc]`, which is NULL.
pub record LibraryOption : Type 0 where
  pub name : Option (List ℕ)
  pub library : ℕ

-- "-l"
abbrev pub library_flag : List ℕ
library_flag = 45 ∷ 108 ∷ []

pub count_libraries : List LibraryOption → ℕ
count_libraries [] = 0
count_libraries (_ ∷ libs) = suc (count_libraries libs)

-- The loop of `get_libraries` over the arguments that are left; `libs` is the list from `head` to
-- `current`.
pub add_libraries : (Option (List ℕ) → ℕ) → List (List ℕ) → List LibraryOption → List LibraryOption
add_libraries load_library [] libs = libs
add_libraries load_library (arg ∷ argv) libs =
    let name = get_elem? argv 0 in
    let lib : LibraryOption = record { name = name; library = load_library name } in
    let found = add_libraries load_library argv (libs ++ lib ∷ []) in
    let other = add_libraries load_library argv libs in
    if same_bytes arg library_flag then found else other

pub get_libraries : (Option (List ℕ) → ℕ) → List (List ℕ) → List LibraryOption
unfolding add_libraries
get_libraries load_library argv = add_libraries load_library argv []

-- the loop that fills `libs`
pub copy_libraries : List LibraryOption → List ℕ
copy_libraries [] = []
copy_libraries (lib ∷ libs) = lib.library ∷ copy_libraries libs

-- `closed` are the libraries that were passed to `free_library` so far, the last one at the end.
pub free_libraries : List LibraryOption → List ℕ → List ℕ
free_libraries [] closed = closed
free_libraries (lib ∷ libs) closed = free_libraries libs (closed ++ lib.library ∷ [])

-- `args[i] = MAKE_STRING(&module, argv[i])`
make_strings : Env → List (List ℕ) → Cmd (List ℕ)
make_strings env [] = pure []
make_strings env (arg ∷ argv) = do
  v ← make_string env arg
  vs ← make_strings env argv
  pure (v ∷ vs)

open_file : (List ℕ → Option (List ℕ)) → List ℕ → Cmd (List ℕ)
open_file fopen name = elim (fopen name) [
  | none ↦ fail could_not_open_file
  | some bytes ↦ pure bytes
]

-- `main` up to `run_interpreter`, on a module that holds anything; `block` is the memory for the
-- stack. `argc` is the number of arguments.
pub load :
    Env
    → (List ℕ → Option (List ℕ))
    → (Option (List ℕ) → ℕ)
    → List ℕ
    → List (List ℕ)
    → Cmd (Unit {0})
unfolding get_libraries copy_libraries make_strings open_file
load env fopen load_library block argv = do
  modify (λ m. record m { file = none; latest_position = (0, 0) })
  assert (not (lt_int (length argv) 2)) usage
  name ← or_crash (get_elem? argv 1)
  file ← open_file fopen name
  modify (λ m. record m {
    stack = stack_new block;
    handles = copy_libraries (get_libraries load_library argv);
  })
  deserialize env file
  modify (λ m. record m { argc = length argv })
  args ← make_strings env argv
  modify (λ m. record m { argv = args })

pub free_constants : List ℕ → Cmd (Unit {0})
free_constants [] = pure tt
free_constants (v ∷ vs) = free_constant v >> free_constants vs

-- the arrays that are freed at the end are gone
abbrev release : Module → Module
release m = record m {
  stack = record m.stack { values = [] };
  instrs = [];
  constants = [];
  argv = [];
  handles = [];
}

-- How a program ends: the file is closed, the libraries that were passed to `free_library`, and the
-- exit code.
pub record Exit : Type 0 where
  pub file_open : Bool
  pub closed : List ℕ
  pub code : ℕ

-- What `main` does after the run. Nothing reads the constants in between, so their array goes with
-- the others.
pub finish : List LibraryOption → Cmd Exit
unfolding free_constants free_libraries
finish libraries = do
  constants ← get (λ m. m.constants)
  free_constants constants
  force_sweep
  modify release
  pure (record { file_open = false; closed = free_libraries libraries []; code = 0 })

-- `none` is a program that has not ended yet.
pub after_run : List LibraryOption → Option ℕ → Cmd (Option Exit)
unfolding finish
after_run libraries none = pure none
after_run libraries (some _) = do e ← finish libraries; pure (some e)

-- The program, for at most `fuel` instructions.
pub main :
    Env
    → (List ℕ → Option (List ℕ))
    → (Option (List ℕ) → ℕ)
    → ℕ
    → List ℕ
    → List (List ℕ)
    → Cmd (Option Exit)
unfolding load after_run
main env fopen load_library fuel block argv = do
  load env fopen load_library block argv
  result ← run_interpreter env fuel 0 false 0
  after_run (get_libraries load_library argv) result
