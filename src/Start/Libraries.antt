-- ===== src/Start/Libraries.antt =====
-- Which libraries runtime/src/main.c loads, and in which order.
use bonzai.Base.{ℕ, ◌≡◌, Option, List, [], ◌∷◌, get_elem?, false, none, some, if◌then◌else◌}
use bonzai.Vm.Access.{same_bytes}
use bonzai.Start.{LibraryOption, library_flag, copy_libraries, Exit}
use bonzai.Vm.{Run, ok, throw, crash}

-- What stands after each `-l`.
pub names_after_flag : List (List ℕ) → List (Option (List ℕ))
names_after_flag [] = []
names_after_flag (arg ∷ argv) =
    let rest = names_after_flag argv in
    if same_bytes arg library_flag then get_elem? argv 0 ∷ rest else rest

abbrev pub loaded : (Option (List ℕ) → ℕ) → Option (List ℕ) → LibraryOption
loaded load_library name = record { name = name; library = load_library name }

-- the result of a run that returns
pub Returns {ℓ} : {A : Type ℓ} → (A → Type ℓ) → Run A → Type ℓ
Returns P (ok a m) = P a
Returns P (throw e) = Unit
Returns P crash = Unit

-- If the program has ended, the file is closed and just these libraries are, in this order.
pub Closed : List ℕ → Option Exit → Type 0
Closed libs none = Unit
Closed libs (some e) = (e.closed ≡ libs) × (e.file_open ≡ false)

abbrev ClosesAll : List LibraryOption → Exit → Type 0
ClosesAll libs e = (e.closed ≡ copy_libraries libs) × (e.file_open ≡ false)
