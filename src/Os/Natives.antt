-- ===== src/Os/Natives.antt =====
-- The natives of bindings/src/operations.c that call the operating system.
use bonzai.Base.{ℕ, ◌==◌, Bool, true, not, none, some, List, [], ◌∷◌, ◌++◌, if◌then◌else◌}
use bonzai.Word.{make_integer, int_of}
use bonzai.Vm.{
  type_integer, type_string, assert, fail, pure, modify, wrong_argc, no_working_directory,
}
use bonzai.Vm.Memory.{Env}
use bonzai.Vm.Access.{assert_type, get_string}
use bonzai.Alloc.{make_string}
use bonzai.Maths.{arg}
use bonzai.Print.{native_print}
use bonzai.Os.{
  Os, Io, lift, ask, tell, ◌>>=◌, ◌>>◌, system, getcwd, getenv, fopen, fclose, stat, printf,
  pthread_exit,
}

pub print : (ℕ → List ℕ) → Env → List ℕ → ℕ → Io ℕ
print format_float env args argc = do
  lift (assert (argc == 1) wrong_argc)
  a ← lift (arg args 0)
  text ← lift (native_print format_float env.c_stack a)
  tell (printf (text ++ 10 ∷ []))
  lift (pure (make_integer 0))

-- The thread ends at `pthread_exit`; nothing after it runs.
pub exit_with : List ℕ → ℕ → Io (Unit {0})
exit_with args argc = do
  lift (assert (argc == 1) wrong_argc)
  a ← lift (arg args 0)
  lift (assert_type a type_integer)
  lift (modify (λ m. record m { is_terminated = true }))
  tell pthread_exit

-- one argument, a string
pub string_argument : List ℕ → ℕ → Io (List ℕ)
string_argument args argc = do
  lift (assert (argc == 1) wrong_argc)
  a ← lift (arg args 0)
  lift (assert_type a type_string)
  lift (get_string a)

pub execute_command : Os → List ℕ → ℕ → Io ℕ
unfolding string_argument
execute_command os args argc = do
  command ← string_argument args argc
  ret ← ask os.number (system command)
  lift (pure (make_integer ret))

-- " &> /dev/null"
abbrev devnull : List ℕ
devnull = 32 ∷ 38 ∷ 62 ∷ 32 ∷ 47 ∷ 100 ∷ 101 ∷ 118 ∷ 47 ∷ 110 ∷ 117 ∷ 108 ∷ 108 ∷ []

pub execute_command_silent : Os → List ℕ → ℕ → Io ℕ
unfolding string_argument
execute_command_silent os args argc = do
  command ← string_argument args argc
  ret ← ask os.number (system (command ++ devnull))
  lift (pure (make_integer ret))

pub get_cwd : Env → Os → List ℕ → ℕ → Io ℕ
get_cwd env os args argc = do
  lift (assert (argc == 0) wrong_argc)
  cwd ← ask os.text getcwd
  lift (elim cwd [ none ↦ fail no_working_directory | some text ↦ make_string env text ])

pub is_not_directory : Os → List ℕ → Io Bool
is_not_directory os path = do is_directory ← ask os.test (stat path); lift (pure (not is_directory))

-- `fopen` answers whether it opened the file.
pub file_exists : Os → List ℕ → ℕ → Io ℕ
unfolding string_argument is_not_directory
file_exists os args argc = do
  filename ← string_argument args argc
  opened ← ask os.test (fopen filename)
  if opened
      then (do
        tell (fclose filename)
        file ← is_not_directory os filename
        lift (pure (make_integer (int_of file))))
      else lift (pure (make_integer 0))

pub get_env : Env → Os → List ℕ → ℕ → Io ℕ
unfolding string_argument
get_env env os args argc = do
  name ← string_argument args argc
  value ← ask os.text (getenv name)
  lift (make_string env (elim value [ none ↦ [] | some text ↦ text ]))
