-- ===== src/Examples/Loading.antt =====
-- A file with an integer, a string and three instructions.
use bonzai.Base.{◌≡◌, refl, List, [], ◌∷◌, arith}
use bonzai.Vm.{Module, ok}
use bonzai.Deserialize.{deserialize}
use bonzai.Deserialize.Format.{Literal, lit_int, lit_string}
use bonzai.Deserialize.Instructions.{
  Instruction, load_constant, send, halt, run_serializer, all_words,
}
use bonzai.Deserialize.RoundTrip.{Deserialized, deserialize-run_serializer}
use bonzai.Examples.Machine.{env, machine, a_stack, heap}

abbrev literals : List Literal
literals = lit_int 5 ∷ lit_string (104 ∷ 105 ∷ []) ∷ []

-- load a constant, send, halt
abbrev program : List Instruction
program = load_constant 1 ∷ send 2 1 ∷ halt ∷ []

abbrev before : Module
before = machine a_stack heap

deserialize-run_serializer_example :
    (m' : Module) × (deserialize env (run_serializer program literals) before ≡ ok tt m')
    × Deserialized literals (all_words program) before m'
deserialize-run_serializer_example =
    deserialize-run_serializer env program literals before (omega arith, (omega arith, tt))
      (omega arith) (tt, (tt, (tt, tt))) (omega arith) (tt, ((omega arith, omega arith, refl), tt))
