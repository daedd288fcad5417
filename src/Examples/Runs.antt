-- ===== src/Examples/Runs.antt =====
-- A program of four instructions, with one actor that has a message waiting: a constant is loaded, a
-- jump skips the next instruction, and the last one halts.
use bonzai.Base.{◌≡◌, refl, true, false, some, [], ◌∷◌}
use bonzai.Word.{make_integer, k_null}
use bonzai.Vm.{Module, Actor, ok}
use bonzai.Vm.Keeps.{Keeps, Respects-crash}
use bonzai.Call.Keeps.{NativesRespect}
use bonzai.Stack.{stack_push}
use bonzai.Interpreter.{load_constant, jump_rel}
use bonzai.Interpreter.Objects.{halt}
use bonzai.Interpreter.Step.{run_interpreter}
use bonzai.Interpreter.Step.Run.{run_interpreter-Keeps}
use bonzai.Examples.Machine.{env, machine, heap}

abbrev pub an_actor : Actor
an_actor = record {
  queue = record { name = 3; args = make_integer 9 ∷ []; argc = 1 } ∷ [];
  event = record { ons_count = 0; ons = []; ipc = 0; actor = 0 };
}

abbrev pub before : Module
before =
    record (machine (record { values = 0 ∷ 0 ∷ []; stack_pointer = 0; stack_capacity = 2 }) heap) {
      instrs =
          2 ∷ 0 ∷ 0 ∷ 0 ∷ 0 ∷ 14 ∷ 2 ∷ 0 ∷ 0 ∷ 0 ∷ 27 ∷ 0 ∷ 0 ∷ 0 ∷ 0 ∷ 17 ∷ 0 ∷ 0 ∷ 0 ∷ 0 ∷ [];
      constants = make_integer 5 ∷ [];
      events = an_actor ∷ [];
    }

abbrev after : Module
after = record before {
  stack = record { values = make_integer 5 ∷ 0 ∷ []; stack_pointer = 1; stack_capacity = 2 };
  pc = 15;
  is_terminated = true;
}

pub env-NativesRespect : NativesRespect false env
env-NativesRespect addr args argc = Respects-crash

before-run : run_interpreter env 3 0 false 0 before ≡ ok (some k_null) after
unfolding run_interpreter load_constant jump_rel halt stack_push
before-run = refl

run_interpreter-Keeps_example : Keeps false before after
run_interpreter-Keeps_example =
    run_interpreter-Keeps env 3 0 false 0 before after env-NativesRespect before-run
