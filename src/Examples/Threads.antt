-- ===== src/Examples/Threads.antt =====
-- The program of Runs with a thread for its actor: the main thread loads a constant, and the actor
-- takes its message.
use bonzai.Base.{false, ◌≡◌, refl, none, [], ◌∷◌, Everywhere-replicate}
use bonzai.Word.{make_integer}
use bonzai.Vm.{Module, Actor, Message, ok}
use bonzai.Stack.{stack_push}
use bonzai.Interpreter.{load_constant}
use bonzai.Interpreter.Step.{step}
use bonzai.Interpreter.Step.Sent.{took, move_of}
use bonzai.Actors.System.{
  System, Worker, waiting, holding, interpreting, Steps, main_goes, takes, none_yet, then_steps,
}
use bonzai.Actors.Program.{SameProgram, Runs, runs, OneProgram, Steps-OneProgram}
use bonzai.Examples.Machine.{env}
use bonzai.Examples.Runs.{before, an_actor, env-NativesRespect}

abbrev loaded : Module
loaded = record before {
  stack = record { values = make_integer 5 ∷ 0 ∷ []; stack_pointer = 1; stack_capacity = 2 };
  pc = 5;
}

before-step : step env false 0 before ≡ ok none loaded
unfolding step load_constant stack_push
before-step = refl

abbrev idle : Worker
idle = record { own = before; phase = waiting }

abbrev started : System
started = record { main = before; main_phase = interpreting; workers = idle ∷ [] }

abbrev a_message : Message
a_message = record { name = 3; args = make_integer 9 ∷ []; argc = 1 }

abbrev emptied : Actor
emptied = record an_actor { queue = [] }

abbrev holds_it : System
holds_it = record {
  main = record loaded { events = emptied ∷ [] };
  main_phase = interpreting;
  workers = record { own = before; phase = holding a_message } ∷ [];
}

taken-Steps : Steps env started (move_of before ∷ took 0 a_message ∷ []) holds_it
taken-Steps =
    then_steps (main_goes before refl before-step)
      (then_steps (takes 0 refl refl refl refl) none_yet)

before-SameProgram : SameProgram before before
before-SameProgram = record { instrs = refl; constants = refl; handles = refl; args = (refl, refl) }

started-OneProgram : OneProgram before started
started-OneProgram =
    (before-SameProgram, Everywhere-replicate (Runs before) 1 idle (runs before-SameProgram))

Steps-OneProgram_example : OneProgram before holds_it
Steps-OneProgram_example =
    Steps-OneProgram env before env-NativesRespect started-OneProgram taken-Steps
