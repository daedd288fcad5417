-- ===== src/Actors.antt =====
-- Actors: `list_get`, `call_threaded` and `actor_run` of runtime/src/threading.c. An actor's thread
-- has a module of its own, whose stack and object list are its own; the program is the main
-- module's, and `heap` and `events` are the memory that all threads share.
pub mod Keeps
pub mod System
pub mod History
pub mod Program
pub mod Handler
pub mod Pushes
use bonzai.Base.{
  ℕ, zero, suc, Bool, ◌&&◌, ◌||◌, Option, none, some, List, [], ◌∷◌, ◌++◌, true, false, ltb,
  get_elem?, drop,
}
use mathlib.Core.Option
use bonzai.Word.{make_integer, function_ipc, function_local_space}
use bonzai.Stack.{globals_size, stack_new, stack_push, set_pointer}
use bonzai.Vm.{
  Module, Actor, Message, Cmd, pure, get, modify, assert, or_crash, ◌>>=◌, ◌>>◌,
  index_out_of_bounds,
}
use bonzai.Vm.Memory.{Env, array_of}
use bonzai.Vm.Access.{object_at}
use bonzai.Gc.{init_objects, prefix}
use bonzai.Alloc.{make_frame}
use bonzai.Call.{add_int, sub_int, rounds}
use bonzai.Interpreter.Step.{run_interpreter}

-- The type of `list` is not looked at.
pub list_get : ℕ → ℕ → Cmd ℕ
list_get list idx = do
  l ← object_at list
  assert (ltb idx l.size) index_out_of_bounds
  xs ← or_crash (array_of l.payload)
  or_crash (get_elem? xs idx)

-- `for (int i = argc - 1; i >= 0; i--) stack_push(new_module, argv[i])`
pub push_args : Env → ℕ → List ℕ → Cmd (Unit {0})
push_args env zero argv = pure tt
push_args env (suc n) argv = do
  v ← or_crash (get_elem? argv n)
  stack_push env v
  push_args env n argv

-- the slots of the locals that are no arguments
pub push_zeros : Env → ℕ → Cmd (Unit {0})
push_zeros env zero = pure tt
push_zeros env (suc n) = stack_push env (make_integer 0) >> push_zeros env n

-- `call_threaded` up to the run: what it answers is the depth at which the run returns.
pub prepare : Env → ℕ → ℕ → List ℕ → Cmd ℕ
unfolding push_args push_zeros
prepare env callee argc argv = do
  old_sp ← get (λ m. m.stack.stack_pointer)
  push_args env (rounds argc) argv
  push_zeros env (rounds (sub_int (function_local_space callee) argc))
  m ← get (λ m. m)
  frame ← make_frame env (add_int m.pc 5) old_sp m.base_pointer
  stack_push env frame
  modify (λ n. record n { base_pointer = sub_int n.stack.stack_pointer 1 })
  modify (λ n. set_pointer (add_int n.stack.stack_pointer 1) n)
  get (λ n. sub_int n.callstack 1)

pub call_threaded : Env → ℕ → ℕ → ℕ → List ℕ → Cmd (Option ℕ)
unfolding prepare
call_threaded env fuel callee argc argv = do
  depth ← prepare env callee argc argv
  run_interpreter env fuel (function_ipc callee) true depth

-- `memcpy` of the globals into a new stack
pub copy_globals : List ℕ → List ℕ → Option (List ℕ)
copy_globals block values =
    Option.map (λ globals. globals ++ drop globals_size block) (prefix globals_size values)

-- The module that `actor_run` sets up: `raw` is the memory that `malloc` returned for it, `block`
-- that for its stack, and `m` the main module. The fields that are not named keep what `raw` holds.
pub set_up : Module → List ℕ → Module → List ℕ → Module
set_up raw block m values = record raw {
  stack = record (stack_new block) { values = values };
  first_object = 0;
  num_objects = 0;
  max_objects = init_objects;
  instrs = m.instrs;
  constants = m.constants;
  argc = m.argc;
  argv = m.argv;
  handles = m.handles;
  callstack = 1;
  heap = m.heap;
  events = m.events;
}

pub new_module : Module → List ℕ → Module → Option Module
unfolding copy_globals set_up
new_module raw block m = Option.map (set_up raw block m) (copy_globals block m.stack.values)

abbrev is_empty : List Message → Bool
is_empty [] = true
is_empty (_ ∷ _) = false

-- the test after each message, on the main module, the actor's own, and the actor
pub finished : Module → Module → Actor → Bool
finished main new_module actor =
    (new_module.is_terminated || main.is_terminated) && is_empty actor.queue
