-- ===== src/Actors/System.antt =====
-- The threads of a program: the main thread, which interprets from address 0, and one for each
-- actor, `actor_run` of runtime/src/threading.c. A step of the system is one instruction of one
-- thread, or one call of the loop of `actor_run`; a queue is used under its mutex.
use bonzai.Base.{
  ℕ, suc, ◌-◌, ◌≡◌, Bool, true, false, ◌||◌, ◌==◌, none, some, List, [], ◌∷◌, ◌++◌, get_elem?, set,
  length, replicate,
}
use bonzai.Word.{function_ipc}
use bonzai.Stack.{max_stack_size}
use bonzai.Vm.{Module, Actor, Message, ok}
use bonzai.Vm.Memory.{Env}
use bonzai.Alloc.{force_sweep}
use bonzai.Interpreter.Step.{step}
use bonzai.Interpreter.Step.Sent.{Move, took, other, move_of}
use bonzai.Actors.{prepare, new_module, finished}

-- Where a thread of `actor_run` is: before the loop, at `dequeue`, with a message before the call,
-- inside the interpreter, after the message, ended.
pub data Phase : Type 0 where
  starting : Phase
  waiting : Phase
  holding : Message → Phase
  running : ℕ → Phase
  checking : Phase
  stopped : Phase

-- The main thread interprets, is in the loop of `halt` before actor `i`, waits in `pthread_join` for
-- its thread, or has returned from the interpreter.
pub data MainPhase : Type 0 where
  interpreting ended : MainPhase
  joining awaiting : ℕ → MainPhase

pub record Worker : Type 0 where
  pub own : Module
  pub phase : Phase

-- The shared memory is that of `main`.
pub record System : Type 0 where
  pub main : Module
  pub main_phase : MainPhase
  pub workers : List Worker

-- a thread's module with the memory that all threads share, and that memory after its step
abbrev pub lend : Module → Module → Module
lend main w = record w { heap = main.heap; events = main.events }

abbrev pub give_back : Module → Module → Module
give_back w main = record main { heap = w.heap; events = w.events }

abbrev pub newborn : Module → Worker
newborn raw = record { own = raw; phase = starting }

-- one thread for each actor that is new
abbrev pub enlist : Module → ℕ → List Worker → List Worker
enlist raw n workers = workers ++ replicate (n - length workers) (newborn raw)

abbrev pub put : System → ℕ → Worker → System
put s i w = record s { workers = set s.workers i w }

-- the system after actor `i` ran and left `n`
abbrev pub ran : System → ℕ → Module → Phase → System
ran s i n p = put (record s { main = give_back n s.main }) i (record { own = n; phase = p })

-- `event_count` of an actor's module is never set: what counts by it has no meaning there.
abbrev pub counts_events : ℕ → Bool
counts_events op = op == 16 || (op == 17 || op == 24)

pub data Step (env : Env) : System → Move → System → Type 0 where
  main_goes :
      {s : System} {n : Module} (raw : Module)
      → s.main_phase ≡ interpreting
      → step env false 0 s.main ≡ ok none n
      → Step env s
          (move_of s.main)
          (record s { main = n; workers = enlist raw (length n.events) s.workers })
  main_halts :
      {s : System} {n : Module} {v : ℕ}
      → s.main_phase ≡ interpreting
      → step env false 0 s.main ≡ ok (some v) n
      → Step env s (move_of s.main) (record s { main = n; main_phase = joining 0 })
  -- `events[i]->thread` is read, which an actor that has ended has freed
  main_reads :
      {s : System} (i : ℕ) {w : Worker}
      → s.main_phase ≡ joining i
      → get_elem? s.workers i ≡ some w
      → (w.phase ≡ stopped → ⊥)
      → Step env s other (record s { main_phase = awaiting i })
  main_joins :
      {s : System} (i : ℕ) {w : Worker}
      → s.main_phase ≡ awaiting i
      → get_elem? s.workers i ≡ some w
      → w.phase ≡ stopped
      → Step env s other (record s { main_phase = joining (suc i) })
  main_ends :
      {s : System}
      → s.main_phase ≡ joining (length s.main.events)
      → Step env s other (record s { main_phase = ended })
  starts :
      {s : System} (i : ℕ) {w : Worker} {n : Module} (block : List ℕ)
      → get_elem? s.workers i ≡ some w
      → w.phase ≡ starting
      → length block ≡ max_stack_size
      → new_module w.own block s.main ≡ some n
      → Step env s other (put s i (record { own = n; phase = waiting }))
  takes :
      {s : System} (i : ℕ) {w : Worker} {a : Actor} {msg : Message} {rest : List Message}
      → get_elem? s.workers i ≡ some w
      → w.phase ≡ waiting
      → get_elem? s.main.events i ≡ some a
      → a.queue ≡ msg ∷ rest
      → Step env s (took i msg) (
          put
            (record s {
              main = record s.main { events = set s.main.events i (record a { queue = rest }) };
            })
            i
            (record w { phase = holding msg }))
  calls :
      {s : System} (i : ℕ) {w : Worker} {a : Actor} {msg : Message} {callee depth : ℕ} {n : Module}
      → get_elem? s.workers i ≡ some w
      → w.phase ≡ holding msg
      → get_elem? s.main.events i ≡ some a
      → get_elem? a.event.ons msg.name ≡ some callee
      → prepare env callee msg.argc msg.args (lend s.main w.own) ≡ ok depth n
      → Step env s other (ran s i (record n { pc = function_ipc callee }) (running depth))
  works :
      {s : System} (i : ℕ) {w : Worker} {depth op : ℕ} {n : Module}
      → get_elem? s.workers i ≡ some w
      → w.phase ≡ running depth
      → get_elem? w.own.instrs w.own.pc ≡ some op
      → counts_events op ≡ false
      → step env true depth (lend s.main w.own) ≡ ok none n
      → Step env s (move_of (lend s.main w.own)) (ran s i n (running depth))
  returns :
      {s : System} (i : ℕ) {w : Worker} {depth op v : ℕ} {n : Module}
      → get_elem? s.workers i ≡ some w
      → w.phase ≡ running depth
      → get_elem? w.own.instrs w.own.pc ≡ some op
      → counts_events op ≡ false
      → step env true depth (lend s.main w.own) ≡ ok (some v) n
      → Step env s (move_of (lend s.main w.own)) (ran s i n checking)
  goes_on :
      {s : System} (i : ℕ) {w : Worker} {a : Actor}
      → get_elem? s.workers i ≡ some w
      → w.phase ≡ checking
      → get_elem? s.main.events i ≡ some a
      → finished s.main w.own a ≡ false
      → Step env s other (put s i (record w { phase = waiting }))
  exits :
      {s : System} (i : ℕ) {w : Worker} {a : Actor} {n : Module}
      → get_elem? s.workers i ≡ some w
      → w.phase ≡ checking
      → get_elem? s.main.events i ≡ some a
      → finished s.main w.own a ≡ true
      → force_sweep (lend s.main w.own) ≡ ok tt n
      → Step env s other (ran s i n stopped)

-- Any number of steps, with what they did.
pub data Steps (env : Env) : System → List Move → System → Type 0 where
  none_yet : {s : System} → Steps env s [] s
  then_steps :
      {s t u : System} {mv : Move} {mvs : List Move}
      → Step env s mv t
      → Steps env t mvs u
      → Steps env s (mv ∷ mvs) u
