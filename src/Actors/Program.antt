-- ===== src/Actors/Program.antt =====
-- One program for all threads of runtime/src/threading.c.
use bonzai.Base.{
  holds-some, Everywhere, Everywhere-set, Everywhere-append, Everywhere-replicate, ℕ, ◌≡◌, refl,
  ◌∙◌, false, true, Option, none, some, List, get_elem?, set,
}
use mathlib.Core.Option
use bonzai.Vm.{Module, Heap, Actor}
use bonzai.Vm.Memory.{Env}
use bonzai.Vm.Keeps.{Keeps}
use bonzai.Call.Keeps.{NativesRespect}
use bonzai.Alloc.Keeps.{force_sweep-Respects}
use bonzai.Interpreter.Step.Run.{kept, step-Respects}
use bonzai.Actors.{new_module, set_up, copy_globals}
use bonzai.Actors.Keeps.{prepare-Respects}
use bonzai.Interpreter.Step.Sent.{Move}
use bonzai.Actors.System.{
  Phase, starting, System, Worker, newborn, Step, Steps, main_goes, main_halts, main_reads,
  main_joins, main_ends, starts, takes, calls, works, returns, goes_on, exits, none_yet, then_steps,
  lend, ran,
}

-- The two modules run the same code, with the same constants, libraries and arguments.
pub record SameProgram (m n : Module) : Type 0 where
  pub instrs : n.instrs ≡ m.instrs
  pub constants : n.constants ≡ m.constants
  pub handles : n.handles ≡ m.handles
  pub args : (n.argc ≡ m.argc) × (n.argv ≡ m.argv)

-- a thread that has set up its module runs the program of the main thread
pub data Runs (m : Module) (w : Worker) : Type 0 where
  not_yet : w.phase ≡ starting → Runs m w
  runs : SameProgram m w.own → Runs m w

abbrev pub OneProgram : Module → System → Type 0
OneProgram m s = SameProgram m s.main × Everywhere (Runs m) s.workers

Keeps-SameProgram : {m n k : Module} → Keeps false n k → SameProgram m n → SameProgram m k
Keeps-SameProgram p q = record {
  instrs = p.instrs ∙ q.instrs;
  constants = p.constants ∙ q.constants;
  handles = p.handles ∙ q.handles;
  args = (p.args.0 ∙ q.args.0, p.args.1 ∙ q.args.1);
}

new_module-SameProgram :
    (raw : Module) (block : List ℕ) {m n k : Module}
    → SameProgram m n
    → new_module raw block n ≡ some k
    → SameProgram m k
unfolding new_module set_up
new_module-SameProgram raw block {m} {n} {k} p e = made (copy_globals block n.stack.values) e
  where
    made : (o : Option (List ℕ)) → Option.map (set_up raw block n) o ≡ some k → SameProgram m k
    made none f = cc
    made (some values) f =
        holds-some (SameProgram m)
          (record {
            instrs = p.instrs;
            constants = p.constants;
            handles = p.handles;
            args = p.args;
          })
          f

past_start : {m : Module} {w : Worker} → Runs m w → (w.phase ≡ starting → ⊥) → SameProgram m w.own
past_start (not_yet p) h = absurd (h p)
past_start (runs q) h = q

-- The program does not stand in the shared memory.
shared :
    {m n : Module} (h : Heap) (bs : List Actor)
    → SameProgram m n
    → SameProgram m (record n { heap = h; events = bs })
shared h bs p = record {
  instrs = p.instrs;
  constants = p.constants;
  handles = p.handles;
  args = p.args;
}

with_pc : {m n : Module} (pc : ℕ) → SameProgram m n → SameProgram m (record n { pc = pc })
with_pc pc p = record {
  instrs = p.instrs;
  constants = p.constants;
  handles = p.handles;
  args = p.args;
}

-- A worker of the program goes on with a module that keeps its own.
goes-all :
    {m : Module} (s : System) (i : ℕ) {w : Worker} (v : Worker)
    → OneProgram m s
    → get_elem? s.workers i ≡ some w
    → (w.phase ≡ starting → ⊥)
    → (SameProgram m w.own → SameProgram m v.own)
    → Everywhere (Runs m) (set s.workers i v)
goes-all {m} s i {w} v q at started k =
    Everywhere-set (Runs m) s.workers i _ (runs (k (past_start (q.1 i w at) started))) q.1

ran-OneProgram :
    {m : Module} (s : System) (i : ℕ) {w : Worker} {n : Module} (p : Phase)
    → OneProgram m s
    → get_elem? s.workers i ≡ some w
    → (w.phase ≡ starting → ⊥)
    → Keeps false (lend s.main w.own) n
    → OneProgram m (ran s i n p)
ran-OneProgram s i {w} {n} p q at started k = (
  shared n.heap n.events q.0,
  goes-all s i _ q at started (λ r. Keeps-SameProgram k (shared s.main.heap s.main.events r)),
)

Step-OneProgram :
    (env : Env) (m : Module) {s t : System} {mv : Move}
    → NativesRespect false env
    → Step env s mv t
    → OneProgram m s
    → OneProgram m t
Step-OneProgram env m h (main_goes {s} {n} raw p run) q = (
  Keeps-SameProgram (kept ((step-Respects env false 0 h).at s.main) run) q.0,
  Everywhere-append (Runs m) s.workers _ q.1
      (Everywhere-replicate (Runs m) _ (newborn raw) (not_yet refl)),
)
Step-OneProgram env m h (main_halts {s} {n} p run) q =
    (Keeps-SameProgram (kept ((step-Respects env false 0 h).at s.main) run) q.0, q.1)
Step-OneProgram env m h (main_reads {s} i p at l) q = (q.0, q.1)
Step-OneProgram env m h (main_joins {s} i p at l) q = (q.0, q.1)
Step-OneProgram env m h (main_ends {s} p) q = (q.0, q.1)
Step-OneProgram env m h (starts {s} i {w} block at p l run) q = (
  q.0,
  Everywhere-set (Runs m) s.workers i _ (runs (new_module-SameProgram w.own block q.0 run)) q.1,
)
Step-OneProgram env m h (takes {s} i {w} at p there l) q =
    (shared _ _ q.0, goes-all s i _ q at (λ e. cc (e, p)) (λ r. r))
Step-OneProgram env m h (calls {s} i {w} {msg = msg} {callee = callee} {n = n} at p there found run)
      q =
    let kept_all =
      kept ((prepare-Respects env callee msg.argc msg.args).at (lend s.main w.own)) run in
    (
      shared n.heap n.events q.0,
      goes-all s i _ q at (λ e. cc (e, p))
          (λ r. with_pc _ (Keeps-SameProgram kept_all (shared s.main.heap s.main.events r))),
    )
Step-OneProgram env m h (works {s} i {w} {depth} at p op c run) q =
    ran-OneProgram s i _ q at (λ e. cc (e, p))
      (kept ((step-Respects env true depth h).at (lend s.main w.own)) run)
Step-OneProgram env m h (returns {s} i {w} {depth} at p op c run) q =
    ran-OneProgram s i _ q at (λ e. cc (e, p))
      (kept ((step-Respects env true depth h).at (lend s.main w.own)) run)
Step-OneProgram env m h (goes_on {s} i {w} at p there f) q =
    (q.0, goes-all s i _ q at (λ e. cc (e, p)) (λ r. r))
Step-OneProgram env m h (exits {s} i {w} at p there f run) q =
    ran-OneProgram s i _ q at (λ e. cc (e, p))
      (kept (force_sweep-Respects.at (lend s.main w.own)) run)

-- If the natives leave the program alone, and the main thread and each thread that has begun run
-- one program, with the same instructions, constants, libraries and arguments, then they do so
-- after any steps of the threads.
pub Steps-OneProgram :
    (env : Env) (m : Module) {s t : System} {mvs : List Move}
    → NativesRespect false env
    → OneProgram m s
    → Steps env s mvs t
    → OneProgram m t
Steps-OneProgram env m h q none_yet = q
Steps-OneProgram env m h q (then_steps p r) =
    Steps-OneProgram env m h (Step-OneProgram env m h p q) r
