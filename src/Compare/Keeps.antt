-- ===== src/Compare/Keeps.antt =====
-- The comparisons of runtime/src/compare.c keep the program and the actors.
use bonzai.Base.{Bool, ℕ, Option}
use bonzai.Vm.{Cmd, or_crash, ◌>>=◌}
use bonzai.Vm.Memory.{Env}
use bonzai.Vm.Keeps.{Respects, Respects-bind, crashes, Looks-Respects}
use bonzai.Vm.Answers.{Answers-Looks}
use bonzai.Compare.{comparison_table}
use bonzai.Compare.Answers.{Entry, missing, entry, comparison_table-Entry}

called :
    {quiet : Bool}
    → {o : Option (ℕ → ℕ → Cmd ℕ)} (a b : ℕ) (k : ℕ → Cmd (Unit {0})) → Entry o
    → ((r : ℕ) → Respects quiet (k r))
    → Respects quiet (or_crash o >>= λ f. f a b >>= k)
called a b k missing rk = record { at = λ m. crashes }
called a b k (entry {f} h) rk = record {
  at = (Respects-bind (f a b) k (Looks-Respects _ (Answers-Looks _ (h a b))) rk).at;
}

-- a call through the table, whose missing entries cannot be called
pub compare_with-Respects :
    {quiet : Bool}
    → (env : Env) (i a b : ℕ) (k : ℕ → Cmd (Unit {0})) → ((r : ℕ) → Respects quiet (k r))
    → Respects quiet (or_crash (comparison_table env i) >>= λ f. f a b >>= k)
compare_with-Respects env i a b k rk = called a b k (comparison_table-Entry env i) rk
