-- ===== src/Interpreter/Step/Sent.antt =====
-- What an instruction of runtime/src/interpreter.c adds to the queues: `send` one message to one
-- actor, the others nothing.
use mathlib.Core.Option
use bonzai.Base.{
  ℕ, ◌+◌, ◌%◌, ◌^◌, arith, ◌≡◌, refl, sym, ap, subst, ◌∙◌, Bool, true, false, Option, none, some,
  List, [], ◌∷◌, ◌++◌, ◌==◌, ==_iff, if◌then◌else◌, Bool-cases, Option-cases, inl, inr, get_elem?,
  set, append_nil, get_elem?-set_ne, get_elem?-set_self, lt_of_get_elem?,
}
use bonzai.Vm.{Module, Actor, Message, Run, Cmd, ok, throw, crash, and_then, pure, or_crash, ◌>>◌}
use bonzai.Vm.Memory.{Env}
use bonzai.Vm.Keeps.{Grown, Keeps, Ends, returns}
use bonzai.Call.Keeps.{NativesRespect}
use bonzai.Interpreter.{operand, increase_ip_by}
use bonzai.Interpreter.Objects.{outgoing, deliver, send_message, send_op}
use bonzai.Interpreter.Objects.Keeps.{outgoing-Respects}
use bonzai.Interpreter.Step.{jmp_table, op_send, step, dispatch, execute}
use bonzai.Interpreter.Step.Run.{kept, dispatch-Respects}

-- What a step did that a log keeps: actor `i` took a message, or was sent one.
pub data Move : Type 0 where
  took : ℕ → Message → Move
  sent : ℕ → Message → Move
  other : Move

pub sent_by : Run (ℕ × Message) → Move
sent_by (ok out m) = sent (out.0) (out.1)
sent_by (throw e) = other
sent_by crash = other

sent_by_opcode : Module → Run ℕ → Move
unfolding sent_by
sent_by_opcode m (ok op k) = if op == 20 then sent_by (outgoing m) else other
sent_by_opcode m (throw e) = other
sent_by_opcode m crash = other

-- what the next instruction of a module sends: something only if it is a `send`
pub move_of : Module → Move
unfolding sent_by_opcode
move_of m = sent_by_opcode m (operand 0 m)

-- the messages of a move for actor `i`
unfoldable pub sent_to : ℕ → Move → List Message
sent_to i (took j msg) = []
sent_to i (sent j msg) = if i == j then msg ∷ [] else []
sent_to i other = []

-- the message that actor `i` took by a move
unfoldable pub taken : ℕ → Move → List Message
taken i (took j msg) = if i == j then msg ∷ [] else []
taken i (sent j msg) = []
taken i other = []

taken-sent_by : (i : ℕ) (r : Run (ℕ × Message)) → taken i (sent_by r) ≡ []
unfolding taken sent_by
taken-sent_by i (ok out m) = refl
taken-sent_by i (throw e) = refl
taken-sent_by i crash = refl

taken-opcode : (i : ℕ) (m : Module) (r : Run ℕ) → taken i (sent_by_opcode m r) ≡ []
unfolding sent_by_opcode taken
taken-opcode i m (ok op k) = elim (Bool-cases (op == 20)) [
  | inl e ↦ rw e (taken-sent_by i (outgoing m))
  | inr e ↦ rw e refl
]
taken-opcode i m (throw e) = refl
taken-opcode i m crash = refl

-- an instruction takes nothing
pub taken-move_of : (i : ℕ) (m : Module) → taken i (move_of m) ≡ []
unfolding move_of
taken-move_of i m = taken-opcode i m (operand 0 m)

-- Every actor is where it was, with what the move sent it at the end of its queue.
unfoldable pub Receives : Move → List Actor → List Actor → Type 0
Receives mv as' bs =
    (i : ℕ) (a : Actor)
    → get_elem? as' i ≡ some a
    → get_elem? bs i ≡ some (record a { queue = a.queue ++ sent_to i mv })

with_queue : List Message → Actor → Actor
with_queue q a = record a { queue = q }

still :
    (as' bs : List Actor) (i : ℕ) (a : Actor)
    → Grown true as' bs
    → get_elem? as' i ≡ some a
    → get_elem? bs i ≡ some a
unfolding with_queue
still as' bs i a g e =
    let (msgs, there, no_more) = g i a e in
    there
    ∙ ap (λ ms. some (with_queue (a.queue ++ ms) a)) (no_more refl)
    ∙ ap (λ q. some (with_queue q a)) (append_nil a.queue)

pub Receives-still :
    (mv : Move) (as' bs : List Actor)
    → ((i : ℕ) → sent_to i mv ≡ [])
    → Grown true as' bs
    → Receives mv as' bs
unfolding Receives with_queue
Receives-still mv as' bs nothing g i a e =
    still as' bs i a g e
    ∙ ap (λ q. some (with_queue q a)) (sym (append_nil a.queue))
    ∙ ap (λ ms. some (with_queue (a.queue ++ ms) a)) (sym (nothing i))

pub sent_to-other : (i : ℕ) → sent_to i other ≡ []
unfolding sent_to
sent_to-other i = refl

more : Message → Actor → Actor
more msg a = record a { queue = a.queue ++ msg ∷ [] }

deliver-Receives :
    (j : ℕ) (msg : Message) (as' bs : List Actor)
    → deliver j msg as' ≡ some bs
    → Receives (sent j msg) as' bs
unfolding deliver Receives sent_to more with_queue
deliver-Receives j msg as' bs run i a e = elim (Option-cases (get_elem? as' j)) [
  | inl missing ↦ ground arith
  | inr (b, found) ↦
      let same : set as' j (record b { queue = b.queue ++ msg ∷ [] }) ≡ bs = ground arith in
      ap (λ l. get_elem? l i) (sym same) ∙ by_place b found
]
  where
    by_place :
        (b : Actor)
        → get_elem? as' j ≡ some b
        → get_elem? (set as' j (record b { queue = b.queue ++ msg ∷ [] })) i
          ≡ some (record a { queue = a.queue ++ (if i == j then msg ∷ [] else []) })
    by_place b found = elim (Bool-cases (i == j)) [
      | inl k ↦
          let here : i ≡ j = (==_iff i j).0 k in
          ap (get_elem? (set as' j (more msg b))) here
          ∙ get_elem?-set_self as' j (more msg b) (lt_of_get_elem? as' j found)
          ∙ ap (Option.map (more msg)) (sym found ∙ ap (get_elem? as') (sym here) ∙ e)
          ∙ rw k refl
      | inr k ↦
          get_elem?-set_ne as' (more msg b) (λ p. cc (k, (==_iff i j).1 (sym p)))
          ∙ e
          ∙ rw k (ap (λ q. some (with_queue q a)) (sym (append_nil a.queue)))
    ]

jmp_table-op_send : (n : ℕ) → jmp_table n ≡ some op_send → (n == 20) ≡ true
unfolding jmp_table
jmp_table-op_send n e = ground arith

events_of : {A : Type 0} → Run A → List Actor
events_of (ok a n) = n.events
events_of (throw e) = []
events_of crash = []

after_deliver :
    (j : ℕ) (msg : Message) (k n : Module) (o : Option (List Actor)) {x : Option ℕ}
    → deliver j msg k.events ≡ o
    → and_then
        (and_then
          (and_then {B = Unit {0}} (or_crash o k) (λ after q. ok tt (record q { events = after })))
          (λ _. increase_ip_by 1))
        (λ _. pure {A = Option ℕ} none)
      ≡ ok x n
    → Receives (sent j msg) k.events n.events
unfolding increase_ip_by events_of
after_deliver j msg k n none d e = cc
after_deliver j msg k n (some bs) d e =
    deliver-Receives j msg k.events n.events (d ∙ ap some (ap events_of e))

-- what follows the pops of a `send`
deliver_it : ℕ × Message → Cmd (Unit {0})
unfolding send_message
deliver_it out = do send_message (out.0) (out.1.name) (out.1.args) (out.1.argc); increase_ip_by 1

after_outgoing :
    (m n : Module) (r : Run (ℕ × Message)) {x : Option ℕ}
    → Ends true m r
    → and_then (and_then r deliver_it) (λ _. pure {A = Option ℕ} none) ≡ ok x n
    → Receives (sent_by r) m.events n.events
unfolding deliver_it send_message sent_by Receives
after_outgoing m n (ok out k) (returns q) e = λ i a at.
    after_deliver (out.0) (out.1) k n (deliver (out.0) (out.1) k.events) refl e i a
      (still m.events k.events i a q.events at)
after_outgoing m n (throw x) h e = cc
after_outgoing m n crash h e = cc

after_opcode :
    (env : Env) (r : Bool) (depth : ℕ) (m n : Module) (o : Option ℕ) {x : Option ℕ}
    → NativesRespect true env
    → and_then (or_crash o m) (λ op. dispatch env r depth (jmp_table op)) ≡ ok x n
    → Receives (sent_by_opcode m (or_crash o m)) m.events n.events
unfolding sent_by_opcode dispatch execute jmp_table send_op deliver_it
after_opcode env r depth m n none h e = cc
after_opcode env r depth m n (some op) {x = x} h e = elim (Bool-cases (op == 20)) [
  | inl k ↦ rw k (is_send ((==_iff op 20).0 k))
  | inr k ↦ rw k (
      Receives-still other m.events n.events sent_to-other (
        Keeps.events (
          kept
            ((dispatch-Respects env r depth (jmp_table op) h
                (λ f. absurd (differ k (jmp_table-op_send op f)))).at
              m)
            e)))
]
  where
    differ : {b : Bool} → b ≡ false → b ≡ true → ⊥
    differ p q = cc

    is_send : op ≡ 20 → Receives (sent_by (outgoing m)) m.events n.events
    is_send same =
        after_outgoing m n (outgoing m) (outgoing-Respects.at m)
          (subst (λ k. dispatch env r depth (jmp_table k) m ≡ ok x n) same e)

-- what an instruction adds to the queues, if the natives add nothing
pub step-Receives :
    (env : Env) (r : Bool) (depth : ℕ) (m n : Module) {x : Option ℕ}
    → NativesRespect true env
    → step env r depth m ≡ ok x n
    → Receives (move_of m) m.events n.events
unfolding step move_of operand
step-Receives env r depth m n h e =
    after_opcode env r depth m n (get_elem? m.instrs ((m.pc + 0) % 2 ^ 32)) h e
