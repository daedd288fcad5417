-- ===== src/Queue.antt =====
-- The message queue of runtime/src/value.c: `create_message_queue`, `enqueue` and `dequeue` on the
-- linked list itself. Each runs under the queue's mutex, so it is one step here; a `dequeue` that
-- finds no head waits and leaves the queue alone.
pub mod Fifo
use bonzai.Base.{ℕ, Option, none, some, ◌==◌, if◌then◌else◌}
use mathlib.Core.Option
use bonzai.Vm.{Message}

pub record Node : Type 0 where
  pub message : Message
  pub next : ℕ

-- `nodes` is the memory that holds the messages; address 0 is NULL.
pub record MessageQueue : Type 0 where
  pub nodes : ℕ → Option Node
  pub head : ℕ
  pub tail : ℕ

pub create_message_queue : (ℕ → Option Node) → MessageQueue
create_message_queue nodes = record { nodes = nodes; head = 0; tail = 0 }

abbrev pub put_node : (ℕ → Option Node) → ℕ → Node → ℕ → Option Node
put_node nodes p n q = if p == q then some n else nodes q

-- `queue->tail->next = msg`
append_node : MessageQueue → ℕ → Option MessageQueue
append_node b msg = elim (b.nodes b.tail) [
  | none ↦ none
  | some n ↦ some (record b { nodes = put_node b.nodes b.tail (record n { next = msg }) })
]

-- `none` is a crash: the tail is no message.
pub enqueue : MessageQueue → ℕ → Option MessageQueue
unfolding append_node
enqueue b msg =
    let linked : Option MessageQueue =
      if b.tail == 0 then some (record b { head = msg }) else append_node b msg in
    Option.map {A = MessageQueue} (λ b'. record b' { tail = msg }) linked

pub data Dequeued : Type 0 where
  waits : Dequeued
  crashed : Dequeued
  got : ℕ → MessageQueue → Dequeued

take_head : MessageQueue → Option Node → Dequeued
take_head b none = crashed
take_head b (some n) =
    got b.head (record b { head = n.next; tail = if n.next == 0 then 0 else b.tail })

pub dequeue : MessageQueue → Dequeued
unfolding take_head
dequeue b = if b.head == 0 then waits else take_head b (b.nodes b.head)
