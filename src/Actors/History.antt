-- ===== src/Actors/History.antt =====
-- What becomes of an actor's messages while the threads of runtime/src/threading.c run.
use bonzai.Base.{ℕ, ◌≡◌, Option, none, some, List, [], ◌∷◌, ◌++◌, get_elem?}
use mathlib.Core.Option
use bonzai.Vm.{Actor, Message}
use bonzai.Vm.Keeps.{Keeps}
use bonzai.Interpreter.Step.Sent.{Move, taken, sent_to}
use bonzai.Actors.System.{System, Step}

-- the messages that actor `i` took, and those that `send` instructions sent it, oldest first
pub took_by : ℕ → List Move → List Message
took_by i [] = []
took_by i (mv ∷ mvs) = taken i mv ++ took_by i mvs

pub all_sent_to : ℕ → List Move → List Message
all_sent_to i [] = []
all_sent_to i (mv ∷ mvs) = sent_to i mv ++ all_sent_to i mvs

-- Actor `i` kept its place and its event, and its queue then, with what it was sent since, is what it
-- took with what still waits.
pub record Served (i : ℕ) (a : Actor) (mvs : List Move) (bs : List Actor) : Type 0 where
  pub left : List Message
  pub there : get_elem? bs i ≡ some (record a { queue = left })
  pub in_order : a.queue ++ all_sent_to i mvs ≡ took_by i mvs ++ left

-- the same for one move
pub record ServedOnce (i : ℕ) (a : Actor) (mv : Move) (bs : List Actor) : Type 0 where
  pub left : List Message
  pub there : get_elem? bs i ≡ some (record a { queue = left })
  pub in_order : a.queue ++ sent_to i mv ≡ taken i mv ++ left

Follows : Move → List Actor → List Actor → Type 0
Follows mv as' bs = (i : ℕ) (a : Actor) → get_elem? as' i ≡ some a → ServedOnce i a mv bs

with_queue : List Message → Actor → Actor
with_queue q a = record a { queue = q }

queue_of : Option Actor → List Message
queue_of none = []
queue_of (some a) = a.queue
