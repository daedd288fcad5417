-- ===== src/Interpreter/Objects.antt =====
-- The instructions of runtime/src/interpreter.c that build and change objects, and those of actors;
-- `create_actor` and `send_message` of runtime/src/threading.c. A new actor's thread is not run
-- here: its queue is where it waits.
pub mod Keeps
use bonzai.Base.{
  ℕ, zero, suc, true, Option, none, some, List, [], ◌∷◌, ◌++◌, ltb, get_elem?, if◌then◌else◌,
  length, set, replicate,
}
use bonzai.Word.{k_null, get_ptr, make_ptr, make_function}
use bonzai.Stack.{stack_push, stack_pop}
use bonzai.Vm.{
  Event, Actor, Message, Payload, as_ptr, as_event, as_event_on, type_mutable, type_event, Cmd,
  pure, get, modify, or_crash, update, ◌>>=◌, ◌>>◌,
}
use bonzai.Vm.Memory.{Env, load, array_of, event_of, string_of}
use bonzai.Vm.Access.{assert_type, object_at}
use bonzai.Alloc.{allocate, make_list, make_mutable, make_event, make_event_frame, make_event_on}
use bonzai.Call.{add_int, sub_int, rounds, pop_args, pop_frame}
use bonzai.Interpreter.{operand, increase_ip_by}

-- `GET_MUTABLE(variable) = value`
pub store_mutable : ℕ → ℕ → Cmd (Unit {0})
store_mutable variable value = do
  o ← object_at variable
  xs ← or_crash (array_of o.payload)
  or_crash (if ltb 0 (length xs) then some tt else none)
  modify (λ m. record m {
    heap = update m.heap (get_ptr variable) (some (record o { payload = as_ptr (set xs 0 value) }));
  })

pub update_op : Cmd (Unit {0})
unfolding store_mutable
update_op = do
  variable ← stack_pop
  value ← stack_pop
  assert_type variable type_mutable
  store_mutable variable value
  increase_ip_by 1

pub make_list_op : Env → Cmd (Unit {0})
make_list_op env = do
  i1 ← operand 1
  list ← pop_args (rounds i1)
  value ← make_list env list i1
  stack_push env value
  increase_ip_by 1

pub make_mutable_op : Env → Cmd (Unit {0})
make_mutable_op env = do x ← stack_pop; v ← make_mutable env x; stack_push env v; increase_ip_by 1

-- `hp->as_event`
pub event_at : ℕ → Cmd Event
event_at v = do o ← object_at v; or_crash (event_of o.payload)

pub spawn : Env → Cmd (Unit {0})
unfolding event_at
spawn env = do
  event ← stack_pop
  assert_type event type_event
  ev ← event_at event
  m ← get (λ m. m)
  frame ←
      make_event_frame env (add_int m.pc 5) m.stack.stack_pointer m.base_pointer ev.ons_count ev.ipc
  stack_push env frame
  modify (λ n. record n {
    base_pointer = sub_int n.stack.stack_pointer 1;
    callstack = add_int n.callstack 1;
    pc = add_int ev.ipc 5;
  })

pub event_on : Env → Cmd (Unit {0})
event_on env = do
  pc ← get (λ m. m.pc)
  i1 ← operand 1
  i3 ← operand 3
  i4 ← operand 4
  v ← make_event_on env i1 (make_function (add_int pc 5) i4)
  stack_push env v
  increase_ip_by (add_int i3 1)

-- `args[i] = stack_pop(module)` for i from 0: the newest comes first
pub pop_reversed : ℕ → Cmd (List ℕ)
pop_reversed zero = pure []
pop_reversed (suc n) = do v ← stack_pop; vs ← pop_reversed n; pure (v ∷ vs)

-- `enqueue` under the queue's lock; `Queue` has the linked list itself.
unfoldable pub deliver : ℕ → Message → List Actor → Option (List Actor)
deliver actor msg actors = elim (get_elem? actors actor) [
  | none ↦ none
  | some a ↦ some (set actors actor (record a { queue = a.queue ++ msg ∷ [] }))
]

unfoldable pub send_message : ℕ → ℕ → List ℕ → ℕ → Cmd (Unit {0})
unfolding deliver
send_message actor name args argc = do
  actors ← get (λ m. m.events)
  after ← or_crash (deliver actor (record { name = name; args = args; argc = argc }) actors)
  modify (λ m. record m { events = after })

-- the message of a `send`, and the actor that it goes to
pub outgoing : Cmd (ℕ × Message)
unfolding pop_reversed event_at
outgoing = do
  event_id ← operand 2
  argsc ← operand 1
  args ← pop_reversed (rounds argsc)
  event ← stack_pop
  assert_type event type_event
  ev ← event_at event
  pure (ev.actor, record { name = event_id; args = args; argc = argsc })

unfoldable pub send_op : Cmd (Unit {0})
unfolding outgoing send_message
send_op = do
  out ← outgoing
  send_message (out.0) (out.1.name) (out.1.args) (out.1.argc)
  increase_ip_by 1

pub make_event_op : Env → Cmd (Unit {0})
make_event_op env = do
  i1 ← operand 1
  i2 ← operand 2
  pc ← get (λ m. m.pc)
  ev ← make_event env i1 pc
  stack_push env ev
  increase_ip_by (add_int i2 1)

abbrev pub max_events : ℕ
max_events = 1024

-- the `events` array has `max_events` places
pub create_actor : Event → Cmd ℕ
create_actor event = do
  actors ← get (λ m. m.events)
  or_crash (if ltb (length actors) max_events then some tt else none)
  modify (λ m. record m { events = actors ++ record { queue = []; event = event } ∷ [] })
  pure (length actors)

pub event_on_of : Payload → Option (ℕ × ℕ)
event_on_of (as_event_on id func) = some (id, func)
event_on_of _ = none

-- `ons[id] = func`, which has to lie inside the array
pub put_handler : List ℕ → ℕ × ℕ → Option (List ℕ)
put_handler ons (id, func) = if ltb id (length ons) then some (set ons id func) else none

pub pop_ons : ℕ → List ℕ → Cmd (List ℕ)
unfolding event_on_of put_handler
pop_ons zero ons = pure ons
pop_ons (suc n) ons = do
  v ← stack_pop
  o ← object_at v
  handler ← or_crash (event_on_of o.payload)
  ons' ← or_crash (put_handler ons handler)
  pop_ons n ons'

pub set_event : ℕ → Event → Cmd (Unit {0})
set_event p e = do
  o ← (λ m. or_crash (load m.heap p) m)
  modify (λ m. record m { heap = update m.heap p (some (record o { payload = as_event e })) })

-- The event starts as its frame says; the base pointer stays where the frame put it.
pub return_event : Env → Cmd (Unit {0})
unfolding pop_ons set_event
return_event env = do
  fr ← pop_frame
  p ← allocate env type_event
  ons ← pop_ons (rounds fr.ons_count) (replicate 256 env.junk)
  let event : Event = record {
    ons_count = fr.ons_count;
    ons = ons;
    ipc = fr.function_ipc;
    actor = env.junk;
  }
  actor ← create_actor event
  set_event p (record event { actor = actor })
  stack_push env (make_ptr p)
  modify (λ m. record m { pc = fr.instruction_pointer })

-- `latest_position` and `file`, for the messages of `THROW`
pub loc : Cmd (Unit {0})
loc = do
  i1 ← operand 1
  i2 ← operand 2
  i3 ← operand 3
  c ← (λ m. or_crash (get_elem? m.constants i3) m)
  o ← object_at c
  s ← or_crash (string_of o.payload)
  modify (λ m. record m { latest_position = (i1, i2); file = some s })
  increase_ip_by 1

-- Joining the actors' threads is not part of this thread's state.
unfoldable pub halt : Cmd ℕ
halt = do modify (λ m. record m { is_terminated = true }); pure k_null
