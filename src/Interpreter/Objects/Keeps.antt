-- ===== src/Interpreter/Objects/Keeps.antt =====
-- The instructions that build objects, and those of actors, keep the program and the actors:
-- runtime/src/interpreter.c and runtime/src/threading.c.
use bonzai.Base.{
  Bool, false, ℕ, zero, suc, ◌≡◌, refl, sym, ap, ◌∙◌, Option, none, some, List, [], ◌∷◌, ◌++◌,
  get_elem?, set, length, ltb, if◌then◌else◌, append_nil, get_elem?-append,
}
use mathlib.Core.Option
use bonzai.Vm.{Module, Actor, Event, Message, ok, and_then, or_crash, modify}
use bonzai.Vm.Memory.{Env}
use bonzai.Vm.Keeps.{
  Grown, Grown-refl, Keeps, Keeps-others, Respects, Respects-bind, Respects-pure, Respects-or_crash,
  Respects-modify, Ends, returns, crashes, object_at-Respects,
}
use bonzai.Stack.Keeps.{stack_pop-Respects}
use bonzai.Alloc.Keeps.{load-Respects, store-Respects}
use bonzai.Call.Keeps.{pop_args-Respects}
use bonzai.Interpreter.Keeps.{code_rules}
use bonzai.Interpreter.Objects.{
  store_mutable, update_op, make_list_op, make_mutable_op, event_at, spawn, event_on, pop_reversed,
  deliver, send_message, outgoing, send_op, make_event_op, max_events, create_actor, event_on_of,
  put_handler, pop_ons, set_event, return_event, loc, halt,
}

more : List Message → Actor → Actor
more msgs a = record a { queue = a.queue ++ msgs }

-- messages at the end of one actor's queue
Grown-set :
    (as' : List Actor) (i : ℕ) {a : Actor} (msgs : List Message)
    → get_elem? as' i ≡ some a
    → Grown false as' (set as' i (record a { queue = a.queue ++ msgs }))
unfolding more
Grown-set [] i msgs h j b e = cc
Grown-set (x ∷ xs) zero msgs h zero b e = (msgs, ap (Option.map (more msgs)) (sym h ∙ e), λ h. cc)
Grown-set (x ∷ xs) zero msgs h (suc j) b e = Grown-refl xs j b e
Grown-set (x ∷ xs) (suc i) msgs h zero b e = Grown-refl (x ∷ xs) zero b e
Grown-set (x ∷ xs) (suc i) msgs h (suc j) b e = Grown-set xs i msgs h j b e

-- a new actor behind the others
Grown-append : {quiet : Bool} → (as' bs : List Actor) → Grown quiet as' (as' ++ bs)
Grown-append as' bs i a e = (
  [],
  get_elem?-append as' bs i e ∙ ap (λ q. some (record a { queue = q })) (sym (append_nil a.queue)),
  λ h. refl,
)

with_events :
    {quiet : Bool}
    → (m : Module) (bs : List Actor) → Grown quiet m.events bs
    → Keeps quiet m (record m { events = bs })
with_events m bs g = record {
  instrs = refl;
  constants = refl;
  handles = refl;
  args = (refl, refl);
  halted = λ h. h;
  events = g;
}

send_message-Respects :
    (actor name : ℕ) (args : List ℕ) (argc : ℕ) → Respects false (send_message actor name args argc)
unfolding send_message deliver
send_message-Respects actor name args argc = record {
  at = λ m. sent m (get_elem? m.events actor) refl;
}
  where
    sent :
        (m : Module) (o : Option Actor)
        → get_elem? m.events actor ≡ o
        → Ends false m (
            and_then
              (or_crash
                (elim o [
                  | none ↦ none
                  | some a ↦ some (
                      set m.events actor (record a {
                        queue = a.queue ++ record { name = name; args = args; argc = argc } ∷ [];
                      }))
                ])
                m)
              λ after n. ok tt (record n { events = after }))
    sent m none missing = crashes
    sent m (some a) found = returns (with_events m _ (Grown-set m.events actor _ found))

-- the whole of `create_actor`: room, then one actor more
created :
    {quiet : Bool}
    → (event : Event) (m : Module) (o : Option (Unit {0}))
    → Ends quiet m (
        and_then (or_crash o m) λ u k.
          ok
            (length m.events)
            (record k { events = m.events ++ record { queue = []; event = event } ∷ [] }))
created event m none = crashes
created event m (some u) = returns (with_events m _ (Grown-append m.events _))

create_actor-Respects : {quiet : Bool} → (event : Event) → Respects quiet (create_actor event)
unfolding create_actor
create_actor-Respects event = record {
  at = λ m. created event m (if ltb (length m.events) max_events then some tt else none);
}

ruleset object_rules =
    (code_rules, stack_pop-Respects, load-Respects, store-Respects, create_actor-Respects)

store_mutable-Respects : {quiet : Bool} → (v x : ℕ) → Respects quiet (store_mutable v x)
unfolding store_mutable
store_mutable-Respects v x = search object_rules depth 20

pub update_op-Respects : {quiet : Bool} → Respects quiet update_op
unfolding update_op
update_op-Respects = search (object_rules, store_mutable-Respects) depth 20

pub make_list_op-Respects : {quiet : Bool} → (env : Env) → Respects quiet (make_list_op env)
unfolding make_list_op
make_list_op-Respects env = search (object_rules, pop_args-Respects) depth 20

pub make_mutable_op-Respects : {quiet : Bool} → (env : Env) → Respects quiet (make_mutable_op env)
unfolding make_mutable_op
make_mutable_op-Respects env = search object_rules depth 20

event_at-Respects : {quiet : Bool} → (v : ℕ) → Respects quiet (event_at v)
unfolding event_at
event_at-Respects v = search object_rules depth 20

pub spawn-Respects : {quiet : Bool} → (env : Env) → Respects quiet (spawn env)
unfolding spawn
spawn-Respects env = search (object_rules, event_at-Respects) depth 20

pub event_on-Respects : {quiet : Bool} → (env : Env) → Respects quiet (event_on env)
unfolding event_on
event_on-Respects env = search object_rules depth 20

pop_reversed-Respects : {quiet : Bool} → (n : ℕ) → Respects quiet (pop_reversed n)
unfolding pop_reversed
pop_reversed-Respects zero = Respects-pure _
pop_reversed-Respects (suc n) =
    Respects-bind _ _ stack_pop-Respects
      λ v. Respects-bind _ _ (pop_reversed-Respects n) λ vs. Respects-pure _

pub outgoing-Respects : {quiet : Bool} → Respects quiet outgoing
unfolding outgoing
outgoing-Respects = search (object_rules, pop_reversed-Respects, event_at-Respects) depth 20

pub send_op-Respects : Respects false send_op
unfolding send_op
send_op-Respects = search (object_rules, outgoing-Respects, send_message-Respects) depth 20

pub make_event_op-Respects : {quiet : Bool} → (env : Env) → Respects quiet (make_event_op env)
unfolding make_event_op
make_event_op-Respects env = search object_rules depth 20

pop_ons-Respects : {quiet : Bool} → (n : ℕ) (ons : List ℕ) → Respects quiet (pop_ons n ons)
unfolding pop_ons
pop_ons-Respects zero ons = Respects-pure _
pop_ons-Respects (suc n) ons = Respects-bind _ _ stack_pop-Respects λ v.
    Respects-bind _ _ (object_at-Respects v) λ o.
      Respects-bind _ _ (Respects-or_crash (event_on_of o.payload)) λ handler.
        Respects-bind _ _ (Respects-or_crash (put_handler ons handler))
          λ ons'. pop_ons-Respects n ons'

set_event-Respects : {quiet : Bool} → (p : ℕ) (e : Event) → Respects quiet (set_event p e)
unfolding set_event
set_event-Respects p e = search object_rules depth 20

pub return_event-Respects : {quiet : Bool} → (env : Env) → Respects quiet (return_event env)
unfolding return_event
return_event-Respects env = search (object_rules, pop_ons-Respects, set_event-Respects) depth 20

located :
    {quiet : Bool}
    → (position : ℕ × ℕ) (s : List ℕ)
    → Respects quiet (modify (λ m. record m { latest_position = position; file = some s }))
located position s = Respects-modify _ (λ m. Keeps-others m _ refl refl refl refl refl refl refl)

pub loc-Respects : {quiet : Bool} → Respects quiet loc
unfolding loc
loc-Respects = search (object_rules, located) depth 20

pub halt-Respects : {quiet : Bool} → Respects quiet halt
unfolding halt
halt-Respects = record {
  at = λ m. returns (record {
    instrs = refl;
    constants = refl;
    handles = refl;
    args = (refl, refl);
    halted = λ h. refl;
    events = Grown-refl m.events;
  });
}
