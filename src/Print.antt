-- ===== src/Print.antt =====
-- What the runtime prints: `native_print`, `type_of`, `print_message_queue` of runtime/src/value.c
-- and `DEBUG_STACK` of runtime/include/debug.h. A text is its bytes; a function that prints answers
-- with what it printed.
pub mod Decimal
pub mod Lists
pub mod Reading
use bonzai.Base.{
  ℕ, zero, suc, ◌+◌, ◌-◌, ◌/◌, ◌%◌, ◌^◌, Bool, true, false, Option, none, some, List, [], ◌∷◌, ◌++◌,
  ltb, ◌==◌, if◌then◌else◌, get_elem?,
}
use mathlib.Core.Option
use bonzai.Stack.{lt_int, read_slot}
use bonzai.Vm.{
  Module, Message, ValueType, type_integer, type_float, type_string, type_list, type_special,
  type_mutable, type_function, type_funcenv, type_unknown, type_api, type_event, type_frame,
  type_event_on, Cmd, crash, pure, get, ◌>>=◌,
}
use bonzai.Vm.Access.{type_at, get_string, list_elements, get_mutable}
use bonzai.Call.{add_int, sub_int}
use bonzai.Queue.{MessageQueue, Node}

-- the texts, in ASCII
-- "null"
abbrev null_text : List ℕ
null_text = 110 ∷ 117 ∷ 108 ∷ 108 ∷ []

-- "<special>"
abbrev special_text : List ℕ
special_text = 60 ∷ 115 ∷ 112 ∷ 101 ∷ 99 ∷ 105 ∷ 97 ∷ 108 ∷ 62 ∷ []

-- "<mutable "
abbrev open_mutable : List ℕ
open_mutable = 60 ∷ 109 ∷ 117 ∷ 116 ∷ 97 ∷ 98 ∷ 108 ∷ 101 ∷ 32 ∷ []

-- "<function>"
abbrev function_text : List ℕ
function_text = 60 ∷ 102 ∷ 117 ∷ 110 ∷ 99 ∷ 116 ∷ 105 ∷ 111 ∷ 110 ∷ 62 ∷ []

-- "<funcenv>"
abbrev funcenv_text : List ℕ
funcenv_text = 60 ∷ 102 ∷ 117 ∷ 110 ∷ 99 ∷ 101 ∷ 110 ∷ 118 ∷ 62 ∷ []

-- "<event>"
abbrev event_text : List ℕ
event_text = 60 ∷ 101 ∷ 118 ∷ 101 ∷ 110 ∷ 116 ∷ 62 ∷ []

-- "<frame>"
abbrev frame_text : List ℕ
frame_text = 60 ∷ 102 ∷ 114 ∷ 97 ∷ 109 ∷ 101 ∷ 62 ∷ []

-- "<unknown>"
abbrev unknown_text : List ℕ
unknown_text = 60 ∷ 117 ∷ 110 ∷ 107 ∷ 110 ∷ 111 ∷ 119 ∷ 110 ∷ 62 ∷ []

abbrev pub comma : List ℕ
comma = 44 ∷ 32 ∷ []

-- Decimal digits, the least significant one last, at most `fuel` of them.
pub digits : ℕ → ℕ → List ℕ
digits zero n = []
digits (suc fuel) n =
    let rest = digits fuel (n / 10) in
    if ltb n 10 then (48 + n) ∷ [] else rest ++ (48 + n % 10) ∷ []

-- `%d`: an `int32_t` has 10 digits at most.
pub decimal : ℕ → List ℕ
decimal n = if lt_int n 0 then 45 ∷ digits 10 (2 ^ 32 - n) else digits 10 n

-- `type_of`, on the type that `get_type` gives
pub type_name : ValueType → List ℕ
type_name type_integer = 105 ∷ 110 ∷ 116 ∷ 101 ∷ 103 ∷ 101 ∷ 114 ∷ []
type_name type_function = 102 ∷ 117 ∷ 110 ∷ 99 ∷ 116 ∷ 105 ∷ 111 ∷ 110 ∷ []
type_name type_funcenv = 102 ∷ 117 ∷ 110 ∷ 99 ∷ 116 ∷ 105 ∷ 111 ∷ 110 ∷ 95 ∷ 101 ∷ 110 ∷ 118 ∷ []
type_name type_float = 102 ∷ 108 ∷ 111 ∷ 97 ∷ 116 ∷ []
type_name type_string = 115 ∷ 116 ∷ 114 ∷ 105 ∷ 110 ∷ 103 ∷ []
type_name type_list = 108 ∷ 105 ∷ 115 ∷ 116 ∷ []
type_name type_special = 115 ∷ 112 ∷ 101 ∷ 99 ∷ 105 ∷ 97 ∷ 108 ∷ []
type_name type_mutable = 109 ∷ 117 ∷ 116 ∷ 97 ∷ 98 ∷ 108 ∷ 101 ∷ []
type_name type_unknown = 117 ∷ 110 ∷ 107 ∷ 110 ∷ 111 ∷ 119 ∷ 110 ∷ []
type_name type_api = 97 ∷ 112 ∷ 105 ∷ []
type_name type_event = 101 ∷ 118 ∷ 101 ∷ 110 ∷ 116 ∷ []
type_name type_frame = 102 ∷ 114 ∷ 97 ∷ 109 ∷ 101 ∷ []
type_name type_event_on = 101 ∷ 118 ∷ 101 ∷ 110 ∷ 116 ∷ 95 ∷ 111 ∷ 110 ∷ []

pub type_of : ℕ → Cmd (List ℕ)
unfolding type_name
type_of v = do t ← type_at v; pure (type_name t)

-- The loop over a list's elements, with a comma after each but the last.
pub print_elements : (ℕ → Cmd (List ℕ)) → List ℕ → Cmd (List ℕ)
print_elements print [] = pure []
print_elements print (x ∷ []) = print x
print_elements print (x ∷ y ∷ xs) = do
  first ← print x
  rest ← print_elements print (y ∷ xs)
  pure (first ++ (comma ++ rest))

pub print_list : (ℕ → Cmd (List ℕ)) → ℕ → Cmd (List ℕ)
unfolding print_elements
print_list print v = do
  (n, xs) ← list_elements v
  text ← print_elements print xs
  pure (91 ∷ text ++ 93 ∷ [])

print_mutable : (ℕ → Cmd (List ℕ)) → ℕ → Cmd (List ℕ)
print_mutable print v = do
  x ← get_mutable v
  text ← print x
  pure (open_mutable ++ (text ++ 62 ∷ []))

pub print_typed : (ℕ → List ℕ) → (ℕ → Cmd (List ℕ)) → ValueType → ℕ → Cmd (List ℕ)
unfolding print_list print_mutable
print_typed format_float print type_integer v = pure (decimal (v % 2 ^ 32))
print_typed format_float print type_special v = pure special_text
print_typed format_float print type_float v = pure (format_float v)
print_typed format_float print type_string v = get_string v
print_typed format_float print type_list v = print_list print v
print_typed format_float print type_mutable v = print_mutable print v
print_typed format_float print type_function v = pure function_text
print_typed format_float print type_funcenv v = pure funcenv_text
print_typed format_float print type_event v = pure event_text
print_typed format_float print type_frame v = pure frame_text
print_typed format_float print _ v = pure unknown_text

-- `format_float` is what `%f` makes of a double. The recursion goes as deep as the C stack allows.
pub native_print : (ℕ → List ℕ) → ℕ → ℕ → Cmd (List ℕ)
unfolding print_typed
native_print format_float zero v = λ _. crash
native_print format_float (suc depth) v =
    let print = native_print format_float depth in
    if v == 0 then pure null_text else type_at v >>= λ t. print_typed format_float print t v

-- The loop of `DEBUG_STACK_FROM`, from slot `i` for `n` slots.
pub print_slots : (ℕ → Cmd (List ℕ)) → ℕ → ℕ → Cmd (List ℕ)
print_slots print zero i = pure []
print_slots print (suc zero) i = read_slot i >>= print
print_slots print (suc (suc n)) i = do
  v ← read_slot i
  first ← print v
  rest ← print_slots print (suc n) (suc i)
  pure (first ++ (comma ++ rest))

-- `DEBUG_STACK_FROM(stack, idx)`; `DEBUG_STACK` is from 0.
pub debug_stack_from : (ℕ → Cmd (List ℕ)) → ℕ → Cmd (List ℕ)
unfolding print_slots
debug_stack_from print idx = do
  sp ← get (λ m. m.stack.stack_pointer)
  text ← print_slots print (if lt_int idx sp then sub_int sp idx else 0) idx
  pure (91 ∷ text ++ 93 ∷ 10 ∷ [])

-- `print_message_queue`, for at most `fuel` messages
pub print_messages : ℕ → (ℕ → Option Node) → ℕ → Option (List ℕ)
unfolding decimal
print_messages zero nodes msg = none
print_messages (suc fuel) nodes msg =
    let rest = print_messages fuel nodes in
    if msg == 0 then some (10 ∷ []) else elim (nodes msg) [
      | none ↦ none
      | some n ↦ Option.map (λ text. decimal n.message.name ++ (32 ∷ text)) (rest n.next)
    ]

pub print_message_queue : ℕ → MessageQueue → Option (List ℕ)
unfolding print_messages
print_message_queue fuel queue = print_messages fuel queue.nodes queue.head
