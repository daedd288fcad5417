-- ===== src/Lib.antt =====
-- The runtime of the Bonzai language: a stack machine whose words are NaN-boxed values, with a
-- mark-and-sweep collector, actors that exchange messages through queues, and natives in loaded
-- libraries. The development models the C code under runtime/src, runtime/include and
-- bindings/src.
--
-- A C function is a `Cmd`: from a `Module` it returns a value and a new `Module`, ends the
-- process with an `Error` (`THROW`), or is a crash where C leaves the behaviour undefined: a read
-- through a pointer to no object, or outside an array. The heap maps an address to the
-- `HeapValue` that lives there. An `int32_t` is its pattern below 2 ^ 32, with the wrap-around
-- written out, and a word is a pattern below 2 ^ 64.
--
-- - Base: names and lemmas that the other files share; Base/Bits has `&` and `|` with masks.
-- - Word: the masks and macros of runtime/include/value.h; Word/Layout and Word/Function have
--   their arithmetic.
-- - Vm: the state (value.h, module.h, error.h). Vm/Memory: reads through a pointer, and `Env`.
--   Vm/TypeOf: `get_type` of runtime/src/value.c. Vm/Access: `GET_STRING`, `GET_LIST` and the
--   like.
-- - Stack: `stack_new`, `stack_push`, `stack_pop` of value.c.
-- - Gc: `mark_value`, `mark_all`, `sweep`, `gc` of value.c. Gc/Reach says what the mark phase is
--   to find, Gc/Marked, Gc/Mark and Gc/Exact are about that phase, Gc/Chain, Gc/Swept, Gc/Sweep
--   and Gc/Stale about the sweep, Gc/Collected and Gc/Collect about both.
-- - Alloc: `allocate`, `force_sweep` and the `MAKE_*` functions of value.c.
-- - Queue: `enqueue` and `dequeue` of value.c, on the linked list.
-- - ValueEq: `value_eq` of value.c. Compare: runtime/src/compare.c. Maths: bindings/src/maths.c.
-- - Call: runtime/src/call.c, and `pop_frame` of runtime/src/module.c.
-- - Interpreter: the instructions of runtime/src/interpreter.c, those that make or change objects
--   and actors in Interpreter/Objects, the jump table and the loop in Interpreter/Step;
--   Interpreter/Step/Run and Interpreter/Step/Sent are about what an instruction keeps and sends.
--   `create_actor` and `send_message` are those of runtime/src/threading.c.
-- - Deserialize: runtime/src/deserialize.c, on a list of bytes. Deserialize/Format and
--   Deserialize/Instructions have the file that src/Language/Bonzai/Backend/Bytecode/Serialize.hs
--   writes.
-- - Actors: `call_threaded` and `actor_run` of runtime/src/threading.c. Actors/System has the
--   threads as a step relation; Actors/History is about messages, Actors/Program about what the
--   threads share, Actors/Handler about one message to a handler.
-- - Operations: `mutable_value`, `get_args`, `slice` and `length` of bindings/src/operations.c.
-- - Print: `native_print`, `type_of` and `print_message_queue` of value.c, and `DEBUG_STACK` of
--   runtime/include/debug.h. Print/Decimal and Print/Reading read numbers back.
-- - Os: the calls of the operating system, as a history. Os/Sockets: bindings/src/http.c;
--   Os/Natives: the other natives of operations.c.
-- - Start: runtime/src/main.c.
-- - Files called Keeps go through the operations of the file above them and show what they leave
--   alone; those called Answers do so for operations that only look.
-- - Examples: a small machine on which the conditions of the theorems hold.
--
-- What the runtime takes from outside is the record `Env` of Vm/Memory: `malloc`, `realloc`, what
-- a read of freed memory gives, the contents of fields that nobody has set, float arithmetic, the
-- dynamic linker and the native functions, and how deep the C stack is. A theorem names what it
-- asks of them: `Realloc` that a larger block begins with the old contents, `LosesLink` that
-- nothing can be read from a freed object, which is what C leaves. (`KeepsLink`, that its `next`
-- is still there, is a step of proofs about sweeps that free nothing.)
--
-- Loops and recursions without a bound of their own take fuel. The mark phase, `value_eq` and
-- `compare_eq` are as deep as the C stack; a level of the mark phase marks an object, so more
-- room than there are objects is enough. The sweep gets one unit more than there are objects,
-- which is enough, since each round passes one. `run_interpreter` returns `none` where its fuel
-- ends before the program; the step relation of Actors has no bound.
--
-- The threads of a program take turns: a step of Actors/System is one instruction of one thread,
-- a call of the loop of `actor_run` up to the interpreter, or one use of a queue, which its mutex
-- guards. The heap and the queues are the memory that all threads share; everything else a thread
-- has for itself.
--
-- A native that calls the operating system adds to the history of calls; what a call answers is
-- the parameter `Os`, which may depend on the calls before. The dynamic linker, the file that
-- `fopen` opens and the text of a float are parameters of the functions that need them.
--
-- Not modelled: the dynamic linker's wrappers (runtime/src/library.c), what happens when a
-- message is sent to an actor that its thread has freed (that `halt` reads such an actor has no
-- step), the colours of runtime/include/color.h, MAKE_FRAME_NON_GC, which nothing calls, and the
-- rest of the compiler, which is Haskell.
pub mod Base
pub mod Word
pub mod Vm
pub mod Stack
pub mod Gc
pub mod Alloc
pub mod ValueEq
pub mod Maths
pub mod Compare
pub mod Call
pub mod Interpreter
pub mod Queue
pub mod Examples
pub mod Deserialize
pub mod Operations
pub mod Actors
pub mod Print
pub mod Os
pub mod Start
