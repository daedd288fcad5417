-- ===== src/Deserialize.antt =====
-- The reader of bytecode, runtime/src/deserialize.c, on a list of bytes. A read past the end of the
-- file leaves a variable unset, which is a crash here.
pub mod Format
pub mod Instructions
pub mod RoundTrip
use mathlib.Core.Option
use bonzai.Base.{
  ℕ, zero, suc, ◌+◌, ◌*◌, ◌%◌, ◌^◌, not, ◌||◌, Bool, true, false, Option, none, some, List, [], ◌∷◌,
  ltb, ◌==◌, if◌then◌else◌,
}
use bonzai.Word.{make_integer, make_ptr, is_ptr, get_ptr}
use bonzai.Stack.{globals_size}
use bonzai.Vm.{
  type_string, Heap, HeapValue, as_string, Module, Cmd, pure, fail, get, modify, or_crash, crash,
  ◌>>=◌, ◌>>◌, update, invalid_value_type, is_type,
}
use bonzai.Vm.Memory.{Env}
use bonzai.Vm.Access.{object_at}
use bonzai.Gc.{init_objects}

-- `fread` of so many bytes, and what is left of the file
pub take_bytes : ℕ → List ℕ → Option (List ℕ × List ℕ)
take_bytes zero file = some ([], file)
take_bytes (suc n) [] = none
take_bytes (suc n) (b ∷ file) =
    let rest = take_bytes n file in Option.map (λ (r : List ℕ × List ℕ). (b ∷ r.0, r.1)) rest

-- a number in memory, its lowest byte first
abbrev pub number : List ℕ → ℕ
number [] = 0
number (b ∷ bs) = b + 256 * number bs

pub read_number : ℕ → List ℕ → Cmd (ℕ × List ℕ)
read_number size file = do (bs, rest) ← or_crash (take_bytes size file); pure (number bs, rest)

-- what C sees of an array of characters as a string
abbrev pub before_nul : List ℕ → List ℕ
before_nul [] = []
before_nul (b ∷ bs) = if b == 0 then [] else b ∷ before_nul bs

-- an object outside the collector's list, whose other fields nobody sets
abbrev pub constant_object : Env → List ℕ → ℕ → HeapValue
constant_object env bytes len = record {
  type = type_string;
  size = len;
  is_marked = if env.junk == 0 then false else true;
  next = env.junk;
  payload = as_string (before_nul bytes);
}

pub make_constant : Env → List ℕ → ℕ → Cmd ℕ
make_constant env bytes len = do
  h ← get (λ m. m.heap)
  p ← or_crash (if env.malloc h == 0 then none else some (env.malloc h))
  modify (λ m. record m { heap = update m.heap p (some (constant_object env bytes len)) })
  pure (make_ptr p)

-- an `int32_t` that counts something to read
abbrev pub count : ℕ → Cmd ℕ
count n = or_crash (if ltb n (2 ^ 31) then some n else none)

read_string : Env → List ℕ → Cmd (ℕ × List ℕ)
read_string env file = do
  (n, rest) ← read_number 4 file
  len ← count n
  (bytes, rest') ← or_crash (take_bytes len rest)
  v ← make_constant env bytes len
  pure (v, rest')

read_integer : List ℕ → Cmd (ℕ × List ℕ)
read_integer file = do (n, rest) ← read_number 4 file; pure (make_integer n, rest)

read_float : List ℕ → Cmd (ℕ × List ℕ)
read_float file = do (n, rest) ← read_number 8 file; pure (n, rest)

pub deserialize_value : Env → List ℕ → Cmd (ℕ × List ℕ)
deserialize_value env file = do
  (type, rest) ← read_number 1 file
  if type == 0
      then read_integer rest
      else if type == 1
      then read_float rest
      else if type == 2
      then read_string env rest
      else fail invalid_value_type

pub read_values : Env → ℕ → List ℕ → Cmd (List ℕ × List ℕ)
read_values env zero file = pure ([], file)
read_values env (suc n) file = do
  (v, rest) ← deserialize_value env file
  (vs, rest') ← read_values env n rest
  pure (v ∷ vs, rest')

pub deserialize_constants : Env → List ℕ → Cmd (List ℕ × List ℕ)
deserialize_constants env file = do
  (n, rest) ← read_number 4 file
  size ← count n
  read_values env size rest

pub read_words : ℕ → List ℕ → Cmd (List ℕ × List ℕ)
read_words zero file = pure ([], file)
read_words (suc n) file = do
  (w, rest) ← read_number 4 file
  (ws, rest') ← read_words n rest
  pure (w ∷ ws, rest')

-- The product `instr_count * 5` is an `int`.
pub deserialize : Env → List ℕ → Cmd (Unit {0})
deserialize env file = do
  modify (λ m. record m {
    first_object = 0;
    max_objects = init_objects;
    num_objects = 0;
    callstack = 0;
    is_terminated = false;
    base_pointer = globals_size;
  })
  (constants, rest) ← deserialize_constants env file
  (n, rest') ← read_number 4 rest
  words ← count (n * 5)
  (instrs, _) ← read_words words rest'
  modify (λ m. record m { instrs = instrs; constants = constants })

-- `free` of a constant's object; its characters go with it.
pub free_constant : ℕ → Cmd (Unit {0})
free_constant v =
    if not (is_ptr v) || (get_ptr v == 0)
    then pure tt
    else (do _ ← object_at v; modify (λ m. record m { heap = update m.heap (get_ptr v) none }))
