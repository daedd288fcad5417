-- ===== src/Deserialize/RoundTrip.antt =====
-- `deserialize` of runtime/src/deserialize.c on the file that `runSerializer` writes.
use bonzai.Base.{
  ℕ, ◌*◌, ◌^◌, ◌<◌, ◌≡◌, ◌≢◌, refl, ◌∙◌, ap, sym, true, false, none, some, List, [], ◌∷◌, ◌++◌,
  arith, length, append_assoc, append_nil, ltb, ◌==◌, ==_iff, Bool-cases, inl, inr,
}
use bonzai.Word.{make_integer, make_ptr}
use bonzai.Stack.{globals_size}
use bonzai.Vm.{type_string, Heap, HeapValue, as_string, Module, ok, update}
use bonzai.Vm.Memory.{Env}
use bonzai.Gc.{init_objects}
use bonzai.Deserialize.{
  before_nul, constant_object, make_constant, read_string, read_integer, read_float,
  deserialize_value, read_values, deserialize_constants, read_words, deserialize,
}
use bonzai.Deserialize.Format.{
  bytes, Literal, lit_int, lit_float, lit_string, encode_constant, encode_constants, encode_words,
  take_bytes-append, read_number-bytes, read_number-byte, AllWords, read_words-encode_words,
}
use bonzai.Deserialize.Instructions.{
  Instruction, run_serializer, all_words, AllFiveWords, encode-all_words, length-all_words,
  AllWords-all_words,
}

-- the heap and the word for a literal that was just read
abbrev pub heap_after : Env → Literal → Heap → Heap
heap_after env (lit_string s) h = update h (env.malloc h) (some (constant_object env s (length s)))
heap_after env _ h = h

abbrev pub value_of : Env → Literal → Heap → ℕ
value_of env (lit_int n) h = make_integer n
value_of env (lit_float w) h = w
value_of env (lit_string s) h = make_ptr (env.malloc h)

-- An integer has 32 bits, a float 64, and a string's length is an `int32_t`.
abbrev pub Fits : Literal → Type 0
Fits (lit_int n) = n < 2 ^ 32
Fits (lit_float w) = w < 2 ^ 64
Fits (lit_string s) = length s < 2 ^ 31

abbrev pub AllFit : List Literal → Type 0
AllFit [] = Unit
AllFit (c ∷ cs) = Fits c × AllFit cs

-- `malloc` finds free memory for each string.
abbrev pub CanPlace : Env → Literal → Heap → Type 0
CanPlace env (lit_string s) h =
    (env.malloc h ≢ 0) × (env.malloc h < 2 ^ 48) × (h (env.malloc h) ≡ none)
CanPlace env _ h = Unit

abbrev pub Supplies : Env → List Literal → Heap → Type 0
Supplies env [] h = Unit
Supplies env (c ∷ cs) h = CanPlace env c h × Supplies env cs (heap_after env c h)

-- The word stands for the literal: a string is an object with its bytes, as C sees them.
abbrev pub Loaded : Heap → Literal → ℕ → Type 0
Loaded h (lit_int n) v = v ≡ make_integer n
Loaded h (lit_float w) v = v ≡ w
Loaded h (lit_string s) v =
    (p : ℕ) × (o : HeapValue) × (v ≡ make_ptr p)
    × (p < 2 ^ 48)
    × (h p ≡ some o)
    × (o.type ≡ type_string)
    × (o.size ≡ length s)
    × (o.payload ≡ as_string (before_nul s))

abbrev pub AllLoaded : Heap → List Literal → List ℕ → Type 0
AllLoaded h [] vs = vs ≡ []
AllLoaded h (c ∷ cs) vs = (v : ℕ) × (ws : List ℕ) × (vs ≡ v ∷ ws) × Loaded h c v × AllLoaded h cs ws

abbrev pub Keeps : Heap → Heap → Type 0
Keeps h h' = (a : ℕ) (o : HeapValue) → h a ≡ some o → h' a ≡ some o

deserialize_value-encode_constant :
    (env : Env) (c : Literal) (rest : List ℕ) (m : Module)
    → Fits c
    → CanPlace env c m.heap
    → deserialize_value env (encode_constant c ++ rest) m
      ≡ ok (value_of env c m.heap, rest) (record m { heap = heap_after env c m.heap })
unfolding deserialize_value encode_constant read_integer read_float read_string make_constant
deserialize_value-encode_constant env (lit_int n) rest m fits place =
    rw (read_number-byte 0 (bytes 4 n ++ rest) m, read_number-bytes 4 n rest m fits) refl
deserialize_value-encode_constant env (lit_float w) rest m fits place =
    rw (read_number-byte 1 (bytes 8 w ++ rest) m, read_number-bytes 8 w rest m fits) refl
deserialize_value-encode_constant env (lit_string s) rest m fits (ne, small, free) =
    let size : ltb (length s) (2 ^ 31) ≡ true = ground arith in
    let there : (env.malloc m.heap == 0) ≡ false = ground arith in
    rw
      (
        append_assoc (bytes 4 (length s)) s rest,
        read_number-byte 2 (bytes 4 (length s) ++ (s ++ rest)) m,
        read_number-bytes 4 (length s) (s ++ rest) m (omega arith),
        size,
        take_bytes-append s rest,
        there,
      )
      refl

Keeps-heap_after :
    (env : Env) (c : Literal) (h : Heap) → CanPlace env c h → Keeps h (heap_after env c h)
Keeps-heap_after env (lit_int n) h place a o e = e
Keeps-heap_after env (lit_float w) h place a o e = e
Keeps-heap_after env (lit_string s) h (ne, small, free) a o e =
    elim (Bool-cases (env.malloc h == a)) [
      | inl k ↦ let same = (==_iff (env.malloc h) a).0 k in cc
      | inr k ↦ rw k e
    ]

Loaded-value_of :
    (env : Env) (c : Literal) (h h' : Heap)
    → CanPlace env c h
    → Keeps (heap_after env c h) h'
    → Loaded h' c (value_of env c h)
Loaded-value_of env (lit_int n) h h' place keeps = refl
Loaded-value_of env (lit_float w) h h' place keeps = refl
Loaded-value_of env (lit_string s) h h' (ne, small, free) keeps = (
  env.malloc h,
  constant_object env s (length s),
  refl,
  small,
  keeps (env.malloc h) (constant_object env s (length s)) (ground arith),
  refl,
  refl,
  refl,
)

-- the state after the constants, where nothing but the heap has changed
abbrev with_heap : Module → Heap → Module
with_heap m h = record m { heap = h }

read_values-encode_constants :
    (env : Env) (cs : List Literal) (rest : List ℕ) (m : Module)
    → AllFit cs
    → Supplies env cs m.heap
    → (vs : List ℕ) × (h : Heap) × (read_values env (length cs) (encode_constants cs ++ rest) m
        ≡ ok (vs, rest) (with_heap m h))
      × AllLoaded h cs vs
      × Keeps m.heap h
unfolding read_values encode_constants
read_values-encode_constants env [] rest m fit supply = ([], m.heap, refl, refl, λ a o e. e)
read_values-encode_constants env (c ∷ cs) rest m fit supply =
    let h1 : Heap = heap_after env c m.heap in
    let (vs, h, e, loaded, keeps) =
      read_values-encode_constants env cs rest (with_heap m h1) fit.1 supply.1 in
    (
      value_of env c m.heap ∷ vs,
      h,
      rw
          (
            append_assoc (encode_constant c) (encode_constants cs) rest,
            deserialize_value-encode_constant env c (encode_constants cs ++ rest) m fit.0 supply.0,
            e,
          )
          refl,
      (value_of env c m.heap, vs, refl, Loaded-value_of env c m.heap h supply.0 keeps, loaded),
      λ a o t. keeps a o (Keeps-heap_after env c m.heap supply.0 a o t),
    )

-- the registers that are set before anything is read
abbrev started : Module → Module
started m = record m {
  first_object = 0;
  max_objects = init_objects;
  num_objects = 0;
  callstack = 0;
  is_terminated = false;
  base_pointer = globals_size;
}

read_words_all :
    (ws : List ℕ) (m : Module)
    → AllWords ws
    → read_words (length ws) (encode_words ws) m ≡ ok (ws, []) m
read_words_all ws m h =
    ap (λ f. read_words (length ws) f m) (sym (append_nil (encode_words ws)))
    ∙ read_words-encode_words ws [] m h

-- The state after loading: the registers as at the start, the words of the instructions, and a word
-- for each literal.
pub record Deserialized (cs : List Literal) (ws : List ℕ) (m m' : Module) : Type 0 where
  pub instrs : m'.instrs ≡ ws
  pub constants : AllLoaded m'.heap cs m'.constants
  pub heap : Keeps m.heap m'.heap
  pub base : m'.base_pointer ≡ globals_size
  pub depth : m'.callstack ≡ 0
  pub objects : (m'.first_object ≡ 0) × (m'.num_objects ≡ 0) × (m'.max_objects ≡ init_objects)
  pub running : m'.is_terminated ≡ false
  pub stack : m'.stack ≡ m.stack

-- What `runSerializer` writes for fewer than 2 ^ 31 literals that fit their formats, and for
-- instructions of fewer than 2 ^ 31 words, none of them a `CallGlobal` or `CallLocal`, which it
-- writes as three words, `deserialize` loads, if `malloc` finds free memory for each string: the
-- constants stand for the literals, and the instructions are five words each, the operation and
-- its operands as `int32_t`; no object is lost, the collector's list is empty, and the registers
-- are those of a start.
pub deserialize-run_serializer :
    (env : Env) (xs : List Instruction) (lits : List Literal) (m : Module)
    → AllFit lits
    → length lits < 2 ^ 31
    → AllFiveWords xs
    → length xs * 5 < 2 ^ 31
    → Supplies env lits m.heap
    → (m' : Module) × (deserialize env (run_serializer xs lits) m ≡ ok tt m')
      × Deserialized lits (all_words xs) m m'
unfolding deserialize deserialize_constants run_serializer
deserialize-run_serializer env xs lits m fit few five short supply =
    let n = length xs in
    let ws = all_words xs in
    let start : Module = started m in
    let (vs, h, e, loaded, keeps) =
      read_values-encode_constants env lits (bytes 4 n ++ encode_words ws) start fit supply in
    let some_few : ltb (length lits) (2 ^ 31) ≡ true = ground arith in
    let some_short : ltb (n * 5) (2 ^ 31) ≡ true = ground arith in
    (
      record start { heap = h; instrs = ws; constants = vs },
      rw
          (
            encode-all_words xs,
            read_number-bytes 4 (length lits)
                (encode_constants lits ++ (bytes 4 n ++ encode_words ws)) start (omega arith),
            some_few,
            e,
            read_number-bytes 4 n (encode_words ws) (with_heap start h) (omega arith),
            some_short,
            sym (length-all_words xs five),
            read_words_all ws (with_heap start h) (AllWords-all_words xs),
          )
          refl,
      record {
        instrs = refl;
        constants = loaded;
        heap = keeps;
        base = refl;
        depth = refl;
        objects = (refl, refl, refl);
        running = refl;
        stack = refl;
      },
    )
