-- ===== src/Deserialize/Instructions.antt =====
-- The instructions of a compiled file: `encodeComparator`, `encodeInstruction` and `runSerializer` of
-- src/Language/Bonzai/Backend/Bytecode/Serialize.hs.
use bonzai.Base.{
  ℕ, zero, suc, ◌*◌, ◌%◌, ◌^◌, ◌<◌, ◌≡◌, refl, sym, ap, ◌∙◌, List, [], ◌∷◌, ◌++◌, arith, length,
  length-append, append_assoc, append_nil,
}
use bonzai.Deserialize.Format.{bytes, bytes-word, Literal, encode_constants, encode_words, AllWords}

pub data Comparator : Type 0 where
  less_than greater_than equal_to not_equal_to less_than_or_equal_to : Comparator
  greater_than_or_equal_to and_cmp or_cmp : Comparator

-- An `Int` is its bit pattern.
pub data Instruction : Type 0 where
  load_local : ℕ → Instruction
  store_local : ℕ → Instruction
  load_constant : ℕ → Instruction
  load_global : ℕ → Instruction
  store_global : ℕ → Instruction
  return_instr : Instruction
  compare : Comparator → Instruction
  update : Instruction
  make_list : ℕ → Instruction
  list_get : ℕ → Instruction
  call : ℕ → Instruction
  call_global : ℕ → ℕ → Instruction
  call_local : ℕ → ℕ → Instruction
  jump_if_false : ℕ → Instruction
  jump_rel : ℕ → Instruction
  get_index : Instruction
  special : Instruction
  halt : Instruction
  spawn : Instruction
  event_on : ℕ → ℕ → ℕ → ℕ → Instruction
  send : ℕ → ℕ → Instruction
  make_function_and_store : ℕ → ℕ → ℕ → Instruction
  load_native : ℕ → Instruction
  make_event : ℕ → ℕ → Instruction
  return_event : Instruction
  make_mutable : Instruction
  loc : ℕ → ℕ → ℕ → Instruction

pub encode_comparator : Comparator → ℕ
encode_comparator less_than = 0
encode_comparator greater_than = 1
encode_comparator equal_to = 2
encode_comparator not_equal_to = 3
encode_comparator less_than_or_equal_to = 4
encode_comparator greater_than_or_equal_to = 5
encode_comparator and_cmp = 6
encode_comparator or_cmp = 7

pub replicate_null : ℕ → List ℕ
replicate_null zero = []
replicate_null (suc n) = bytes 4 0 ++ replicate_null n

-- `putInt32le` writes the lowest four bytes.
pub encode_instruction : Instruction → List ℕ
unfolding encode_comparator replicate_null
encode_instruction (load_local i) = bytes 4 0 ++ (bytes 4 i ++ replicate_null 3)
encode_instruction (store_local i) = bytes 4 1 ++ (bytes 4 i ++ replicate_null 3)
encode_instruction (load_constant i) = bytes 4 2 ++ (bytes 4 i ++ replicate_null 3)
encode_instruction (load_global i) = bytes 4 3 ++ (bytes 4 i ++ replicate_null 3)
encode_instruction (store_global i) = bytes 4 4 ++ (bytes 4 i ++ replicate_null 3)
encode_instruction return_instr = bytes 4 5 ++ replicate_null 4
encode_instruction (compare c) = bytes 4 6 ++ (bytes 4 (encode_comparator c) ++ replicate_null 3)
encode_instruction update = bytes 4 7 ++ replicate_null 4
encode_instruction (make_list i) = bytes 4 8 ++ (bytes 4 i ++ replicate_null 3)
encode_instruction (list_get i) = bytes 4 9 ++ (bytes 4 i ++ replicate_null 3)
encode_instruction (call i) = bytes 4 10 ++ (bytes 4 i ++ replicate_null 3)
encode_instruction (call_global i j) = bytes 4 11 ++ (bytes 4 i ++ bytes 4 j)
encode_instruction (call_local i j) = bytes 4 12 ++ (bytes 4 i ++ bytes 4 j)
encode_instruction (jump_if_false i) = bytes 4 13 ++ (bytes 4 i ++ replicate_null 3)
encode_instruction (jump_rel i) = bytes 4 14 ++ (bytes 4 i ++ replicate_null 3)
encode_instruction get_index = bytes 4 15 ++ replicate_null 4
encode_instruction special = bytes 4 16 ++ replicate_null 4
encode_instruction halt = bytes 4 17 ++ replicate_null 4
encode_instruction spawn = bytes 4 18 ++ replicate_null 4
encode_instruction (event_on i j k ls) =
    bytes 4 19 ++ (bytes 4 i ++ (bytes 4 j ++ (bytes 4 k ++ bytes 4 ls)))
encode_instruction (send i j) = bytes 4 20 ++ (bytes 4 i ++ (bytes 4 j ++ replicate_null 2))
encode_instruction (make_function_and_store i j k) =
    bytes 4 21 ++ (bytes 4 i ++ (bytes 4 j ++ (bytes 4 k ++ replicate_null 1)))
encode_instruction (load_native i) = bytes 4 22 ++ (bytes 4 i ++ replicate_null 3)
encode_instruction (make_event i j) = bytes 4 23 ++ (bytes 4 i ++ (bytes 4 j ++ replicate_null 2))
encode_instruction return_event = bytes 4 24 ++ replicate_null 4
encode_instruction make_mutable = bytes 4 25 ++ replicate_null 4
encode_instruction (loc i j k) =
    bytes 4 26 ++ (bytes 4 i ++ (bytes 4 j ++ (bytes 4 k ++ replicate_null 1)))

pub encode_instructions : List Instruction → List ℕ
encode_instructions [] = []
encode_instructions (x ∷ xs) = encode_instruction x ++ encode_instructions xs

unfoldable pub run_serializer : List Instruction → List Literal → List ℕ
unfolding encode_instructions
run_serializer xs lits =
    bytes 4 (length lits)
    ++ (encode_constants lits ++ (bytes 4 (length xs) ++ encode_instructions xs))

-- an `int32_t`
abbrev word : ℕ → ℕ
word n = n % 2 ^ 32

-- the operation and the operands of an instruction, as words
pub words_of : Instruction → List ℕ
unfolding encode_comparator
words_of (load_local i) = 0 ∷ word i ∷ 0 ∷ 0 ∷ 0 ∷ []
words_of (store_local i) = 1 ∷ word i ∷ 0 ∷ 0 ∷ 0 ∷ []
words_of (load_constant i) = 2 ∷ word i ∷ 0 ∷ 0 ∷ 0 ∷ []
words_of (load_global i) = 3 ∷ word i ∷ 0 ∷ 0 ∷ 0 ∷ []
words_of (store_global i) = 4 ∷ word i ∷ 0 ∷ 0 ∷ 0 ∷ []
words_of return_instr = 5 ∷ 0 ∷ 0 ∷ 0 ∷ 0 ∷ []
words_of (compare c) = 6 ∷ encode_comparator c ∷ 0 ∷ 0 ∷ 0 ∷ []
words_of update = 7 ∷ 0 ∷ 0 ∷ 0 ∷ 0 ∷ []
words_of (make_list i) = 8 ∷ word i ∷ 0 ∷ 0 ∷ 0 ∷ []
words_of (list_get i) = 9 ∷ word i ∷ 0 ∷ 0 ∷ 0 ∷ []
words_of (call i) = 10 ∷ word i ∷ 0 ∷ 0 ∷ 0 ∷ []
words_of (call_global i j) = 11 ∷ word i ∷ word j ∷ []
words_of (call_local i j) = 12 ∷ word i ∷ word j ∷ []
words_of (jump_if_false i) = 13 ∷ word i ∷ 0 ∷ 0 ∷ 0 ∷ []
words_of (jump_rel i) = 14 ∷ word i ∷ 0 ∷ 0 ∷ 0 ∷ []
words_of get_index = 15 ∷ 0 ∷ 0 ∷ 0 ∷ 0 ∷ []
words_of special = 16 ∷ 0 ∷ 0 ∷ 0 ∷ 0 ∷ []
words_of halt = 17 ∷ 0 ∷ 0 ∷ 0 ∷ 0 ∷ []
words_of spawn = 18 ∷ 0 ∷ 0 ∷ 0 ∷ 0 ∷ []
words_of (event_on i j k ls) = 19 ∷ word i ∷ word j ∷ word k ∷ word ls ∷ []
words_of (send i j) = 20 ∷ word i ∷ word j ∷ 0 ∷ 0 ∷ []
words_of (make_function_and_store i j k) = 21 ∷ word i ∷ word j ∷ word k ∷ 0 ∷ []
words_of (load_native i) = 22 ∷ word i ∷ 0 ∷ 0 ∷ 0 ∷ []
words_of (make_event i j) = 23 ∷ word i ∷ word j ∷ 0 ∷ 0 ∷ []
words_of return_event = 24 ∷ 0 ∷ 0 ∷ 0 ∷ 0 ∷ []
words_of make_mutable = 25 ∷ 0 ∷ 0 ∷ 0 ∷ 0 ∷ []
words_of (loc i j k) = 26 ∷ word i ∷ word j ∷ word k ∷ 0 ∷ []

pub all_words : List Instruction → List ℕ
unfolding words_of
all_words [] = []
all_words (x ∷ xs) = words_of x ++ all_words xs

-- An instruction that is written as five words: a call by name is not.
abbrev pub FiveWords : Instruction → Type 0
FiveWords (call_global i j) = ⊥
FiveWords (call_local i j) = ⊥
FiveWords _ = Unit

abbrev pub AllFiveWords : List Instruction → Type 0
AllFiveWords [] = Unit
AllFiveWords (x ∷ xs) = FiveWords x × AllFiveWords xs

encode-words_of : (x : Instruction) → encode_instruction x ≡ encode_words (words_of x)
unfolding encode_instruction words_of encode_words replicate_null
encode-words_of (load_local i) = rw (bytes-word i) refl
encode-words_of (store_local i) = rw (bytes-word i) refl
encode-words_of (load_constant i) = rw (bytes-word i) refl
encode-words_of (load_global i) = rw (bytes-word i) refl
encode-words_of (store_global i) = rw (bytes-word i) refl
encode-words_of return_instr = refl
encode-words_of (compare c) = refl
encode-words_of update = refl
encode-words_of (make_list i) = rw (bytes-word i) refl
encode-words_of (list_get i) = rw (bytes-word i) refl
encode-words_of (call i) = rw (bytes-word i) refl
encode-words_of (call_global i j) = rw (bytes-word i, bytes-word j, append_nil (bytes 4 j)) refl
encode-words_of (call_local i j) = rw (bytes-word i, bytes-word j, append_nil (bytes 4 j)) refl
encode-words_of (jump_if_false i) = rw (bytes-word i) refl
encode-words_of (jump_rel i) = rw (bytes-word i) refl
encode-words_of get_index = refl
encode-words_of special = refl
encode-words_of halt = refl
encode-words_of spawn = refl
encode-words_of (event_on i j k ls) =
    rw (bytes-word i, bytes-word j, bytes-word k, bytes-word ls, append_nil (bytes 4 ls)) refl
encode-words_of (send i j) = rw (bytes-word i, bytes-word j) refl
encode-words_of (make_function_and_store i j k) = rw (bytes-word i, bytes-word j, bytes-word k) refl
encode-words_of (load_native i) = rw (bytes-word i) refl
encode-words_of (make_event i j) = rw (bytes-word i, bytes-word j) refl
encode-words_of return_event = refl
encode-words_of make_mutable = refl
encode-words_of (loc i j k) = rw (bytes-word i, bytes-word j, bytes-word k) refl

encode_words-append :
    (vs ws : List ℕ) → encode_words (vs ++ ws) ≡ encode_words vs ++ encode_words ws
unfolding encode_words
encode_words-append [] ws = refl
encode_words-append (v ∷ vs) ws =
    ap (λ l. bytes 4 v ++ l) (encode_words-append vs ws) ∙ sym (append_assoc (bytes 4 v) _ _)

pub encode-all_words :
    (xs : List Instruction) → encode_instructions xs ≡ encode_words (all_words xs)
unfolding encode_instructions all_words encode_words
encode-all_words [] = refl
encode-all_words (x ∷ xs) =
    rw (encode-words_of x, encode-all_words xs)
      (sym (encode_words-append (words_of x) (all_words xs)))

five : (x : Instruction) → FiveWords x → length (words_of x) ≡ 5
unfolding words_of
five (load_local i) h = refl
five (store_local i) h = refl
five (load_constant i) h = refl
five (load_global i) h = refl
five (store_global i) h = refl
five return_instr h = refl
five (compare c) h = refl
five update h = refl
five (make_list i) h = refl
five (list_get i) h = refl
five (call i) h = refl
five (call_global i j) h = absurd h
five (call_local i j) h = absurd h
five (jump_if_false i) h = refl
five (jump_rel i) h = refl
five get_index h = refl
five special h = refl
five halt h = refl
five spawn h = refl
five (event_on i j k ls) h = refl
five (send i j) h = refl
five (make_function_and_store i j k) h = refl
five (load_native i) h = refl
five (make_event i j) h = refl
five return_event h = refl
five make_mutable h = refl
five (loc i j k) h = refl

pub length-all_words :
    (xs : List Instruction) → AllFiveWords xs → length (all_words xs) ≡ length xs * 5
unfolding all_words
length-all_words [] h = refl
length-all_words (x ∷ xs) (h, t) =
    length-append (words_of x) (all_words xs) ∙ omega (arith, five x h, length-all_words xs t)

small_comparator : (c : Comparator) → encode_comparator c < 2 ^ 32
unfolding encode_comparator
small_comparator less_than = omega arith
small_comparator greater_than = omega arith
small_comparator equal_to = omega arith
small_comparator not_equal_to = omega arith
small_comparator less_than_or_equal_to = omega arith
small_comparator greater_than_or_equal_to = omega arith
small_comparator and_cmp = omega arith
small_comparator or_cmp = omega arith

small : (x : Instruction) → AllWords (words_of x)
unfolding words_of encode_comparator
small (load_local i) = (omega arith, (omega arith, (omega arith, (omega arith, (omega arith, tt)))))
small (store_local i) =
    (omega arith, (omega arith, (omega arith, (omega arith, (omega arith, tt)))))
small (load_constant i) =
    (omega arith, (omega arith, (omega arith, (omega arith, (omega arith, tt)))))
small (load_global i) =
    (omega arith, (omega arith, (omega arith, (omega arith, (omega arith, tt)))))
small (store_global i) =
    (omega arith, (omega arith, (omega arith, (omega arith, (omega arith, tt)))))
small return_instr = (omega arith, (omega arith, (omega arith, (omega arith, (omega arith, tt)))))
small (compare c) =
    (omega arith, (small_comparator c, (omega arith, (omega arith, (omega arith, tt)))))
small update = (omega arith, (omega arith, (omega arith, (omega arith, (omega arith, tt)))))
small (make_list i) = (omega arith, (omega arith, (omega arith, (omega arith, (omega arith, tt)))))
small (list_get i) = (omega arith, (omega arith, (omega arith, (omega arith, (omega arith, tt)))))
small (call i) = (omega arith, (omega arith, (omega arith, (omega arith, (omega arith, tt)))))
small (call_global i j) = (omega arith, (omega arith, (omega arith, tt)))
small (call_local i j) = (omega arith, (omega arith, (omega arith, tt)))
small (jump_if_false i) =
    (omega arith, (omega arith, (omega arith, (omega arith, (omega arith, tt)))))
small (jump_rel i) = (omega arith, (omega arith, (omega arith, (omega arith, (omega arith, tt)))))
small get_index = (omega arith, (omega arith, (omega arith, (omega arith, (omega arith, tt)))))
small special = (omega arith, (omega arith, (omega arith, (omega arith, (omega arith, tt)))))
small halt = (omega arith, (omega arith, (omega arith, (omega arith, (omega arith, tt)))))
small spawn = (omega arith, (omega arith, (omega arith, (omega arith, (omega arith, tt)))))
small (event_on i j k ls) =
    (omega arith, (omega arith, (omega arith, (omega arith, (omega arith, tt)))))
small (send i j) = (omega arith, (omega arith, (omega arith, (omega arith, (omega arith, tt)))))
small (make_function_and_store i j k) =
    (omega arith, (omega arith, (omega arith, (omega arith, (omega arith, tt)))))
small (load_native i) =
    (omega arith, (omega arith, (omega arith, (omega arith, (omega arith, tt)))))
small (make_event i j) =
    (omega arith, (omega arith, (omega arith, (omega arith, (omega arith, tt)))))
small return_event = (omega arith, (omega arith, (omega arith, (omega arith, (omega arith, tt)))))
small make_mutable = (omega arith, (omega arith, (omega arith, (omega arith, (omega arith, tt)))))
small (loc i j k) = (omega arith, (omega arith, (omega arith, (omega arith, (omega arith, tt)))))

AllWords-append : (vs ws : List ℕ) → AllWords vs → AllWords ws → AllWords (vs ++ ws)
AllWords-append [] ws h t = t
AllWords-append (v ∷ vs) ws (h, r) t = (h, AllWords-append vs ws r t)

pub AllWords-all_words : (xs : List Instruction) → AllWords (all_words xs)
unfolding all_words
AllWords-all_words [] = tt
AllWords-all_words (x ∷ xs) =
    AllWords-append (words_of x) (all_words xs) (small x) (AllWords-all_words xs)
