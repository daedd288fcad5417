-- ===== src/Deserialize/Format.antt =====
-- The constants of the file that the compiler writes (`encodeConstant` of
-- src/Language/Bonzai/Backend/Bytecode/Serialize.hs), and the reads of its parts.
use bonzai.Base.{
  ℕ, zero, suc, ◌/◌, ◌%◌, ◌^◌, ◌<◌, ◌≡◌, refl, ◌∙◌, ap, sym, some, List, [], ◌∷◌, ◌++◌, arith,
  length, append_assoc,
}
use native.Mathlib.Nat.{pow-suc}
use bonzai.Vm.{Module, ok}
use bonzai.Deserialize.{number, take_bytes, read_number, read_words}

-- `putInt32le` and `putDoublele`: so many bytes of a number, the lowest first
pub bytes : ℕ → ℕ → List ℕ
bytes zero n = []
bytes (suc k) n = n % 256 ∷ bytes k (n / 256)

-- The literals; a float is its 64 bits, a text its UTF-8 bytes, a character a text of length 1.
pub data Literal : Type 0 where
  lit_int : ℕ → Literal
  lit_float : ℕ → Literal
  lit_string : List ℕ → Literal

unfoldable pub encode_constant : Literal → List ℕ
encode_constant (lit_int n) = 0 ∷ bytes 4 n
encode_constant (lit_float w) = 1 ∷ bytes 8 w
encode_constant (lit_string s) = 2 ∷ bytes 4 (length s) ++ s

unfoldable pub encode_constants : List Literal → List ℕ
encode_constants [] = []
encode_constants (c ∷ cs) = encode_constant c ++ encode_constants cs

unfoldable pub encode_words : List ℕ → List ℕ
encode_words [] = []
encode_words (w ∷ ws) = bytes 4 w ++ encode_words ws

pub bytes-word : (n : ℕ) → bytes 4 (n % 2 ^ 32) ≡ bytes 4 n
unfolding bytes
bytes-word n = same (omega arith) (omega arith) (omega arith) (omega arith)
  where
    same :
        {a b c d a' b' c' d' : ℕ}
        → a ≡ a'
        → b ≡ b'
        → c ≡ c'
        → d ≡ d'
        → a ∷ b ∷ c ∷ d ∷ [] ≡ a' ∷ b' ∷ c' ∷ d' ∷ []
    same p q r s = rw (p, q, r, s) refl

length-bytes : (k n : ℕ) → length (bytes k n) ≡ k
unfolding bytes
length-bytes zero n = refl
length-bytes (suc k) n = ap suc (length-bytes k (n / 256))

number-bytes : (k n : ℕ) → n < 256 ^ k → number (bytes k n) ≡ n
unfolding bytes
number-bytes zero n h = omega arith
number-bytes (suc k) n h = ground (arith, pow-suc 256 k, number-bytes k (n / 256))

pub take_bytes-append : (xs rest : List ℕ) → take_bytes (length xs) (xs ++ rest) ≡ some (xs, rest)
unfolding take_bytes
take_bytes-append [] rest = refl
take_bytes-append (x ∷ xs) rest = rw (take_bytes-append xs rest) refl

pub read_number-bytes :
    (k n : ℕ) (rest : List ℕ) (m : Module)
    → n < 256 ^ k
    → read_number k (bytes k n ++ rest) m ≡ ok (n, rest) m
unfolding read_number
read_number-bytes k n rest m h =
    let e : take_bytes k (bytes k n ++ rest) ≡ some (bytes k n, rest) =
      ap (λ j. take_bytes j (bytes k n ++ rest)) (sym (length-bytes k n))
      ∙ take_bytes-append (bytes k n) rest in
    rw (e, number-bytes k n h) refl

-- all words are 32 bits
abbrev pub AllWords : List ℕ → Type 0
AllWords [] = Unit
AllWords (w ∷ ws) = (w < 2 ^ 32) × AllWords ws

pub read_words-encode_words :
    (ws rest : List ℕ) (m : Module)
    → AllWords ws
    → read_words (length ws) (encode_words ws ++ rest) m ≡ ok (ws, rest) m
unfolding read_words encode_words
read_words-encode_words [] rest m h = refl
read_words-encode_words (w ∷ ws) rest m h =
    rw
      (
        append_assoc (bytes 4 w) (encode_words ws) rest,
        read_number-bytes 4 w (encode_words ws ++ rest) m h.0,
        read_words-encode_words ws rest m h.1,
      )
      refl

pub read_number-byte :
    (b : ℕ) (rest : List ℕ) (m : Module) → read_number 1 (b ∷ rest) m ≡ ok (b, rest) m
unfolding read_number take_bytes
read_number-byte b rest m = ap (λ n. ok (n, rest) m) (omega arith)
