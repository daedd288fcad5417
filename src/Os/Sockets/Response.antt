-- ===== src/Os/Sockets/Response.antt =====
-- The response that `send_buffer` of bindings/src/http.c builds, its length, and what a reader makes
-- of it.
use bonzai.Base.{
  ℕ, ◌+◌, ◌%◌, ◌^◌, ◌<◌, ◌≡◌, refl, ap, ◌∙◌, Option, none, some, List, [], ◌∷◌, ◌++◌, ◌==◌,
  if◌then◌else◌, length, length-append, arith,
}
use bonzai.Print.{digits}
use bonzai.Print.Decimal.{read_digits, read_digits-digits}
use bonzai.Print.Reading.{read_number, digits-AllDigits, read_number-digits, length-digits}
use bonzai.Word.{make_integer}
use bonzai.Word.Layout.{get_int-make_integer}
use bonzai.Vm.{Module, HeapValue, Run, ok, type_string}
use bonzai.Vm.Memory.{deref, string_of}
use bonzai.Vm.Access.{type_at-ok, object_at-ok, assert_type, get_string}
use bonzai.Vm.TypeOf.{get_type, get_type-make_integer}
use bonzai.Maths.{arg}
use bonzai.Os.{Call, Os, negative, send}
use bonzai.Os.Sockets.{
  send_buffer, status_line, content_type, content_length, end_of_head, response,
}

-- what follows a prefix
pub strip : List ℕ → List ℕ → Option (List ℕ)
strip [] xs = some xs
strip (p ∷ ps) [] = none
strip (p ∷ ps) (x ∷ xs) = if p == x then strip ps xs else none

then_strip : List ℕ → Option (List ℕ) → Option (List ℕ)
then_strip p none = none
then_strip p (some xs) = strip p xs

take_body : ℕ × List ℕ → Option (ℕ × List ℕ)
unfolding strip
take_body (n, rest) = elim (strip end_of_head rest) [ none ↦ none | some body ↦ some (n, body) ]

number_and_body : Option (List ℕ) → Option (ℕ × List ℕ)
unfolding take_body
number_and_body none = none
number_and_body (some xs) = take_body (read_number 0 xs)

-- A reader of the response: the value of `Content-Length`, and the body.
pub read_response : List ℕ → Option (ℕ × List ℕ)
unfolding strip then_strip number_and_body
read_response xs =
    number_and_body (then_strip content_length (then_strip content_type (strip status_line xs)))

pub response_lem :
    (buf : List ℕ)
    → length buf < 10 ^ 20
    → (read_response (response buf) ≡ some (length buf, buf))
      × (length (response buf) < length buf + 100)
unfolding read_response response then_strip number_and_body
response_lem buf h = (ap take_body read ∙ ap (λ n. some (n, buf)) number, short)
  where
    read :
        read_number 0 (digits 20 (length buf) ++ (end_of_head ++ buf))
        ≡ (read_digits 0 (digits 20 (length buf)), end_of_head ++ buf)
    read =
        read_number-digits 0 (digits 20 (length buf)) 13 (10 ∷ 13 ∷ 10 ∷ buf)
          (digits-AllDigits 20 (length buf)) refl

    number : read_digits 0 (digits 20 (length buf)) ≡ length buf
    number = read_digits-digits 20 (length buf) h

    short : length (response buf) < length buf + 100
    short = omega (
      arith,
      length-digits 20 (length buf),
      length-append (digits 20 (length buf)) (13 ∷ 10 ∷ 13 ∷ 10 ∷ buf),
    )

-- a word that leads to a string of these bytes
pub record IsString (m : Module) (v : ℕ) (buf : List ℕ) : Type 0 where
  pub object : HeapValue
  pub here : deref m.heap v ≡ some object
  pub string : get_type m.heap v ≡ some type_string
  pub contents : string_of object.payload ≡ some buf

-- A response was sent for `buf`, and nothing else was done.
pub record Sends (os : Os) (fd : ℕ) (buf : List ℕ) (cs : List Call) (m : Module)
    (r : List Call × Run ℕ) : Type 0 where
  pub bytes : List ℕ
  pub calls : r.0 ≡ send fd bytes ∷ cs
  pub answer :
      r.1
      ≡ ok
          (make_integer
            (if negative (os.number cs (send fd bytes)) then 0 else os.number cs (send fd bytes)))
          m
  pub readable : read_response bytes ≡ some (length buf, buf)
  pub fits : length bytes < length buf + 100

-- For a socket and a string of fewer than 10 ^ 20 bytes, `send_buffer` makes one call, which
-- sends a response shorter than the buffer it was written to; a reader takes the string back from
-- it, with its length as `Content-Length`; the answer is what the call said was sent, or 0 if it
-- failed.
pub send_buffer_lem :
    (os : Os) (fd v : ℕ) (buf : List ℕ) (cs : List Call) (m : Module)
    → length buf < 10 ^ 20
    → IsString m v buf
    → Sends os (fd % 2 ^ 32) buf cs m (send_buffer os (make_integer fd ∷ v ∷ []) 2 cs m)
unfolding send_buffer arg assert_type get_string
send_buffer_lem os fd v buf cs m h p =
    rw
      (
        type_at-ok (make_integer fd) m (get_type-make_integer m.heap fd),
        get_int-make_integer fd,
        type_at-ok v m p.string,
        object_at-ok v m p.here,
        p.contents,
      )
      (record {
        bytes = response buf;
        calls = refl;
        answer = refl;
        readable = (response_lem buf h).0;
        fits = (response_lem buf h).1;
      })
