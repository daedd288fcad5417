-- ===== src/Os/Sockets.antt =====
-- The natives of bindings/src/http.c.

pub mod Serve
pub mod Response
pub mod Buffer
use bonzai.Base.{
  ℕ, suc, ◌+◌, ◌%◌, ◌^◌, ◌==◌, Option, none, some, List, [], ◌∷◌, ◌++◌, length, if◌then◌else◌,
}
use bonzai.Word.{make_integer, make_ptr, get_int}
use bonzai.Vm.{
  type_integer, type_string, HeapValue, assert, fail, pure, or_crash, wrong_argc,
  socket_creation_failed, bind_failed, listen_failed, accept_failed, modify, update,
}
use bonzai.Vm.Memory.{Env, load, string_of}
use bonzai.Vm.Access.{assert_type, get_string}
use bonzai.Alloc.{allocate, make_string}
use bonzai.Maths.{arg}
use bonzai.Print.{digits}
use bonzai.Os.{
  Call, Os, Io, lift, ask, tell, negative, ◌>>=◌, ◌>>◌, socket, bind, listen, accept, close, recv,
  send,
}

-- how these natives begin: one argument, an integer
pub integer_argument : List ℕ → ℕ → Io ℕ
integer_argument args argc = do
  lift (assert (argc == 1) wrong_argc)
  a ← lift (arg args 0)
  lift (assert_type a type_integer)
  lift (pure (get_int a))

-- `htons` takes the port modulo 2 ^ 16.
pub start_http_server : Os → List ℕ → ℕ → Io ℕ
unfolding integer_argument
start_http_server os args argc = do
  port ← integer_argument args argc
  server_socket ← ask os.number socket
  if negative server_socket then lift (fail socket_creation_failed) else lift (pure tt)
  bound ← ask os.number (bind server_socket (port % 2 ^ 16))
  if negative bound then (tell (close server_socket) >> lift (fail bind_failed)) else lift (pure tt)
  listening ← ask os.number (listen server_socket)
  if negative listening
      then (tell (close server_socket) >> lift (fail listen_failed))
      else lift (pure tt)
  lift (pure (make_integer server_socket))

pub accept_request : Os → List ℕ → ℕ → Io ℕ
unfolding integer_argument
accept_request os args argc = do
  server_socket ← integer_argument args argc
  client_socket ← ask os.number (accept server_socket)
  if negative client_socket
      then (tell (close server_socket) >> lift (fail accept_failed))
      else lift (pure tt)
  lift (pure (make_integer client_socket))

-- `close_client` and `close_server`
pub close_client : List ℕ → ℕ → Io ℕ
unfolding integer_argument
close_client args argc = do
  client_socket ← integer_argument args argc
  tell (close client_socket)
  lift (pure (make_integer 0))

abbrev pub buffer_size : ℕ
buffer_size = 1024

-- What `recv` received, and the NUL behind it, go where `as_string` of the new object points: where
-- nobody has set it, that is undefined.
received : HeapValue → ℕ → Io ℕ
received o p = do buffer ← lift (or_crash (string_of o.payload)); lift (pure (make_ptr p))

pub with_buffer : Env → Os → ℕ → ℕ → Io ℕ
unfolding received
with_buffer env os client_socket p = do
  o ← lift (λ m. or_crash (load m.heap p) m)
  lift (modify (λ m. record m { heap = update m.heap p (some (record o { size = buffer_size })) }))
  bytes_read ← ask os.number (recv client_socket)
  if negative bytes_read then lift (make_string env []) else received o p

pub get_buffer : Env → Os → List ℕ → ℕ → Io ℕ
unfolding integer_argument with_buffer
get_buffer env os args argc = do
  client_socket ← integer_argument args argc
  p ← lift (allocate env type_string)
  with_buffer env os client_socket p

-- "HTTP/1.1 200 OK\r\n"
abbrev pub status_line : List ℕ
status_line =
    72 ∷ 84 ∷ 84 ∷ 80 ∷ 47 ∷ 49 ∷ 46 ∷ 49 ∷ 32 ∷ 50 ∷ 48 ∷ 48 ∷ 32 ∷ 79 ∷ 75 ∷ 13 ∷ 10 ∷ []

-- "Content-Type: text/plain\r\n"
abbrev pub content_type : List ℕ
content_type =
    67 ∷ 111 ∷ 110 ∷ 116 ∷ 101 ∷ 110 ∷ 116 ∷ 45 ∷ 84 ∷ 121 ∷ 112 ∷ 101 ∷ 58 ∷ 32 ∷ 116 ∷ 101 ∷ 120
    ∷ 116 ∷ 47 ∷ 112 ∷ 108 ∷ 97 ∷ 105 ∷ 110 ∷ 13 ∷ 10 ∷ []

-- "Content-Length: "
abbrev pub content_length : List ℕ
content_length =
    67 ∷ 111 ∷ 110 ∷ 116 ∷ 101 ∷ 110 ∷ 116 ∷ 45 ∷ 76 ∷ 101 ∷ 110 ∷ 103 ∷ 116 ∷ 104 ∷ 58 ∷ 32 ∷ []

-- "\r\n\r\n"
abbrev pub end_of_head : List ℕ
end_of_head = 13 ∷ 10 ∷ 13 ∷ 10 ∷ []

-- what `sprintf` writes; a `size_t` has 20 digits at most
pub response : List ℕ → List ℕ
response buf =
    status_line
    ++ (content_type ++ (content_length ++ (digits 20 (length buf) ++ (end_of_head ++ buf))))

pub send_buffer : Os → List ℕ → ℕ → Io ℕ
unfolding response
send_buffer os args argc = do
  lift (assert (argc == 2) wrong_argc)
  a ← lift (arg args 0)
  lift (assert_type a type_integer)
  b ← lift (arg args 1)
  lift (assert_type b type_string)
  buf ← lift (get_string b)
  bytes_sent ← ask os.number (send (get_int a) (response buf))
  lift (pure (make_integer (if negative bytes_sent then 0 else bytes_sent)))
