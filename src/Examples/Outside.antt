-- ===== src/Examples/Outside.antt =====
-- What leaves the machine: printed lists and numbers, a server's socket, a response, and the
-- libraries that a command line names.
use bonzai.Base.{
  ℕ, ◌+◌, ◌%◌, ◌^◌, ◌≡◌, refl, arith, none, some, true, Option, List, [], ◌∷◌, ◌++◌, map, length,
}
use bonzai.Word.{make_integer, make_ptr}
use bonzai.Word.Layout.{make_ptr_lem}
use bonzai.Vm.Memory.{deref, load}
use bonzai.Vm.{Module, ok}
use bonzai.Vm.TypeOf.{get_type-make_ptr, deref-make_ptr}
use bonzai.Print.{native_print, decimal, comma}
use bonzai.Print.Decimal.{read_decimal}
use bonzai.Print.Lists.{join, native_print-list, native_print_roundtrip}
use bonzai.Os.{Os}
use bonzai.Os.Sockets.{start_http_server, send_buffer, get_buffer}
use bonzai.Os.Sockets.Serve.{Serves, start_http_server_lem, rising-NewSockets}
use bonzai.Os.Sockets.Response.{IsString, Sends, send_buffer_lem}
use bonzai.Os.Sockets.Buffer.{Buffers, get_buffer_lem}
use bonzai.Start.{library_flag}
use bonzai.Examples.Machine.{env, machine, heap, text, a_stack}
use bonzai.Examples.Values.{lists, three_four, first-IsList}

abbrev no_float : ℕ → List ℕ
no_float v = []

native_print-list_example :
    native_print no_float 2 (make_ptr 64) lists
    ≡ ok (91 ∷ join comma (map (λ x. decimal (x % 2 ^ 32)) three_four) ++ 93 ∷ []) lists
native_print-list_example =
    native_print-list no_float 0 (make_ptr 64) three_four lists
      (λ e. omega (arith, make_ptr_lem 64 (omega arith))) first-IsList

native_print_roundtrip_example :
    (printed : List ℕ) × (native_print no_float 1 (make_integer 4294967295) lists
      ≡ ok printed lists)
    × (read_decimal printed ≡ 4294967295)
native_print_roundtrip_example = native_print_roundtrip no_float 0 4294967295 lists (omega arith)

-- descriptors count up
abbrev an_os : Os
an_os = record { number = λ cs c. 3 + length cs; text = λ cs c. none; test = λ cs c. true }

start_http_server_lem_example :
    Serves an_os [] lists (start_http_server an_os (make_integer 8080 ∷ []) 1 [] lists)
start_http_server_lem_example =
    start_http_server_lem an_os 8080 [] lists (rising-NewSockets an_os (λ cs c. refl))

abbrev with_text : Module
with_text = machine a_stack heap

text-IsString : IsString with_text (make_ptr 32) (104 ∷ 105 ∷ [])
unfolding deref load
text-IsString = record {
  object = text;
  here = deref-make_ptr heap 32 (omega arith);
  string = get_type-make_ptr heap 32 (omega arith);
  contents = refl;
}

send_buffer_lem_example :
    Sends an_os 5
      (104 ∷ 105 ∷ [])
      []
      with_text
      (send_buffer an_os (make_integer 5 ∷ make_ptr 32 ∷ []) 2 [] with_text)
send_buffer_lem_example =
    send_buffer_lem an_os 5 (make_ptr 32) (104 ∷ 105 ∷ []) [] with_text (omega arith) text-IsString

-- a system whose calls fail
abbrev failing_os : Os
failing_os = record an_os { number = λ cs c. 4294967295 }

get_buffer_lem_example :
    Buffers env failing_os (get_buffer env failing_os (make_integer 5 ∷ []) 1 [] lists)
get_buffer_lem_example = get_buffer_lem env failing_os (make_integer 5 ∷ []) 1 [] lists

-- "a" "-l" "b" "-l"
abbrev command_line : List (List ℕ)
command_line = (97 ∷ []) ∷ library_flag ∷ (98 ∷ []) ∷ library_flag ∷ []

abbrev handle : Option (List ℕ) → ℕ
handle none = 7
handle (some _) = 8
