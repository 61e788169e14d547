-- ===== src/Tests/Handshakes.antt =====
-- The opening handshake on a concrete connection.
use websocket_c.Common.{
  ℕ, ◌+◌, ◌%◌, ◌≡◌, ◌↔◌, refl, true, false, Option, none, some, List, [], ◌∷◌, ◌++◌, length, ltb,
  ltb→lt, ◌^◌, replicate, take, leb, if◌then◌else◌, Run, done, fault, timeout, ◌>>=◌, arith, load,
  load_bytes, store_bytes,
}
use websocket_c.Common.Runs.{Ensures}
use websocket_c.Client.{Internal, Client, ws_client_free}
use websocket_c.Client.ConnectFree.{connect-ws_client_free}
use websocket_c.Client.Accepted.{ws_client_connect-answered}
use websocket_c.Client.Response.{response_text}
use websocket_c.Client.Answered.{verdict}
use websocket_c.Client.Connect.{Unset, fresh_internal, abandon, ws_client_connect}
use websocket_c.Client.ConnectHandles.{Left, ws_client_connect-handles}
use websocket_c.Client.Handshake.{set_key_headers, set_handshake_headers, initial_handshake}
use websocket_c.CString.{text, strncmp_equal, decimal_digits}
use websocket_c.CString.Scan.{Clear, is_clear-Clear}
use websocket_c.Encode.{
  ws_key_uuid, response_noonce, rand_loop, populate_rand, copy_encoded, base64_encode, check_accept,
  check_response_noonce,
}
use websocket_c.Encode.Accept.{check_response_noonce-prefix, check_response_noonce-plain}
use websocket_c.Http.{
  http_message_init, http_request_init, http_message_get_header, http_message_set_header,
  http_request_set_header, normalized_cstr, http_method_get_string,
}
use websocket_c.Http.Lines.{Line, AllLines, more_lines, no_lines}
use websocket_c.Http.Print.{
  append_headers, append_body, http_message_to_str, write_request, http_request_to_str,
}
use websocket_c.Http.StatusLine.{Status, IsStatus, code}
use websocket_c.Net.{net_write}
use websocket_c.Net.Connect.{connect_loop, start_tls, net_connect}
use websocket_c.Reader.{ws_reader_create}
use websocket_c.System.{System}
use websocket_c.Tests.Networks.{no_info}
use websocket_c.Tests.Plain.{
  Bytes, waiting_bytes, plain_system, plain-HasHandles, plain-HasMemory, plain-HasTextMemory,
  plain-HasEncoding, plain-IsStream, plain_ssl_write-all,
}
use websocket_c.Tests.Requests.{blank}

abbrev pub unset : Unset plain_system
unset = record {
  noonce = replicate 16 7;
  req = record { message = blank };
  response = record { byte_data = []; len = 0; cap = 0 };
  resp = record { message = blank };
}

abbrev pub client : Client plain_system
client = record {
  internal = none;
  path = none;
  host = some (text "h");
  port = 80;
  version = 13;
  use_tls = false;
}

-- The server's response: its answer is only the start of what is expected.
abbrev switching : Status
switching = record {
  protocol = text "HTTP/1.1";
  hundreds = 1;
  tens = 0;
  units = 1;
  status_text = text "Switching Protocols";
}

abbrev lines : List Line
lines = (text "Sec-WebSocket-Accept", text "A") ∷ []

abbrev world : Bytes
world = waiting_bytes (response_text switching lines [])

abbrev w1 : Bytes
w1 = (net_connect plain_system none world (some (text "h")) (some (text "80")) no_info).0

abbrev request_of : Run (Bytes × Client plain_system × Option (List ℕ)) → List ℕ
request_of (done (w, c, some req)) = req
request_of (done (w, c, none)) = []
request_of fault = []
request_of timeout = []

abbrev joined : Client plain_system
joined = record client {
  internal = some (fresh_internal plain_system (record { socket = 6; ssl = some 7 }) unset.noonce);
}

abbrev inner : Internal plain_system
inner =
    record (fresh_internal plain_system (record { socket = 6; ssl = some 7 })
      (replicate 16 ((300 + length world.waiting) % 256))) { loop_flag = false }

abbrev keyed : Client plain_system
keyed = record client { internal = some inner }

abbrev req : List ℕ
req = request_of (initial_handshake plain_system w1 joined unset.req)

-- The request is written.
handshake_starts : initial_handshake plain_system w1 joined unset.req ≡ done (w1, keyed, some req)
unfolding initial_handshake set_handshake_headers set_key_headers http_message_init
    http_request_init http_message_get_header http_message_set_header http_request_set_header
    normalized_cstr rand_loop populate_rand copy_encoded base64_encode load load_bytes store_bytes
    append_headers append_body http_message_to_str write_request http_request_to_str
    http_method_get_string decimal_digits connect_loop start_tls net_connect
handshake_starts = refl

switching-IsStatus : IsStatus switching
switching-IsStatus = record {
  protocol_space = is_clear-Clear (text " ") (text "HTTP/1.1") refl;
  protocol_feed = is_clear-Clear (text "\n") (text "HTTP/1.1") refl;
  hundreds_digit = omega arith;
  tens_digit = omega arith;
  units_digit = omega arith;
  text_return = is_clear-Clear (text "\r") (text "Switching Protocols") refl;
  text_feed = is_clear-Clear (text "\n") (text "Switching Protocols") refl;
}

lines-AllLines : AllLines lines
lines-AllLines =
    more_lines
      (record {
        key_ascii = refl;
        key_colon = is_clear-Clear (text ":") (text "Sec-WebSocket-Accept") refl;
        key_feed = is_clear-Clear (text "\n") (text "Sec-WebSocket-Accept") refl;
        value_nul = refl;
        value_return = is_clear-Clear (text "\r") (text "A") refl;
        value_feed = is_clear-Clear (text "\n") (text "A") refl;
      })
      no_lines

abbrev sent_world : Bytes
sent_world = record w1 { sent = req }

net_connects :
    net_connect plain_system none world (some (text "h")) (plain_system.to_str 80) no_info
    ≡ (w1, record { socket = 6; ssl = some 7 }, true)
unfolding net_connect connect_loop start_tls decimal_digits
net_connects = refl

request-Clear : Clear [] req
unfolding initial_handshake set_handshake_headers set_key_headers http_message_init
    http_request_init http_message_get_header http_message_set_header http_request_set_header
    normalized_cstr rand_loop populate_rand copy_encoded base64_encode load load_bytes store_bytes
    append_headers append_body http_message_to_str write_request http_request_to_str
    http_method_get_string decimal_digits connect_loop start_tls net_connect
request-Clear = is_clear-Clear [] req refl

request_is_int : ltb (length req) (2 ^ 31) ≡ true
unfolding initial_handshake set_handshake_headers set_key_headers http_message_init
    http_request_init http_message_get_header http_message_set_header http_request_set_header
    normalized_cstr rand_loop populate_rand copy_encoded base64_encode load load_bytes store_bytes
    append_headers append_body http_message_to_str write_request http_request_to_str
    http_method_get_string decimal_digits connect_loop start_tls net_connect
request_is_int = refl

request_sent :
    net_write plain_system w1 (some inner.info) (some req) ≡ (sent_world, some (length req))
unfolding net_write connect_loop start_tls net_connect
request_sent = plain_ssl_write-all w1 7 req (ltb→lt (length req) (2 ^ 31) request_is_int)

still_waiting : sent_world.waiting ≡ response_text switching lines [] ∷ []
unfolding connect_loop start_tls net_connect
still_waiting = refl

answer_accepted :
    check_response_noonce plain_system (some inner.noonce) 16 (some (text "A")) (length (text "A"))
    ≡ done true
unfolding check_response_noonce check_accept base64_encode copy_encoded strncmp_equal load_bytes
    store_bytes
answer_accepted = refl

ws_client_connect-answered_example :
    (w' : Bytes) × (ws_client_connect plain_system none 8192 world client unset ≡ (
      if leb 300 (code switching)
      then abandon plain_system w' keyed
      else verdict plain_system w' keyed true))
ws_client_connect-answered_example =
    ws_client_connect-answered plain_system plain-HasMemory plain-HasTextMemory (λ w. w.waiting)
      plain-IsStream none 8192 world w1 w1 sent_world client keyed unset (text "h") req
      (record { socket = 6; ssl = some 7 }) inner (ws_reader_create plain_system) (length req)
      switching lines [] (text "A") true [] refl net_connects handshake_starts refl refl
      request-Clear request_sent still_waiting (omega arith) (omega arith) switching-IsStatus
      lines-AllLines refl answer_accepted

ws_client_connect-handles_example :
    Ensures
      (ws_client_connect plain_system none 8192 world client unset)
      (Left plain_system (λ w. w.opened) plain-HasHandles world.opened client)
ws_client_connect-handles_example =
    ws_client_connect-handles plain_system (λ w. w.opened) plain-HasHandles none 8192 world client
      unset

connect-ws_client_free_example :
    Ensures
      (do
        c ← ws_client_connect plain_system none 8192 world client unset
        done (if c.ok then (ws_client_free plain_system c.world c.client).0 else c.world))
      (λ w'. w'.opened ≡ world.opened)
connect-ws_client_free_example =
    connect-ws_client_free plain_system (λ w. w.opened) plain-HasHandles none 8192 world client
      unset

abbrev digest : List ℕ
digest = take 20 (plain_system.bio_base64 (1 ∷ 2 ∷ []) ++ ws_key_uuid)

check_response_noonce-prefix_example :
    (check_response_noonce plain_system (some (1 ∷ 2 ∷ [])) 2 (some (text "AA")) 2 ≡ done true)
    ↔ ((rest : List ℕ) × (plain_system.bio_base64 digest ≡ text "AA" ++ rest))
check_response_noonce-prefix_example =
    check_response_noonce-prefix plain_system plain-HasMemory plain-HasEncoding (1 ∷ 2 ∷ [])
      (text "AA") digest refl (omega arith) (omega arith) (omega arith) refl

abbrev no_ssl_system : System
no_ssl_system = record plain_system { use_ssl = false }

check_response_noonce-plain_example :
    (check_response_noonce no_ssl_system (some (1 ∷ [])) 1 (some (text "mj")) 2 ≡ done true)
    ↔ ((rest : List ℕ) × (text "mj" ≡ response_noonce ++ rest))
check_response_noonce-plain_example =
    check_response_noonce-plain no_ssl_system (1 ∷ []) (text "mj") refl (omega arith) (omega arith)
