-- ===== src/Http/Print.antt =====
-- src/http.c: messages to text. The result `none` is a null pointer.
use websocket_c.Common.{
  ℕ, zero, suc, ◌+◌, Bool, true, false, Option, none, some, List, [], ◌∷◌, ◌++◌, length, take,
  replicate, ltb, if◌then◌else◌, Run, done, fault, ◌>>=◌, load,
}
use websocket_c.CString.{text, decimal, c_string}
use websocket_c.Http.{
  HttpMethod, invalid_method, get, post, put, delete, options, HttpMessage, HttpResponse,
  HttpRequest, http_method_get_string, http_request_set_header,
}
use websocket_c.System.{System}

-- method == HTTP_INVALID_METHOD
abbrev pub is_invalid : HttpMethod → Bool
is_invalid invalid_method = true
is_invalid get = false
is_invalid post = false
is_invalid put = false
is_invalid delete = false
is_invalid options = false

-- snprintf(buf, 3, "%d", n) into 3 bytes of 0
abbrev pub status_code_bytes : ℕ → List ℕ
status_code_bytes n = let digits = take 2 (decimal n) in take 3 (digits ++ replicate 3 0)

module _ (sys : System) where
  -- result->append(result, s, n)
  abbrev pub append : sys.builders.Builder → List ℕ → sys.builders.Builder
  append result s = sys.builders.append result s

  -- The loop over the entries of the headers.
  unfoldable pub append_headers :
      List (List ℕ × Option (List ℕ)) → sys.builders.Builder → Run (sys.builders.Builder)
  append_headers [] result = done result
  append_headers (entry ∷ entries) result = do
    value ← c_string entry.1
    append_headers entries
        (append (append (append (append result entry.0) (text ": ")) value) (text "\r\n"))

  -- for (size_t i = 0; i < msg->body.len; ++i), with the rounds left
  unfoldable pub append_body : List ℕ → ℕ → ℕ → sys.builders.Builder → Run (sys.builders.Builder)
  append_body bytes zero i result = done result
  append_body bytes (suc left) i result = do
    b ← load bytes i
    append_body bytes left (i + 1) (append result (b ∷ []))

  -- It always returns true.
  unfoldable pub http_message_to_str :
      HttpMessage sys → sys.builders.Builder → Run (sys.builders.Builder)
  http_message_to_str msg result = elim msg.headers [
    | none ↦ fault
    | some map ↦ do
      listed ← append_headers (sys.headers.entries map) result
      let ended = append listed (text "\r\n")
      if ltb 0 msg.body.len
          then (do
            filled ← append_body msg.body.byte_data msg.body.len 0 ended
            done (append filled (text "\r\n")))
          else done ended
  ]

  unfoldable pub http_response_to_str : HttpResponse sys → Run (Option (List ℕ))
  http_response_to_str r = elim (sys.builders.new 20) [
    | none ↦ done none
    | some result ↦ do
      protocol ← c_string r.message.protocol
      let coded =
          append
            (append (append (append result protocol) (text " "))
              (status_code_bytes r.message.status_code))
            (text " ")
      status_text ← c_string r.message.status_text
      written ← http_message_to_str r.message (append (append coded status_text) (text "\r\n"))
      done (sys.builders.copy written)
  ]

  -- What is written for a request with its method, path, protocol and host. The result is the
  -- request, which has the header "Host" then, and the text; that the header is not set is only
  -- reported.
  unfoldable pub write_request :
      HttpRequest sys
      → List ℕ
      → List ℕ
      → List ℕ
      → sys.builders.Builder
      → Run (HttpRequest sys × Option (List ℕ))
  write_request r path protocol host result = do
    let line =
        append
          (append
            (append (append (append result (http_method_get_string r.message.method)) (text " "))
              path)
            (text " "))
          protocol
    let address = host ++ (text ":" ++ decimal r.message.port)
    elim (sys.malloc (length address + 2)) [
      | none ↦ fault
      | some block ↦ do
        (hosted, ok) ← http_request_set_header sys r (text "Host") address
        written ← http_message_to_str hosted.message (append line (text "\r\n"))
        done (hosted, sys.builders.copy written)
    ]

  unfoldable pub http_request_to_str : HttpRequest sys → Run (HttpRequest sys × Option (List ℕ))
  http_request_to_str r =
      if is_invalid r.message.method then done (r, none) else elim r.message.path [
        | none ↦ done (r, none)
        | some path ↦ elim r.message.protocol [
          | none ↦ done (r, none)
          | some protocol ↦ elim r.message.host [
            | none ↦ done (r, none)
            | some host ↦ elim (sys.builders.new 20) [
              | none ↦ done (r, none)
              | some result ↦ write_request r path protocol host result
            ]
          ]
        ]
      ]
