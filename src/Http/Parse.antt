-- ===== src/Http/Parse.antt =====
-- src/http.c: messages from text. `str` is the block with the text and its NUL; a block is smaller
-- than 2 ^ 63 bytes, so the offsets into it do not wrap.
use websocket_c.Common.{
  ℕ, zero, suc, ◌+◌, ◌-◌, ◌%◌, ◌^◌, Bool, true, false, List, [], ◌∷◌, ◌++◌, drop, ltb, ◌==◌,
  if◌then◌else◌, Run, done, timeout, ◌>>=◌, load_bytes,
}
use websocket_c.CString.{text, strcspn, strncpy, atoi, c_string}
use websocket_c.Http.{
  HttpMessage, HttpResponse, HttpRequest, http_message_set_header, http_method_get_enum,
  insert_body,
}
use websocket_c.System.{System}

module _ (sys : System) where
  -- while (index < len), with the rounds allowed; the result is the message, the index after the
  -- loop, and whether no header failed.
  unfoldable pub header_loop :
      ℕ → HttpMessage sys → List ℕ → ℕ → ℕ → Run (HttpMessage sys × ℕ × Bool)
  header_loop zero msg str len index = timeout
  header_loop (suc fuel) msg str len index = elim (ltb index len) [
    | false ↦ done (msg, index, true)
    | true ↦ do
      line_len ← strcspn (text "\n") (drop index str)
      if line_len == 1 then done (msg, index + 2, true) else (do
        key_len ← strcspn (text ":") (drop index str)
        key ← load_bytes str index key_len
        let after_key = index + key_len + 2
        value_len ← strcspn (text "\r") (drop after_key str)
        value ← load_bytes str after_key value_len
        key_copy ← c_string (sys.str_dup key)
        value_copy ← c_string (sys.str_dup value)
        (set, ok) ← http_message_set_header sys msg key_copy value_copy
        elim ok [
          | false ↦ done (set, after_key, false)
          | true ↦ header_loop fuel set str len (after_key + value_len + 2)
        ])
  ]

  unfoldable pub http_message_from_str :
      HttpMessage sys → List ℕ → ℕ → ℕ → Run (HttpMessage sys × Bool)
  http_message_from_str msg str len offset = do
    (read, index, ok) ← header_loop (suc len) msg str len offset
    if ok
        then (do
          (body, whole) ← insert_body sys str (len - index) index read.body
          done (record read { body = body }, whole))
        else done (read, false)

  -- The result is the message and the index returned, 0 for a failure.
  unfoldable pub parse_response_start_line :
      HttpMessage sys → List ℕ → ℕ → Run (HttpMessage sys × ℕ)
  parse_response_start_line msg str len = if len == 0 then done (msg, 0) else (do
    word_len ← strcspn (text " ") str
    if ltb len word_len then done (msg, 0) else (do
      protocol ← load_bytes str 0 word_len
      let named = record msg { protocol = sys.str_dup protocol }
      let index = word_len + 1
      if ltb len index then done (named, 0) else (do
        code_len ← strcspn (text " ") (drop index str)
        if ltb len (index + code_len) then done (named, 0) else (do
          status_code ← strncpy 3 (drop index str)
          let coded = record named { status_code = atoi (status_code ++ 0 ∷ []) % 2 ^ 16 }
          let index' = index + code_len + 1
          if ltb len index' then done (coded, 0) else (do
            text_len ← strcspn (text "\r") (drop index' str)
            if ltb len (index' + text_len) then done (coded, 0) else (do
              status_text ← load_bytes str index' text_len
              done (record coded { status_text = sys.str_dup status_text }, index' + text_len)))))))

  unfoldable pub http_response_from_str :
      HttpResponse sys → List ℕ → ℕ → Run (HttpResponse sys × Bool)
  http_response_from_str r str len = do
    line_len ← strcspn (text "\n") str
    (started, index) ← parse_response_start_line r.message str line_len
    if index == 0 then done (record { message = started }, false) else (do
      (message, ok) ← http_message_from_str started str len (line_len + 1)
      done (record { message = message }, ok))

  unfoldable pub parse_request_start_line : HttpMessage sys → List ℕ → ℕ → Run (HttpMessage sys × ℕ)
  parse_request_start_line msg str len = do
    word_len ← strcspn (text " ") str
    if ltb len word_len then done (msg, 0) else (do
      word ← load_bytes str 0 word_len
      method ← c_string (sys.str_dup word)
      code ← http_method_get_enum (method ++ 0 ∷ [])
      let named = record msg { method = code }
      let index = word_len + 1
      path_len ← strcspn (text " ") (drop index str)
      if ltb len (index + path_len) then done (named, 0) else (do
        path ← load_bytes str index path_len
        let placed = record named { path = sys.str_dup path }
        let index' = index + path_len + 1
        protocol_len ← strcspn (text "\r") (drop index' str)
        if ltb len (index' + protocol_len) then done (placed, 0) else (do
          protocol ← load_bytes str index' protocol_len
          done (record placed { protocol = sys.str_dup protocol }, index' + protocol_len + 2))))

  unfoldable pub http_request_from_str : HttpRequest sys → List ℕ → ℕ → Run (HttpRequest sys × Bool)
  http_request_from_str r str len = do
    line_len ← strcspn (text "\n") str
    (started, index) ← parse_request_start_line r.message str line_len
    if index == 0 then done (record { message = started }, false) else (do
      (message, ok) ← http_message_from_str started str len (line_len + 1)
      done (record { message = message }, ok))
