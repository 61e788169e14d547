-- ===== src/Client/Response.antt =====
-- What the client reads from a response of the server.
use websocket_c.Common.{
  ℕ, ◌+◌, ◌^◌, ◌<◌, ◌≡◌, refl, sym, ap, ◌∙◌, Bool, true, none, some, List, [], ◌∷◌, ◌++◌,
  append_assoc, append-nil, length, leb, if◌then◌else◌, Run, done, load_bytes, load_bytes-append,
  store_bytes, store, arith,
}
use websocket_c.Client.{Internal, Client}
use websocket_c.Client.Connect.{Connection, abandon, check_accept_header, read_response}
use websocket_c.CString.{text}
use websocket_c.Cstd.{ByteArray}
use websocket_c.Encode.{check_response_noonce}
use websocket_c.Encode.Accept.{fills_block}
use websocket_c.Http.{HttpResponse, http_response_init}
use websocket_c.Http.Parse.{http_response_from_str}
use websocket_c.System.{System, HasMemory, HasTextMemory}
use websocket_c.Client.Answered.{response_init-empty, check_accept_header-found, verdict}
use websocket_c.Http.HeaderLoop.{last_value}
use websocket_c.Http.Lines.{Line, head_text, AllLines, head_text-append, length-head_text}
use websocket_c.Http.ResponseText.{http_response_from_str-text}
use websocket_c.Http.StatusLine.{
  Status, IsStatus, code, status_line, status_line-append, length-status_line,
}

-- A response of the server: a status line, header lines, the empty line and a body.
abbrev pub response_text : Status → List Line → List ℕ → List ℕ
response_text s lines payload = status_line s (head_text lines payload)

response_text-nul :
    (s : Status) (lines : List Line) (payload : List ℕ)
    → response_text s lines payload ++ 0 ∷ [] ≡ status_line s (head_text lines (payload ++ 0 ∷ []))
response_text-nul s lines payload =
    let line = status_line s [] in
    let head = head_text lines [] in
    ap (◌++ 0 ∷ []) (status_line-append s (head_text lines payload))
    ∙ append_assoc line (head_text lines payload) (0 ∷ [])
    ∙ ap (line ++◌) (
        ap (◌++ 0 ∷ []) (head_text-append lines payload)
        ∙ append_assoc head payload (0 ∷ [])
        ∙ sym (head_text-append lines (payload ++ 0 ∷ [])))
    ∙ sym (status_line-append s (head_text lines (payload ++ 0 ∷ [])))

module _ (sys : System) (mem : HasMemory sys) (texts : HasTextMemory sys) where
  read_response-steps :
      (w : sys.World) (client : Client sys) (resp fresh parsed : HttpResponse sys)
      (response : ByteArray) {block bytes copied cstr : List ℕ}
      → http_response_init sys resp ≡ (fresh, true)
      → sys.malloc (response.len + 1) ≡ some block
      → load_bytes response.byte_data 0 response.len ≡ done bytes
      → store_bytes block 0 bytes ≡ done copied
      → store copied response.len 0 ≡ done cstr
      → http_response_from_str sys fresh cstr response.len ≡ done (parsed, true)
      → read_response sys w client resp response ≡ (
          if leb 300 parsed.message.status_code
          then abandon sys w client
          else check_accept_header sys w client parsed)
  unfolding read_response
  read_response-steps w client resp fresh parsed response i m l c z f =
      simp (read_response, i, m, l, c, z, f) refl

  pub read_response-answered :
      (w : sys.World) (client : Client sys) (inner : Internal sys) (resp : HttpResponse sys)
      (response : ByteArray) (s : Status) (lines : List Line) (payload answer : List ℕ)
      (accepted : Bool)
      → client.internal ≡ some inner
      → response.byte_data ≡ response_text s lines payload
      → response.len ≡ length (response_text s lines payload)
      → response.len < 2 ^ 62
      → IsStatus s
      → AllLines lines
      → last_value sys texts lines (text "sec-websocket-accept") none ≡ some (some answer)
      → check_response_noonce sys (some inner.noonce) 16 (some answer) (length answer)
        ≡ done accepted
      → read_response sys w client resp response
        ≡ (if leb 300 (code s) then abandon sys w client else verdict sys w client accepted)
  read_response-answered w client inner resp response s lines payload answer accepted e held size
        small h all found checks =
      let str = response_text s lines payload in
      let (fresh, map, made, table, none_yet, fits) = response_init-empty sys mem texts resp in
      let (block, granted) = mem.malloc_grants (response.len + 1) (omega arith) in
      let (copied, first, second) =
        fills_block block str
          (omega (arith, mem.malloc_size (response.len + 1) block granted, size)) in
      let (map', body, ran, values, _) =
        http_response_from_str-text sys mem texts fresh map s lines payload (0 ∷ []) response.len
          table fits h all
          (omega (
            arith,
            size,
            length-status_line s (head_text lines payload),
            length-head_text lines payload,
          )) in
      read_response-steps w client resp fresh _ response made granted
        (ap (λ (t : List ℕ). load_bytes t 0 response.len) (held ∙ sym (append-nil str))
          ∙ load_bytes-append [] str [] 0 response.len refl size)
        first (ap (λ (n : ℕ). store copied n 0) size ∙ second)
        (ap (λ (t : List ℕ). http_response_from_str sys fresh t response.len)
            (response_text-nul s lines payload)
          ∙ ran)
      ∙ ap (λ (r : Run (Connection sys)). if leb 300 (code s) then abandon sys w client else r)
          (check_accept_header-found sys mem texts w client inner _ map' answer accepted e refl
            (values (text "sec-websocket-accept")
              ∙ ap (last_value sys texts lines (text "sec-websocket-accept"))
                  (none_yet (text "sec-websocket-accept"))
              ∙ found)
            checks)
