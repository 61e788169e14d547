-- ===== src/Http/ResponseText.antt =====
-- A response that is read from its text.
use websocket_c.Common.{
  ℕ, ◌+◌, ◌<◌, ◌≡◌, refl, sym, ap, ◌∙◌, true, false, some, List, [], ◌++◌, length, ◌==◌, done,
  arith,
}
use websocket_c.Cstd.{ByteArray, contents}
use websocket_c.CString.{text, strcspn}
use websocket_c.Http.{HttpMessage, HttpResponse}
use websocket_c.Http.HeaderLoop.{last_value}
use websocket_c.Http.Lines.{Line, head_text, head_size, AllLines}
use websocket_c.Http.Parse.{
  parse_response_start_line, http_message_from_str, http_response_from_str,
}
use websocket_c.Http.Text.{http_message_from_str-text}
use websocket_c.Reader.Concat.{Fits}
use websocket_c.System.{System, HasMemory, HasTextMemory}
use websocket_c.Http.StatusLine.{
  Status, IsStatus, code, status_line, status_line_size, status_line_feed, length-status_line,
  status_line-append, parse_response-status_line,
}

response_steps :
    (sys : System) (r : HttpResponse sys) (str : List ℕ) (len : ℕ) {line_len index : ℕ}
    {started read : HttpMessage sys}
    → strcspn (text "\n") str ≡ done line_len
    → parse_response_start_line sys r.message str line_len ≡ done (started, index)
    → 0 < index
    → http_message_from_str sys started str len (line_len + 1) ≡ done (read, true)
    → http_response_from_str sys r str len ≡ done (record { message = read }, true)
unfolding http_response_from_str
response_steps sys r str len {index = index} line start found rest =
    rw (line, start, let t : (index == 0) ≡ false = ground arith in t, rest) refl

-- A response with a table of headers and a body whose length is within its block, a text in memory
-- that is made of a status line with a code of three digits, header lines, the empty line and a
-- body, with anything behind it, and memory enough: `http_response_from_str` returns true, the
-- response has the protocol, code and status text of the text, each key has its last value in the
-- text, keys that are not there keep their values, the body is appended to the response's, and
-- nothing else of it changes.
pub http_response_from_str-text :
    (sys : System) (mem : HasMemory sys) (texts : HasTextMemory sys) (r : HttpResponse sys)
    (map : sys.headers.HashMap) (s : Status) (lines : List Line) (payload after : List ℕ) (len : ℕ)
    → r.message.headers ≡ some map
    → Fits r.message.body
    → IsStatus s
    → AllLines lines
    → len ≡ status_line_size s + 1 + head_size lines + length payload
    → (map' : sys.headers.HashMap) × (body : ByteArray) × (http_response_from_str sys r
          (status_line s (head_text lines (payload ++ after)))
          len
        ≡ done (
          record {
            message = record r.message {
              protocol = some s.protocol;
              status_code = code s;
              status_text = some s.status_text;
              headers = some map';
              body = body;
            };
          },
          true,
        ))
      × ((asked : List ℕ)
          → sys.headers.get map' asked
            ≡ last_value sys texts lines asked (sys.headers.get map asked))
      × (contents body ≡ contents r.message.body ++ payload)
http_response_from_str-text sys mem texts r map s lines payload after len e fits h all size =
    let rest = head_text lines (payload ++ after) in
    let str = status_line s rest in
    let before = status_line s [] in
    let n = status_line_size s in
    let width : length before ≡ n + 1 = omega (arith, length-status_line s []) in
    let (index, positive, parsed) = parse_response-status_line sys texts r.message s rest h in
    let started = record r.message {
      protocol = some s.protocol;
      status_code = code s;
      status_text = some s.status_text;
    } in
    let (map', body, ran, found, _, holds) =
      http_message_from_str-text sys mem texts started map lines payload before after len e fits all
        (omega (arith, size, width)) in
    (
      map',
      body,
      response_steps sys r str len (status_line_feed s rest h) parsed positive (
          ap (λ (k : ℕ). http_message_from_str sys started str len k) (sym width)
          ∙ ap (λ (t : List ℕ). http_message_from_str sys started t len (length before))
              (status_line-append s rest)
          ∙ ran),
      found,
      holds,
    )
