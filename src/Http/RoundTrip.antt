-- ===== src/Http/RoundTrip.antt =====
-- A request that is read from its text, and one that is written and read again.
use websocket_c.Common.{
  ℕ, ◌+◌, ◌<◌, ◌≡◌, ◌≢◌, refl, sym, ap, ◌∙◌, true, false, none, some, List, [], ◌∷◌, ◌++◌,
  append_assoc, take, length, ◌==◌, done, arith,
}
use websocket_c.Cstd.{ByteArray, contents}
use websocket_c.Cstd.Text.{lower}
use websocket_c.CString.{text, strcspn}
use websocket_c.Http.{HttpMethod, invalid_method, HttpMessage, HttpRequest}
use websocket_c.Http.HeaderLoop.{last_value}
use websocket_c.Http.Lines.{
  Line, head_text, head_size, AllLines, head_text-append, length-head_text,
}
use websocket_c.Http.Parse.{http_message_from_str, parse_request_start_line, http_request_from_str}
use websocket_c.Http.Print.{http_request_to_str}
use websocket_c.Http.RequestText.{
  start_line-append, host_value, IsPrintable, request_text, http_request_to_str-text,
}
use websocket_c.Http.StartLine.{
  start_line, start_line_size, IsStart, start_line_feed, length-start_line,
  parse_request-start_line,
}
use websocket_c.Http.Text.{http_message_from_str-text}
use websocket_c.Http.Written.{entries_of, body_text}
use websocket_c.Reader.Concat.{Fits}
use websocket_c.System.{System, HasMemory, HasTextMemory}

module _ (sys : System) (mem : HasMemory sys) (texts : HasTextMemory sys) where
  request_steps :
      (r : HttpRequest sys) (str : List ℕ) (len : ℕ) {line_len index : ℕ}
      {started read : HttpMessage sys}
      → strcspn (text "\n") str ≡ done line_len
      → parse_request_start_line sys r.message str line_len ≡ done (started, index)
      → 0 < index
      → http_message_from_str sys started str len (line_len + 1) ≡ done (read, true)
      → http_request_from_str sys r str len ≡ done (record { message = read }, true)
  unfolding http_request_from_str
  request_steps r str len {index = index} line start found rest =
      rw (line, start, let t : (index == 0) ≡ false = ground arith in t, rest) refl

  -- A request with a table of headers and a body whose length is within its block, a text in memory
  -- that is made of a start line, header lines, the empty line and a body, with anything behind it,
  -- and memory enough: `http_request_from_str` returns true, the request has the method, path and
  -- protocol of the text, each key has its last value in the text, the body is appended to the
  -- request's, and nothing else of it changes.
  pub http_request_from_str-text :
      (r : HttpRequest sys) (map : sys.headers.HashMap) (method : HttpMethod)
      (path protocol : List ℕ) (lines : List Line) (payload after : List ℕ) (len : ℕ)
      → r.message.headers ≡ some map
      → Fits r.message.body
      → method ≢ invalid_method
      → IsStart path protocol
      → AllLines lines
      → len ≡ start_line_size method path protocol + 1 + head_size lines + length payload
      → (map' : sys.headers.HashMap) × (body : ByteArray) × (http_request_from_str sys r
            (start_line method path protocol (head_text lines (payload ++ after)))
            len
          ≡ done (
            record {
              message = record r.message {
                method = method;
                path = some path;
                protocol = some protocol;
                headers = some map';
                body = body;
              };
            },
            true,
          ))
        × ((asked : List ℕ)
            → sys.headers.get map' asked
              ≡ last_value sys texts lines asked (sys.headers.get map asked))
        × (contents body ≡ contents r.message.body ++ payload)
  http_request_from_str-text r map method path protocol lines payload after len e fits valid start
        all size =
      let rest = head_text lines (payload ++ after) in
      let str = start_line method path protocol rest in
      let before = start_line method path protocol [] in
      let n = start_line_size method path protocol in
      let width : length before ≡ n + 1 =
        omega (arith, length-start_line method path protocol []) in
      let (index, positive, parsed) =
        parse_request-start_line sys texts r.message method path protocol rest valid start in
      let started = record r.message {
        method = method;
        path = some path;
        protocol = some protocol;
      } in
      let (map', body, ran, found, _, holds) =
        http_message_from_str-text sys mem texts started map lines payload before after len e fits
          all (omega (arith, size, width)) in
      (
        map',
        body,
        request_steps r str len (start_line_feed method path protocol rest start) parsed positive (
            ap (λ (k : ℕ). http_message_from_str sys started str len k) (sym width)
            ∙ ap (λ (t : List ℕ). http_message_from_str sys started t len (length before))
                (start_line-append method path protocol rest)
            ∙ ran),
        found,
        holds,
      )

  request_text-nul :
      (r : HttpRequest sys) (path protocol : List ℕ) (lines : List Line)
      → request_text sys mem texts r path protocol lines ++ 0 ∷ []
        ≡ start_line r.message.method path protocol
            (head_text lines (body_text (contents r.message.body) ++ 0 ∷ []))
  request_text-nul r path protocol lines =
      let method = r.message.method in
      let payload = body_text (contents r.message.body) in
      let line = start_line method path protocol [] in
      let head = head_text lines [] in
      ap (◌++ 0 ∷ []) (start_line-append method path protocol (head_text lines payload))
      ∙ append_assoc line (head_text lines payload) (0 ∷ [])
      ∙ ap (line ++◌) (
          ap (◌++ 0 ∷ []) (head_text-append lines payload)
          ∙ append_assoc head payload (0 ∷ [])
          ∙ sym (head_text-append lines (payload ++ 0 ∷ [])))
      ∙ sym (start_line-append method path protocol (head_text lines (payload ++ 0 ∷ [])))

  -- A request with a method, path, protocol, host and table of headers, whose table with "Host" set
  -- lists lines that a text can hold, a second request with an empty table and body, and memory
  -- enough: what `http_request_to_str` writes, with a NUL behind it, `http_request_from_str` reads
  -- into the second request with success. It has the first one's method, path and protocol, for
  -- each key the value of the line with that key that stands last in the text, and the first one's
  -- body, with a line end behind it if it is not empty.
  pub request_to_str-from_str :
      (r r' : HttpRequest sys) (path protocol host : List ℕ) (map empty : sys.headers.HashMap)
      (lines : List Line)
      → IsPrintable sys r path protocol host map
      → IsStart path protocol
      → AllLines lines
      → ((map' : sys.headers.HashMap)
          → sys.headers.set map (lower (text "Host")) (some (host_value host r.message.port))
            ≡ some map'
          → sys.headers.entries map' ≡ entries_of lines)
      → r'.message.headers ≡ some empty
      → ((asked : List ℕ) → sys.headers.get empty asked ≡ none)
      → r'.message.body.len ≡ 0
      → (hosted : HttpRequest sys) × (str : List ℕ) × (read : HttpRequest sys)
        × (map' : sys.headers.HashMap) × (http_request_to_str sys r ≡ done (hosted, some str))
        × (http_request_from_str sys r' (str ++ 0 ∷ []) (length str) ≡ done (read, true))
        × (read.message.method ≡ r.message.method)
        × (read.message.path ≡ r.message.path)
        × (read.message.protocol ≡ r.message.protocol)
        × (read.message.headers ≡ some map')
        × ((asked : List ℕ) → sys.headers.get map' asked ≡ last_value sys texts lines asked none)
        × (contents read.message.body ≡ body_text (contents r.message.body))
  request_to_str-from_str r r' path protocol host map empty lines p start all listed e none_yet
        blank =
      let payload = body_text (contents r.message.body) in
      let method = r.message.method in
      let str = request_text sys mem texts r path protocol lines in
      let (_, _, written) =
        http_request_to_str-text sys mem texts r path protocol host map lines p listed in
      let (map', body, ran, found, holds) =
        http_request_from_str-text r' empty method path protocol lines payload (0 ∷ []) (length str)
          e (omega (arith, blank)) p.a_method start all
          (omega (
            arith,
            length-start_line method path protocol (head_text lines payload),
            length-head_text lines payload,
          )) in
      (
        _,
        str,
        record {
          message = record r'.message {
            method = method;
            path = some path;
            protocol = some protocol;
            headers = some map';
            body = body;
          };
        },
        map',
        written,
        ap (λ (t : List ℕ). http_request_from_str sys r' t (length str))
              (request_text-nul r path protocol lines)
            ∙ ran,
        refl,
        sym p.the_path,
        sym p.the_protocol,
        refl,
        λ asked. found asked ∙ ap (last_value sys texts lines asked) (none_yet asked),
        holds ∙ ap (λ (n : ℕ). take n r'.message.body.byte_data ++ payload) blank,
      )
