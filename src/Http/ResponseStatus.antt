-- ===== src/Http/ResponseStatus.antt =====
-- What `http_response_to_str` writes.
use websocket_c.Common.{
  ℕ, ◌+◌, ◌/◌, ◌%◌, ◌≤◌, ◌<◌, ◌≡◌, refl, ap, ◌∙◌, true, false, some, List, [], ◌∷◌, ◌++◌,
  append_assoc, ltb, done, arith,
}
use websocket_c.Cstd.{contents}
use websocket_c.CString.{text, decimal_digits}
use websocket_c.Http.{HttpResponse}
use websocket_c.Http.Lines.{Line, head_text}
use websocket_c.Http.Print.{append, http_message_to_str, status_code_bytes, http_response_to_str}
use websocket_c.Http.Written.{entries_of, body_text, http_message_to_str-text}
use websocket_c.Reader.Concat.{Fits}
use websocket_c.System.{System, HasTextMemory}

-- A code of three digits is cut to two, with a NUL behind them.
three_digits :
    (n : ℕ)
    → 100 ≤ n
    → n < 1000
    → status_code_bytes n ≡ (48 + n / 10 / 10) ∷ (48 + n / 10 % 10) ∷ 0 ∷ []
unfolding decimal_digits
three_digits n low high =
    let a : ltb n 10 ≡ false = ground arith in
    let b : ltb (n / 10) 10 ≡ false = ground arith in
    let c : ltb (n / 10 / 10) 10 ≡ true = ground arith in rw (decimal_digits, a, b, c) refl

response_steps :
    (sys : System) (r : HttpResponse sys) (protocol status : List ℕ) (b b' : sys.builders.Builder)
    → sys.builders.new 20 ≡ some b
    → r.message.protocol ≡ some protocol
    → r.message.status_text ≡ some status
    → http_message_to_str sys r.message (
        append sys
          (append sys
            (append sys
              (append sys
                (append sys (append sys b protocol) (text " "))
                (status_code_bytes r.message.status_code))
              (text " "))
            status)
          (text "\r\n"))
      ≡ done b'
    → http_response_to_str sys r ≡ done (sys.builders.copy b')
unfolding http_response_to_str
response_steps sys r protocol status b b' fresh p s written =
    simp (http_response_to_str, fresh) (simp p (simp s (simp written refl)))

-- A response with a protocol, a status text, a table of headers that lists lines, a body whose
-- length is within its block and a status code of three digits, and memory enough:
-- `http_response_to_str` writes the first two digits of the code and a NUL, where the code belongs,
-- and else the protocol, the status text, the header lines and the body.
pub http_response_to_str-text :
    (sys : System) (texts : HasTextMemory sys) (r : HttpResponse sys) (map : sys.headers.HashMap)
    (protocol status : List ℕ) (lines : List Line)
    → r.message.protocol ≡ some protocol
    → r.message.status_text ≡ some status
    → r.message.headers ≡ some map
    → sys.headers.entries map ≡ entries_of lines
    → Fits r.message.body
    → 100 ≤ r.message.status_code
    → r.message.status_code < 1000
    → let code = r.message.status_code in
      http_response_to_str sys r
      ≡ done (
          some (
            protocol
            ++ 32
              ∷ (48 + code / 10 / 10)
              ∷ (48 + code / 10 % 10)
              ∷ 0
              ∷ 32
              ∷ (status ++ 13 ∷ 10 ∷ head_text lines (body_text (contents r.message.body)))))
http_response_to_str-text sys texts r map protocol status lines p s h listed fits low high =
    let code = r.message.status_code in
    let (b, fresh, empty) = texts.builder_laws.new_grants 20 in
    let (b', written, chars) =
      http_message_to_str-text sys texts r.message map lines _ h listed fits in
    response_steps sys r protocol status b b' fresh p s written
    ∙ ap done (
        texts.builder_laws.copy_chars b'
        ∙ ap some (
            chars
            ∙ simp
                (texts.builder_laws.append_chars, empty, append_assoc, three_digits code low high)
                refl))
