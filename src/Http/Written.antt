-- ===== src/Http/Written.antt =====
-- What `http_message_to_str` and `http_request_to_str` write.
use websocket_c.Common.{
  ℕ, zero, suc, ◌+◌, ◌≤◌, ◌<◌, ◌≡◌, refl, sym, ap, ◌∙◌, true, false, Option, some, List, [], ◌∷◌,
  ◌++◌, append_assoc, append-nil, map, length, length-take, take, drop, ltb, Bool-cases, inl, inr,
  done, load-get_or, get_or, arith,
}
use websocket_c.Cstd.{contents}
use websocket_c.CString.{text}
use websocket_c.Http.{HttpMessage}
use websocket_c.Http.Lines.{Line, head_text, head_text-append}
use websocket_c.Http.Print.{append, append_headers, append_body, http_message_to_str}
use websocket_c.Reader.Concat.{Fits, drop-get_or}
use websocket_c.System.{System, HasTextMemory}

-- The entries of a table whose values are the lines'.
abbrev pub entries_of : List Line → List (List ℕ × Option (List ℕ))
entries_of [] = []
entries_of (line ∷ lines) = (line.0, some line.1) ∷ entries_of lines

-- The body as it is written: with a line end behind it, unless it is empty.
abbrev pub body_text : List ℕ → List ℕ
body_text [] = []
body_text (b ∷ bytes) = (b ∷ bytes) ++ text "\r\n"

module _ (sys : System) (mem : HasTextMemory sys) where
  abbrev chars : sys.builders.Builder → List ℕ
  chars b = sys.builders.chars b

  append_headers-lines :
      (lines : List Line) (b : sys.builders.Builder)
      → (b' : sys.builders.Builder) × (append_headers sys (entries_of lines) b ≡ done b')
        × (chars (append sys b' (text "\r\n")) ≡ chars b ++ head_text lines [])
  unfolding append_headers
  append_headers-lines [] b = (b, refl, mem.builder_laws.append_chars b (text "\r\n"))
  append_headers-lines (line ∷ lines) b =
      let law = mem.builder_laws.append_chars in
      let b1 = append sys b line.0 in
      let b2 = append sys b1 (text ": ") in
      let b3 = append sys b2 line.1 in
      let b4 = append sys b3 (text "\r\n") in
      let (b', ran, written) = append_headers-lines lines b4 in
      let rest = head_text lines [] in
      (
        b',
        ran,
        written
            ∙ ap (◌++ rest) (
                law b3 (text "\r\n")
                ∙ ap (◌++ text "\r\n") (
                    law b2 line.1
                    ∙ ap (◌++ line.1) (law b1 (text ": ") ∙ ap (◌++ text ": ") (law b line.0))))
            ∙ simp append_assoc refl,
      )

  append_body-bytes :
      (bytes : List ℕ) (left i : ℕ) (b : sys.builders.Builder)
      → i + left ≤ length bytes
      → (b' : sys.builders.Builder) × (append_body sys bytes left i b ≡ done b')
        × (chars b' ≡ chars b ++ take left (drop i bytes))
  unfolding append_body
  append_body-bytes bytes zero i b h = (b, refl, sym (append-nil (chars b)))
  append_body-bytes bytes (suc left) i b h =
      let x = get_or bytes i 0 in
      let (b', ran, written) =
        append_body-bytes bytes left (i + 1) (append sys b (x ∷ [])) (omega arith) in
      (
        b',
        rw (load-get_or bytes i (omega arith)) ran,
        written
            ∙ ap (◌++ take left (drop (i + 1) bytes)) (mem.builder_laws.append_chars b (x ∷ []))
            ∙ append_assoc (chars b) (x ∷ []) (take left (drop (i + 1) bytes))
            ∙ ap (chars b ++◌) (
                ap (λ (j : ℕ). x ∷ take left (drop j bytes))
                  (let e : i + 1 ≡ suc i = omega arith in e)
                ∙ sym (drop-get_or bytes i left (omega arith))),
      )

  message_to_str-empty :
      (msg : HttpMessage sys) (map : sys.headers.HashMap) (b : sys.builders.Builder)
      {listed : sys.builders.Builder}
      → msg.headers ≡ some map
      → ltb 0 msg.body.len ≡ false
      → append_headers sys (sys.headers.entries map) b ≡ done listed
      → http_message_to_str sys msg b ≡ done (append sys listed (text "\r\n"))
  unfolding http_message_to_str
  message_to_str-empty msg map b e nothing ran = rw (e, ran, nothing) refl

  message_to_str-body :
      (msg : HttpMessage sys) (map : sys.headers.HashMap) (b : sys.builders.Builder)
      {listed filled : sys.builders.Builder}
      → msg.headers ≡ some map
      → ltb 0 msg.body.len ≡ true
      → append_headers sys (sys.headers.entries map) b ≡ done listed
      → append_body sys msg.body.byte_data msg.body.len 0 (append sys listed (text "\r\n"))
        ≡ done filled
      → http_message_to_str sys msg b ≡ done (append sys filled (text "\r\n"))
  unfolding http_message_to_str
  message_to_str-body msg map b e some_bytes ran filled = rw (e, ran, some_bytes, filled) refl

  body_text-some : (bytes : List ℕ) → 0 < length bytes → body_text bytes ≡ bytes ++ text "\r\n"
  body_text-some [] h = absurd (omega arith)
  body_text-some (b ∷ bytes) h = refl

  body_text-none : (bytes : List ℕ) → length bytes ≡ 0 → body_text bytes ≡ []
  body_text-none [] h = refl
  body_text-none (b ∷ bytes) h = absurd (omega arith)

  head_text-behind :
      (lines : List Line) (s t : List ℕ) → (s ++ head_text lines []) ++ t ≡ s ++ head_text lines t
  head_text-behind lines s t =
      append_assoc s (head_text lines []) t ∙ ap (s ++◌) (sym (head_text-append lines t))

  pub http_message_to_str-text :
      (msg : HttpMessage sys) (map : sys.headers.HashMap) (lines : List Line)
      (b : sys.builders.Builder)
      → msg.headers ≡ some map
      → sys.headers.entries map ≡ entries_of lines
      → Fits msg.body
      → (b' : sys.builders.Builder) × (http_message_to_str sys msg b ≡ done b')
        × (chars b' ≡ chars b ++ head_text lines (body_text (contents msg.body)))
  http_message_to_str-text msg map lines b e listed fits =
      let (b1, ran, written) = append_headers-lines lines b in
      let ran' =
        ap (λ (t : List (List ℕ × Option (List ℕ))). append_headers sys t b) listed ∙ ran in
      let b2 = append sys b1 (text "\r\n") in
      let bytes = contents msg.body in
      let size : length bytes ≡ msg.body.len =
        omega (arith, length-take msg.body.len msg.body.byte_data) in
      elim (Bool-cases (ltb 0 msg.body.len)) [
        | inl some_bytes ↦
            let (b3, copied, chars3) =
              append_body-bytes msg.body.byte_data msg.body.len 0 b2 (omega arith) in
            (
              append sys b3 (text "\r\n"),
              message_to_str-body msg map b e some_bytes ran' copied,
              mem.builder_laws.append_chars b3 (text "\r\n")
                  ∙ ap (◌++ text "\r\n") (chars3 ∙ ap (◌++ bytes) written)
                  ∙ append_assoc (chars b ++ head_text lines []) bytes (text "\r\n")
                  ∙ head_text-behind lines (chars b) (bytes ++ text "\r\n")
                  ∙ ap (λ (t : List ℕ). chars b ++ head_text lines t)
                      (sym (body_text-some bytes (ground arith))),
            )
        | inr nothing ↦ (
          b2,
          message_to_str-empty msg map b e nothing ran',
          written
              ∙ ap (λ (t : List ℕ). chars b ++ head_text lines t)
                  (sym (body_text-none bytes (ground arith))),
        )
      ]
