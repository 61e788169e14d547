-- ===== src/Http/Text.antt =====
-- `http_message_from_str` on a whole text: header lines, the empty line and a body.
use websocket_c.Common.{
  ℕ, zero, suc, ◌+◌, ◌-◌, ◌≤◌, ◌<◌, ◌≡◌, ◌≢◌, refl, sym, ap, ◌∙◌, Bool, true, false, Option, none,
  some, List, [], ◌∷◌, ◌++◌, append_assoc, length, length-append, drop, take, take-append, get_or,
  ltb, ◌==◌, Run, done, fault, timeout, load-get_or, load_bytes-append, arith,
}
use websocket_c.Cstd.{ByteArray, contents}
use websocket_c.CString.{text, strcspn}
use websocket_c.CString.Scan.{Clear, strcspn-stop}
use websocket_c.Http.{HttpMessage, insert_body}
use websocket_c.Http.HeaderLoop.{drop-prefix, last_value, header_loop-lines}
use websocket_c.Http.Lines.{
  Line, head_text, head_size, line_count, AllLines, length-head_text, line_count_le,
  head_text-append,
}
use websocket_c.Http.Parse.{header_loop, http_message_from_str}
use websocket_c.Reader.{insert_loop}
use websocket_c.Reader.Concat.{Fits, insert_loop-append}
use websocket_c.System.{System, HasMemory, HasTextMemory}

abbrev inserted : Run (Option ByteArray) → Run (ByteArray × Bool)
inserted (done none) = fault
inserted (done (some body)) = done (body, true)
inserted fault = fault
inserted timeout = timeout

drop_past : (n : ℕ) (xs : List ℕ) → length xs ≤ n → drop n xs ≡ []
drop_past zero [] h = refl
drop_past zero (x ∷ xs) h = absurd (omega arith)
drop_past (suc n) [] h = refl
drop_past (suc n) (x ∷ xs) h = drop_past n xs (omega arith)

module _ (sys : System) (mem : HasMemory sys) where
  insert_body-loop :
      (bytes : List ℕ) (left i : ℕ) (body b : ByteArray)
      → i + left ≤ length bytes
      → insert_loop sys bytes left i body ≡ done (some b)
      → insert_body sys bytes left i body ≡ done (b, true)
  unfolding insert_loop insert_body
  insert_body-loop bytes zero i body b h e = ap inserted e
  insert_body-loop bytes (suc left) i body b h e =
      let (longer, granted) = mem.insert_grants body (get_or bytes i 0) in
      let loaded = load-get_or bytes i (omega arith) in
      rw (loaded, granted)
        (insert_body-loop bytes left (i + 1) longer b (omega arith) (rw (loaded, granted) at e))

  pub insert_body-append :
      (before payload after : List ℕ) (body : ByteArray) (i n : ℕ)
      → Fits body
      → i ≡ length before
      → n ≡ length payload
      → (b : ByteArray) × (insert_body sys (before ++ (payload ++ after)) n i body ≡ done (b, true))
        × Fits b
        × (contents b ≡ contents body ++ payload)
  insert_body-append before payload after body i n fits p q =
      let str = before ++ (payload ++ after) in
      let room : i + n ≤ length str =
        omega (arith, length-append before (payload ++ after), length-append payload after) in
      let (b, ran, fits', holds) = insert_loop-append sys mem str n i body room fits in
      (
        b,
        insert_body-loop str n i body b room ran,
        fits',
        holds
            ∙ ap (λ (t : List ℕ). contents body ++ take n t)
                (drop-prefix before (payload ++ after) i refl p)
            ∙ ap (contents body ++◌) (rw q (take-append payload after)),
      )

  from_str-steps :
      (msg : HttpMessage sys) (str : List ℕ) (len offset : ℕ) {read : HttpMessage sys} {index : ℕ}
      {body : ByteArray}
      → header_loop sys (suc len) msg str len offset ≡ done (read, index, true)
      → insert_body sys str (len - index) index read.body ≡ done (body, true)
      → http_message_from_str sys msg str len offset ≡ done (record read { body = body }, true)
  unfolding http_message_from_str
  from_str-steps msg str len offset h b = rw (h, b) refl

  -- A message with a table of headers and a body whose length is within its block, a text in memory
  -- that is made of header lines, the empty line and a body, with anything before it and behind it,
  -- and memory enough: `http_message_from_str` returns true, each key has its last value in the
  -- text, keys that are not there keep their values, the body is appended to the message's, and
  -- nothing else of the message changes.
  pub http_message_from_str-text :
      (texts : HasTextMemory sys) (msg : HttpMessage sys) (map : sys.headers.HashMap)
      (lines : List Line) (payload before after : List ℕ) (len : ℕ)
      → msg.headers ≡ some map
      → Fits msg.body
      → AllLines lines
      → len ≡ length before + head_size lines + length payload
      → (map' : sys.headers.HashMap) × (body : ByteArray) × (http_message_from_str sys msg
            (before ++ head_text lines (payload ++ after))
            len
            (length before)
          ≡ done (record msg { headers = some map'; body = body }, true))
        × ((asked : List ℕ)
            → sys.headers.get map' asked
              ≡ last_value sys texts lines asked (sys.headers.get map asked))
        × Fits body
        × (contents body ≡ contents msg.body ++ payload)
  http_message_from_str-text texts msg map lines payload before after len e fits all size =
      let rest = payload ++ after in
      let str = before ++ head_text lines rest in
      let offset = length before in
      let counted = line_count_le lines in
      let extra = len - line_count lines in
      let (map', ran, found) =
        header_loop-lines sys texts lines rest before extra msg map len offset {str = str} all e
          refl refl (omega (arith, size)) in
      let head = head_text lines [] in
      let heads : length head ≡ head_size lines = omega (arith, length-head_text lines []) in
      let (body, ran', fits', holds) =
        insert_body-append (before ++ head) payload after msg.body (offset + head_size lines)
          (len - (offset + head_size lines)) fits (omega (arith, heads, length-append before head))
          (omega (arith, size)) in
      (
        map',
        body,
        from_str-steps msg str len offset
            (ap (λ (n : ℕ). header_loop sys n msg str len offset)
                (let n : suc len ≡ suc (line_count lines + extra) = omega (arith, size, counted) in
                  n)
              ∙ ran)
            (ap
                (λ (t : List ℕ).
                  insert_body sys t (len - (offset + head_size lines)) (offset + head_size lines)
                    msg.body)
                (ap (◌++◌ before) (head_text-append lines rest)
                  ∙ sym (append_assoc before head rest))
              ∙ ran'),
        found,
        fits',
        holds,
      )

  -- A text whose last line has no ':', is not one character long and ends with the NUL of a block
  -- that holds nothing behind it: `http_message_from_str` from the start of that line reads behind
  -- the block, whatever the message.
  pub http_message_from_str-no_colon :
      (msg : HttpMessage sys) (before line : List ℕ)
      → Clear (text ":") line
      → Clear (text "\n") line
      → 0 < length line
      → length line ≢ 1
      → http_message_from_str sys msg
          (before ++ (line ++ 0 ∷ []))
          (length before + length line)
          (length before)
        ≡ fault
  unfolding http_message_from_str header_loop strcspn
  http_message_from_str-no_colon msg before line colon feed some_chars long =
      let n = length line in
      let index = length before in
      let str = before ++ (line ++ 0 ∷ []) in
      let size : length str ≡ index + n + 1 =
        omega (arith, length-append before (line ++ 0 ∷ []), length-append line (0 ∷ [])) in
      let here = drop-prefix before (line ++ 0 ∷ []) index refl refl in
      rw
        (
          header_loop,
          let t : ltb index (index + n) ≡ true = ground arith in t,
          ap (strcspn (text "\n")) here ∙ strcspn-stop (text "\n") line 0 [] feed refl,
          let t : (n == 1) ≡ false = ground arith in t,
          ap (strcspn (text ":")) here ∙ strcspn-stop (text ":") line 0 [] colon refl,
          load_bytes-append before line (0 ∷ []) index n refl refl,
          ap (strcspn (text "\r")) (drop_past (index + n + 2) str (omega (arith, size))),
        )
        refl
