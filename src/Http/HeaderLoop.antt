-- ===== src/Http/HeaderLoop.antt =====
-- The header loop of `http_message_from_str` reads the lines of a text.
use websocket_c.Common.{
  ℕ, suc, ◌+◌, ◌≤◌, ◌<◌, ◌≡◌, refl, sym, ap, ◌∙◌, true, false, Option, some, List, [], ◌∷◌, ◌++◌,
  append_assoc, length, length-append, drop, drop-append, ltb, ◌==◌, if◌then◌else◌, done,
  load_bytes, load_bytes-append, arith,
}
use websocket_c.Cstd.Text.{is_ascii, is_nul_free, lower, text_equal}
use websocket_c.CString.{text, strcspn}
use websocket_c.CString.Scan.{clear_end, clear_next, strcspn-stop}
use websocket_c.Http.{HttpMessage, http_message_set_header}
use websocket_c.Http.Headers.{set_header-set}
use websocket_c.Http.Lines.{
  Line, line_text, head_text, line_size, head_size, line_count, IsLine, AllLines, no_lines,
  more_lines, line_feed, line_colon, line_return,
}
use websocket_c.Http.Parse.{header_loop}
use websocket_c.System.{System, HasTextMemory}

pub drop-prefix :
    (before after : List ℕ) (i : ℕ) {str : List ℕ}
    → str ≡ before ++ after
    → i ≡ length before
    → drop i str ≡ after
drop-prefix before after i e p = rw (e, p) (drop-append before after)

-- One round, from what each of its calls returns.
header_round :
    (sys : System) (fuel : ℕ) (msg : HttpMessage sys) (str : List ℕ) (len index : ℕ)
    {line_len key_len value_len : ℕ} {key value key_copy value_copy : List ℕ}
    {set : HttpMessage sys}
    → ltb index len ≡ true
    → strcspn (text "\n") (drop index str) ≡ done line_len
    → (line_len == 1) ≡ false
    → strcspn (text ":") (drop index str) ≡ done key_len
    → load_bytes str index key_len ≡ done key
    → strcspn (text "\r") (drop (index + key_len + 2) str) ≡ done value_len
    → load_bytes str (index + key_len + 2) value_len ≡ done value
    → sys.str_dup key ≡ some key_copy
    → sys.str_dup value ≡ some value_copy
    → http_message_set_header sys msg key_copy value_copy ≡ done (set, true)
    → header_loop sys (suc fuel) msg str len index
      ≡ header_loop sys fuel set str len (index + key_len + 2 + value_len + 2)
unfolding header_loop
header_round sys fuel msg str len index more line long key taken value taken' copy copy' set =
    rw (header_loop, more, line, long, key, taken, value, taken', copy, copy', set) refl

header_end :
    (sys : System) (fuel : ℕ) (msg : HttpMessage sys) (str : List ℕ) (len index : ℕ)
    → ltb index len ≡ true
    → strcspn (text "\n") (drop index str) ≡ done 1
    → header_loop sys (suc fuel) msg str len index ≡ done (msg, index + 2, true)
unfolding header_loop
header_end sys fuel msg str len index more line = rw (header_loop, more, line) refl

line_text-append : (line : Line) (rest : List ℕ) → line_text line rest ≡ line_text line [] ++ rest
line_text-append line rest =
    ap (λ (t : List ℕ). line.0 ++ 58 ∷ 32 ∷ t) (sym (append_assoc line.1 (13 ∷ 10 ∷ []) rest))
    ∙ sym (append_assoc line.0 (58 ∷ 32 ∷ (line.1 ++ 13 ∷ 10 ∷ [])) rest)

abbrev with_headers :
    {sys : System} → HttpMessage sys → Option (sys.headers.HashMap) → HttpMessage sys
with_headers msg headers = record msg { headers = headers }

is_ascii-nul_free : (s : List ℕ) → is_ascii s ≡ true → is_nul_free s ≡ true
is_ascii-nul_free [] e = refl
is_ascii-nul_free (c ∷ s) e = ground (arith, is_ascii-nul_free s)

module _ (sys : System) (mem : HasTextMemory sys) where
  -- The value that the last of the lines with this key has, or the one before the lines.
  abbrev pub last_value : List Line → List ℕ → Option (Option (List ℕ)) → Option (Option (List ℕ))
  last_value [] asked before = before
  last_value (line ∷ lines) asked before =
      last_value lines asked
        (if text_equal asked (lower line.0) then some (some line.1) else before)

  -- One round at a line.
  line_round :
      (line : Line) (rest before : List ℕ) (fuel : ℕ) (msg : HttpMessage sys)
      (map : sys.headers.HashMap) (len index : ℕ) {str : List ℕ}
      → IsLine line
      → msg.headers ≡ some map
      → str ≡ before ++ line_text line rest
      → index ≡ length before
      → index < len
      → (map' : sys.headers.HashMap) × (sys.headers.set map (lower line.0) (some line.1)
          ≡ some map')
        × (header_loop sys (suc fuel) msg str len index
            ≡ header_loop sys fuel
                (record msg { headers = some map' })
                str
                len
                (index + line_size line))
  unfolding header_loop
  line_round line rest before fuel msg map len index {str} h e split p more =
      let k = length line.0 in
      let v = length line.1 in
      let behind = before ++ (line.0 ++ 58 ∷ 32 ∷ []) in
      let value = line.1 ++ 13 ∷ 10 ∷ rest in
      let here = drop-prefix before (line_text line rest) index split p in
      let split' : str ≡ behind ++ value =
        split
        ∙ ap (◌++◌ before) (sym (append_assoc line.0 (58 ∷ 32 ∷ []) value))
        ∙ sym (append_assoc before (line.0 ++ 58 ∷ 32 ∷ []) value) in
      let p' : index + k + 2 ≡ length behind = omega (
        arith,
        length-append before (line.0 ++ 58 ∷ 32 ∷ []),
        length-append line.0 (58 ∷ 32 ∷ []),
      ) in
      let (map', set, ran) =
        set_header-set sys mem msg map line.0 line.1 e h.key_ascii h.value_nul in
      (
        map',
        set,
        header_round sys fuel msg str len index (ground arith)
              (ap (strcspn (text "\n")) here ∙ line_feed line rest h) (ground arith)
              (ap (strcspn (text ":")) here ∙ line_colon line rest h)
              (rw split (load_bytes-append before line.0 (58 ∷ 32 ∷ value) index k p refl))
              (ap (strcspn (text "\r")) (drop-prefix behind value (index + k + 2) split' p')
                ∙ line_return line rest h)
              (rw split'
                (load_bytes-append behind line.1 (13 ∷ 10 ∷ rest) (index + k + 2) v p' refl))
              (mem.str_dup_copy line.0 (is_ascii-nul_free line.0 h.key_ascii))
              (mem.str_dup_copy line.1 h.value_nul) ran
            ∙ ap (header_loop sys fuel (record msg { headers = some map' }) str len)
                (let n : index + k + 2 + v + 2 ≡ index + line_size line = omega arith in n),
      )

  -- The loop at the lines of a text: it stops behind the empty line, and each key has its last
  -- value.
  pub header_loop-lines :
      (lines : List Line) (rest before : List ℕ) (extra : ℕ) (msg : HttpMessage sys)
      (map : sys.headers.HashMap) (len index : ℕ) {str : List ℕ}
      → AllLines lines
      → msg.headers ≡ some map
      → str ≡ before ++ head_text lines rest
      → index ≡ length before
      → index + head_size lines ≤ len
      → (map' : sys.headers.HashMap) × (header_loop sys
            (suc (line_count lines + extra))
            msg
            str
            len
            index
          ≡ done (record msg { headers = some map' }, index + head_size lines, true))
        × ((asked : List ℕ)
            → sys.headers.get map' asked ≡ last_value lines asked (sys.headers.get map asked))
  header_loop-lines [] rest before extra msg map len index {str} no_lines e split p fits = (
    map,
    header_end sys (0 + extra) msg str len index (ground arith) (
          ap (strcspn (text "\n")) (drop-prefix before (13 ∷ 10 ∷ rest) index split p)
          ∙ strcspn-stop (text "\n") (13 ∷ []) 10 rest (clear_next refl clear_end) refl)
        ∙ (λ i. done (with_headers msg (e i), index + 2, true)),
    λ asked. refl,
  )
  header_loop-lines (line ∷ lines) rest before extra msg map len index {str} (more_lines h hs) e
        split p fits =
      let (map', set, ran) =
        line_round line (head_text lines rest) before (suc (line_count lines + extra)) msg map len
          index h e split p (omega arith) in
      let before' = before ++ line_text line [] in
      let (map'', ran', found) =
        header_loop-lines lines rest before' extra (record msg { headers = some map' }) map' len
          (index + line_size line) hs refl
          (split
            ∙ ap (◌++◌ before) (line_text-append line (head_text lines rest))
            ∙ sym (append_assoc before (line_text line []) (head_text lines rest)))
          (omega (
            arith,
            length-append before (line_text line []),
            length-append line.0 (58 ∷ 32 ∷ (line.1 ++ 13 ∷ 10 ∷ [])),
            length-append line.1 (13 ∷ 10 ∷ []),
          ))
          (omega arith) in
      (
        map'',
        ap (λ (n : ℕ). header_loop sys n msg str len index)
              (let n : suc (line_count (line ∷ lines) + extra)
                    ≡ suc (suc (line_count lines + extra)) =
                  omega arith in
                n)
            ∙ ran
            ∙ ran'
            ∙ ap (λ (n : ℕ). done (record msg { headers = some map'' }, n, true))
                (let n : index + line_size line + head_size lines
                      ≡ index + head_size (line ∷ lines) =
                    omega arith in
                  n),
        λ asked.
            found asked
            ∙ ap (last_value lines asked)
                (mem.header_laws.get_set map map' (lower line.0) (some line.1) set asked),
      )
