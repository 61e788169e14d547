-- ===== src/Http/StatusLine.antt =====
-- The start line of a response.
use websocket_c.Common.{
  ℕ, ◌+◌, ◌*◌, ◌%◌, ◌^◌, ◌≤◌, ◌<◌, ◌≡◌, refl, sym, ap, ◌∙◌, true, false, some, List, [], ◌∷◌, ◌++◌,
  append_assoc, length, length-append, drop, ltb, leb, ◌&&◌, le→not-ltb, ◌==◌, done, load_bytes,
  load_bytes-append, arith,
}
use websocket_c.CString.{text, strcspn, strncpy, atoi, digits_value}
use websocket_c.CString.Scan.{
  Clear, clear_end, clear_next, Digits, digits_end, digits_next, strcspn-stop, atoi-Digits,
}
use websocket_c.Http.{HttpMessage}
use websocket_c.Http.HeaderLoop.{drop-prefix}
use websocket_c.Http.Lines.{Clear-append}
use websocket_c.Http.Parse.{parse_response_start_line}
use websocket_c.Http.StartLine.{Clear-nul_free}
use websocket_c.System.{System, HasTextMemory}

-- A protocol, the three digits of a status code, and a status text.
pub record Status : Type 0 where
  pub protocol : List ℕ
  pub hundreds : ℕ
  pub tens : ℕ
  pub units : ℕ
  pub status_text : List ℕ

abbrev pub code : Status → ℕ
code s = (s.hundreds * 10 + s.tens) * 10 + s.units

abbrev code_text : Status → List ℕ
code_text s = (48 + s.hundreds) ∷ (48 + s.tens) ∷ (48 + s.units) ∷ []

-- "<protocol> <code> <text>\r\n" with what comes behind it.
abbrev pub status_line : Status → List ℕ → List ℕ
status_line s rest = s.protocol ++ 32 ∷ (code_text s ++ 32 ∷ (s.status_text ++ 13 ∷ 10 ∷ rest))

abbrev pub status_line_size : Status → ℕ
status_line_size s = length s.protocol + length s.status_text + 6

pub record IsStatus (s : Status) : Type 0 where
  pub protocol_space : Clear (text " ") s.protocol
  pub protocol_feed : Clear (text "\n") s.protocol
  pub hundreds_digit : s.hundreds < 10
  pub tens_digit : s.tens < 10
  pub units_digit : s.units < 10
  pub text_return : Clear (text "\r") s.status_text
  pub text_feed : Clear (text "\n") s.status_text

code-Digits : (s : Status) → IsStatus s → Digits (code_text s)
code-Digits s h =
    let a = h.hundreds_digit in
    let b = h.tens_digit in
    let c = h.units_digit in
    digits_next (omega arith) (omega (arith, a)) (
      digits_next (omega arith) (omega (arith, b))
        (digits_next (omega arith) (omega (arith, c)) digits_end))

Digits-feed : (s : List ℕ) → Digits s → Clear (text "\n") s
Digits-feed [] digits_end = clear_end
Digits-feed (c ∷ s) (digits_next a b hs) = clear_next (ground arith) (Digits-feed s hs)

Digits-space : (s : List ℕ) → Digits s → Clear (text " ") s
Digits-space [] digits_end = clear_end
Digits-space (c ∷ s) (digits_next a b hs) = clear_next (ground arith) (Digits-space s hs)

strncpy_three :
    (a b c : ℕ) (rest : List ℕ)
    → 0 < a
    → 0 < b
    → 0 < c
    → strncpy 3 (a ∷ b ∷ c ∷ rest) ≡ done (a ∷ b ∷ c ∷ [])
unfolding strncpy
strncpy_three a b c rest ha hb hc =
    let ta : (a == 0) ≡ false = ground arith in
    let tb : (b == 0) ≡ false = ground arith in
    let tc : (c == 0) ≡ false = ground arith in rw (strncpy, ta, tb, tc) refl

digit : (n : ℕ) → n < 10 → (leb 48 (48 + n) && leb (48 + n) 57) ≡ true
digit n h = ground arith

code_value : (s : Status) → IsStatus s → atoi (code_text s ++ 0 ∷ []) % 2 ^ 16 ≡ code s
code_value s h =
    let value : digits_value 0 (code_text s) ≡ code s =
      rw
        (
          digits_value,
          digit s.hundreds h.hundreds_digit,
          digit s.tens h.tens_digit,
          digit s.units h.units_digit,
        )
        (omega arith) in
    ap (λ (n : ℕ). n % 2 ^ 16) (atoi-Digits (code_text s) [] (code-Digits s h) ∙ value)
    ∙ omega (arith, h.hundreds_digit, h.tens_digit, h.units_digit)

parse_response_steps :
    (sys : System) (msg : HttpMessage sys) (str : List ℕ) (len : ℕ) {p n t c : ℕ}
    {protocol digits status : List ℕ}
    → strcspn (text " ") str ≡ done p
    → p + 1 + n + 1 + t ≤ len
    → load_bytes str 0 p ≡ done protocol
    → strcspn (text " ") (drop (p + 1) str) ≡ done n
    → strncpy 3 (drop (p + 1) str) ≡ done digits
    → atoi (digits ++ 0 ∷ []) % 2 ^ 16 ≡ c
    → strcspn (text "\r") (drop (p + 1 + n + 1) str) ≡ done t
    → load_bytes str (p + 1 + n + 1) t ≡ done status
    → parse_response_start_line sys msg str len
      ≡ done (
        record msg {
          protocol = sys.str_dup protocol;
          status_code = c;
          status_text = sys.str_dup status;
        },
        p + 1 + n + 1 + t,
      )
unfolding parse_response_start_line
parse_response_steps sys msg str len {p} {n} {t} s1 fits l1 s2 cp at s3 l3 =
    rw
      (
        let h : (len == 0) ≡ false = ground arith in h,
        s1,
        let h : ltb len p ≡ false = le→not-ltb len p (omega arith) in h,
        l1,
        let h : ltb len (p + 1) ≡ false = le→not-ltb len (p + 1) (omega arith) in h,
        s2,
        let h : ltb len (p + 1 + n) ≡ false = le→not-ltb len (p + 1 + n) (omega arith) in h,
        cp,
        at,
        let h : ltb len (p + 1 + n + 1) ≡ false = le→not-ltb len (p + 1 + n + 1) (omega arith) in h,
        s3,
        let h : ltb len (p + 1 + n + 1 + t) ≡ false = le→not-ltb len (p + 1 + n + 1 + t) fits in h,
        l3,
      )
      refl

-- The line feed is at the end of the line.
pub status_line_feed :
    (s : Status) (rest : List ℕ)
    → IsStatus s
    → strcspn (text "\n") (status_line s rest) ≡ done (status_line_size s)
status_line_feed s rest h =
    let digits = code_text s in
    let q = s.status_text ++ 13 ∷ [] in
    let line = s.protocol ++ 32 ∷ (digits ++ 32 ∷ q) in
    let split : status_line s rest ≡ line ++ 10 ∷ rest =
      ap (λ (t : List ℕ). s.protocol ++ 32 ∷ (digits ++ 32 ∷ t))
        (sym (append_assoc s.status_text (13 ∷ []) (10 ∷ rest)))
      ∙ sym (append_assoc s.protocol (32 ∷ (digits ++ 32 ∷ q)) (10 ∷ rest)) in
    ap (strcspn (text "\n")) split
    ∙ strcspn-stop (text "\n") line 10 rest
        (Clear-append (text "\n") s.protocol (32 ∷ (digits ++ 32 ∷ q)) h.protocol_feed (
          clear_next refl (
            Clear-append (text "\n") digits (32 ∷ q) (Digits-feed digits (code-Digits s h)) (
              clear_next refl (
                Clear-append (text "\n") s.status_text (13 ∷ []) h.text_feed
                  (clear_next refl clear_end))))))
        refl
    ∙ ap done (
        let e : length line ≡ status_line_size s = omega (
          arith,
          length-append s.protocol (32 ∷ (digits ++ 32 ∷ q)),
          length-append s.status_text (13 ∷ []),
        ) in
        e)

pub length-status_line :
    (s : Status) (rest : List ℕ)
    → length (status_line s rest) ≡ status_line_size s + 1 + length rest
length-status_line s rest = omega (
  arith,
  length-append s.protocol (32 ∷ (code_text s ++ 32 ∷ (s.status_text ++ 13 ∷ 10 ∷ rest))),
  length-append s.status_text (13 ∷ 10 ∷ rest),
)

pub status_line-append :
    (s : Status) (rest : List ℕ) → status_line s rest ≡ status_line s [] ++ rest
status_line-append s rest = simp append_assoc refl

module _ (sys : System) (texts : HasTextMemory sys) where
  pub parse_response-status_line :
      (msg : HttpMessage sys) (s : Status) (rest : List ℕ)
      → IsStatus s
      → (index : ℕ) × (0 < index)
        × (parse_response_start_line sys msg (status_line s rest) (status_line_size s)
            ≡ done (
              record msg {
                protocol = some s.protocol;
                status_code = code s;
                status_text = some s.status_text;
              },
              index,
            ))
  parse_response-status_line msg s rest h =
      let p = s.protocol in
      let digits = code_text s in
      let t = s.status_text in
      let str = status_line s rest in
      let behind = t ++ 13 ∷ 10 ∷ rest in
      let second = digits ++ 32 ∷ behind in
      let before = p ++ 32 ∷ [] in
      let before' = before ++ (digits ++ 32 ∷ []) in
      let split : str ≡ before ++ second = sym (append_assoc p (32 ∷ []) second) in
      let split' : str ≡ before' ++ behind =
        split ∙ sym (append_assoc before (digits ++ 32 ∷ []) behind) in
      let at : length p + 1 ≡ length before = omega (arith, length-append p (32 ∷ [])) in
      let at' : length p + 1 + 3 + 1 ≡ length before' =
        omega (arith, at, length-append before (digits ++ 32 ∷ [])) in
      let here = drop-prefix before second (length p + 1) split at in
      let here' = drop-prefix before' behind (length p + 1 + 3 + 1) split' at' in
      (
        length p + 1 + 3 + 1 + length t,
        omega arith,
        parse_response_steps sys msg str (status_line_size s)
              (strcspn-stop (text " ") p 32 second h.protocol_space refl) (omega arith)
              (load_bytes-append [] p (32 ∷ second) 0 (length p) refl refl)
              (ap (strcspn (text " ")) here
                ∙ strcspn-stop (text " ") digits 32 behind (Digits-space digits (code-Digits s h))
                    refl)
              (ap (strncpy 3) here
                ∙ strncpy_three (48 + s.hundreds) (48 + s.tens) (48 + s.units) (32 ∷ behind)
                    (omega arith) (omega arith) (omega arith))
              (code_value s h)
              (ap (strcspn (text "\r")) here'
                ∙ strcspn-stop (text "\r") t 13 (10 ∷ rest) h.text_return refl)
              (ap (λ (u : List ℕ). load_bytes u (length p + 1 + 3 + 1) (length t)) split'
                ∙ load_bytes-append before' t (13 ∷ 10 ∷ rest) (length p + 1 + 3 + 1) (length t) at'
                    refl)
            ∙ ap done (
                rw
                  (
                    texts.str_dup_copy p (Clear-nul_free (text " ") p h.protocol_space),
                    texts.str_dup_copy t (Clear-nul_free (text "\r") t h.text_return),
                  )
                  refl),
      )
