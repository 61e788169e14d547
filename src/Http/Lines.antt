-- ===== src/Http/Lines.antt =====
-- The header lines of a message, as text, and where the scans for its separators stop.
use websocket_c.Common.{
  ℕ, suc, ◌+◌, ◌≤◌, ◌≡◌, refl, sym, ap, ◌∙◌, true, List, [], ◌∷◌, ◌++◌, append_assoc, length,
  length-append, done, arith,
}
use websocket_c.Cstd.Text.{is_ascii, is_nul_free}
use websocket_c.CString.{text, strcspn}
use websocket_c.CString.Scan.{Clear, clear_end, clear_next, strcspn-stop}

-- A key and its value.
abbrev pub Line : Type 0
Line = List ℕ × List ℕ

-- A line with what comes behind it.
abbrev pub line_text : Line → List ℕ → List ℕ
line_text line rest = line.0 ++ 58 ∷ 32 ∷ (line.1 ++ 13 ∷ 10 ∷ rest)

-- The lines, the empty line, and what comes behind them.
abbrev pub head_text : List Line → List ℕ → List ℕ
head_text [] rest = 13 ∷ 10 ∷ rest
head_text (line ∷ lines) rest = line_text line (head_text lines rest)

-- The size of a line, and of the lines with the empty line.
abbrev pub line_size : Line → ℕ
line_size line = length line.0 + length line.1 + 4

abbrev pub head_size : List Line → ℕ
head_size [] = 2
head_size (line ∷ lines) = line_size line + head_size lines

abbrev pub line_count : List Line → ℕ
line_count [] = 0
line_count (line ∷ lines) = suc (line_count lines)

-- An ASCII key without ':' and line feed, a value without carriage return, line feed and NUL.
pub record IsLine (line : Line) : Type 0 where
  pub key_ascii : is_ascii line.0 ≡ true
  pub key_colon : Clear (text ":") line.0
  pub key_feed : Clear (text "\n") line.0
  pub value_nul : is_nul_free line.1 ≡ true
  pub value_return : Clear (text "\r") line.1
  pub value_feed : Clear (text "\n") line.1

pub data AllLines : List Line → Type 0 where
  no_lines : AllLines []
  more_lines :
      {line : Line} {lines : List Line} → IsLine line → AllLines lines → AllLines (line ∷ lines)

pub Clear-append : (reject s t : List ℕ) → Clear reject s → Clear reject t → Clear reject (s ++ t)
Clear-append reject [] t clear_end ht = ht
Clear-append reject (c ∷ s) t (clear_next h hs) ht = clear_next h (Clear-append reject s t hs ht)

-- From the start of a line, the line feed is at the end of the line.
pub line_feed :
    (line : Line) (rest : List ℕ)
    → IsLine line
    → strcspn (text "\n") (line_text line rest) ≡ done (length line.0 + length line.1 + 3)
line_feed line rest h =
    let tail = line.1 ++ 13 ∷ [] in
    let body = line.0 ++ 58 ∷ 32 ∷ tail in
    let split : line_text line rest ≡ body ++ 10 ∷ rest =
      ap (λ (t : List ℕ). line.0 ++ 58 ∷ 32 ∷ t) (sym (append_assoc line.1 (13 ∷ []) (10 ∷ rest)))
      ∙ sym (append_assoc line.0 (58 ∷ 32 ∷ tail) (10 ∷ rest)) in
    ap (strcspn (text "\n")) split
    ∙ strcspn-stop (text "\n") body 10 rest
        (Clear-append (text "\n") line.0 (58 ∷ 32 ∷ tail) h.key_feed (
          clear_next refl (
            clear_next refl (
              Clear-append (text "\n") line.1 (13 ∷ []) h.value_feed (clear_next refl clear_end)))))
        refl
    ∙ ap done (
        let e : length body ≡ length line.0 + length line.1 + 3 =
          omega (arith, length-append line.0 (58 ∷ 32 ∷ tail), length-append line.1 (13 ∷ [])) in
        e)

pub line_colon :
    (line : Line) (rest : List ℕ)
    → IsLine line
    → strcspn (text ":") (line_text line rest) ≡ done (length line.0)
line_colon line rest h =
    strcspn-stop (text ":") line.0 58 (32 ∷ (line.1 ++ 13 ∷ 10 ∷ rest)) h.key_colon refl

pub line_return :
    (line : Line) (rest : List ℕ)
    → IsLine line
    → strcspn (text "\r") (line.1 ++ 13 ∷ 10 ∷ rest) ≡ done (length line.1)
line_return line rest h = strcspn-stop (text "\r") line.1 13 (10 ∷ rest) h.value_return refl

pub length-head_text :
    (lines : List Line) (rest : List ℕ)
    → length (head_text lines rest) ≡ head_size lines + length rest
length-head_text [] rest = omega arith
length-head_text (line ∷ lines) rest = omega (
  arith,
  length-head_text lines rest,
  length-append line.0 (58 ∷ 32 ∷ (line.1 ++ 13 ∷ 10 ∷ head_text lines rest)),
  length-append line.1 (13 ∷ 10 ∷ head_text lines rest),
)

pub line_count_le : (lines : List Line) → line_count lines + 2 ≤ head_size lines
line_count_le [] = omega arith
line_count_le (line ∷ lines) = omega (arith, line_count_le lines)

pub head_text-append :
    (lines : List Line) (rest : List ℕ) → head_text lines rest ≡ head_text lines [] ++ rest
head_text-append [] rest = refl
head_text-append (line ∷ lines) rest =
    let tail = head_text lines [] in
    ap (λ (t : List ℕ). line.0 ++ 58 ∷ 32 ∷ (line.1 ++ 13 ∷ 10 ∷ t)) (head_text-append lines rest)
    ∙ ap (λ (t : List ℕ). line.0 ++ 58 ∷ 32 ∷ t) (sym (append_assoc line.1 (13 ∷ 10 ∷ tail) rest))
    ∙ sym (append_assoc line.0 (58 ∷ 32 ∷ (line.1 ++ 13 ∷ 10 ∷ tail)) rest)
