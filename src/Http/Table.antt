-- ===== src/Http/Table.antt =====
-- A table of headers against the lines that it is written as.
use websocket_c.Common.{
  ℕ, ◌≡◌, refl, sym, ap, ◌∙◌, true, Bool-cases, inl, inr, Option, none, some, List, [], ◌∷◌,
  if◌then◌else◌, arith,
}
use websocket_c.Cstd.Text.{lower, text_equal, last_entry, AllFound}
use websocket_c.Http.HeaderLoop.{last_value}
use websocket_c.Http.Lines.{Line, IsLine, AllLines, no_lines, more_lines}
use websocket_c.Http.Written.{entries_of}
use websocket_c.System.{System, HasTextMemory}

pub text_equal_refl : (s : List ℕ) → text_equal s s ≡ true
text_equal_refl [] = refl
text_equal_refl (c ∷ s) = ground (arith, text_equal_refl s)

pub text_equal→≡ : (s t : List ℕ) → text_equal s t ≡ true → s ≡ t
text_equal→≡ [] [] e = refl
text_equal→≡ [] (y ∷ t) e = absurd (ground arith)
text_equal→≡ (x ∷ s) [] e = absurd (ground arith)
text_equal→≡ (x ∷ s) (y ∷ t) e =
    let same : x ≡ y = ground arith in
    ap (λ (c : ℕ). c ∷ s) same ∙ ap (◌∷◌ y) (text_equal→≡ s t (ground arith))

-- The value that the first of the lines with a key has.
abbrev pub first_value : List Line → List ℕ → Option (Option (List ℕ))
first_value [] j = none
first_value (line ∷ lines) j =
    if text_equal j line.0 then some (some line.1) else first_value lines j

-- The keys are in lower case.
abbrev pub AllLower : List Line → Type 0
AllLower [] = Unit
AllLower (line ∷ lines) = (lower line.0 ≡ line.0) × AllLower lines

abbrev in_option : Option (Option (List ℕ)) → Option (List ℕ)
in_option none = none
in_option (some v) = v

-- A value found stands in one of the lines.
found_line :
    (table : List Line) (k : List ℕ) (v : Option (List ℕ))
    → AllLines table
    → AllLower table
    → first_value table k ≡ some v
    → (line : Line) × IsLine line × (lower line.0 ≡ line.0) × (k ≡ line.0) × (v ≡ some line.1)
found_line [] k v no_lines low e = absurd (omega (arith, ap is_some (sym e)))
  where
    is_some : Option (Option (List ℕ)) → ℕ
    is_some none = 0
    is_some (some v) = 1
found_line (line ∷ table) k v (more_lines h hs) (l, ls) e =
    elim (Bool-cases (text_equal k line.0)) [
      | inl same ↦ (line, h, l, text_equal→≡ k line.0 same, ap in_option (sym (rw same at e)))
      | inr other ↦ found_line table k v hs ls (rw other at e)
    ]

module _ (sys : System) (texts : HasTextMemory sys) where
  -- The lines of entries that each have a value of the table.
  entries_lines :
      (table : List Line) (find : List ℕ → Option (Option (List ℕ)))
      (es : List (List ℕ × Option (List ℕ)))
      → AllLines table
      → AllLower table
      → ((j : List ℕ) → find j ≡ first_value table j)
      → AllFound find es
      → (lines : List Line) × (es ≡ entries_of lines)
        × AllLines lines
        × ((asked : List ℕ) (before : Option (Option (List ℕ)))
            → last_value sys texts lines asked before ≡ last_entry es asked before)
  entries_lines table find [] all low same found = ([], refl, no_lines, λ asked before. refl)
  entries_lines table find (e ∷ es) all low same (f, fs) =
      let (line, h, l, key, value) = found_line table e.0 e.1 all low (sym (same e.0) ∙ f) in
      let (lines, listed, hs, agree) = entries_lines table find es all low same fs in
      (
        line ∷ lines,
        (λ i. (key i, value i) ∷ listed i),
        more_lines h hs,
        λ asked before.
            agree asked (if text_equal asked (lower line.0) then some (some line.1) else before)
            ∙ ap
                (λ (k : List ℕ).
                  last_entry es asked (if text_equal asked k then some (some line.1) else before))
                (l ∙ sym key)
            ∙ ap
                (λ (v : Option (List ℕ)).
                  last_entry es asked (if text_equal asked e.0 then some v else before))
                (sym value),
      )

  -- A table of headers that has the values of some lines is written as lines that have these values.
  pub table_lines :
      (table : List Line) (map : sys.headers.HashMap)
      → AllLines table
      → AllLower table
      → ((j : List ℕ) → sys.headers.get map j ≡ first_value table j)
      → (lines : List Line) × (sys.headers.entries map ≡ entries_of lines)
        × AllLines lines
        × ((asked : List ℕ) → last_value sys texts lines asked none ≡ first_value table asked)
  table_lines table map all low same =
      let (lines, listed, hs, agree) =
        entries_lines table (sys.headers.get map) (sys.headers.entries map) all low same
          (texts.header_laws.entries_found map) in
      (
        lines,
        listed,
        hs,
        λ asked. agree asked none ∙ texts.header_laws.entries_value map asked ∙ same asked,
      )
