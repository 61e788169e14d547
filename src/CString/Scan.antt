-- ===== src/CString/Scan.antt =====
-- Where strcspn stops, and what atoi reads.
use websocket_c.Common.{
  ℕ, ◌+◌, ◌-◌, ◌*◌, ◌≤◌, ◌≡◌, refl, Bool, true, false, not, ◌&&◌, ◌||◌, List, [], ◌∷◌, ◌++◌, length,
  leb, ◌==◌, done, arith,
}
use websocket_c.CString.{is_one_of, strcspn, digits_value, atoi}

-- No NUL and none of the characters.
pub data Clear (reject : List ℕ) : List ℕ → Type 0 where
  clear_end : Clear reject []
  clear_next :
      {c : ℕ} {s : List ℕ}
      → ((c == 0) || is_one_of c reject) ≡ false
      → Clear reject s
      → Clear reject (c ∷ s)

pub data Digits : List ℕ → Type 0 where
  digits_end : Digits []
  digits_next : {c : ℕ} {s : List ℕ} → 48 ≤ c → c ≤ 57 → Digits s → Digits (c ∷ s)

pub strcspn-stop :
    (reject s : List ℕ) (c : ℕ) (rest : List ℕ)
    → Clear reject s
    → ((c == 0) || is_one_of c reject) ≡ true
    → strcspn reject (s ++ c ∷ rest) ≡ done (length s)
unfolding strcspn
strcspn-stop reject [] c rest clear_end e = rw (strcspn, e) refl
strcspn-stop reject (x ∷ s) c rest (clear_next h hs) e =
    rw (strcspn, h, strcspn-stop reject s c rest hs e) refl

pub Digits-Clear : (s : List ℕ) → Digits s → Clear (47 ∷ []) s
Digits-Clear [] digits_end = clear_end
Digits-Clear (c ∷ s) (digits_next a b hs) = clear_next (ground arith) (Digits-Clear s hs)

digits_value-end :
    (value : ℕ) (s rest : List ℕ)
    → Digits s
    → digits_value value (s ++ 0 ∷ rest) ≡ digits_value value s
digits_value-end value [] rest digits_end = refl
digits_value-end value (c ∷ s) rest (digits_next a b hs) =
    let digit : (leb 48 c && leb c 57) ≡ true = ground arith in
    rw (digits_value, digit) (digits_value-end (value * 10 + (c - 48)) s rest hs)

pub atoi-Digits : (s rest : List ℕ) → Digits s → atoi (s ++ 0 ∷ rest) ≡ digits_value 0 s
atoi-Digits [] rest digits_end = refl
atoi-Digits (c ∷ s) rest (digits_next a b hs) =
    let space : ((leb 9 c && leb c 13) || (c == 32)) ≡ false = ground arith in
    let minus : (c == 45) ≡ false = ground arith in
    let plus : (c == 43) ≡ false = ground arith in
    rw (atoi, space, minus, plus) (digits_value-end 0 (c ∷ s) rest (digits_next a b hs))

abbrev pub is_clear : List ℕ → List ℕ → Bool
is_clear reject [] = true
is_clear reject (c ∷ s) = not ((c == 0) || is_one_of c reject) && is_clear reject s

pub is_clear-Clear : (reject s : List ℕ) → is_clear reject s ≡ true → Clear reject s
is_clear-Clear reject [] e = clear_end
is_clear-Clear reject (c ∷ s) e = clear_next (ground arith) (is_clear-Clear reject s (ground arith))
