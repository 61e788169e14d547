-- ===== src/CString.antt =====
-- The string functions of the C standard library that the program uses. A block that a `char *`
-- points into holds its NUL; a string without its NUL is the list of the characters before it.
pub mod Scan
use Prim.Native.Char.{code}
use Prim.Native.String.{String}
use websocket_c.Common.{
  ℕ, zero, suc, ◌+◌, ◌-◌, ◌*◌, ◌/◌, ◌%◌, ◌^◌, Bool, true, false, ◌&&◌, ◌||◌, Option, none, some,
  List, [], ◌∷◌, ◌++◌, ltb, leb, ◌==◌, if◌then◌else◌, replicate, Run, done, fault, ◌>>=◌,
}

-- The characters of a literal.
abbrev pub text : String → List ℕ
text String.[] = []
text (String.◌∷◌ c s) = code c ∷ text s

-- strncmp(prefix, s, strlen(prefix)) == 0, reading `s` up to the first difference
abbrev pub starts_with : List ℕ → List ℕ → Run Bool
starts_with [] s = done true
starts_with (p ∷ prefix) [] = fault
starts_with (p ∷ prefix) (c ∷ s) = elim (p == c) [
  | true ↦ starts_with prefix s
  | false ↦ done false
]

abbrev pub is_one_of : ℕ → List ℕ → Bool
is_one_of c [] = false
is_one_of c (x ∷ xs) = (c == x) || is_one_of c xs

-- strcspn(s, reject)
unfoldable pub strcspn : List ℕ → List ℕ → Run ℕ
strcspn reject [] = fault
strcspn reject (c ∷ s) = elim ((c == 0) || is_one_of c reject) [
  | true ↦ done 0
  | false ↦ do n ← strcspn reject s; done (suc n)
]

-- The digits at the start of a string, after a value read so far.
abbrev pub digits_value : ℕ → List ℕ → ℕ
digits_value value [] = value
digits_value value (c ∷ s) = elim (leb 48 c && leb c 57) [
  | true ↦ digits_value (value * 10 + (c - 48)) s
  | false ↦ value
]

abbrev pub signed_value : List ℕ → ℕ
signed_value [] = 0
signed_value (c ∷ s) =
    if c == 45
    then (2 ^ 32 - digits_value 0 s) % 2 ^ 32
    else if c == 43
    then digits_value 0 s
    else digits_value 0 (c ∷ s)

-- (unsigned int)atoi(s), for values that fit in an int
abbrev pub atoi : List ℕ → ℕ
atoi [] = 0
atoi (c ∷ s) = elim ((leb 9 c && leb c 13) || (c == 32)) [
  | true ↦ atoi s
  | false ↦ signed_value (c ∷ s)
]

-- strncpy(dest, s, n): the n bytes written, with NULs from the end of the string on.
unfoldable pub strncpy : ℕ → List ℕ → Run (List ℕ)
strncpy zero s = done []
strncpy (suc n) [] = fault
strncpy (suc n) (c ∷ s) = elim (c == 0) [
  | true ↦ done (replicate (suc n) 0)
  | false ↦ do rest ← strncpy n s; done (c ∷ rest)
]

-- Whether strncmp(s, t, n) == 0, for two strings without their NUL.
unfoldable pub strncmp_equal : ℕ → List ℕ → List ℕ → Bool
strncmp_equal zero s t = true
strncmp_equal (suc n) [] [] = true
strncmp_equal (suc n) [] (y ∷ t) = false
strncmp_equal (suc n) (x ∷ s) [] = false
strncmp_equal (suc n) (x ∷ s) (y ∷ t) = (x == y) && strncmp_equal n s t

-- What "%d" prints for a number of at most `fuel` digits.
unfoldable pub decimal_digits : ℕ → ℕ → List ℕ
decimal_digits zero n = []
decimal_digits (suc fuel) n =
    let front = decimal_digits fuel (n / 10) in
    if ltb n 10 then (48 + n) ∷ [] else front ++ (48 + n % 10) ∷ []

-- "%d" for a uint16_t
abbrev pub decimal : ℕ → List ℕ
decimal n = decimal_digits 5 n

-- The string behind a pointer; a null pointer has none.
abbrev pub c_string : Option (List ℕ) → Run (List ℕ)
c_string none = fault
c_string (some s) = done s
