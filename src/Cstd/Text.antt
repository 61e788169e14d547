-- ===== src/Cstd/Text.antt =====
-- The interface of the cstd library: Unicode strings (unicode_str.h), string builders
-- (base_str.h) and hash maps (hash_map.h). A string is the list of its characters before the NUL.
use websocket_c.Common.{
  ℕ, ◌≡◌, Bool, List, [], ◌∷◌, ◌++◌, Option, none, some, leb, ◌==◌, ◌&&◌, ◌||◌, if◌then◌else◌, ◌+◌,
  map, length,
}

-- unicode_str_create, unicode_str_set_char (with the number of bytes set), unicode_str_to_lower
-- and unicode_str_to_cstr
pub record Unicodes : Type 1 where
  pub Unicode : Type 0
  pub create : Unicode
  pub set_char : Unicode → List ℕ → Unicode × ℕ
  pub to_lower : Unicode → Option Unicode
  pub to_cstr : Unicode → Option (List ℕ)

-- new_base_str, append and copy of a base_str; `chars` are the characters appended so far.
pub record Builders : Type 1 where
  pub Builder : Type 0
  pub new : ℕ → Option Builder
  pub append : Builder → List ℕ → Builder
  pub copy : Builder → Option (List ℕ)
  pub chars : Builder → List ℕ

-- hash_map_create, hash_map_set, hash_map_get and the entries that an iterator gives, in its
-- order. A value is a `char *`.
pub record HashMaps : Type 1 where
  pub HashMap : Type 0
  pub create : ℕ → Option HashMap
  pub set : HashMap → List ℕ → Option (List ℕ) → Option HashMap
  pub get : HashMap → List ℕ → Option (Option (List ℕ))
  pub entries : HashMap → List (List ℕ × Option (List ℕ))

-- A letter of ASCII in lower case.
abbrev pub lower_char : ℕ → ℕ
lower_char c = if leb 65 c && leb c 90 then c + 32 else c

abbrev pub lower : List ℕ → List ℕ
lower s = map lower_char s

-- Every character is of ASCII, and none is NUL.
abbrev pub is_ascii : List ℕ → Bool
is_ascii [] = Bool.true
is_ascii (c ∷ s) = (leb 1 c && leb c 127) && is_ascii s

-- Only letters, digits, '+', '/' and '='.
abbrev pub is_base64 : List ℕ → Bool
is_base64 [] = Bool.true
is_base64 (c ∷ s) =
    ((leb 65 c && leb c 90)
      || (leb 97 c && leb c 122)
      || (leb 47 c && leb c 57)
      || (c == 43)
      || (c == 61))
    && is_base64 s

-- No character is NUL.
abbrev pub is_nul_free : List ℕ → Bool
is_nul_free [] = Bool.true
is_nul_free (c ∷ s) = leb 1 c && is_nul_free s

abbrev pub text_equal : List ℕ → List ℕ → Bool
text_equal [] [] = Bool.true
text_equal [] (y ∷ t) = Bool.false
text_equal (x ∷ s) [] = Bool.false
text_equal (x ∷ s) (y ∷ t) = (x == y) && text_equal s t

-- With memory enough: an ASCII string is set whole, and its lower case is that of its letters.
pub record IsUnicodes (ops : Unicodes) : Type 0 where
  pub set_all : (s : List ℕ) → is_ascii s ≡ Bool.true → (ops.set_char ops.create s).1 ≡ length s
  pub lower_ascii :
      (s : List ℕ)
      → is_ascii s ≡ Bool.true
      → (u : ops.Unicode) × (ops.to_lower (ops.set_char ops.create s).0 ≡ some u)
        × (ops.to_cstr u ≡ some (lower s))

-- With memory enough: `append` appends, and `copy` gives all that was appended.
pub record IsBuilders (ops : Builders) : Type 0 where
  pub new_grants : (n : ℕ) → (b : ops.Builder) × (ops.new n ≡ some b) × (ops.chars b ≡ [])
  pub append_chars : (b : ops.Builder) (s : List ℕ) → ops.chars (ops.append b s) ≡ ops.chars b ++ s
  pub copy_chars : (b : ops.Builder) → ops.copy b ≡ some (ops.chars b)

-- The value of the last of the entries with a key, or the one before them.
abbrev pub last_entry :
    List (List ℕ × Option (List ℕ)) → List ℕ → Option (Option (List ℕ)) → Option (Option (List ℕ))
last_entry [] j before = before
last_entry (e ∷ es) j before = last_entry es j (if text_equal j e.0 then some e.1 else before)

-- Each of the entries has the value that a look-up gives.
abbrev pub AllFound : (List ℕ → Option (Option (List ℕ))) → List (List ℕ × Option (List ℕ)) → Type 0
AllFound find [] = Unit
AllFound find (e ∷ es) = (find e.0 ≡ some e.1) × AllFound find es

-- With memory enough: a new map is empty, `set` changes the value at one key, and the entries are
-- the keys with their values.
pub record IsHashMaps (ops : HashMaps) : Type 0 where
  pub create_grants :
      (n : ℕ) → (m : ops.HashMap) × (ops.create n ≡ some m) × ((k : List ℕ) → ops.get m k ≡ none)
  pub set_grants :
      (m : ops.HashMap) (k : List ℕ) (v : Option (List ℕ))
      → (m' : ops.HashMap) × (ops.set m k v ≡ some m')
  pub get_set :
      (m m' : ops.HashMap) (k : List ℕ) (v : Option (List ℕ))
      → ops.set m k v ≡ some m'
      → (j : List ℕ) → ops.get m' j ≡ (if text_equal j k then some v else ops.get m j)
  pub entries_value :
      (m : ops.HashMap) (j : List ℕ) → last_entry (ops.entries m) j none ≡ ops.get m j
  pub entries_found : (m : ops.HashMap) → AllFound (ops.get m) (ops.entries m)
