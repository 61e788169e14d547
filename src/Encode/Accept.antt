-- ===== src/Encode/Accept.antt =====
-- src/encode.c: what `base64_encode` and `check_response_noonce` compute.
use websocket_c.Common.{
  ℕ, ◌+◌, ◌^◌, ◌<◌, ◌≡◌, ◌↔◌, refl, sym, ap, ◌∙◌, Bool, true, false, ◌||◌, some, List, [], ◌∷◌,
  ◌++◌, append-nil, length, length-append, length-drop, take-append, drop, ◌==◌, Run, done, fault,
  timeout, store_bytes, store, load_bytes, store_bytes_next, load_bytes-append, arith,
}
use mathlib.Core.Option.{some-injective}
use websocket_c.CString.{strncmp_equal}
use websocket_c.Encode.{
  response_noonce, ws_key_uuid, copy_encoded, base64_encode, check_accept, check_response_noonce,
}
use websocket_c.System.{System, HasMemory, HasEncoding}

pub strncmp_prefix :
    (t s : List ℕ) → strncmp_equal (length t) s t ≡ true → (rest : List ℕ) × (s ≡ t ++ rest)
unfolding strncmp_equal
strncmp_prefix [] s e = (s, refl)
strncmp_prefix (y ∷ t) [] e = absurd (ground arith)
strncmp_prefix (y ∷ t) (x ∷ s) e =
    let (rest, split) = strncmp_prefix t s (ground arith) in
    let same : x ≡ y = ground arith in
    (rest, ap (◌∷◌ x) split ∙ ap (λ (c : ℕ). c ∷ (t ++ rest)) same)

pub strncmp-append : (t rest : List ℕ) → strncmp_equal (length t) (t ++ rest) t ≡ true
unfolding strncmp_equal
strncmp-append [] rest = refl
strncmp-append (y ∷ t) rest = ground (arith, strncmp-append t rest)

pub empty_list : (xs : List ℕ) → length xs ≡ 0 → xs ≡ []
empty_list [] e = refl
empty_list (x ∷ xs) e = absurd (omega arith)

is_yes : Run Bool → Bool
is_yes (done b) = b
is_yes fault = false
is_yes timeout = false

pub answers_prefix :
    (s t : List ℕ) (r : Run Bool)
    → r ≡ done (strncmp_equal (length t) s t)
    → (r ≡ done true) ↔ ((rest : List ℕ) × (s ≡ t ++ rest))
unfolding is_yes
answers_prefix s t r e = (
  λ yes. strncmp_prefix t s (ap is_yes (sym e ∙ yes)),
  λ split.
      e
      ∙ ap done
          (ap (λ (u : List ℕ). strncmp_equal (length t) u t) split.1 ∙ strncmp-append t split.0),
)

-- A block filled with a string and a NUL behind it.
pub fills_block :
    (block s : List ℕ)
    → length block ≡ length s + 1
    → (copied : List ℕ) × (store_bytes block 0 s ≡ done copied)
      × (store copied (length s) 0 ≡ done (s ++ 0 ∷ []))
fills_block block s size =
    let left = drop (length s) block in
    let one : length left ≡ 1 = omega (arith, length-drop (length s) block, size) in
    (
      s ++ left,
      store_bytes_next [] block s 0 refl refl (omega (arith, size)),
      store_bytes_next s left (0 ∷ []) (length s) refl refl (omega (arith, one))
          ∙ ap (λ (t : List ℕ). done ((s ++ 0 ∷ []) ++ t))
              (empty_list (drop 1 left) (omega (arith, length-drop 1 left, one)))
          ∙ ap done (append-nil (s ++ 0 ∷ [])),
    )

module _ (sys : System) (mem : HasMemory sys) where
  pub copy_encoded-copy :
      (encoded : List ℕ)
      → length encoded < 2 ^ 62
      → copy_encoded sys encoded ≡ done (some encoded, length encoded)
  unfolding copy_encoded
  copy_encoded-copy encoded small =
      let n = length encoded in
      let (block, granted) = mem.malloc_grants (n + 1) (omega arith) in
      let (copied, first, second) =
        fills_block block encoded (mem.malloc_size (n + 1) block granted) in
      rw (copy_encoded, granted, first, second, take-append encoded (0 ∷ [])) refl

  pub base64_encode-ssl :
      (buf : List ℕ) (n before : ℕ)
      → sys.use_ssl ≡ true
      → n ≡ length buf
      → 0 < n
      → length (sys.bio_base64 buf) < 2 ^ 62
      → base64_encode sys (some buf) n before
        ≡ done (some (sys.bio_base64 buf), length (sys.bio_base64 buf))
  unfolding base64_encode
  base64_encode-ssl buf n before ssl e some_bytes small =
      simp
        (
          base64_encode,
          let t : (n == 0) ≡ false = ground arith in t,
          ssl,
          ap (λ (t : List ℕ). load_bytes t 0 n) (sym (append-nil buf))
              ∙ load_bytes-append [] buf [] 0 n refl e,
          copy_encoded-copy (sys.bio_base64 buf) small,
        )
        refl

  check_accept-digest :
      (enc : HasEncoding sys) (buf answer digest : List ℕ) (n m : ℕ)
      → sys.use_ssl ≡ true
      → n ≡ length buf
      → 0 < n
      → n < 2 ^ 60
      → sys.sha1 (sys.bio_base64 buf ++ ws_key_uuid) ≡ some digest
      → check_accept sys buf n answer m ≡ done (strncmp_equal m (sys.bio_base64 digest) answer)
  unfolding check_accept
  check_accept-digest enc buf answer digest n m ssl e some_bytes small hashed =
      let encoded = sys.bio_base64 buf in
      let (digest', hashed', twenty) = enc.sha1_digest (encoded ++ ws_key_uuid) in
      let same : length digest ≡ 20 =
        ap length (some-injective digest digest' (sym hashed ∙ hashed')) ∙ twenty in
      let size = enc.base64_length digest in
      rw
        (
          check_accept,
          base64_encode-ssl buf n 0 ssl e some_bytes (omega (arith, enc.base64_length buf, e)),
          enc.concat_append encoded ws_key_uuid,
          let t : (length (encoded ++ ws_key_uuid) == 0) ≡ false =
                ground (arith, length-append encoded ws_key_uuid) in
              t,
          hashed,
          base64_encode-ssl digest 20 0 ssl (sym same) (omega arith) (omega (arith, size, same)),
          let t : (length (sys.bio_base64 digest) == 0) ≡ false = ground (arith, size, same) in t,
        )
        refl

  -- In a build with WEBC_USE_SSL, for random bytes whose base64 with the key of the RFC has the
  -- digest given, an answer that is not empty, and memory enough: `check_response_noonce` accepts
  -- exactly the answers that base64 of the digest starts with, so one character can be enough.
  pub check_response_noonce-prefix :
      (enc : HasEncoding sys) (buf answer digest : List ℕ)
      → sys.use_ssl ≡ true
      → 0 < length buf
      → length buf < 2 ^ 60
      → 0 < length answer
      → sys.sha1 (sys.bio_base64 buf ++ ws_key_uuid) ≡ some digest
      → (check_response_noonce sys (some buf) (length buf) (some answer) (length answer)
          ≡ done true)
        ↔ ((rest : List ℕ) × (sys.bio_base64 digest ≡ answer ++ rest))
  unfolding check_response_noonce
  check_response_noonce-prefix enc buf answer digest ssl some_bytes small some_chars hashed =
      answers_prefix (sys.bio_base64 digest) answer _ (
        simp
          (
            check_response_noonce,
            let t : ((length buf == 0) || (length answer == 0)) ≡ false = ground arith in t,
            ssl,
            check_accept-digest enc buf answer digest (length buf) (length answer) ssl refl
                some_bytes small hashed,
          )
          refl)

module _ (sys : System) where
  -- In a build without WEBC_USE_SSL, for any bytes and an answer, neither empty:
  -- `check_response_noonce` accepts exactly the answers that start with RESPONSE_NOONCE.
  pub check_response_noonce-plain :
      (buf answer : List ℕ)
      → sys.use_ssl ≡ false
      → 0 < length buf
      → 0 < length answer
      → (check_response_noonce sys (some buf) (length buf) (some answer) (length answer)
          ≡ done true)
        ↔ ((rest : List ℕ) × (answer ≡ response_noonce ++ rest))
  unfolding check_response_noonce
  check_response_noonce-plain buf answer plain some_bytes some_chars =
      answers_prefix answer response_noonce _ (
        rw (let t : ((length buf == 0) || (length answer == 0)) ≡ false = ground arith in t, plain)
          refl)
