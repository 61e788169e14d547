-- ===== src/Http/Methods.antt =====
-- `http_method_get_enum` and `http_method_get_string` against each other.
use websocket_c.Common.{
  ℕ, ◌≡◌, ◌≢◌, ◌↔◌, refl, sym, ap, ◌∙◌, ◌⊎◌, inl, inr, Bool, true, false, List, [], ◌∷◌, ◌++◌, ◌==◌,
  Bool-cases, if◌then◌else◌, Run, done, fault, timeout, ◌>>=◌, arith,
}
use websocket_c.CString.{text, starts_with}
use websocket_c.Http.{
  HttpMethod, invalid_method, get, post, put, delete, options, http_method_get_string,
  http_method_get_enum,
}

abbrev result_or {ℓ} : {A : Type ℓ} → A → Run A → A
result_or d (done a) = a
result_or d fault = d
result_or d timeout = d

abbrev returns {ℓ} : {A : Type ℓ} → Run A → Bool
returns (done a) = true
returns fault = false
returns timeout = false

starts_with-append :
    (prefix s : List ℕ) → starts_with prefix s ≡ done true → (rest : List ℕ) × (s ≡ prefix ++ rest)
starts_with-append [] s e = (s, refl)
starts_with-append (p ∷ prefix) [] e =
    let never : false ≡ true = ap returns e in absurd (ground arith)
starts_with-append (p ∷ prefix) (c ∷ s) e = elim (Bool-cases (p == c)) [
  | inl same ↦
      let (rest, split) = starts_with-append prefix s (rw (starts_with, same) at e) in
      let equal : c ≡ p = ground arith in
      (rest, ap (◌∷◌ c) split ∙ ap (λ (t : ℕ). t ∷ (prefix ++ rest)) equal)
  | inr other ↦ absurd (ground arith)
]

-- One test of the chain: it succeeds and gives its method, or the rest of the chain does.
tested :
    (prefix s : List ℕ) (a m : HttpMethod) (others : Run HttpMethod)
    → prefix ≡ http_method_get_string a
    → (do found ← starts_with prefix s; if found then done a else others) ≡ done m
    → ((rest : List ℕ) × (s ≡ http_method_get_string m ++ rest)) ⊎ (others ≡ done m)
tested prefix s a m others spelled e = decided (starts_with prefix s) refl e
  where
    decided :
        (r : Run Bool)
        → starts_with prefix s ≡ r
        → (r >>= λ found. if found then done a else others) ≡ done m
        → ((rest : List ℕ) × (s ≡ http_method_get_string m ++ rest)) ⊎ (others ≡ done m)
    decided (done true) f e =
        let (rest, split) = starts_with-append prefix s f in
        inl (rest, split ∙ ap (◌++ rest) (spelled ∙ ap http_method_get_string (ap (result_or a) e)))
    decided (done false) f e = inr e
    decided fault f e = let never : false ≡ true = ap returns e in absurd (ground arith)
    decided timeout f e = let never : false ≡ true = ap returns e in absurd (ground arith)

enum_found :
    (s : List ℕ) (m : HttpMethod)
    → http_method_get_enum s ≡ done m
    → m ≢ invalid_method
    → (rest : List ℕ) × (s ≡ http_method_get_string m ++ rest)
unfolding http_method_get_enum http_method_get_string
enum_found s m e valid = elim (tested (text "GET") s get m _ refl e) [
  | inl found ↦ found
  | inr e1 ↦ elim (tested (text "POST") s post m _ refl e1) [
    | inl found ↦ found
    | inr e2 ↦ elim (tested (text "PUT") s put m _ refl e2) [
      | inl found ↦ found
      | inr e3 ↦ elim (tested (text "DELETE") s delete m _ refl e3) [
        | inl found ↦ found
        | inr e4 ↦ elim (tested (text "OPTIONS") s options m _ refl e4) [
          | inl found ↦ found
          | inr e5 ↦ absurd (valid (sym (ap (result_or get) e5)))
        ]
      ]
    ]
  ]
]

pub enum_prefix :
    (m : HttpMethod) (rest : List ℕ)
    → m ≢ invalid_method
    → http_method_get_enum (http_method_get_string m ++ rest) ≡ done m
unfolding http_method_get_enum http_method_get_string
enum_prefix invalid_method rest valid = absurd (valid refl)
enum_prefix get rest valid = refl
enum_prefix post rest valid = refl
enum_prefix put rest valid = refl
enum_prefix delete rest valid = refl
enum_prefix options rest valid = refl

-- For every method but HTTP_INVALID_METHOD and every text in memory: `http_method_get_enum` returns
-- the method exactly when the text starts with the method's string, whatever follows.
pub http_method_get_enum-string :
    (m : HttpMethod) (s : List ℕ)
    → m ≢ invalid_method
    → (http_method_get_enum s ≡ done m) ↔ ((rest : List ℕ) × (s ≡ http_method_get_string m ++ rest))
http_method_get_enum-string m s valid = (
  λ e. enum_found s m e valid,
  λ found. ap http_method_get_enum found.1 ∙ enum_prefix m found.0 valid,
)
