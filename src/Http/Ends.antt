-- ===== src/Http/Ends.antt =====
-- Reading a text ends, whatever the text.
use websocket_c.Common.{
  ℕ, zero, suc, ◌+◌, ◌-◌, ◌<◌, ◌≢◌, ◌||◌, Option, none, some, List, [], ◌∷◌, length, drop, leb, ltb,
  ◌==◌, Bool-cases, Option-cases, inl, inr, timeout, load, load_bytes, get_elem?, arith,
}
use websocket_c.Common.Runs.{Ends, Ends-bind, Ends-if, Ends-no_timeout}
use websocket_c.CString.{text, is_one_of, strcspn, c_string}
use websocket_c.Cstd.{ByteArray}
use websocket_c.Http.{
  HttpMessage, http_message_get_header, http_message_set_header, insert_body, normalized_cstr,
}
use websocket_c.Http.Parse.{header_loop, http_message_from_str}
use websocket_c.System.{System}

strcspn-Ends : (reject s : List ℕ) → Ends (strcspn reject s)
unfolding strcspn
strcspn-Ends reject [] = tt
strcspn-Ends reject (c ∷ s) = elim (Bool-cases ((c == 0) || is_one_of c reject)) [
  | inl e ↦ rw (strcspn, e) tt
  | inr e ↦ rw (strcspn, e) (Ends-bind (strcspn reject s) _ (strcspn-Ends reject s) (λ n. tt))
]

load_bytes-Ends : (buf : List ℕ) (i n : ℕ) → Ends (load_bytes buf i n)
unfolding load_bytes
load_bytes-Ends buf i n = Ends-if (leb (i + n) (length buf)) _ _ tt tt

load-Ends : (buf : List ℕ) (i : ℕ) → Ends (load buf i)
unfolding load
load-Ends buf i = elim (Option-cases (get_elem? buf i)) [
  | inl e ↦ rw (load, e) tt
  | inr (b, e) ↦ rw (load, e) tt
]

c_string-Ends : (s : Option (List ℕ)) → Ends (c_string s)
c_string-Ends none = tt
c_string-Ends (some s) = tt

module _ (sys : System) where
  get_header-Ends :
      (msg : HttpMessage sys) (key : List ℕ) (out : Option (List ℕ))
      → Ends (http_message_get_header sys msg key out)
  unfolding http_message_get_header
  get_header-Ends msg key out = elim (Option-cases msg.headers) [
    | inl e ↦ rw (http_message_get_header, e) tt
    | inr (map, e) ↦ elim (Option-cases (normalized_cstr sys key)) [
      | inl f ↦ rw (http_message_get_header, e, f) tt
      | inr (k, f) ↦ rw (http_message_get_header, e, f) tt
    ]
  ]

  set_header-Ends :
      (msg : HttpMessage sys) (key value : List ℕ)
      → Ends (http_message_set_header sys msg key value)
  unfolding http_message_set_header
  set_header-Ends msg key value =
      Ends-bind (http_message_get_header sys msg key none) _ (get_header-Ends msg key none)
        (λ found. elim (Option-cases msg.headers) [
          | inl e ↦ rw e tt
          | inr (map, e) ↦ elim (Option-cases (normalized_cstr sys key)) [
            | inl f ↦ rw (e, f) tt
            | inr (k, f) ↦ elim (Option-cases (sys.headers.set map k (sys.str_dup value))) [
              | inl g ↦ rw (e, f, g) tt
              | inr (m, g) ↦ rw (e, f, g) tt
            ]
          ]
        ])

  insert_body-Ends :
      (str : List ℕ) (left index : ℕ) (body : ByteArray)
      → Ends (insert_body sys str left index body)
  unfolding insert_body
  insert_body-Ends str zero index body = tt
  insert_body-Ends str (suc left) index body =
      Ends-bind (load str index) _ (load-Ends str index) (λ b.
        elim (Option-cases (sys.arrays.insert body b)) [
          | inl e ↦ rw e tt
          | inr (longer, e) ↦ rw e (insert_body-Ends str left (index + 1) longer)
        ])

  header_loop-Ends :
      (fuel : ℕ) (msg : HttpMessage sys) (str : List ℕ) (len index : ℕ)
      → len < fuel + index
      → 0 < fuel
      → Ends (header_loop sys fuel msg str len index)
  unfolding header_loop
  header_loop-Ends zero msg str len index enough some_fuel = absurd (omega arith)
  header_loop-Ends (suc fuel) msg str len index enough some_fuel =
      elim (Bool-cases (ltb index len)) [
        | inr e ↦ rw (header_loop, e) tt
        | inl e ↦
            rw (header_loop, e)
              (Ends-bind (strcspn (text "\n") (drop index str)) _ (strcspn-Ends _ _) (λ line_len.
                Ends-if (line_len == 1) _ _ tt (
                  Ends-bind (strcspn (text ":") (drop index str)) _ (strcspn-Ends _ _) (λ key_len.
                    Ends-bind (load_bytes str index key_len) _ (load_bytes-Ends _ _ _) (λ key.
                      let after_key = index + key_len + 2 in
                      Ends-bind (strcspn (text "\r") (drop after_key str)) _ (strcspn-Ends _ _)
                        (λ value_len.
                          Ends-bind (load_bytes str after_key value_len) _ (load_bytes-Ends _ _ _)
                            (λ value.
                              Ends-bind (c_string (sys.str_dup key)) _ (c_string-Ends _) (λ k.
                                Ends-bind (c_string (sys.str_dup value)) _ (c_string-Ends _) (λ v.
                                  Ends-bind (http_message_set_header sys msg k v) _
                                    (set_header-Ends msg k v)
                                    (λ set. elim (Bool-cases set.1) [
                                      | inr f ↦ rw f tt
                                      | inl f ↦ rw f (
                                          header_loop-Ends fuel set.0 str len
                                            (after_key + value_len + 2) (omega arith)
                                            (let t : 0 < fuel = ground arith in t))
                                    ]))))))))))
      ]

  -- For every message, text, length and offset: `http_message_from_str` does not run out of the
  -- rounds allowed, so its loop over the headers ends.
  pub http_message_from_str-no_timeout :
      (msg : HttpMessage sys) (str : List ℕ) (len offset : ℕ)
      → http_message_from_str sys msg str len offset ≢ timeout
  unfolding http_message_from_str
  http_message_from_str-no_timeout msg str len offset =
      Ends-no_timeout (http_message_from_str sys msg str len offset) (
        Ends-bind (header_loop sys (suc len) msg str len offset) _
          (header_loop-Ends (suc len) msg str len offset (omega arith) (omega arith))
          (λ read.
            Ends-if read.2 _ _
              (Ends-bind (insert_body sys str (len - read.1) read.1 read.0.body) _
                (insert_body-Ends str (len - read.1) read.1 read.0.body) (λ body. tt))
              tt))
