-- ===== src/Client/HandshakeText.antt =====
-- The request that the opening handshake sends, as its reader takes it.
use websocket_c.Common.{
  ℕ, ◌≡◌, refl, sym, ap, ◌∙◌, Bool, true, false, Option, some, List, [], ◌∷◌, length, ◌==◌,
  if◌then◌else◌, done, arith, inl, inr, Bool-cases,
}
use websocket_c.Client.{Internal, Client}
use websocket_c.Client.Handshake.{set_key_headers, set_handshake_headers}
use websocket_c.CString.{text, decimal}
use websocket_c.CString.Scan.{Clear, clear_end, clear_next}
use websocket_c.Cstd.Text.{is_ascii, is_base64, is_nul_free, lower, text_equal}
use websocket_c.Encode.{request_noonce, base64_encode, populate_rand}
use websocket_c.Encode.Accept.{base64_encode-ssl}
use websocket_c.Http.{HttpRequest, http_request_set_header}
use websocket_c.Http.Headers.{set_header-set}
use websocket_c.Http.Lines.{Line}
use websocket_c.Http.Table.{first_value}
use websocket_c.System.{System, HasMemory, HasTextMemory, HasEncoding}

-- The headers of the request, with the key and the version.
abbrev pub key_headers : List ℕ → ℕ → List Line
key_headers key version =
    (text "sec-websocket-version", decimal version)
    ∷ (text "sec-websocket-key", key)
    ∷ (text "connection", text "Upgrade")
    ∷ (text "upgrade", text "websocket")
    ∷ []

pub is_base64-Clear :
    (s : List ℕ)
    → is_base64 s ≡ true
    → Clear (text "\r") s × Clear (text "\n") s × (is_nul_free s ≡ true)
is_base64-Clear [] e = (clear_end, clear_end, refl)
is_base64-Clear (c ∷ s) e =
    let (r, n, f) = is_base64-Clear s (ground arith) in
    (clear_next (ground arith) r, clear_next (ground arith) n, ground (arith, f))

module _ (sys : System) (mem : HasMemory sys) (texts : HasTextMemory sys)
    (enc : HasEncoding sys) where
  -- One header set in a request, and the table afterwards.
  pub set_one :
      (req : HttpRequest sys) (map : sys.headers.HashMap) (table : List Line) (key value : List ℕ)
      → req.message.headers ≡ some map
      → ((j : List ℕ) → sys.headers.get map j ≡ first_value table j)
      → is_ascii key ≡ true
      → is_nul_free value ≡ true
      → (map' : sys.headers.HashMap) × (http_request_set_header sys req key value
          ≡ done (record { message = record req.message { headers = some map' } }, true))
        × ((j : List ℕ) → sys.headers.get map' j ≡ first_value ((lower key, value) ∷ table) j)
  unfolding http_request_set_header
  set_one req map table key value e same ascii free =
      let (map', granted, ran) = set_header-set sys texts req.message map key value e ascii free in
      (
        map',
        rw (http_request_set_header, ran) refl,
        λ j.
            texts.header_laws.get_set map map' (lower key) (some value) granted j
            ∙ ap
                (λ (o : Option (Option (List ℕ))).
                  if text_equal j (lower key) then some (some value) else o)
                (same j),
      )

  -- What the noonce is sent as.
  abbrev pub noonce_key : List ℕ → List ℕ
  noonce_key noonce = if sys.use_ssl then sys.bio_base64 noonce else request_noonce

  pub base64_encode-key :
      (noonce : List ℕ)
      → length noonce ≡ 16
      → (base64_encode sys (some noonce) 16 0
          ≡ done (some (noonce_key noonce), length (noonce_key noonce)))
        × (is_base64 (noonce_key noonce) ≡ true)
        × ((length (noonce_key noonce) == 0) ≡ false)
  unfolding base64_encode
  base64_encode-key noonce size = elim (Bool-cases sys.use_ssl) [
    | inl ssl ↦
        let long : length (sys.bio_base64 noonce) ≡ 24 =
          omega (arith, enc.base64_length noonce, size) in
        let e : noonce_key noonce ≡ sys.bio_base64 noonce =
          ap (λ (b : Bool). if b then sys.bio_base64 noonce else request_noonce) ssl in
        (
          base64_encode-ssl sys mem noonce 16 0 ssl (sym size) (omega arith) (omega (arith, long))
              ∙ ap (λ (k : List ℕ). done (some k, length k)) (sym e),
          ap is_base64 e ∙ enc.base64_letters noonce,
          ap (λ (k : List ℕ). length k == 0) e
              ∙ (let t : (length (sys.bio_base64 noonce) == 0) ≡ false = ground (arith, long) in t),
        )
    | inr plain ↦
        let e : noonce_key noonce ≡ request_noonce =
          ap (λ (b : Bool). if b then sys.bio_base64 noonce else request_noonce) plain in
        (
          simp (base64_encode, plain, texts.str_dup_copy request_noonce refl) refl
              ∙ ap (λ (k : List ℕ). done (some k, length k)) (sym e),
          ap is_base64 e,
          ap (λ (k : List ℕ). length k == 0) e,
        )
  ]

  pub set_key_headers-steps :
      (req keyed : HttpRequest sys) (version : ℕ) (key number : List ℕ) {r : HttpRequest sys × Bool}
      → (length key == 0) ≡ false
      → http_request_set_header sys req (text "sec-websocket-key") key ≡ done (keyed, true)
      → sys.to_str version ≡ some number
      → http_request_set_header sys keyed (text "Sec-WebSocket-Version") number ≡ done r
      → set_key_headers sys req version (some key) (length key) ≡ done r
  unfolding set_key_headers
  set_key_headers-steps req keyed version key number some_chars first printed second =
      rw (set_key_headers, some_chars, first, printed, second) refl

  pub set_handshake_headers-steps :
      (w w' : sys.World) (req upgraded connected keyed : HttpRequest sys) (client : Client sys)
      (inner : Internal sys) (noonce key : List ℕ) (n : ℕ)
      → client.internal ≡ some inner
      → http_request_set_header sys req (text "Upgrade") (text "websocket") ≡ done (upgraded, true)
      → http_request_set_header sys upgraded (text "Connection") (text "Upgrade")
        ≡ done (connected, true)
      → populate_rand sys w (some inner.noonce) 16 ≡ done (w', some noonce)
      → base64_encode sys (some noonce) 16 0 ≡ done (some key, n)
      → set_key_headers sys connected client.version (some key) n ≡ done (keyed, true)
      → set_handshake_headers sys w req client
        ≡ done
            (w', keyed, record client { internal = some (record inner { noonce = noonce }) }, true)
  unfolding set_handshake_headers
  set_handshake_headers-steps w w' req upgraded connected keyed client inner noonce key n e first
        second drawn encoded set =
      simp (set_handshake_headers, first)
        (simp (second, e) (simp drawn (simp encoded (simp set refl))))
