-- ===== src/Http/RequestText.antt =====
-- The text that `http_request_to_str` writes.
use websocket_c.Common.{
  ℕ, ◌≤◌, length-append, zero, suc, ◌+◌, ◌/◌, ◌%◌, ◌^◌, ◌<◌, ◌≡◌, ◌≢◌, refl, ap, ◌∙◌, true, false,
  Option, some, List, [], ◌∷◌, ◌++◌, append_assoc, length, done, arith,
}
use websocket_c.Cstd.{contents}
use websocket_c.Cstd.Text.{is_nul_free, lower}
use websocket_c.CString.{text, decimal_digits, decimal}
use websocket_c.Http.{
  HttpMethod, invalid_method, get, post, put, delete, options, HttpRequest, http_method_get_string,
  http_message_set_header, http_request_set_header,
}
use websocket_c.Http.Headers.{set_header-set}
use websocket_c.Http.Lines.{Line, head_text}
use websocket_c.Http.Print.{
  append, is_invalid, http_message_to_str, write_request, http_request_to_str,
}
use websocket_c.Http.StartLine.{start_line}
use websocket_c.Http.Written.{entries_of, body_text, http_message_to_str-text}
use websocket_c.Reader.Concat.{Fits}
use websocket_c.System.{System, HasMemory, HasTextMemory}

pub nul_free-append :
    (s t : List ℕ) → is_nul_free s ≡ true → is_nul_free t ≡ true → is_nul_free (s ++ t) ≡ true
nul_free-append [] t hs ht = ht
nul_free-append (c ∷ s) t hs ht = ground (arith, nul_free-append s t)

decimal_digits-nul_free : (fuel n : ℕ) → is_nul_free (decimal_digits fuel n) ≡ true
unfolding decimal_digits
decimal_digits-nul_free zero n = refl
decimal_digits-nul_free (suc fuel) n = ground (
  arith,
  nul_free-append (decimal_digits fuel (n / 10)) ((48 + n % 10) ∷ []),
  decimal_digits-nul_free fuel (n / 10),
)

pub start_line-append :
    (method : HttpMethod) (path protocol rest : List ℕ)
    → start_line method path protocol rest ≡ start_line method path protocol [] ++ rest
start_line-append method path protocol rest = simp append_assoc refl

valid_method : (m : HttpMethod) → m ≢ invalid_method → is_invalid m ≡ false
valid_method invalid_method h = absurd (h refl)
valid_method get h = refl
valid_method post h = refl
valid_method put h = refl
valid_method delete h = refl
valid_method options h = refl

-- The value of the header "Host".
abbrev pub host_value : List ℕ → ℕ → List ℕ
host_value host port = host ++ (text ":" ++ decimal port)

length-decimal_digits : (fuel n : ℕ) → length (decimal_digits fuel n) ≤ fuel
unfolding decimal_digits
length-decimal_digits zero n = omega arith
length-decimal_digits (suc fuel) n = ground (
  arith,
  length-append (decimal_digits fuel (n / 10)) ((48 + n % 10) ∷ []),
  length-decimal_digits fuel (n / 10),
)

pub host_value-length : (host : List ℕ) (port : ℕ) → length (host_value host port) ≤ length host + 6
host_value-length host port =
    omega (arith, length-append host (text ":" ++ decimal port), length-decimal_digits 5 port)

-- A request with all that a text of it needs.
pub record IsPrintable (sys : System) (r : HttpRequest sys) (path protocol host : List ℕ)
    (map : sys.headers.HashMap) : Type 0 where
  pub a_method : r.message.method ≢ invalid_method
  pub the_path : r.message.path ≡ some path
  pub the_protocol : r.message.protocol ≡ some protocol
  pub the_host : r.message.host ≡ some host
  pub the_headers : r.message.headers ≡ some map
  pub body_fits : Fits r.message.body
  pub host_nul : is_nul_free host ≡ true
  pub host_size : length (host_value host r.message.port) + 2 < 2 ^ 63

module _ (sys : System) (mem : HasMemory sys) (texts : HasTextMemory sys) where
  -- The request's text, with its own entries.
  abbrev pub request_text : HttpRequest sys → List ℕ → List ℕ → List Line → List ℕ
  request_text r path protocol lines =
      start_line r.message.method path protocol
        (head_text lines (body_text (contents r.message.body)))

  write_request-text :
      (r : HttpRequest sys) (path protocol host : List ℕ) (map map' : sys.headers.HashMap)
      (b b' : sys.builders.Builder) {block : List ℕ}
      → sys.malloc (length (host_value host r.message.port) + 2) ≡ some block
      → http_message_set_header sys r.message (text "Host") (host_value host r.message.port)
        ≡ done (record r.message { headers = some map' }, true)
      → http_message_to_str sys
          (record r.message { headers = some map' })
          (append sys
            (append sys
              (append sys
                (append sys
                  (append sys (append sys b (http_method_get_string r.message.method)) (text " "))
                  path)
                (text " "))
              protocol)
            (text "\r\n"))
        ≡ done b'
      → write_request sys r path protocol host b
        ≡ done (record { message = record r.message { headers = some map' } }, sys.builders.copy b')
  unfolding write_request http_request_set_header
  write_request-text r path protocol host map map' b b' g s t =
      rw (write_request, g, http_request_set_header, s, t) refl

  reaches_write :
      (r : HttpRequest sys) (path protocol host : List ℕ) (map : sys.headers.HashMap)
      {b : sys.builders.Builder}
      → IsPrintable sys r path protocol host map
      → sys.builders.new 20 ≡ some b
      → http_request_to_str sys r ≡ write_request sys r path protocol host b
  unfolding http_request_to_str
  reaches_write r path protocol host map p n =
      simp
        (
          http_request_to_str,
          valid_method r.message.method p.a_method,
          p.the_path,
          p.the_protocol,
          p.the_host,
          n,
        )
        refl

  written_line :
      (b : sys.builders.Builder) (method : HttpMethod) (path protocol rest : List ℕ)
      → sys.builders.chars b ≡ []
      → sys.builders.chars (
            append sys
              (append sys
                (append sys
                  (append sys
                    (append sys (append sys b (http_method_get_string method)) (text " "))
                    path)
                  (text " "))
                protocol)
              (text "\r\n"))
          ++ rest
        ≡ start_line method path protocol rest
  written_line b method path protocol rest e =
      simp (texts.builder_laws.append_chars, e, append_assoc) refl

  -- The text of a request is its start line, its headers with "Host" among them, and its body.
  pub http_request_to_str-text :
      (r : HttpRequest sys) (path protocol host : List ℕ) (map : sys.headers.HashMap)
      (lines : List Line)
      → IsPrintable sys r path protocol host map
      → ((map' : sys.headers.HashMap)
          → sys.headers.set map (lower (text "Host")) (some (host_value host r.message.port))
            ≡ some map'
          → sys.headers.entries map' ≡ entries_of lines)
      → (map' : sys.headers.HashMap) × (sys.headers.set map
            (lower (text "Host"))
            (some (host_value host r.message.port))
          ≡ some map')
        × (http_request_to_str sys r
            ≡ done (
              record { message = record r.message { headers = some map' } },
              some (request_text r path protocol lines),
            ))
  http_request_to_str-text r path protocol host map lines p listed =
      let value = host_value host r.message.port in
      let (block, granted) = mem.malloc_grants (length value + 2) p.host_size in
      let (b, fresh, empty) = texts.builder_laws.new_grants 20 in
      let free : is_nul_free value ≡ true =
        nul_free-append host (text ":" ++ decimal r.message.port) p.host_nul
          (decimal_digits-nul_free 5 r.message.port) in
      let (map', set, ran) =
        set_header-set sys texts r.message map (text "Host") value p.the_headers refl free in
      let hosted = record r.message { headers = some map' } in
      let (b', written, chars) =
        http_message_to_str-text sys texts hosted map' lines _ refl (listed map' set) p.body_fits in
      (
        map',
        set,
        reaches_write r path protocol host map p fresh
            ∙ write_request-text r path protocol host map map' b b' granted ran written
            ∙ ap (λ (t : Option (List ℕ)). done (record { message = hosted }, t))
                (texts.builder_laws.copy_chars b'
                  ∙ ap some (
                      chars
                      ∙ written_line b r.message.method path protocol
                          (head_text lines (body_text (contents r.message.body))) empty)),
      )
