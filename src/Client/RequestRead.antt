-- ===== src/Client/RequestRead.antt =====
-- What http_request_from_str reads from the request of the opening handshake.
use websocket_c.Common.{
  ℕ, ◌%◌, ◌^◌, ◌≡◌, ◌≢◌, refl, sym, ap, ◌∙◌, true, Option, none, some, List, [], ◌∷◌, ◌++◌, length,
  take, if◌then◌else◌, done, arith,
}
use mathlib.Core.Option.{some-injective}
use websocket_c.Client.{Internal, Client}
use websocket_c.Client.Handshake.{
  path_or_empty, protocol_text, set_handshake_headers, addressed, initial_handshake,
}
use websocket_c.CString.{text}
use websocket_c.Cstd.{contents}
use websocket_c.Cstd.Text.{text_equal}
use websocket_c.Encode.{populate_rand}
use websocket_c.Http.{HttpRequest, get, http_request_init}
use websocket_c.Http.Parse.{http_request_from_str}
use websocket_c.Http.Print.{http_request_to_str}
use websocket_c.Http.RequestText.{host_value}
use websocket_c.Http.RoundTrip.{request_to_str-from_str}
use websocket_c.Http.Table.{first_value, table_lines}
use websocket_c.System.{System, HasMemory, HasTextMemory, HasEncoding}
use websocket_c.Client.HandshakeText.{noonce_key, base64_encode-key}
use websocket_c.Http.{get, invalid_method}
use websocket_c.Http.RequestText.{IsPrintable}
use websocket_c.Reader.Concat.{Fits}
use websocket_c.Client.RequestSent.{IsAddress, request_headers, request_headers-AllLines}
use websocket_c.Http.RequestText.{host_value-length}
use websocket_c.Http.Written.{body_text}
use websocket_c.Http.{HttpMethod, post, put, delete, options}
use websocket_c.Client.HeadersSet.{request_init-empty, headers_set}

abbrev code_of : HttpMethod → ℕ
code_of get = 1
code_of invalid_method = 0
code_of post = 2
code_of put = 3
code_of delete = 4
code_of options = 5

get_valid : get ≢ invalid_method
get_valid e = absurd (omega (arith, ap code_of e))

module _ (sys : System) (mem : HasMemory sys) (texts : HasTextMemory sys)
    (enc : HasEncoding sys) where
  initial_handshake-steps :
      (w w' : sys.World) (client keyed : Client sys) (req fresh headed again : HttpRequest sys)
      (host str : List ℕ)
      → client.host ≡ some host
      → http_request_init sys req ≡ (fresh, true)
      → set_handshake_headers sys w (addressed sys fresh client host) client
        ≡ done (w', headed, keyed, true)
      → http_request_to_str sys headed ≡ done (again, some str)
      → initial_handshake sys w client req ≡ done (w', keyed, some str)
  unfolding initial_handshake
  initial_handshake-steps w w' client keyed req fresh headed again host str e init set written =
      simp (initial_handshake, e) (simp init (simp set (simp written refl)))

  -- A client whose address can stand in a request, whose internal structure is there with a block of
  -- 16 bytes for the noonce, any request that is not set yet, a second request with an empty table
  -- and body, and memory enough: `initial_handshake` draws a noonce of 16 bytes, keeps it in the
  -- client and returns a text. With a NUL behind it, `http_request_from_str` reads this text into the
  -- second request with success: the method GET, the client's path or "/", HTTP/1.1, exactly the
  -- headers Host, Sec-WebSocket-Version, Sec-WebSocket-Key, Connection and Upgrade, and no body.
  -- Their values are the host and the port modulo 65536, the client's version in decimal, as the key
  -- the base64 text of the noonce in a build with WEBC_USE_SSL and else the constant REQUEST_NOONCE,
  -- "Upgrade", and "websocket".
  pub initial_handshake-from_str :
      (w : sys.World) (client : Client sys) (inner : Internal sys) (host : List ℕ)
      (req r : HttpRequest sys) (empty : sys.headers.HashMap)
      → IsAddress sys client host
      → client.internal ≡ some inner
      → length inner.noonce ≡ 16
      → r.message.headers ≡ some empty
      → ((asked : List ℕ) → sys.headers.get empty asked ≡ none)
      → r.message.body.len ≡ 0
      → (w' : sys.World) × (noonce : List ℕ) × (str : List ℕ) × (read : HttpRequest sys)
        × (map' : sys.headers.HashMap) × (populate_rand sys w (some inner.noonce) 16
            ≡ done (w', some noonce))
        × (length noonce ≡ 16)
        × (initial_handshake sys w client req
            ≡ done (
              w',
              record client { internal = some (record inner { noonce = noonce }) },
              some str,
            ))
        × (http_request_from_str sys r (str ++ 0 ∷ []) (length str) ≡ done (read, true))
        × (read.message.method ≡ get)
        × (read.message.path ≡ some (path_or_empty client.path))
        × (read.message.protocol ≡ some protocol_text)
        × (read.message.headers ≡ some map')
        × ((asked : List ℕ)
            → sys.headers.get map' asked
              ≡ first_value
                  (request_headers host client.port
                    (noonce_key sys mem texts enc noonce)
                    client.version)
                  asked)
        × (contents read.message.body ≡ [])
  initial_handshake-from_str w client inner host req r empty address e size table none_yet blank =
      let (map, body, init, nothing, no_body) = request_init-empty sys mem texts enc req in
      let fresh : HttpRequest sys = record {
        message = record req.message {
          host = none;
          path = none;
          method = get;
          port = 80;
          headers = some map;
          body = body;
        };
      } in
      let start = addressed sys fresh client host in
      let (w', noonce, map4, drawn, sixteen, set, found) =
        headers_set sys mem texts enc w start client inner map e size address.version_size refl
          nothing in
      let headed : HttpRequest sys = record {
        message = record start.message { headers = some map4 };
      } in
      let key = noonce_key sys mem texts enc noonce in
      let port = client.port % 2 ^ 16 in
      let value = host_value host port in
      let (_, letters, _) = base64_encode-key sys mem texts enc noonce sixteen in
      let (map5, granted) = texts.header_laws.set_grants map4 (text "host") (some value) in
      let lined = request_headers host client.port key client.version in
      let (lines, listed, all, values) =
        table_lines sys texts lined map5
          (request_headers-AllLines host key client.port client.version address.host_return
            address.host_feed address.host_nul letters)
          (refl, (refl, (refl, (refl, (refl, tt)))))
          (λ j.
            texts.header_laws.get_set map4 map5 (text "host") (some value) granted j
            ∙ ap
                (λ (o : Option (Option (List ℕ))).
                  if text_equal j (text "host") then some (some value) else o)
                (found j)) in
      let printable : IsPrintable sys headed (path_or_empty client.path) protocol_text host map4 =
        record {
          a_method = get_valid;
          the_path = refl;
          the_protocol = refl;
          the_host = refl;
          the_headers = refl;
          body_fits = (let t : Fits body = omega (arith, no_body) in t);
          host_nul = address.host_nul;
          host_size = omega (arith, host_value-length host port, address.host_size);
        } in
      let (again, str, read, map', written, ran, method, path, protocol, kept, agree, body') =
        request_to_str-from_str sys mem texts headed r (path_or_empty client.path) protocol_text
          host map4 empty lines printable address.path_start all
          (λ m set'. ap sys.headers.entries (some-injective m map5 (sym set' ∙ granted)) ∙ listed)
          table none_yet blank in
      (
        w',
        noonce,
        str,
        read,
        map',
        drawn,
        sixteen,
        initial_handshake-steps w w' client _ req fresh headed again host str address.the_host init
            set written,
        ran,
        method,
        path,
        protocol,
        kept,
        λ asked. agree asked ∙ values asked,
        body' ∙ ap (λ (n : ℕ). body_text (take n body.byte_data)) no_body,
      )
