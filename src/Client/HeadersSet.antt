-- ===== src/Client/HeadersSet.antt =====
-- The headers that the opening handshake sets in its request.
use websocket_c.Common.{
  ℕ, ◌^◌, ◌<◌, ◌≡◌, refl, true, none, some, List, [], ◌∷◌, length, done, arith,
}
use websocket_c.Client.{Internal, Client}
use websocket_c.Client.Handshake.{set_handshake_headers}
use websocket_c.CString.{text, decimal}
use websocket_c.Cstd.{ByteArray}
use websocket_c.Encode.{populate_rand}
use websocket_c.Encode.Key.{populate_rand-fills}
use websocket_c.Http.{HttpRequest, get, http_request_init, http_message_init}
use websocket_c.Http.Lines.{Line}
use websocket_c.Http.Table.{first_value}
use websocket_c.System.{System, HasMemory, HasTextMemory, HasEncoding}
use websocket_c.Client.HandshakeText.{
  key_headers, is_base64-Clear, set_one, noonce_key, base64_encode-key, set_key_headers-steps,
  set_handshake_headers-steps,
}
use websocket_c.Http.{get}
use websocket_c.Client.RequestSent.{decimal_digits-base64}

module _ (sys : System) (mem : HasMemory sys) (texts : HasTextMemory sys)
    (enc : HasEncoding sys) where
  pub request_init-empty :
      (req : HttpRequest sys)
      → (map : sys.headers.HashMap) × (body : ByteArray) × (http_request_init sys req ≡ (
        record {
          message = record req.message {
            host = none;
            path = none;
            method = get;
            port = 80;
            headers = some map;
            body = body;
          };
        },
        true,
      ))
        × ((k : List ℕ) → sys.headers.get map k ≡ none)
        × (body.len ≡ 0)
  unfolding http_request_init http_message_init
  request_init-empty req =
      let (map, made, none_yet) = texts.header_laws.create_grants 1000 in
      let (body, granted) = mem.init_grants 5 (omega arith) in
      (
        map,
        body,
        rw (http_request_init, http_message_init, made, granted) refl,
        none_yet,
        mem.array_laws.init_len 5 body granted,
      )

  pub headers_set :
      (w : sys.World) (req : HttpRequest sys) (client : Client sys) (inner : Internal sys)
      (map : sys.headers.HashMap)
      → client.internal ≡ some inner
      → length inner.noonce ≡ 16
      → client.version < 10 ^ 5
      → req.message.headers ≡ some map
      → ((k : List ℕ) → sys.headers.get map k ≡ none)
      → (w' : sys.World) × (noonce : List ℕ) × (map' : sys.headers.HashMap) × (populate_rand sys w
            (some inner.noonce)
            16
          ≡ done (w', some noonce))
        × (length noonce ≡ 16)
        × (set_handshake_headers sys w req client
            ≡ done (
              w',
              record { message = record req.message { headers = some map' } },
              record client { internal = some (record inner { noonce = noonce }) },
              true,
            ))
        × ((j : List ℕ)
            → sys.headers.get map' j
              ≡ first_value (key_headers (noonce_key sys mem texts enc noonce) client.version) j)
  headers_set w req client inner map e size small table none_yet =
      let set = set_one sys mem texts enc in
      let (w', noonce, drawn, sixteen) =
        populate_rand-fills sys w inner.noonce 16 size (omega arith) in
      let key = noonce_key sys mem texts enc noonce in
      let one : List Line = (text "upgrade", text "websocket") ∷ [] in
      let two : List Line = (text "connection", text "Upgrade") ∷ one in
      let three : List Line = (text "sec-websocket-key", key) ∷ two in
      let (encoded, letters, some_chars) = base64_encode-key sys mem texts enc noonce sixteen in
      let (_, _, free) = is_base64-Clear key letters in
      let number = decimal client.version in
      let (_, _, digits) = is_base64-Clear number (decimal_digits-base64 5 client.version) in
      let (map1, ran1, found1) =
        set req map [] (text "Upgrade") (text "websocket") table none_yet refl refl in
      let (map2, ran2, found2) =
        set _ map1 one (text "Connection") (text "Upgrade") refl found1 refl refl in
      let (map3, ran3, found3) =
        set _ map2 two (text "sec-websocket-key") key refl found2 refl free in
      let (map4, ran4, found4) =
        set _ map3 three (text "Sec-WebSocket-Version") number refl found3 refl digits in
      (
        w',
        noonce,
        map4,
        drawn,
        sixteen,
        set_handshake_headers-steps sys mem texts enc w w' req _ _ _ client inner noonce key
            (length key) e ran1 ran2 drawn encoded
            (set_key_headers-steps sys mem texts enc _ _ client.version key number some_chars ran3
              (enc.to_str_decimal client.version small) ran4),
        found4,
      )
