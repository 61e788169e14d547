-- ===== src/Client/Handshake.antt =====
-- src/websocket.c: the request of the opening handshake.
use websocket_c.Common.{
  ℕ, ◌%◌, ◌^◌, Bool, false, Option, none, some, List, ◌==◌, if◌then◌else◌, Run, done, fault, ◌>>=◌,
}
use websocket_c.Client.{Client}
use websocket_c.CString.{text}
use websocket_c.Encode.{base64_encode, populate_rand}
use websocket_c.Http.{HttpRequest, http_request_init, http_request_set_header}
use websocket_c.Http.Print.{http_request_to_str}
use websocket_c.Reader.Handle.{block_of}
use websocket_c.System.{System}

-- empty_path and PROTOCOL
abbrev pub path_or_empty : Option (List ℕ) → List ℕ
path_or_empty none = text "/"
path_or_empty (some path) = path

abbrev pub protocol_text : List ℕ
protocol_text = text "HTTP/1.1"

module _ (sys : System) where
  -- The second half, from the noonce in base64 on.
  unfoldable pub set_key_headers :
      HttpRequest sys → ℕ → Option (List ℕ) → ℕ → Run (HttpRequest sys × Bool)
  set_key_headers req version none noonce_len = done (req, false)
  set_key_headers req version (some key) noonce_len =
      if noonce_len == 0 then done (req, false) else (do
        (keyed, ok) ← http_request_set_header sys req (text "sec-websocket-key") key
        if ok
            then elim (sys.to_str version) [
              | none ↦ done (keyed, false)
              | some number ↦
                  http_request_set_header sys keyed (text "Sec-WebSocket-Version") number
            ]
            else done (keyed, false))

  -- The result is the world, the request, the client, and the Boolean returned.
  unfoldable pub set_handshake_headers :
      sys.World
      → HttpRequest sys
      → Client sys
      → Run (sys.World × HttpRequest sys × Client sys × Bool)
  set_handshake_headers w req client = do
    (upgraded, ok) ← http_request_set_header sys req (text "Upgrade") (text "websocket")
    if ok
        then (do
          (connected, ok') ←
              http_request_set_header sys upgraded (text "Connection") (text "Upgrade")
          if ok'
              then elim client.internal [
                | none ↦ fault
                | some inner ↦ do
                  (w', filled) ← populate_rand sys w (some inner.noonce) 16
                  (key, key_len) ← base64_encode sys filled 16 0
                  (keyed, set) ← set_key_headers connected client.version key key_len
                  done (
                    w',
                    keyed,
                    record client { internal = some (record inner { noonce = block_of filled }) },
                    set,
                  )
              ]
              else done (w, connected, client, false))
        else done (w, upgraded, client, false)

  -- The request as it is after http_request_init, with the client's address in it.
  abbrev pub addressed : HttpRequest sys → Client sys → List ℕ → HttpRequest sys
  addressed req client host = record {
    message = record req.message {
      path = some (path_or_empty client.path);
      protocol = some protocol_text;
      host = some host;
      port = client.port % 2 ^ 16;
    };
  }

  -- `req` is the request before it is set; when http_request_init fails, http_request_free releases
  -- its body.
  unfoldable pub initial_handshake :
      sys.World → Client sys → HttpRequest sys → Run (sys.World × Client sys × Option (List ℕ))
  initial_handshake w client req = elim client.host [
    | none ↦ done (w, client, none)
    | some host ↦
        let (fresh, ok) = http_request_init sys req in
        if ok
        then (do
          (w', headed, keyed, set) ← set_handshake_headers w (addressed fresh client host) client
          if set
              then (do (_, str) ← http_request_to_str sys headed; done (w', keyed, str))
              else done (w', keyed, none))
        else fault
  ]
