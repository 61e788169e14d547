-- ===== src/Tests/Openings.antt =====
-- The request of the opening handshake on a concrete client.
use websocket_c.Common.{ℕ, ◌≡◌, refl, true, some, List, [], ◌∷◌, ◌++◌, length, done, arith}
use websocket_c.Client.{Internal, Client}
use websocket_c.Client.Connect.{fresh_internal}
use websocket_c.Client.Handshake.{path_or_empty, protocol_text, initial_handshake}
use websocket_c.Client.HandshakeText.{noonce_key}
use websocket_c.Client.RequestRead.{initial_handshake-from_str}
use websocket_c.Client.RequestSent.{IsAddress, request_headers}
use websocket_c.CString.{text}
use websocket_c.CString.Scan.{is_clear-Clear}
use websocket_c.Cstd.{contents}
use websocket_c.Encode.Bytes.{AllBytes, populate_rand-bytes}
use websocket_c.Encode.{populate_rand}
use websocket_c.Http.{get, HttpRequest}
use websocket_c.Http.Parse.{http_request_from_str}
use websocket_c.Http.Table.{first_value}
use websocket_c.Tests.Handshakes.{client, unset}
use websocket_c.Tests.Networks.{no_info}
use websocket_c.Tests.Plain.{
  Bytes, waiting_bytes, plain_system, plain-HasMemory, plain-HasTextMemory, plain-HasEncoding,
}
use websocket_c.Tests.Requests.{blank}

abbrev inside : Internal plain_system
inside = fresh_internal plain_system no_info unset.noonce

abbrev opening : Client plain_system
opening = record client { internal = some inside }

opening-IsAddress : IsAddress plain_system opening (text "h")
opening-IsAddress = record {
  the_host = refl;
  path_start = record {
    path_space = is_clear-Clear (text " ") (text "/") refl;
    path_feed = is_clear-Clear (text "\n") (text "/") refl;
    protocol_return = is_clear-Clear (text "\r") (text "HTTP/1.1") refl;
    protocol_feed = is_clear-Clear (text "\n") (text "HTTP/1.1") refl;
  };
  host_return = is_clear-Clear (text "\r") (text "h") refl;
  host_feed = is_clear-Clear (text "\n") (text "h") refl;
  host_nul = refl;
  host_size = omega arith;
  version_size = omega arith;
}

initial_handshake-from_str_example :
    (w' : Bytes) × (noonce : List ℕ) × (str : List ℕ) × (read : HttpRequest plain_system)
    × (map' : plain_system.headers.HashMap) × (populate_rand plain_system
          (waiting_bytes [])
          (some inside.noonce)
          16
        ≡ done (w', some noonce))
    × (length noonce ≡ 16)
    × (initial_handshake plain_system (waiting_bytes []) opening unset.req
        ≡ done
            (w', record opening { internal = some (record inside { noonce = noonce }) }, some str))
    × (http_request_from_str plain_system (record { message = blank }) (str ++ 0 ∷ []) (length str)
        ≡ done (read, true))
    × (read.message.method ≡ get)
    × (read.message.path ≡ some (path_or_empty opening.path))
    × (read.message.protocol ≡ some protocol_text)
    × (read.message.headers ≡ some map')
    × ((asked : List ℕ)
        → plain_system.headers.get map' asked
          ≡ first_value
              (request_headers
                (text "h")
                opening.port
                (noonce_key plain_system plain-HasMemory plain-HasTextMemory plain-HasEncoding
                  noonce)
                opening.version)
              asked)
    × (contents read.message.body ≡ [])
initial_handshake-from_str_example =
    initial_handshake-from_str plain_system plain-HasMemory plain-HasTextMemory plain-HasEncoding
      (waiting_bytes []) opening inside (text "h") unset.req (record { message = blank }) []
      opening-IsAddress refl refl refl (λ asked. refl) refl

populate_rand-bytes_example :
    (w' : Bytes) × (bytes : List ℕ) × (populate_rand plain_system
        (waiting_bytes [])
        (some (7 ∷ 7 ∷ 7 ∷ 8 ∷ []))
        3
      ≡ done (w', some (bytes ++ 8 ∷ [])))
    × (length bytes ≡ 3)
    × AllBytes bytes
populate_rand-bytes_example =
    populate_rand-bytes plain_system (waiting_bytes []) (7 ∷ 7 ∷ 7 ∷ 8 ∷ []) 3 (omega arith)
      (omega arith)
