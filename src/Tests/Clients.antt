-- ===== src/Tests/Clients.antt =====
-- Sending of a concrete message.
use websocket_c.Common.{
  ℕ, ◌≡◌, refl, true, false, false, not, none, some, ◌++◌, fault, List, [], length, done, arith,
  ◌∷◌, pos, to_int,
}
use websocket_c.Client.{Internal, Client}
use websocket_c.Client.Sends.{ws_client_write-sends}
use websocket_c.Client.Url.{ws_prefix, ws_client_from_str}
use websocket_c.Client.UrlParse.{ws_client_from_str-url, ws_client_from_str-long_port}
use websocket_c.CString.Scan.{Clear, clear_end, clear_next, Digits, digits_end, digits_next}
use websocket_c.Client.Write.{is_failure, ws_client_write}
use websocket_c.Cstd.{contents}
use websocket_c.Net.{net_write}
use websocket_c.Protocol.Wire.{wire}
use websocket_c.Tests.Fixtures.{hello_frame}
use websocket_c.Tests.Plain.{waiting_bytes, Bytes, plain_system, plain-HasMemory}

abbrev idle : Bytes
idle = waiting_bytes []

abbrev inner : Internal plain_system
inner = record {
  reader = some (record { frame_queue = []; msg_queue = []; is_open = true });
  info = record { socket = 3; ssl = some 7 };
  noonce = [];
  loop_flag = false;
}

abbrev client : Client plain_system
client = record {
  internal = some inner;
  path = none;
  host = none;
  port = 80;
  version = 13;
  use_tls = false;
}

ws_client_write-sends_example :
    (w' : Bytes) × (key : List ℕ) × (length key ≡ 4)
    × (to_int (length (wire 129 true key (contents hello_frame.payload)))
        ≡ pos (length (wire 129 true key (contents hello_frame.payload))))
    × (ws_client_write plain_system idle client 1 hello_frame.payload
        ≡ let bytes = wire 129 true key (contents hello_frame.payload) in
          let sent = net_write plain_system w' (some inner.info) (some bytes) in
          done (sent.0, not (is_failure sent.1)))
ws_client_write-sends_example =
    ws_client_write-sends plain_system plain-HasMemory idle client inner 1 hello_frame.payload refl
      (omega arith) (omega arith) (omega arith) (λ e. absurd (omega arith))

-- "ab"
abbrev host : List ℕ
host = 97 ∷ 98 ∷ []

host-Clear : Clear (58 ∷ 47 ∷ []) host
host-Clear = clear_next refl (clear_next refl clear_end)

-- "8080"
abbrev port : List ℕ
port = 56 ∷ 48 ∷ 56 ∷ 48 ∷ []

port-Digits : Digits port
port-Digits = digits_next (omega arith) (omega arith) (
    digits_next (omega arith) (omega arith) (
      digits_next (omega arith) (omega arith) (digits_next (omega arith) (omega arith) digits_end)))

ws_client_from_str-url_example :
    ws_client_from_str plain_system
      (ws_prefix ++ (host ++ 58 ∷ (port ++ 47 ∷ ((120 ∷ []) ++ 0 ∷ []))))
      14
      client
    ≡ done (
      record client {
        host = some host;
        path = some (47 ∷ 120 ∷ []);
        port = 8080;
        version = 13;
        use_tls = false;
      },
      true,
    )
ws_client_from_str-url_example =
    ws_client_from_str-url plain_system host port (120 ∷ []) [] 14 client host-Clear port-Digits
      (omega arith) (omega arith) (omega arith) (omega arith)

-- "000080"
abbrev long_port : List ℕ
long_port = 48 ∷ 48 ∷ 48 ∷ 48 ∷ 56 ∷ 48 ∷ []

long_port-Clear : Clear (47 ∷ []) long_port
long_port-Clear = clear_next refl (
    clear_next refl
      (clear_next refl (clear_next refl (clear_next refl (clear_next refl clear_end)))))

ws_client_from_str-long_port_example :
    ws_client_from_str plain_system (ws_prefix ++ (host ++ 58 ∷ (long_port ++ 0 ∷ []))) 14 client
    ≡ fault
ws_client_from_str-long_port_example =
    ws_client_from_str-long_port plain_system host long_port 0 [] 14 client host-Clear
      long_port-Clear (omega arith) refl (omega arith) (omega arith)
