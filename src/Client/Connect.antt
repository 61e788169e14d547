-- ===== src/Client/Connect.antt =====
-- src/websocket.c: the opening handshake. Memory that the code has not set yet is an argument. The
-- release of a byte array that is not set is undefined behaviour.
use websocket_c.Common.{
  ℕ, ◌+◌, Bool, true, false, Option, none, some, List, [], ◌∷◌, ◌++◌, length, take, leb,
  if◌then◌else◌, Run, done, fault, ◌>>=◌, load_bytes, store_bytes, store,
}
use websocket_c.Client.{Internal, Client, ws_client_recv, closed_info}
use websocket_c.Client.Handshake.{initial_handshake}
use websocket_c.CString.{text, strcspn}
use websocket_c.Cstd.{ByteArray}
use websocket_c.Encode.{check_response_noonce}
use websocket_c.Http.{HttpRequest, HttpResponse, http_response_init, http_response_get_header}
use websocket_c.Http.Parse.{http_response_from_str}
use websocket_c.Net.{NetInfo, net_write, net_close}
use websocket_c.Net.Connect.{net_connect}
use websocket_c.Reader.{ws_reader_create}
use websocket_c.System.{System}

-- What the variables hold before they are set: the noonce of a new __ws_client_internal_t, and
-- `req`, `response` and `resp`.
pub record Unset (sys : System) : Type 0 where
  pub noonce : List ℕ
  pub req : HttpRequest sys
  pub response : ByteArray
  pub resp : HttpResponse sys

-- What ws_client_connect leaves; `freed` says that `client->__internal` points to freed memory.
pub record Connection (sys : System) : Type 0 where
  pub world : sys.World
  pub client : Client sys
  pub freed : Bool
  pub ok : Bool

module _ (sys : System) where
  -- net_close(&client->__internal->info); free(client->__internal); return false;
  unfoldable pub abandon : sys.World → Client sys → Run (Connection sys)
  abandon w client = elim client.internal [
    | none ↦ fault
    | some inner ↦
        let (w', info) = net_close sys w (some inner.info) in
        done (record {
          world = w';
          client = record client {
            internal = some (record inner { info = closed_info sys inner.info info });
          };
          freed = true;
          ok = false;
        })
  ]

  -- The header "sec-websocket-accept" of a response whose status is good.
  unfoldable pub check_accept_header :
      sys.World → Client sys → HttpResponse sys → Run (Connection sys)
  check_accept_header w client resp = do
    (recv_noonce, found) ← http_response_get_header sys resp (text "sec-websocket-accept") none
    if found
        then elim recv_noonce [
          | none ↦ abandon w client
          | some answer ↦ elim client.internal [
            | none ↦ fault
            | some inner ↦ do
              accepted ←
                  check_response_noonce sys (some inner.noonce) 16 (some answer) (length answer)
              if accepted
                  then done (record { world = w; client = client; freed = false; ok = true })
                  else abandon w client
          ]
        ]
        else abandon w client

  -- From the bytes received on; `resp` is the response before it is set, and when
  -- http_response_init fails, http_response_free releases its body.
  unfoldable pub read_response :
      sys.World → Client sys → HttpResponse sys → ByteArray → Run (Connection sys)
  read_response w client resp response =
      let (fresh, ok) = http_response_init sys resp in
      if ok
      then elim (sys.malloc (response.len + 1)) [
        | none ↦ fault
        | some block ↦ do
          bytes ← load_bytes response.byte_data 0 response.len
          copied ← store_bytes block 0 bytes
          resp_cstr ← store copied response.len 0
          (parsed, read) ← http_response_from_str sys fresh resp_cstr response.len
          if read
              then (if leb 300 parsed.message.status_code
                  then abandon w client
                  else check_accept_header w client parsed)
              else abandon w client
      ]
      else fault

  -- From the sending of the request on; when ws_client_recv fails, `response` is not set and released.
  unfoldable pub send_bytes :
      ℕ → sys.World → Client sys → Internal sys → Unset sys → List ℕ → Run (Connection sys)
  send_bytes bufsiz w client inner unset bytes =
      let (w', n) = net_write sys w (some inner.info) (some bytes) in
      elim n [
        | none ↦ abandon w' client
        | some sent ↦ do
          (w'', response, ok) ← ws_client_recv sys bufsiz w' client unset.response
          if ok then read_response w'' client unset.resp response else fault
      ]

  -- With strlen of the request's text.
  unfoldable pub exchange : ℕ → sys.World → Client sys → Unset sys → List ℕ → Run (Connection sys)
  exchange bufsiz w client unset req = elim client.internal [
    | none ↦ fault
    | some inner ↦ do
      req_len ← strcspn [] (req ++ 0 ∷ [])
      send_bytes bufsiz w client inner unset (take req_len req)
  ]

  -- From the result of initial_handshake on.
  unfoldable pub after_handshake :
      ℕ → sys.World → Client sys → Unset sys → Option (List ℕ) → Run (Connection sys)
  after_handshake bufsiz w client unset none = abandon w client
  after_handshake bufsiz w client unset (some req) = exchange bufsiz w client unset req

  abbrev pub fresh_internal : NetInfo → List ℕ → Internal sys
  fresh_internal info noonce = record {
    reader = some (ws_reader_create sys);
    info = info;
    noonce = noonce;
    loop_flag = false;
  }

  -- With the client's host.
  unfoldable pub connect_to :
      Option ℕ → ℕ → sys.World → Client sys → Unset sys → List ℕ → Run (Connection sys)
  connect_to ctx bufsiz w client unset host =
      let empty : NetInfo = record { socket = 0; ssl = none } in
      let (w', info, connected) =
        net_connect sys ctx w (some host) (sys.to_str client.port) empty in
      if connected
      then (do
        let joined = record client { internal = some (fresh_internal info unset.noonce) }
        (w'', keyed, req) ← initial_handshake sys w' joined unset.req
        after_handshake bufsiz w'' keyed unset req)
      else done (record { world = w'; client = client; freed = false; ok = false })

  -- `ctx` is the static context of net.c and `bufsiz` is BUFSIZ of stdio.h.
  unfoldable pub ws_client_connect :
      Option ℕ → ℕ → sys.World → Client sys → Unset sys → Run (Connection sys)
  ws_client_connect ctx bufsiz w client unset = elim client.host [
    | none ↦ done (record { world = w; client = client; freed = false; ok = false })
    | some host ↦ connect_to ctx bufsiz w client unset host
  ]
