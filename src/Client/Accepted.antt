-- ===== src/Client/Accepted.antt =====
-- The decision of ws_client_connect on a response of the server.
use websocket_c.Common.{
  ℕ, ◌^◌, ◌≤◌, ◌<◌, ◌≡◌, refl, ap, ◌∙◌, Bool, true, Option, none, some, List, [], ◌∷◌, length,
  take_all, leb, if◌then◌else◌, done, arith,
}
use websocket_c.Client.{Internal, Client, ws_client_recv}
use websocket_c.Client.Connect.{
  Unset, abandon, read_response, send_bytes, exchange, after_handshake, fresh_internal, connect_to,
  ws_client_connect,
}
use websocket_c.Client.Handshake.{initial_handshake}
use websocket_c.CString.{text}
use websocket_c.CString.Scan.{Clear, strcspn-stop}
use websocket_c.Cstd.{ByteArray}
use websocket_c.Encode.{check_response_noonce}
use websocket_c.Net.{NetInfo, net_write}
use websocket_c.Net.Connect.{net_connect}
use websocket_c.Reader.{Reader}
use websocket_c.System.{System, HasMemory, HasTextMemory, IsStream}
use websocket_c.Client.Answered.{ws_client_recv-pieces, verdict}
use websocket_c.Http.HeaderLoop.{last_value}
use websocket_c.Http.Lines.{Line, head_text, AllLines}
use websocket_c.Http.StatusLine.{Status, IsStatus, code, length-status_line}
use websocket_c.Client.Response.{response_text, read_response-answered}

module _ (sys : System) (mem : HasMemory sys) (texts : HasTextMemory sys) where
  send_bytes-steps :
      (bufsiz : ℕ) (w w' w'' : sys.World) (client : Client sys) (inner : Internal sys)
      (unset : Unset sys) (req : List ℕ) (response : ByteArray) {sent : ℕ}
      → net_write sys w (some inner.info) (some req) ≡ (w', some sent)
      → ws_client_recv sys bufsiz w' client unset.response ≡ done (w'', response, true)
      → send_bytes sys bufsiz w client inner unset req
        ≡ read_response sys w'' client unset.resp response
  unfolding send_bytes
  send_bytes-steps bufsiz w w' w'' client inner unset req response sends got =
      let Sent : Type 0 = sys.World × Option ℕ in
      rw (send_bytes, ap (λ (p : Sent). p.1) sends, ap (λ (p : Sent). p.0) sends, got) refl

  exchange-inner :
      (bufsiz : ℕ) (w : sys.World) (client : Client sys) (inner : Internal sys) (unset : Unset sys)
      (req : List ℕ)
      → client.internal ≡ some inner
      → Clear [] req
      → exchange sys bufsiz w client unset req ≡ send_bytes sys bufsiz w client inner unset req
  unfolding exchange
  exchange-inner bufsiz w client inner unset req e clear =
      simp (exchange, e, strcspn-stop [] req 0 [] clear refl, take_all req) refl

  connect-host :
      (ctx : Option ℕ) (bufsiz : ℕ) (w : sys.World) (client : Client sys) (unset : Unset sys)
      (host : List ℕ)
      → client.host ≡ some host
      → ws_client_connect sys ctx bufsiz w client unset
        ≡ connect_to sys ctx bufsiz w client unset host
  unfolding ws_client_connect
  connect-host ctx bufsiz w client unset host e = simp (ws_client_connect, e) refl

  connect_to-steps :
      (ctx : Option ℕ) (bufsiz : ℕ) (w w1 w2 : sys.World) (client keyed : Client sys)
      (unset : Unset sys) (host req : List ℕ) (info : NetInfo)
      → net_connect sys ctx w
          (some host)
          (sys.to_str client.port)
          (record { socket = 0; ssl = none })
        ≡ (w1, info, true)
      → initial_handshake sys w1
          (record client { internal = some (fresh_internal sys info unset.noonce) })
          unset.req
        ≡ done (w2, keyed, some req)
      → connect_to sys ctx bufsiz w client unset host ≡ exchange sys bufsiz w2 keyed unset req
  unfolding connect_to after_handshake
  connect_to-steps ctx bufsiz w w1 w2 client keyed unset host req info made starts =
      rw (connect_to, made, starts) refl

  -- A client with a host, a connection that is made, a handshake request that is written and sent,
  -- memory enough, a buffer whose size is an int, and a response of the server waiting on the
  -- connection that fits in the buffer and is what one receive can give, with anything behind it:
  -- a status line with a code of three digits, header lines, the last "Sec-WebSocket-Accept" among
  -- them with the answer given, the empty line and a body. If check_response_noonce returns for
  -- this answer, then ws_client_connect returns, and it returns true with the client connected when
  -- the code is below 300 and the answer accepted, else it abandons the connection.
  pub ws_client_connect-answered :
      (pieces : sys.World → List (List ℕ)) (stream : IsStream sys pieces) (ctx : Option ℕ)
      (bufsiz : ℕ) (w w1 w2 w3 : sys.World) (client keyed : Client sys) (unset : Unset sys)
      (host req : List ℕ) (info : NetInfo) (inner : Internal sys) (reader : Reader sys) (sent : ℕ)
      (s : Status) (lines : List Line) (payload answer : List ℕ) (accepted : Bool)
      (more : List (List ℕ))
      → client.host ≡ some host
      → net_connect sys ctx w
          (some host)
          (sys.to_str client.port)
          (record { socket = 0; ssl = none })
        ≡ (w1, info, true)
      → initial_handshake sys w1
          (record client { internal = some (fresh_internal sys info unset.noonce) })
          unset.req
        ≡ done (w2, keyed, some req)
      → keyed.internal ≡ some inner
      → inner.reader ≡ some reader
      → Clear [] req
      → net_write sys w2 (some inner.info) (some req) ≡ (w3, some sent)
      → pieces w3 ≡ response_text s lines payload ∷ more
      → length (response_text s lines payload) ≤ bufsiz
      → bufsiz < 2 ^ 31
      → IsStatus s
      → AllLines lines
      → last_value sys texts lines (text "sec-websocket-accept") none ≡ some (some answer)
      → check_response_noonce sys (some inner.noonce) 16 (some answer) (length answer)
        ≡ done accepted
      → (w' : sys.World) × (ws_client_connect sys ctx bufsiz w client unset
          ≡ (if leb 300 (code s) then abandon sys w' keyed else verdict sys w' keyed accepted))
  ws_client_connect-answered pieces stream ctx bufsiz w w1 w2 w3 client keyed unset host req info
        inner reader sent s lines payload answer accepted more hosted made starts e f clear sends
        waiting fits small h all found checks =
      let str = response_text s lines payload in
      let begun = length-status_line s (head_text lines payload) in
      let (w4, response, got, stored, len) =
        ws_client_recv-pieces sys mem pieces stream bufsiz w3 keyed inner reader unset.response str
          more e f waiting (λ empty. absurd (omega (arith, ap length empty, begun)))
          (omega (arith, begun)) small fits in
      (
        w4,
        connect-host ctx bufsiz w client unset host hosted
            ∙ connect_to-steps ctx bufsiz w w1 w2 client keyed unset host req info made starts
            ∙ exchange-inner bufsiz w2 keyed inner unset req e clear
            ∙ send_bytes-steps bufsiz w2 w3 w4 keyed inner unset req response sends got
            ∙ read_response-answered sys mem texts w4 keyed inner unset.resp response s lines
                payload answer accepted e stored len (omega (arith, len)) h all found checks,
      )
