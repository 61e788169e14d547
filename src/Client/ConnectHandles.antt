-- ===== src/Client/ConnectHandles.antt =====
-- Which sockets and sessions ws_client_connect leaves open, and whether it leaves a pointer to
-- freed memory.
use websocket_c.Common.{
  ℕ, ◌+◌, ◌≡◌, refl, ◌∙◌, true, false, Option, none, some, List, [], ◌∷◌, ◌++◌, length, leb, take,
  Option-cases, inl, inr, ◌⊎◌, load_bytes, store_bytes, store,
}
use websocket_c.Common.Runs.{Ensures, Ensures-bind, Ensures-then, Ensures-if, Ensures-imply}
use websocket_c.Client.{Internal, Client, ws_client_recv}
use websocket_c.Client.Connect.{
  Unset, Connection, abandon, check_accept_header, read_response, send_bytes, exchange,
  after_handshake, fresh_internal, connect_to, ws_client_connect,
}
use websocket_c.Client.Handles.{Held, initial_handshake-Held}
use websocket_c.Client.Handshake.{initial_handshake}
use websocket_c.Client.SentHandles.{net_write-handles, ws_client_recv-handles}
use websocket_c.CString.{text, strcspn}
use websocket_c.Cstd.{ByteArray}
use websocket_c.Encode.{check_response_noonce}
use websocket_c.Http.{HttpResponse, http_response_init, http_response_get_header}
use websocket_c.Http.Parse.{http_response_from_str}
use websocket_c.Net.{NetInfo, net_write}
use websocket_c.Net.Closed.{connection_opened, undone, net_close-closed}
use websocket_c.Net.Connect.{net_connect}
use websocket_c.Net.Opened.{net_connect-opened}
use websocket_c.System.{System}
use websocket_c.System.Opened.{Handles, HasHandles}

module _ (sys : System) (handles : sys.World → Handles) (laws : HasHandles sys handles) where
  -- A failure behind an open connection, or success.
  abbrev Decided : Handles → Connection sys → Type 0
  Decided h c =
      ((c.ok ≡ false)
        × (c.freed ≡ true)
        × ((inner : Internal sys) × (c.client.internal ≡ some inner))
        × (handles c.world ≡ h))
      ⊎ ((c.ok ≡ true) × (c.freed ≡ false) × Held sys handles laws h c.world c.client)

  abandon-Decided :
      (h : Handles) (w : sys.World) (client : Client sys)
      → Held sys handles laws h w client
      → Ensures (abandon sys w client) (Decided h)
  unfolding abandon
  abandon-Decided h w client (inner, e, opened) =
      rw (abandon, e)
        (inl (
          refl,
          refl,
          (_, refl),
          net_close-closed sys handles laws w inner.info ∙ undone inner.info (handles w) h opened,
        ))

  check_accept_header-Decided :
      (h : Handles) (w : sys.World) (client : Client sys) (resp : HttpResponse sys)
      → Held sys handles laws h w client
      → Ensures (check_accept_header sys w client resp) (Decided h)
  unfolding check_accept_header
  check_accept_header-Decided h w client resp held =
      let P = Decided h in
      let left = abandon-Decided h w client held in
      Ensures-then (http_response_get_header sys resp (text "sec-websocket-accept") none) _ P
        (λ found.
          Ensures-if found.1 _ _ P
            (elim (Option-cases found.0) [
              | inl e ↦ rw e left
              | inr (answer, e) ↦
                  rw (e, held.1)
                    (Ensures-then
                      (check_response_noonce sys (some held.0.noonce) 16 (some answer)
                        (length answer))
                      _ P (λ accepted. Ensures-if accepted _ _ P (inr (refl, refl, held)) left))
            ])
            left)

  read_response-Decided :
      (h : Handles) (w : sys.World) (client : Client sys) (resp : HttpResponse sys)
      (response : ByteArray)
      → Held sys handles laws h w client
      → Ensures (read_response sys w client resp response) (Decided h)
  unfolding read_response
  read_response-Decided h w client resp response held =
      let P = Decided h in
      let left = abandon-Decided h w client held in
      let fresh = (http_response_init sys resp).0 in
      Ensures-if (http_response_init sys resp).1 _ _ P
        (elim (Option-cases (sys.malloc (response.len + 1))) [
          | inl e ↦ rw e tt
          | inr (block, e) ↦ rw e (
              Ensures-then (load_bytes response.byte_data 0 response.len) _ P (λ bytes.
                Ensures-then (store_bytes block 0 bytes) _ P (λ copied.
                  Ensures-then (store copied response.len 0) _ P (λ cstr.
                    Ensures-then (http_response_from_str sys fresh cstr response.len) _ P (λ parsed.
                      Ensures-if parsed.1 _ _ P
                        (Ensures-if (leb 300 parsed.0.message.status_code) _ _ P left
                          (check_accept_header-Decided h w client parsed.0 held))
                        left)))))
        ])
        tt

  send_bytes-Decided :
      (h : Handles) (bufsiz : ℕ) (w : sys.World) (client : Client sys) (inner : Internal sys)
      (unset : Unset sys) (req : List ℕ)
      → client.internal ≡ some inner
      → handles w ≡ connection_opened inner.info h
      → Ensures (send_bytes sys bufsiz w client inner unset req) (Decided h)
  unfolding send_bytes
  send_bytes-Decided h bufsiz w client inner unset req e opened =
      let P = Decided h in
      let w' = (net_write sys w (some inner.info) (some req)).0 in
      let kept : handles w' ≡ connection_opened inner.info h =
        net_write-handles sys handles laws w inner.info req ∙ opened in
      elim (Option-cases (net_write sys w (some inner.info) (some req)).1) [
        | inl f ↦ rw (send_bytes, f) (abandon-Decided h w' client (inner, e, kept))
        | inr (sent, f) ↦
            rw (send_bytes, f)
              (Ensures-bind (ws_client_recv sys bufsiz w' client unset.response) _
                (λ r. handles r.0 ≡ connection_opened inner.info h) P
                (ws_client_recv-handles sys handles laws bufsiz w' client unset.response _ kept)
                (λ got kept'.
                  Ensures-if got.2 _ _ P
                    (read_response-Decided h got.0 client unset.resp got.1 (inner, e, kept')) tt))
      ]

  exchange-Decided :
      (h : Handles) (bufsiz : ℕ) (w : sys.World) (client : Client sys) (unset : Unset sys)
      (req : List ℕ)
      → Held sys handles laws h w client
      → Ensures (exchange sys bufsiz w client unset req) (Decided h)
  unfolding exchange
  exchange-Decided h bufsiz w client unset req (inner, e, opened) =
      simp (exchange, e)
        (Ensures-then (strcspn [] (req ++ 0 ∷ [])) _ (Decided h)
          (λ n. send_bytes-Decided h bufsiz w client inner unset (take n req) e opened))

  after_handshake-Decided :
      (h : Handles) (bufsiz : ℕ) (w : sys.World) (client : Client sys) (unset : Unset sys)
      (req : Option (List ℕ))
      → Held sys handles laws h w client
      → Ensures (after_handshake sys bufsiz w client unset req) (Decided h)
  unfolding after_handshake
  after_handshake-Decided h bufsiz w client unset none held = abandon-Decided h w client held
  after_handshake-Decided h bufsiz w client unset (some req) held =
      exchange-Decided h bufsiz w client unset req held

  -- What ws_client_connect leaves when it returns: no connection and the client as it was, or a
  -- failure behind an open connection, or success.
  abbrev pub Left : Handles → Client sys → Connection sys → Type 0
  Left h before c =
      ((c.ok ≡ false) × (c.freed ≡ false) × (c.client ≡ before) × (handles c.world ≡ h))
      ⊎ Decided h c

  connect_to-Left :
      (ctx : Option ℕ) (bufsiz : ℕ) (w : sys.World) (client : Client sys) (unset : Unset sys)
      (host : List ℕ)
      → Ensures (connect_to sys ctx bufsiz w client unset host) (Left (handles w) client)
  unfolding connect_to
  connect_to-Left ctx bufsiz w client unset host =
      let empty : NetInfo = record { socket = 0; ssl = none } in
      let port = sys.to_str client.port in
      let r = net_connect sys ctx w (some host) port empty in
      let joined = record client { internal = some (fresh_internal sys r.1 unset.noonce) } in
      let h = handles w in
      elim (net_connect-opened sys handles laws ctx w (some host) port empty) [
        | inl (failed, _, kept) ↦ rw (connect_to, failed) (inl (refl, refl, refl, kept))
        | inr (made, opened) ↦
            rw (connect_to, made)
              (Ensures-imply _ (Decided h) (Left h client)
                (Ensures-bind (initial_handshake sys r.0 joined unset.req) _
                  (λ started. Held sys handles laws h started.0 started.1) (Decided h)
                  (initial_handshake-Held sys handles laws r.0 joined unset.req h (_, refl, opened))
                  (λ started held.
                    after_handshake-Decided h bufsiz started.0 started.1 unset started.2 held))
                (λ c decided. inr decided))
      ]

  -- For calls that open and close handles as documented, any client and any memory that is not set
  -- yet: if ws_client_connect returns false, no socket and no session is open besides those that
  -- were, and either the client is as before, or its internal pointer is not null and points to
  -- memory that is freed; if it returns true, the client has its internal structure, not freed,
  -- and just the socket and the session of its connection are open besides.
  pub ws_client_connect-handles :
      (ctx : Option ℕ) (bufsiz : ℕ) (w : sys.World) (client : Client sys) (unset : Unset sys)
      → Ensures (ws_client_connect sys ctx bufsiz w client unset) (Left (handles w) client)
  unfolding ws_client_connect
  ws_client_connect-handles ctx bufsiz w client unset = elim (Option-cases client.host) [
    | inl e ↦ simp (ws_client_connect, e) (inl (refl, refl, refl, refl))
    | inr (host, e) ↦ simp (ws_client_connect, e) (connect_to-Left ctx bufsiz w client unset host)
  ]
