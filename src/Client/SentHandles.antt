-- ===== src/Client/SentHandles.antt =====
-- Sending and receiving opens and closes nothing.
use websocket_c.Common.{
  ℕ, ◌≡◌, ◌∙◌, Bool, false, Option, none, some, List, Option-cases, inl, inr, done, load_bytes,
  store_bytes, replicate, length, to_int,
}
use websocket_c.Common.Runs.{Ensures, Ensures-bind, Ensures-then, Ensures-if}
use websocket_c.Client.{Client, ws_check_internals, keep_received, ws_client_recv}
use websocket_c.Cstd.{ByteArray}
use websocket_c.Net.{NetInfo, received, net_read, net_write}
use websocket_c.Reader.Handle.{block_of}
use websocket_c.System.{System}
use websocket_c.System.Opened.{Handles, HasHandles}

module _ (sys : System) (handles : sys.World → Handles) (laws : HasHandles sys handles) where
  pub net_write-handles :
      (w : sys.World) (info : NetInfo) (bytes : List ℕ)
      → handles (net_write sys w (some info) (some bytes)).0 ≡ handles w
  unfolding net_write
  net_write-handles w info bytes = elim (Option-cases info.ssl) [
    | inl e ↦ rw (net_write, e) (laws.send_keeps w info.socket bytes)
    | inr (ssl, e) ↦ rw (net_write, e) (laws.ssl_write_keeps w ssl bytes (to_int (length bytes)))
  ]

  received-handles :
      (block : List ℕ) (w : sys.World) (got : Option (List ℕ)) (h : Handles)
      → handles w ≡ h
      → Ensures (received sys block (w, got)) (λ r. handles r.0 ≡ h)
  received-handles block w none h e = e
  received-handles block w (some bytes) h e =
      Ensures-then (store_bytes block 0 bytes) _ (λ r. handles r.0 ≡ h) (λ filled. e)

  net_read-handles :
      (w : sys.World) (info : NetInfo) (block : List ℕ) (n : ℕ) (h : Handles)
      → handles w ≡ h
      → Ensures (net_read sys w (some info) (some block) n) (λ r. handles r.0 ≡ h)
  unfolding net_read
  net_read-handles w info block n h e = elim (Option-cases info.ssl) [
    | inl f ↦
        rw (net_read, f) (received-handles block _ _ h (laws.recv_keeps w info.socket n false ∙ e))
    | inr (ssl, f) ↦
        rw (net_read, f) (received-handles block _ _ h (laws.ssl_read_keeps w ssl (to_int n) ∙ e))
  ]

  keep_received-handles :
      (w : sys.World) (out : ByteArray) (buffer : List ℕ) (n : Option ℕ) (h : Handles)
      → handles w ≡ h
      → Ensures (keep_received sys w out buffer n) (λ r. handles r.0 ≡ h)
  unfolding keep_received
  keep_received-handles w out buffer none h e = e
  keep_received-handles w out buffer (some n) h e =
      let P : (sys.World × ByteArray × Bool) → Type 0 = λ r. handles r.0 ≡ h in
      elim (Option-cases (sys.arrays.init n)) [
        | inl i ↦ rw (keep_received, i) e
        | inr (fresh, i) ↦
            rw (keep_received, i)
              (Ensures-then (load_bytes buffer 0 n) _ P
                (λ bytes. Ensures-then (store_bytes fresh.byte_data 0 bytes) _ P (λ filled. e)))
      ]

  pub ws_client_recv-handles :
      (bufsiz : ℕ) (w : sys.World) (client : Client sys) (out : ByteArray) (h : Handles)
      → handles w ≡ h
      → Ensures (ws_client_recv sys bufsiz w client out) (λ r. handles r.0 ≡ h)
  unfolding ws_client_recv
  ws_client_recv-handles bufsiz w client out h e =
      let P : (sys.World × ByteArray × Bool) → Type 0 = λ r. handles r.0 ≡ h in
      elim (Option-cases client.internal) [
        | inl f ↦ rw (ws_client_recv, f) e
        | inr (inner, f) ↦
            rw (ws_client_recv, f)
              (Ensures-if (ws_check_internals sys client) _ (done (w, out, false)) P
                (Ensures-bind (net_read sys w (some inner.info) (some (replicate bufsiz 0)) bufsiz)
                  _ (λ r. handles r.0 ≡ h) P
                  (net_read-handles w inner.info (replicate bufsiz 0) bufsiz h e)
                  (λ got e'. keep_received-handles got.0 out (block_of got.1) got.2 h e'))
                e)
      ]
