-- ===== src/Client/Handles.antt =====
-- The sockets and sessions that are open while the opening handshake runs.
use websocket_c.Common.{
  ℕ, zero, suc, ◌+◌, ◌%◌, ◌≡◌, refl, ◌∙◌, Bool, Option, none, some, List, ◌==◌, Option-cases, inl,
  inr, store,
}
use websocket_c.Common.Runs.{Ensures, Ensures-bind, Ensures-then, Ensures-if}
use websocket_c.Client.{Internal, Client}
use websocket_c.Client.Handshake.{set_key_headers, set_handshake_headers, initial_handshake}
use websocket_c.CString.{text}
use websocket_c.Encode.{rand_loop, base64_encode, populate_rand}
use websocket_c.Http.{HttpRequest, http_request_init, http_request_set_header}
use websocket_c.Http.Print.{http_request_to_str}
use websocket_c.Net.Closed.{connection_opened}
use websocket_c.System.{System}
use websocket_c.System.Opened.{Handles, HasHandles}

module _ (sys : System) (handles : sys.World → Handles) (laws : HasHandles sys handles) where
  rand_loop-handles :
      (left i : ℕ) (w : sys.World) (buf : List ℕ) (h : Handles)
      → handles w ≡ h
      → Ensures (rand_loop sys left i w buf) (λ r. handles r.0 ≡ h)
  unfolding rand_loop
  rand_loop-handles zero i w buf h e = e
  rand_loop-handles (suc left) i w buf h e =
      let w' = (sys.rand w).0 in
      Ensures-then (store buf i ((sys.rand w).1 % 256)) _ (λ r. handles r.0 ≡ h)
        (λ out. rand_loop-handles left (i + 1) w' out h (laws.rand_keeps w ∙ e))

  populate_rand-handles :
      (w : sys.World) (buf : Option (List ℕ)) (len : ℕ) (h : Handles)
      → handles w ≡ h
      → Ensures (populate_rand sys w buf len) (λ r. handles r.0 ≡ h)
  unfolding populate_rand
  populate_rand-handles w none len h e = e
  populate_rand-handles w (some buf) len h e =
      Ensures-if (len == 0) _ _ (λ r. handles r.0 ≡ h) e
        (Ensures-bind (rand_loop sys len 0 (sys.srand_time w) buf) _ (λ r. handles r.0 ≡ h)
          (λ r. handles r.0 ≡ h)
          (rand_loop-handles len 0 (sys.srand_time w) buf h (laws.srand_keeps w ∙ e)) (λ r e'. e'))

  -- The client's connection is open, and besides it what `h` lists.
  abbrev pub Held : Handles → sys.World → Client sys → Type 0
  Held h w client =
      (inner : Internal sys) × (client.internal ≡ some inner)
      × (handles w ≡ connection_opened inner.info h)

  set_handshake_headers-Held :
      (w : sys.World) (req : HttpRequest sys) (client : Client sys) (h : Handles)
      → Held h w client
      → Ensures (set_handshake_headers sys w req client) (λ r. Held h r.0 r.2)
  unfolding set_handshake_headers
  set_handshake_headers-Held w req client h (inner, e, opened) =
      let P : (sys.World × HttpRequest sys × Client sys × Bool) → Type 0 = λ r. Held h r.0 r.2 in
      rw (set_handshake_headers, e)
        (Ensures-then (http_request_set_header sys req (text "Upgrade") (text "websocket")) _ P
          (λ first.
            Ensures-if first.1 _ _ P
              (Ensures-then
                (http_request_set_header sys first.0 (text "Connection") (text "Upgrade")) _ P
                (λ second.
                  Ensures-if second.1 _ _ P
                    (Ensures-bind (populate_rand sys w (some inner.noonce) 16) _
                      (λ r. handles r.0 ≡ connection_opened inner.info h) P
                      (populate_rand-handles w (some inner.noonce) 16 _ opened)
                      (λ drawn kept. Ensures-then (base64_encode sys drawn.1 16 0) _ P (λ key.
                        Ensures-then (set_key_headers sys second.0 client.version key.0 key.1) _ P
                          (λ keyed. (_, refl, kept)))))
                    (inner, refl, opened)))
              (inner, refl, opened)))

  pub initial_handshake-Held :
      (w : sys.World) (client : Client sys) (req : HttpRequest sys) (h : Handles)
      → Held h w client
      → Ensures (initial_handshake sys w client req) (λ r. Held h r.0 r.1)
  unfolding initial_handshake
  initial_handshake-Held w client req h held = elim (Option-cases client.host) [
    | inl e ↦ rw (initial_handshake, e) held
    | inr (host, e) ↦
        let P : (sys.World × Client sys × Option (List ℕ)) → Type 0 = λ r. Held h r.0 r.1 in
        rw (initial_handshake, e)
          (Ensures-if (http_request_init sys req).1 _ _ P
            (Ensures-bind (set_handshake_headers sys w _ client) _ (λ r. Held h r.0 r.2) P
              (set_handshake_headers-Held w _ client h held)
              (λ headed kept.
                Ensures-if headed.3 _ _ P
                  (Ensures-then (http_request_to_str sys headed.1) _ P (λ str. kept)) kept))
            tt)
  ]
