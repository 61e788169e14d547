-- ===== src/Net/Opened.antt =====
-- Which sockets and sessions `net_connect` leaves open.
use websocket_c.Common.{
  ℕ, ◌≡◌, refl, ap, ◌∙◌, ◌⊎◌, inl, inr, Bool, true, false, List, [], ◌∷◌, Option, none, some, ◌==◌,
  Bool-cases, Option-cases,
}
use websocket_c.Net.{NetInfo}
use websocket_c.Net.Connect.{net_connect_cleanup, connect_loop, start_tls, net_connect}
use websocket_c.System.{System}
use websocket_c.System.Opened.{Handles, HasHandles, remove, socket_opened, session_opened}
use websocket_c.Net.Closed.{remove_first, connection_opened, undone, cleanup-closed}

module _ (sys : System) (handles : sys.World → Handles) (laws : HasHandles sys handles) where
  connect_loop-opened :
      (addresses : List sys.network.Address) (w : sys.World)
      → handles (connect_loop sys addresses w).0
        ≡ socket_opened (connect_loop sys addresses w).1 (handles w)
  unfolding connect_loop
  connect_loop-opened [] w = refl
  connect_loop-opened (address ∷ rest) w =
      let w' = (sys.network.socket w address).0 in
      elim (Option-cases (sys.network.socket w address).1) [
        | inl e ↦
            rw (connect_loop, e)
              (connect_loop-opened rest w'
                ∙ ap (socket_opened (connect_loop sys rest w').1) (
                    laws.socket_opens w address
                    ∙ ap (λ (o : Option ℕ). socket_opened o (handles w)) e))
        | inr (s, e) ↦
            let w'' = (sys.network.connect w' s address).0 in
            let opened : handles w'' ≡ socket_opened (some s) (handles w) =
              laws.connect_keeps w' s address
              ∙ laws.socket_opens w address
              ∙ ap (λ (o : Option ℕ). socket_opened o (handles w)) e in
            elim (Bool-cases (sys.network.connect w' s address).1) [
              | inl made ↦ rw (connect_loop, e, made) opened
              | inr refused ↦
                  let shut = sys.sockets.close w'' s in
                  rw (connect_loop, e, refused)
                    (connect_loop-opened rest shut
                      ∙ ap (socket_opened (connect_loop sys rest shut).1) (
                          laws.close_closes w'' s
                          ∙ ap
                              (λ (h : Handles). record h { open_sockets = remove s h.open_sockets })
                              opened
                          ∙ ap (λ (l : List ℕ). record (handles w) { open_sockets = l })
                              (remove_first s (handles w).open_sockets)))
            ]
      ]

  -- What a connecting function leaves: nothing is open besides and `*out` is as before, or it
  -- succeeded and just its connection is.
  abbrev pub Connected : sys.World → NetInfo → sys.World × NetInfo × Bool → Type 0
  Connected w out r =
      ((r.2 ≡ false) × (r.1 ≡ out) × (handles r.0 ≡ handles w))
      ⊎ ((r.2 ≡ true) × (handles r.0 ≡ connection_opened r.1 (handles w)))

  in_session : ℕ → Handles → Option ℕ → Handles
  in_session s h session = session_opened session (socket_opened (some s) h)

  start_tls-opened :
      (ctx : Option ℕ) (w w' : sys.World) (host : List ℕ) (s : ℕ) (out : NetInfo)
      → handles w' ≡ socket_opened (some s) (handles w)
      → Connected w out (start_tls sys ctx w' host s out)
  unfolding start_tls in_session
  start_tls-opened ctx w w' host s out h =
      let w1 = (sys.tls.ssl_new w' ctx).0 in
      let session = (sys.tls.ssl_new w' ctx).1 in
      let opened : handles w1 ≡ session_opened session (socket_opened (some s) (handles w)) =
        laws.new_opens w' ctx ∙ ap (session_opened session) h in
      elim (Option-cases session) [
        | inl e ↦
            let bare : NetInfo = record { socket = s; ssl = none } in
            inl (
              rw (start_tls, e) refl,
              rw (start_tls, e) refl,
              rw (start_tls, e)
                  (cleanup-closed sys handles laws w1 bare
                    ∙ undone bare (handles w1) (handles w)
                        (opened ∙ ap (in_session s (handles w)) e)),
            )
        | inr (ssl, e) ↦
            let secured : NetInfo = record { socket = s; ssl = some ssl } in
            let ready = sys.tls.set_host_name (sys.tls.set_fd w1 ssl s) ssl host in
            let w2 = (sys.tls.ssl_connect ready ssl).0 in
            let opened' : handles w2 ≡ connection_opened secured (handles w) =
              laws.ssl_connect_keeps ready ssl
              ∙ laws.set_host_name_keeps (sys.tls.set_fd w1 ssl s) ssl host
              ∙ laws.set_fd_keeps w1 ssl s
              ∙ opened
              ∙ ap (in_session s (handles w)) e in
            elim (Option-cases (sys.tls.ssl_connect ready ssl).1) [
              | inl f ↦ inr (rw (start_tls, e, f) refl, rw (start_tls, e, f) opened')
              | inr (code, f) ↦ elim (Bool-cases (code == 0)) [
                | inl zeroed ↦ inl (
                  rw (start_tls, e, f, zeroed) refl,
                  rw (start_tls, e, f, zeroed) refl,
                  rw (start_tls, e, f, zeroed)
                      (cleanup-closed sys handles laws w2 secured
                        ∙ undone secured (handles w2) (handles w) opened'),
                )
                | inr other ↦
                    inr (rw (start_tls, e, f, other) refl, rw (start_tls, e, f, other) opened')
              ]
            ]
      ]

  -- For calls that open and close handles as documented, any static context, names and `*out`:
  -- either `net_connect` returns false, leaves `*out` and leaves no socket and no session open
  -- besides those that were, or it returns true and just the socket and the session of `*out` are
  -- open besides.
  pub net_connect-opened :
      (ctx : Option ℕ) (w : sys.World) (host port : Option (List ℕ)) (out : NetInfo)
      → Connected w out (net_connect sys ctx w host port out)
  unfolding net_connect net_connect_cleanup
  net_connect-opened ctx w none port out = inl (refl, refl, refl)
  net_connect-opened ctx w (some host) none out = inl (refl, refl, refl)
  net_connect-opened ctx w (some host) (some port) out =
      let w1 = (sys.network.getaddrinfo w host port).0 in
      elim (Option-cases (sys.network.getaddrinfo w host port).1) [
        | inl e ↦ inl (
          rw (net_connect, e) refl,
          rw (net_connect, e) refl,
          rw (net_connect, e) (laws.getaddrinfo_keeps w host port),
        )
        | inr (addresses, e) ↦
            let w2 = (connect_loop sys addresses w1).0 in
            let sock = (connect_loop sys addresses w1).1 in
            let opened : handles w2 ≡ socket_opened sock (handles w) =
              connect_loop-opened addresses w1
              ∙ ap (socket_opened sock) (laws.getaddrinfo_keeps w host port) in
            elim (Option-cases sock) [
              | inl f ↦ inl (
                rw (net_connect, e, f) refl,
                rw (net_connect, e, f) refl,
                rw (net_connect, e, f)
                    (opened ∙ ap (λ (o : Option ℕ). socket_opened o (handles w)) f),
              )
              | inr (s, f) ↦
                  let opened' : handles w2 ≡ socket_opened (some s) (handles w) =
                    opened ∙ ap (λ (o : Option ℕ). socket_opened o (handles w)) f in
                  elim (Bool-cases sys.use_ssl) [
                    | inl ssl ↦
                        simp (net_connect, e, f, ssl) (start_tls-opened ctx w w2 host s out opened')
                    | inr plain ↦ inr (
                      simp (net_connect, e, f, plain) refl,
                      simp (net_connect, e, f, plain) opened',
                    )
                  ]
            ]
      ]
