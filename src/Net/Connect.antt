-- ===== src/Net/Connect.antt =====
-- src/net.c: opening of a connection, and the static OpenSSL context `ctx`, which the functions
-- take and give back. Error messages are not modelled.
use websocket_c.Common.{
  ℕ, Bool, true, false, List, [], ◌∷◌, Option, none, some, ◌==◌, if◌then◌else◌,
}
use websocket_c.Net.{NetInfo}
use websocket_c.System.{System}

-- struct net_result_t
pub record NetResult : Type 0 where
  pub error_triggered : Bool
  pub ctx : Option NetInfo

abbrev pub gen_net_result : NetResult
gen_net_result = record { error_triggered = false; ctx = none }

module _ (sys : System) where
  unfoldable pub net_init_client :
      sys.World → Option ℕ → Option (List ℕ) → Option (List ℕ) → sys.World × Option ℕ × Bool
  net_init_client w (some ctx) cert path = (w, some ctx, true)
  net_init_client w none cert path =
      let (w', made) = sys.tls.ctx_new (sys.tls.library_init w) in
      elim made [
        | none ↦ (w', none, false)
        | some ctx ↦ elim cert [
          | none ↦ (w', some ctx, true)
          | some file ↦
              let (loaded, ok) = sys.tls.load_verify_locations w' ctx file path in
              if ok
              then (
                sys.tls.set_min_proto
                    (sys.tls.set_verify_depth (sys.tls.set_verify_peer loaded ctx) ctx 4) ctx,
                some ctx,
                true,
              )
              else (sys.tls.ctx_free loaded ctx, none, false)
        ]
      ]

  -- The tests of key and certificate, once the context is made. On a failure the context is freed
  -- and `ctx` still points to it.
  unfoldable pub load_server_files : sys.World → ℕ → List ℕ → List ℕ → sys.World × Option ℕ × Bool
  load_server_files w ctx key cert =
      let (w1, certified) = sys.tls.use_certificate_file w ctx cert in
      if certified
      then (let (w2, keyed) = sys.tls.use_private_key_file w1 ctx key in
          if keyed
          then (let (w3, matching) = sys.tls.check_private_key w2 ctx in
              if matching
              then (sys.tls.set_min_proto w3 ctx, some ctx, true)
              else (sys.tls.ctx_free w3 ctx, some ctx, false))
          else (sys.tls.ctx_free w2 ctx, some ctx, false))
      else (sys.tls.ctx_free w1 ctx, some ctx, false)

  unfoldable pub net_init_server :
      sys.World → Option ℕ → Option (List ℕ) → Option (List ℕ) → sys.World × Option ℕ × Bool
  net_init_server w (some ctx) key cert = (w, some ctx, true)
  net_init_server w none key cert =
      let (w', made) = sys.tls.ctx_new (sys.tls.library_init w) in
      elim made [
        | none ↦ (w', none, false)
        | some ctx ↦ elim key [
          | none ↦ (w', some ctx, true)
          | some key_file ↦ elim cert [
            | none ↦ (w', some ctx, true)
            | some cert_file ↦ load_server_files w' ctx key_file cert_file
          ]
        ]
      ]

  unfoldable pub net_deinit : sys.World → Option ℕ → sys.World × Option ℕ
  net_deinit w none = (w, none)
  net_deinit w (some ctx) = (sys.tls.evp_cleanup (sys.tls.ctx_free w ctx), none)

  unfoldable pub net_connect_cleanup : sys.World → NetResult → sys.World
  net_connect_cleanup w result =
      if result.error_triggered
      then elim result.ctx [
        | none ↦ w
        | some info ↦ elim info.ssl [
          | none ↦ sys.sockets.close w info.socket
          | some ssl ↦
              sys.sockets.close (sys.sockets.ssl_free (sys.sockets.ssl_shutdown w ssl) ssl)
                info.socket
        ]
      ]
      else w

  -- for (rp = res; rp != NULL; rp = rp->ai_next); the result is `sock`.
  unfoldable pub connect_loop : List sys.network.Address → sys.World → sys.World × Option ℕ
  connect_loop [] w = (w, none)
  connect_loop (address ∷ rest) w =
      let (w', sock) = sys.network.socket w address in
      elim sock [
        | none ↦ connect_loop rest w'
        | some s ↦ elim (sys.network.connect w' s address).1 [
          | true ↦ ((sys.network.connect w' s address).0, some s)
          | false ↦ connect_loop rest (sys.sockets.close (sys.network.connect w' s address).0 s)
        ]
      ]

  -- The error `failed` behind a connected socket.
  abbrev pub connect_failed : sys.World → NetInfo → sys.World
  connect_failed w result =
      net_connect_cleanup w (record { error_triggered = true; ctx = some result })

  -- With a connected socket, in a build with WEBC_USE_SSL. `!SSL_connect(...)` is false for a
  -- negative result.
  unfoldable pub start_tls :
      Option ℕ → sys.World → List ℕ → ℕ → NetInfo → sys.World × NetInfo × Bool
  start_tls ctx w host sock out =
      let result : NetInfo = record { socket = sock; ssl = none } in
      let (w', session) = sys.tls.ssl_new w ctx in
      elim session [
        | none ↦ (connect_failed w' result, out, false)
        | some ssl ↦
            let secured = record result { ssl = some ssl } in
            let (w'', n) =
              sys.tls.ssl_connect (sys.tls.set_host_name (sys.tls.set_fd w' ssl sock) ssl host)
                ssl in
            elim n [
              | none ↦ (w'', secured, true)
              | some code ↦
                  if code == 0
                  then (connect_failed w'' secured, out, false)
                  else (w'', secured, true)
            ]
      ]

  -- `out` is `*out` before; the result is the world, `*out` and the Boolean returned.
  unfoldable pub net_connect :
      Option ℕ
      → sys.World
      → Option (List ℕ)
      → Option (List ℕ)
      → NetInfo
      → sys.World × NetInfo × Bool
  net_connect ctx w none port out = (w, out, false)
  net_connect ctx w (some host) none out = (w, out, false)
  net_connect ctx w (some host) (some port) out =
      let (w', res) = sys.network.getaddrinfo w host port in
      elim res [
        | none ↦ (net_connect_cleanup w' gen_net_result, out, false)
        | some addresses ↦
            let (w'', sock) = connect_loop addresses w' in
            elim sock [
              | none ↦ (
                net_connect_cleanup w'' (record gen_net_result { error_triggered = true }),
                out,
                false,
              )
              | some s ↦ if sys.use_ssl then start_tls ctx w'' host s out else (
                net_connect_cleanup w'' gen_net_result,
                record { socket = s; ssl = none },
                true,
              )
            ]
      ]
