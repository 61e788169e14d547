-- ===== src/Net/Contexts.antt =====
-- The static OpenSSL context of src/net.c: whether it is one that has not been freed.
use websocket_c.Common.{
  ℕ, ◌≡◌, refl, ap, ◌∙◌, true, false, List, [], ◌∷◌, Option, none, some, Bool-cases, Option-cases,
  inl, inr,
}
use websocket_c.Net.Closed.{remove_first}
use websocket_c.Net.Connect.{net_init_client, load_server_files, net_init_server, net_deinit}
use websocket_c.System.{System}
use websocket_c.System.Opened.{remove}

abbrev pub listed : Option ℕ → List ℕ
listed none = []
listed (some ctx) = ctx ∷ []

-- SSL_CTX_new makes a context, SSL_CTX_free frees it, and no other call does.
pub record HasContexts (sys : System) (contexts : sys.World → List ℕ) : Type 0 where
  pub new_makes :
      (w : sys.World)
      → contexts w ≡ []
      → contexts (sys.tls.ctx_new w).0 ≡ listed (sys.tls.ctx_new w).1
  pub free_frees :
      (w : sys.World) (ctx : ℕ) → contexts (sys.tls.ctx_free w ctx) ≡ remove ctx (contexts w)
  pub library_init_keeps : (w : sys.World) → contexts (sys.tls.library_init w) ≡ contexts w
  pub locations_keeps :
      (w : sys.World) (ctx : ℕ) (cert : List ℕ) (path : Option (List ℕ))
      → contexts (sys.tls.load_verify_locations w ctx cert path).0 ≡ contexts w
  pub peer_keeps : (w : sys.World) (ctx : ℕ) → contexts (sys.tls.set_verify_peer w ctx) ≡ contexts w
  pub depth_keeps :
      (w : sys.World) (ctx n : ℕ) → contexts (sys.tls.set_verify_depth w ctx n) ≡ contexts w
  pub proto_keeps : (w : sys.World) (ctx : ℕ) → contexts (sys.tls.set_min_proto w ctx) ≡ contexts w
  pub certificate_keeps :
      (w : sys.World) (ctx : ℕ) (cert : List ℕ)
      → contexts (sys.tls.use_certificate_file w ctx cert).0 ≡ contexts w
  pub cleanup_keeps : (w : sys.World) → contexts (sys.tls.evp_cleanup w) ≡ contexts w

module _ (sys : System) (contexts : sys.World → List ℕ) (laws : HasContexts sys contexts) where
  -- Calls of net_init_client and net_deinit, any number of them in any order, from one world and
  -- static context to another.
  pub data ClientCalls (w : sys.World) (ctx : Option ℕ) : sys.World → Option ℕ → Type 0 where
    no_calls : ClientCalls w ctx w ctx
    then_init :
        {w' : sys.World} {ctx' : Option ℕ} (cert path : Option (List ℕ))
        → ClientCalls w ctx w' ctx'
        → ClientCalls w ctx
            (net_init_client sys w' ctx' cert path).0
            (net_init_client sys w' ctx' cert path).1
    then_deinit :
        {w' : sys.World} {ctx' : Option ℕ}
        → ClientCalls w ctx w' ctx'
        → ClientCalls w ctx (net_deinit sys w' ctx').0 (net_deinit sys w' ctx').1

  freed : (w : sys.World) (ctx : ℕ) → contexts w ≡ ctx ∷ [] → contexts (sys.tls.ctx_free w ctx) ≡ []
  freed w ctx e = laws.free_frees w ctx ∙ ap (remove ctx) e ∙ remove_first ctx []

  init_client-listed :
      (w : sys.World) (ctx : Option ℕ) (cert path : Option (List ℕ))
      → contexts w ≡ listed ctx
      → contexts (net_init_client sys w ctx cert path).0
        ≡ listed (net_init_client sys w ctx cert path).1
  unfolding net_init_client
  init_client-listed w (some ctx) cert path h = h
  init_client-listed w none cert path h =
      let inited = sys.tls.library_init w in
      let w' = (sys.tls.ctx_new inited).0 in
      let made : contexts w' ≡ listed (sys.tls.ctx_new inited).1 =
        laws.new_makes inited (laws.library_init_keeps w ∙ h) in
      elim (Option-cases (sys.tls.ctx_new inited).1) [
        | inl e ↦ rw (net_init_client, e) (made ∙ ap listed e)
        | inr (ctx, e) ↦ elim (Option-cases cert) [
          | inl f ↦ rw (net_init_client, e, f) (made ∙ ap listed e)
          | inr (file, f) ↦
              let w'' = (sys.tls.load_verify_locations w' ctx file path).0 in
              let one : contexts w'' ≡ ctx ∷ [] =
                laws.locations_keeps w' ctx file path ∙ made ∙ ap listed e in
              elim (Bool-cases (sys.tls.load_verify_locations w' ctx file path).1) [
                | inl ok ↦
                    let peer = sys.tls.set_verify_peer w'' ctx in
                    rw (net_init_client, e, f, ok)
                      (laws.proto_keeps (sys.tls.set_verify_depth peer ctx 4) ctx
                        ∙ laws.depth_keeps peer ctx 4
                        ∙ laws.peer_keeps w'' ctx
                        ∙ one)
                | inr refused ↦ rw (net_init_client, e, f, refused) (freed w'' ctx one)
              ]
        ]
      ]

  deinit-listed :
      (w : sys.World) (ctx : Option ℕ)
      → contexts w ≡ listed ctx
      → contexts (net_deinit sys w ctx).0 ≡ listed (net_deinit sys w ctx).1
  unfolding net_deinit
  deinit-listed w none h = h
  deinit-listed w (some ctx) h = laws.cleanup_keeps (sys.tls.ctx_free w ctx) ∙ freed w ctx h

  -- For calls that make and free contexts as documented, and a static context that is the only one
  -- not freed, or null when there is none: after any number of calls of net_init_client and
  -- net_deinit, in any order and with any results, this is still so.
  pub ClientCalls-listed :
      (w : sys.World) (ctx : Option ℕ) (w' : sys.World) (ctx' : Option ℕ)
      → contexts w ≡ listed ctx
      → ClientCalls w ctx w' ctx'
      → contexts w' ≡ listed ctx'
  ClientCalls-listed w ctx w' ctx' h no_calls = h
  ClientCalls-listed w ctx w' ctx' h (then_init cert path calls) =
      init_client-listed _ _ cert path (ClientCalls-listed w ctx _ _ h calls)
  ClientCalls-listed w ctx w' ctx' h (then_deinit calls) =
      deinit-listed _ _ (ClientCalls-listed w ctx _ _ h calls)

  -- For calls that make and free contexts as documented, no context, and a certificate file that
  -- is refused: net_init_server returns false with the static context pointing to a context that
  -- is freed, and a second call takes it for a good one, returns true and makes none.
  pub net_init_server-refused :
      (w : sys.World) (ctx : ℕ) (key cert : List ℕ) (key' cert' : Option (List ℕ))
      → contexts w ≡ []
      → (sys.tls.ctx_new (sys.tls.library_init w)).1 ≡ some ctx
      → (sys.tls.use_certificate_file (sys.tls.ctx_new (sys.tls.library_init w)).0 ctx cert).1
        ≡ false
      → (w' : sys.World) × (net_init_server sys w none (some key) (some cert)
          ≡ (w', some ctx, false))
        × (net_init_server sys w' (some ctx) key' cert' ≡ (w', some ctx, true))
        × (contexts w' ≡ [])
  unfolding net_init_server load_server_files
  net_init_server-refused w ctx key cert key' cert' h e refused =
      let inited = sys.tls.library_init w in
      let w1 = (sys.tls.ctx_new inited).0 in
      let w2 = (sys.tls.use_certificate_file w1 ctx cert).0 in
      (
        sys.tls.ctx_free w2 ctx,
        rw (net_init_server, e, load_server_files, refused) refl,
        refl,
        freed w2 ctx (
            laws.certificate_keeps w1 ctx cert
            ∙ laws.new_makes inited (laws.library_init_keeps w ∙ h)
            ∙ ap listed e),
      )
