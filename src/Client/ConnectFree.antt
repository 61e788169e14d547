-- ===== src/Client/ConnectFree.antt =====
-- Connecting and freeing a client leaves no socket and no session open.
use websocket_c.Common.{ℕ, ◌≡◌, ◌∙◌, Option, inl, inr, if◌then◌else◌, done, ◌>>=◌}
use websocket_c.Common.Runs.{Ensures, Ensures-bind}
use websocket_c.Client.{Client, ws_client_free}
use websocket_c.Client.Connect.{Unset, ws_client_connect}
use websocket_c.Client.Handles.{Held}
use websocket_c.Net.Closed.{undone, net_close-closed}
use websocket_c.System.{System}
use websocket_c.System.Opened.{Handles, HasHandles}
use websocket_c.Client.ConnectHandles.{Left, ws_client_connect-handles}

module _ (sys : System) (handles : sys.World → Handles) (laws : HasHandles sys handles) where
  ws_client_free-handles :
      (h : Handles) (w : sys.World) (client : Client sys)
      → Held sys handles laws h w client
      → handles (ws_client_free sys w client).0 ≡ h
  unfolding ws_client_free
  ws_client_free-handles h w client (inner, e, opened) =
      rw (ws_client_free, e)
        (net_close-closed sys handles laws w inner.info ∙ undone inner.info (handles w) h opened)

  -- For calls that open and close handles as documented: a client that is connected with success
  -- and then freed leaves the sockets and sessions open that were open before, and so does one that
  -- is not connected, if ws_client_connect returns.
  pub connect-ws_client_free :
      (ctx : Option ℕ) (bufsiz : ℕ) (w : sys.World) (client : Client sys) (unset : Unset sys)
      → Ensures
          (do
            c ← ws_client_connect sys ctx bufsiz w client unset
            done (if c.ok then (ws_client_free sys c.world c.client).0 else c.world))
          (λ w'. handles w' ≡ handles w)
  connect-ws_client_free ctx bufsiz w client unset =
      let h = handles w in
      Ensures-bind (ws_client_connect sys ctx bufsiz w client unset) _
        (Left sys handles laws h client) (λ w'. handles w' ≡ h)
        (ws_client_connect-handles sys handles laws ctx bufsiz w client unset)
        (λ c left. elim left [
          | inl (failed, _, _, kept) ↦ rw failed kept
          | inr (inl (failed, _, _, kept)) ↦ rw failed kept
          | inr (inr (made, _, held)) ↦ rw made (ws_client_free-handles h c.world c.client held)
        ])
