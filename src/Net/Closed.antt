-- ===== src/Net/Closed.antt =====
-- Which sockets and sessions `net_close` and the cleanup of `net_connect` leave open.
use websocket_c.Common.{
  ℕ, ◌≡◌, refl, ap, ◌∙◌, inl, inr, true, List, ◌∷◌, Option, none, some, ◌==◌, Option-cases, arith,
}
use websocket_c.Net.{NetInfo, net_close}
use websocket_c.Net.Connect.{net_connect_cleanup, connect_failed}
use websocket_c.System.{System}
use websocket_c.System.Opened.{Handles, HasHandles, remove, socket_opened, session_opened}

pub remove_first : (x : ℕ) (xs : List ℕ) → remove x (x ∷ xs) ≡ xs
remove_first x xs = let same : (x == x) ≡ true = ground arith in rw (remove, same) refl

-- What is open with a connection besides.
abbrev pub connection_opened : NetInfo → Handles → Handles
connection_opened info h = session_opened info.ssl (socket_opened (some info.socket) h)

abbrev pub session_closed : Option ℕ → Handles → Handles
session_closed none h = h
session_closed (some ssl) h = record h { open_sessions = remove ssl h.open_sessions }

abbrev pub connection_closed : NetInfo → Handles → Handles
connection_closed info h = record (session_closed info.ssl h) {
  open_sockets = remove info.socket h.open_sockets;
}

session_closed_opened :
    (ssl : Option ℕ) (h : Handles)
    → (session_closed ssl (session_opened ssl h)).open_sessions ≡ h.open_sessions
session_closed_opened none h = refl
session_closed_opened (some ssl) h = remove_first ssl h.open_sessions

opened_sockets :
    (ssl : Option ℕ) (h : Handles) → (session_opened ssl h).open_sockets ≡ h.open_sockets
opened_sockets none h = refl
opened_sockets (some ssl) h = refl

handles_equal :
    (h k : Handles) → h.open_sockets ≡ k.open_sockets → h.open_sessions ≡ k.open_sessions → h ≡ k
handles_equal h k e f =
    ap (λ (s : List ℕ). record h { open_sockets = s }) e
    ∙ ap (λ (s : List ℕ). record k { open_sessions = s }) f

pub closed_opened :
    (info : NetInfo) (h : Handles) → connection_closed info (connection_opened info h) ≡ h
closed_opened info h =
    let socketed = socket_opened (some info.socket) h in
    handles_equal (connection_closed info (connection_opened info h)) h
      (ap (remove info.socket) (opened_sockets info.ssl socketed)
        ∙ remove_first info.socket h.open_sockets)
      (session_closed_opened info.ssl socketed)

-- A connection that was opened last is closed again.
pub undone :
    (info : NetInfo) (k h : Handles) → k ≡ connection_opened info h → connection_closed info k ≡ h
undone info k h e = ap (connection_closed info) e ∙ closed_opened info h

module _ (sys : System) (handles : sys.World → Handles) (laws : HasHandles sys handles) where
  -- Shutdown and release of the session, if any, and close of the socket.
  abbrev closed_world : sys.World → Option ℕ → ℕ → sys.World
  closed_world w none socket = sys.sockets.close w socket
  closed_world w (some ssl) socket =
      sys.sockets.close (sys.sockets.ssl_free (sys.sockets.ssl_shutdown w ssl) ssl) socket

  closed_world-closed :
      (w : sys.World) (ssl : Option ℕ) (socket : ℕ)
      → handles (closed_world w ssl socket)
        ≡ connection_closed (record { socket = socket; ssl = ssl }) (handles w)
  closed_world-closed w none socket = laws.close_closes w socket
  closed_world-closed w (some ssl) socket =
      let w' = sys.sockets.ssl_shutdown w ssl in
      laws.close_closes (sys.sockets.ssl_free w' ssl) socket
      ∙ ap (λ (h : Handles). record h { open_sockets = remove socket h.open_sockets })
          (laws.free_closes w' ssl)
      ∙ ap (connection_closed (record { socket = socket; ssl = some ssl }))
          (laws.ssl_shutdown_keeps w ssl)

  net_close-world :
      (w : sys.World) (info : NetInfo)
      → (net_close sys w (some info)).0 ≡ closed_world w info.ssl info.socket
  unfolding net_close
  net_close-world w info = elim (Option-cases info.ssl) [
    | inl e ↦ rw e refl
    | inr (ssl, e) ↦ rw e refl
  ]

  pub net_close-closed :
      (w : sys.World) (info : NetInfo)
      → handles (net_close sys w (some info)).0 ≡ connection_closed info (handles w)
  net_close-closed w info =
      ap handles (net_close-world w info) ∙ closed_world-closed w info.ssl info.socket

  pub cleanup-closed :
      (w : sys.World) (info : NetInfo)
      → handles (connect_failed sys w info) ≡ connection_closed info (handles w)
  unfolding net_connect_cleanup
  cleanup-closed w info = elim (Option-cases info.ssl) [
    | inl e ↦ rw e (closed_world-closed w none info.socket)
    | inr (ssl, e) ↦ rw e (closed_world-closed w (some ssl) info.socket)
  ]
