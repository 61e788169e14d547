-- ===== src/System/Opened.antt =====
-- The sockets and the TLS sessions that are open in a world, and what each call does to them.
use websocket_c.Common.{ℕ, ◌≡◌, Bool, true, false, List, [], ◌∷◌, Option, none, some, ◌==◌, ℤ}
use websocket_c.System.{System}

pub record Handles : Type 0 where
  pub open_sockets : List ℕ
  pub open_sessions : List ℕ

-- Without the first occurrence of a number.
abbrev pub remove : ℕ → List ℕ → List ℕ
remove x [] = []
remove x (y ∷ ys) = elim (x == y) [ true ↦ ys | false ↦ y ∷ remove x ys ]

abbrev pub socket_opened : Option ℕ → Handles → Handles
socket_opened none h = h
socket_opened (some s) h = record h { open_sockets = s ∷ h.open_sockets }

abbrev pub session_opened : Option ℕ → Handles → Handles
session_opened none h = h
session_opened (some s) h = record h { open_sessions = s ∷ h.open_sessions }

-- socket and SSL_new open what they return, close and SSL_free close it, and no other call opens
-- or closes anything.
pub record HasHandles (sys : System) (handles : sys.World → Handles) : Type 0 where
  pub socket_opens :
      (w : sys.World) (a : sys.network.Address)
      → handles (sys.network.socket w a).0 ≡ socket_opened (sys.network.socket w a).1 (handles w)
  pub close_closes :
      (w : sys.World) (s : ℕ)
      → handles (sys.sockets.close w s)
        ≡ record (handles w) { open_sockets = remove s (handles w).open_sockets }
  pub new_opens :
      (w : sys.World) (ctx : Option ℕ)
      → handles (sys.tls.ssl_new w ctx).0 ≡ session_opened (sys.tls.ssl_new w ctx).1 (handles w)
  pub free_closes :
      (w : sys.World) (s : ℕ)
      → handles (sys.sockets.ssl_free w s)
        ≡ record (handles w) { open_sessions = remove s (handles w).open_sessions }
  pub getaddrinfo_keeps :
      (w : sys.World) (host port : List ℕ)
      → handles (sys.network.getaddrinfo w host port).0 ≡ handles w
  pub connect_keeps :
      (w : sys.World) (s : ℕ) (a : sys.network.Address)
      → handles (sys.network.connect w s a).0 ≡ handles w
  pub set_fd_keeps : (w : sys.World) (ssl s : ℕ) → handles (sys.tls.set_fd w ssl s) ≡ handles w
  pub set_host_name_keeps :
      (w : sys.World) (ssl : ℕ) (host : List ℕ)
      → handles (sys.tls.set_host_name w ssl host) ≡ handles w
  pub ssl_connect_keeps :
      (w : sys.World) (ssl : ℕ) → handles (sys.tls.ssl_connect w ssl).0 ≡ handles w
  pub ssl_shutdown_keeps :
      (w : sys.World) (ssl : ℕ) → handles (sys.sockets.ssl_shutdown w ssl) ≡ handles w
  pub recv_keeps :
      (w : sys.World) (s n : ℕ) (peek : Bool) → handles (sys.sockets.recv w s n peek).0 ≡ handles w
  pub send_keeps :
      (w : sys.World) (s : ℕ) (bytes : List ℕ) → handles (sys.sockets.send w s bytes).0 ≡ handles w
  pub ssl_read_keeps :
      (w : sys.World) (ssl : ℕ) (num : ℤ) → handles (sys.sockets.ssl_read w ssl num).0 ≡ handles w
  pub ssl_write_keeps :
      (w : sys.World) (ssl : ℕ) (bytes : List ℕ) (num : ℤ)
      → handles (sys.sockets.ssl_write w ssl bytes num).0 ≡ handles w
  pub srand_keeps : (w : sys.World) → handles (sys.srand_time w) ≡ handles w
  pub rand_keeps : (w : sys.World) → handles (sys.rand w).0 ≡ handles w
