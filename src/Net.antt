-- ===== src/Net.antt =====
-- src/net.c: reading, writing and closing of a connection, over a TLS session where there is one.
-- A null pointer is `none`. A build without WEBC_USE_SSL has no session.
-- SSL_peek, SSL_read and SSL_write take the size_t of a buffer as an int.
pub mod Stream
pub mod Connect
pub mod Closed
pub mod Opened
pub mod Contexts
use websocket_c.Common.{
  ℕ, ◌∷◌, List, Option, none, some, Bool, true, false, length, Run, done, ◌>>=◌, store_bytes,
  to_int,
}
use websocket_c.System.{System}

-- struct net_info_t
pub record NetInfo : Type 0 where
  pub socket : ℕ
  pub ssl : Option ℕ

module _ (sys : System) where
  -- The bytes received go to the start of the buffer. The result is the world, the buffer and the
  -- number of bytes, `none` for -1.
  abbrev pub received :
      List ℕ → sys.World × Option (List ℕ) → Run (sys.World × Option (List ℕ) × Option ℕ)
  received block (w, none) = done (w, some block, none)
  received block (w, some bytes) = do
    filled ← store_bytes block 0 bytes
    done (w, some filled, some (length bytes))

  unfoldable pub net_peek :
      sys.World
      → Option NetInfo
      → Option (List ℕ)
      → ℕ
      → Run (sys.World × Option (List ℕ) × Option ℕ)
  net_peek w none buf len = done (w, buf, some 0)
  net_peek w (some info) none len = done (w, none, some 0)
  net_peek w (some info) (some block) len = elim info.ssl [
    | some ssl ↦ received block (sys.sockets.ssl_peek w ssl (to_int len))
    | none ↦ received block (sys.sockets.recv w info.socket len true)
  ]

  unfoldable pub net_read :
      sys.World
      → Option NetInfo
      → Option (List ℕ)
      → ℕ
      → Run (sys.World × Option (List ℕ) × Option ℕ)
  net_read w none buf len = done (w, buf, some 0)
  net_read w (some info) none len = done (w, none, some 0)
  net_read w (some info) (some block) len = elim info.ssl [
    | some ssl ↦ received block (sys.sockets.ssl_read w ssl (to_int len))
    | none ↦ received block (sys.sockets.recv w info.socket len false)
  ]

  -- The list is the bytes at `buf`, as many as `buf_len`.
  unfoldable pub net_write : sys.World → Option NetInfo → Option (List ℕ) → sys.World × Option ℕ
  net_write w none bytes = (w, some 0)
  net_write w (some info) none = (w, some 0)
  net_write w (some info) (some bytes) = elim info.ssl [
    | some ssl ↦ sys.sockets.ssl_write w ssl bytes (to_int (length bytes))
    | none ↦ sys.sockets.send w info.socket bytes
  ]

  -- The result is the world and the structure with `ssl` reset.
  unfoldable pub net_close : sys.World → Option NetInfo → sys.World × Option NetInfo
  net_close w none = (w, none)
  net_close w (some info) = elim info.ssl [
    | some ssl ↦ (
      sys.sockets.close (sys.sockets.ssl_free (sys.sockets.ssl_shutdown w ssl) ssl) info.socket,
      some (record info { ssl = none }),
    )
    | none ↦ (sys.sockets.close w info.socket, some info)
  ]
