-- ===== src/Client.antt =====
-- src/websocket.c and headers/websocket.h: the client, its messages and its listener.
pub mod Write
pub mod Handshake
pub mod HandshakeText
pub mod RequestSent
pub mod HeadersSet
pub mod RequestRead
pub mod Connect
pub mod Handles
pub mod SentHandles
pub mod ConnectHandles
pub mod ConnectFree
pub mod Answered
pub mod Response
pub mod Accepted
pub mod Listen
pub mod Sends
pub mod Url
pub mod UrlPort
pub mod UrlParse
pub mod Received
pub mod Rounds
pub mod Conversation
pub mod Fragment
use websocket_c.Common.{
  ℕ, Bool, true, false, Option, none, some, List, ◌==◌, if◌then◌else◌, Run, done, ◌>>=◌, load_bytes,
  store_bytes, replicate,
}
use websocket_c.Net.{NetInfo, net_read, net_close}
use websocket_c.Reader.{Reader, ws_reader_destroy, ws_reader_next_msg}
use websocket_c.Reader.Handle.{block_of, ws_reader_handle}
use websocket_c.Cstd.{ByteArray}
use websocket_c.System.{System, Message}

-- struct __ws_client_internal_t
pub record Internal (sys : System) : Type 0 where
  pub reader : Option (Reader sys)
  pub info : NetInfo
  -- 16 bytes
  pub noonce : List ℕ
  pub loop_flag : Bool

-- struct ws_client_t
pub record Client (sys : System) : Type 0 where
  pub internal : Option (Internal sys)
  pub path : Option (List ℕ)
  pub host : Option (List ℕ)
  pub port : ℕ
  pub version : ℕ
  pub use_tls : Bool

-- `internal != NULL && internal->reader != NULL`
abbrev pub ws_check_internals : (sys : System) → Client sys → Bool
ws_check_internals sys client = elim client.internal [
  | none ↦ false
  | some inner ↦ elim inner.reader [ none ↦ false | some reader ↦ true ]
]

module _ (sys : System) where
  unfoldable pub ws_client_init : Client sys → Client sys × Bool
  ws_client_init client = (
    record { internal = none; path = none; host = none; port = 80; version = 13; use_tls = false },
    true,
  )

  -- `out` is the value of `*out` before; the result is the world, the client, `*out` and the
  -- Boolean returned.
  unfoldable pub ws_client_next_msg :
      sys.World → Client sys → Option Message → Run (sys.World × Client sys × Option Message × Bool)
  ws_client_next_msg w client out = elim client.internal [
    | none ↦ done (w, client, out, false)
    | some inner ↦ elim inner.reader [
      | none ↦ done (w, client, out, false)
      | some reader ↦ (do
        (w', handled, ok) ← ws_reader_handle sys w reader (some inner.info)
        if ok
            then (do
              let (left, msg) = ws_reader_next_msg sys handled
              done (
                w',
                record client { internal = some (record inner { reader = some left }) },
                msg,
                true,
              ))
            else done (
              w',
              record client { internal = some (record inner { reader = some handled }) },
              out,
              false,
            ))
    ]
  ]

  -- What net_read gave, in a new array.
  unfoldable pub keep_received :
      sys.World → ByteArray → List ℕ → Option ℕ → Run (sys.World × ByteArray × Bool)
  keep_received w out buffer none = done (w, out, false)
  keep_received w out buffer (some n) = elim (sys.arrays.init n) [
    | none ↦ done (w, out, false)
    | some fresh ↦ do
      bytes ← load_bytes buffer 0 n
      filled ← store_bytes fresh.byte_data 0 bytes
      done (w, record fresh { byte_data = filled; len = n }, true)
  ]

  -- `bufsiz` is BUFSIZ of stdio.h; the result is the world, the array and the Boolean returned.
  unfoldable pub ws_client_recv :
      ℕ → sys.World → Client sys → ByteArray → Run (sys.World × ByteArray × Bool)
  ws_client_recv bufsiz w client out = elim client.internal [
    | none ↦ done (w, out, false)
    | some inner ↦
        if ws_check_internals sys client
        then (do
          (w', buffer, n) ← net_read sys w (some inner.info) (some (replicate bufsiz 0)) bufsiz
          keep_received w' out (block_of buffer) n)
        else done (w, out, false)
  ]

  unfoldable pub ws_client_set_net_info : Client sys → NetInfo → Client sys × Bool
  ws_client_set_net_info client info = elim client.internal [
    | none ↦ (client, false)
    | some inner ↦ (record client { internal = some (record inner { info = info }) }, true)
  ]

  abbrev pub closed_info : NetInfo → Option NetInfo → NetInfo
  closed_info info none = info
  closed_info info (some closed) = closed

  -- `client == NULL` is `none`.
  unfoldable pub ws_client_shutdown_loop :
      sys.World → Option (Client sys) → sys.World × Option (Client sys) × Bool
  ws_client_shutdown_loop w none = (w, none, false)
  ws_client_shutdown_loop w (some client) = elim client.internal [
    | none ↦ (w, some client, false)
    | some inner ↦ (
      (net_close sys w (some inner.info)).0,
      some (record client {
        internal = some (record inner {
          loop_flag = false;
          info = closed_info inner.info (net_close sys w (some inner.info)).1;
        });
      }),
      true,
    )
  ]

  unfoldable pub ws_client_free : sys.World → Client sys → sys.World × Client sys
  ws_client_free w client =
      let named = record client { host = none; path = none } in
      elim client.internal [
        | none ↦ (w, named)
        | some inner ↦ ((net_close sys w (some inner.info)).0, record named { internal = none })
      ]
