-- ===== src/Client/Url.antt =====
-- src/websocket.c: ws_client_from_str. `url` is the block that the pointer points to, the NUL
-- included.
use websocket_c.Common.{
  ℕ, ◌+◌, Bool, true, false, ◌&&◌, none, List, [], ◌∷◌, length, drop, replicate, leb, ◌==◌,
  if◌then◌else◌, u64, sub64, Run, done, ◌>>=◌, load, load_bytes, store, store_bytes,
}
use websocket_c.Client.{Client}
use websocket_c.CString.{starts_with, strcspn, atoi}
use websocket_c.System.{System}

-- "ws://" and "wss://"
abbrev pub ws_prefix : List ℕ
ws_prefix = 119 ∷ 115 ∷ 58 ∷ 47 ∷ 47 ∷ []

abbrev pub wss_prefix : List ℕ
wss_prefix = 119 ∷ 115 ∷ 115 ∷ 58 ∷ 47 ∷ 47 ∷ []

-- The part after ':', up to '/'; the result is the port and the new offset.
unfoldable pub read_port : List ℕ → ℕ → Run (ℕ × ℕ)
read_port url offset = do
  next_offset ← strcspn (47 ∷ []) (drop offset url)
  digits ← load_bytes url offset next_offset
  copied ← store_bytes (replicate 6 0) 0 digits
  port_buffer ← store copied next_offset 0
  done (atoi port_buffer, u64 (offset + next_offset))

module _ (sys : System) where
  -- The path, if there is one at `offset`.
  unfoldable pub read_path : List ℕ → ℕ → Client sys → ℕ → Run (Client sys × Bool)
  read_path url len client offset = if offset == len then done (client, true) else (do
    c ← load url offset
    if c == 47
        then (do
          path ← load_bytes url offset (sub64 len offset)
          done (record client { path = sys.str_dup path }, true))
        else done (client, true))

  -- What follows the prefix.
  unfoldable pub read_host : List ℕ → ℕ → Client sys → ℕ → Run (Client sys × Bool)
  unfolding read_port
  read_host url len client offset = do
    next_offset ← strcspn (58 ∷ 47 ∷ []) (drop offset url)
    host ← load_bytes url offset next_offset
    let named = record client { host = sys.str_dup host }
    if leb len (u64 (next_offset + length ws_prefix)) then done (named, true) else (do
      c ← load url (offset + next_offset)
      if c == 58
          then (do
            (port, behind) ← read_port url (offset + next_offset + 1)
            read_path url len (record named { port = port }) behind)
          else read_path url len named (offset + next_offset))

  unfoldable pub ws_client_from_str : List ℕ → ℕ → Client sys → Run (Client sys × Bool)
  ws_client_from_str url len client =
      let reset = record client {
        host = none;
        path = none;
        port = 80;
        version = 13;
        use_tls = false;
      } in
      if leb len (length ws_prefix)
      then done (reset, false)
      else if leb len (length wss_prefix)
      then done (reset, false)
      else (do
        plain ← starts_with ws_prefix url
        if plain then read_host url len reset (length ws_prefix) else (do
          secure ← starts_with wss_prefix url
          if secure && sys.use_ssl
              then read_host url len (record reset { use_tls = true }) (length wss_prefix)
              else done (reset, false)))
