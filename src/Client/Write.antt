-- ===== src/Client/Write.antt =====
-- src/websocket.c: sending of one message as one masked frame.
use websocket_c.Common.{
  ℕ, Bool, true, false, not, Option, none, some, List, [], ◌∷◌, ltb, ◌==◌, if◌then◌else◌, Run, done,
  fault, ◌>>=◌, load_bytes, store_bytes,
}
use websocket_c.Client.{Client}
use websocket_c.Cstd.{ByteArray, null_array}
use websocket_c.Encode.{populate_rand}
use websocket_c.Frame.{Frame, set_opcode, set_fin, set_mask}
use websocket_c.Net.{net_write}
use websocket_c.Protocol.Header.{is_success, zero_frame}
use websocket_c.Protocol.Write.{ws_frame_write}
use websocket_c.System.{System, Message}

-- The pointer to the bytes of an array.
abbrev pub pointer : List ℕ → Option (List ℕ)
pointer [] = none
pointer (x ∷ xs) = some (x ∷ xs)

-- n == -1
abbrev pub is_failure : Option ℕ → Bool
is_failure none = true
is_failure (some n) = false

-- The frame that is sent, but for key and payload.
abbrev pub framed : ℕ → Frame
framed type = set_mask (set_fin (set_opcode zero_frame type))

abbrev pub block : Option (List ℕ) → List ℕ
block none = []
block (some bytes) = bytes

module _ (sys : System) where
  -- Without `__internal` the address of its `info` is no valid pointer.
  unfoldable pub ws_client_write_blob : sys.World → Client sys → ByteArray → Run (sys.World × Bool)
  ws_client_write_blob w client msg = elim client.internal [
    | none ↦ fault
    | some inner ↦ (do
      bytes ← load_bytes msg.byte_data 0 msg.len
      let (w', n) = net_write sys w (some inner.info) (pointer bytes)
      done (w', not (is_failure n)))
  ]

  -- The frame with a copy of the body as its payload; `none` is the early return.
  unfoldable pub copy_body : Frame → ByteArray → Run (Option Frame)
  copy_body frame body =
      if ltb 0 body.len
      then elim (sys.arrays.init body.len) [
        | none ↦ done none
        | some payload ↦ if not (payload.cap == body.len) then done none else (do
          bytes ← load_bytes body.byte_data 0 payload.cap
          copied ← store_bytes payload.byte_data 0 bytes
          done (
              some (record frame {
                payload = record payload { byte_data = copied; len = payload.cap };
              })))
      ]
      else done (some frame)

  unfoldable pub ws_client_write : sys.World → Client sys → ℕ → ByteArray → Run (sys.World × Bool)
  ws_client_write w client type body = do
    let frame = framed type
    (w', key) ← populate_rand sys w (some frame.masking_key) 4
    copied ← copy_body (record frame { masking_key = block key }) body
    elim copied [
      | none ↦ done (w', false)
      | some filled ↦ (do
        (sent, out, err) ← ws_frame_write sys.arrays sys.use_simd filled null_array
        if is_success err then ws_client_write_blob w' client out else done (w', false))
    ]

  unfoldable pub ws_client_write_msg : sys.World → Client sys → Message → Run (sys.World × Bool)
  ws_client_write_msg w client msg = ws_client_write w client msg.type msg.body
