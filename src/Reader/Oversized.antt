-- ===== src/Reader/Oversized.antt =====
-- `ws_reader_handle` over TLS on a header that announces more bytes than an int counts.
use websocket_c.Common.{
  ℕ, ◌+◌, ◌-◌, ◌%◌, ◌^◌, ◌≤◌, ◌<◌, ◌≡◌, refl, ap, ◌∙◌, Bool, true, false, Bool-cases, Option, none,
  some, List, [], ◌∷◌, ◌++◌, ◌==◌, if◌then◌else◌, negsuc, to_int, u64, done, inl, inr, arith,
}
use websocket_c.Cstd.{null_array}
use websocket_c.Frame.{Frame, opcode_value, flags_opcode}
use websocket_c.Net.{NetInfo, net_read, received}
use websocket_c.Protocol.Header.{zero_frame}
use websocket_c.Protocol.RoundTrip.{
  header_read, flags_mask-header_read, payload_byte_len-length_bytes,
}
use websocket_c.Protocol.Wire.{header, length-length_bytes_le}
use websocket_c.Reader.{Reader}
use websocket_c.Reader.Accept.{IsReady, push_control-accepted}
use websocket_c.Reader.Deliver.{handle-waiting_header}
use websocket_c.Reader.Handle.{message_len, push_control, handle_frame, ws_reader_handle}
use websocket_c.Reader.Inbox.{Inbox, view}
use websocket_c.System.{System, HasMemory, IsStream}

-- A message without bytes at the end of an inbox.
abbrev pub with_empty : ℕ → Inbox → Inbox
with_empty type inbox = record inbox { messages = inbox.messages ++ (type, []) ∷ [] }

message_len-header :
    (codes : ℕ) (mask : Bool) (n : ℕ)
    → n < 2 ^ 62
    → (n ≤ message_len (header_read zero_frame codes mask n))
      × (message_len (header_read zero_frame codes mask n) ≤ n + 14)
unfolding message_len
message_len-header codes true n small =
    rw
      (
        flags_mask-header_read zero_frame codes true n,
        payload_byte_len-length_bytes zero_frame codes true n,
      )
      (omega (arith, length-length_bytes_le n), omega (arith, length-length_bytes_le n))
message_len-header codes false n small =
    rw
      (
        flags_mask-header_read zero_frame codes false n,
        payload_byte_len-length_bytes zero_frame codes false n,
      )
      (omega (arith, length-length_bytes_le n), omega (arith, length-length_bytes_le n))

to_int-negsuc : (n : ℕ) → 2 ^ 31 ≤ n → n < 2 ^ 32 → to_int n ≡ negsuc (2 ^ 32 - 1 - n)
unfolding to_int
to_int-negsuc n big small = ground arith

-- A receive that fails: CLOSE is kept without its payload, all else is an error.
handle_frame-close :
    (sys : System) (w : sys.World) (reader : Reader sys) (info : NetInfo) (h : Frame) {len : ℕ}
    {m buffer : Option (List ℕ)} {w' : sys.World} {kept : Reader sys} {ok : Bool}
    → message_len h ≡ len
    → sys.malloc (u64 (len + 1)) ≡ m
    → net_read sys w (some info) m len ≡ done (w', buffer, none)
    → (flags_opcode h == 8) ≡ true
    → push_control sys reader (record { type = flags_opcode h; body = null_array }) ≡ (kept, ok)
    → handle_frame sys w reader (some info) h ≡ done (w', kept, ok)
unfolding handle_frame opcode_value
handle_frame-close sys w reader info h l m r c p = rw (l, m, r, c, p) refl

handle_frame-failed :
    (sys : System) (w : sys.World) (reader : Reader sys) (info : NetInfo) (h : Frame) {len : ℕ}
    {m buffer : Option (List ℕ)} {w' : sys.World}
    → message_len h ≡ len
    → sys.malloc (u64 (len + 1)) ≡ m
    → net_read sys w (some info) m len ≡ done (w', buffer, none)
    → (flags_opcode h == 8) ≡ false
    → len < 2 ^ 62
    → handle_frame sys w reader (some info) h ≡ done (w', reader, false)
unfolding handle_frame opcode_value
handle_frame-failed sys w reader info h {len} l m r c small =
    rw (l, m, r, c, let t : (2 ^ 64 - 1 == len) ≡ false = ground arith in t) refl

module _ (sys : System) (mem : HasMemory sys) (pieces : sys.World → List (List ℕ))
    (stream : IsStream sys pieces)
    (refuses : (w : sys.World) (ssl n : ℕ)
      → ((sys.sockets.ssl_read w ssl (negsuc n)).1 ≡ none)
        × (pieces (sys.sockets.ssl_read w ssl (negsuc n)).0 ≡ pieces w)) where
  net_read-refused :
      (w : sys.World) (info : NetInfo) (block : List ℕ) (ssl len : ℕ)
      → info.ssl ≡ some ssl
      → 2 ^ 31 ≤ len
      → len < 2 ^ 32
      → (w' : sys.World) × (net_read sys w (some info) (some block) len
          ≡ done (w', some block, none))
        × (pieces w' ≡ pieces w)
  unfolding net_read
  net_read-refused w info block ssl len tls big small =
      let num = negsuc (2 ^ 32 - 1 - len) in
      let answer = sys.sockets.ssl_read w ssl num in
      let (failed, same) = refuses w ssl (2 ^ 32 - 1 - len) in
      let shape : answer ≡ (answer.0, none) = λ i. (answer.0, failed i) in
      (answer.0, rw (tls, to_int-negsuc len big small) (ap (received sys block) shape), same)

  -- A TLS session whose SSL_read fails and takes nothing when its num is negative, a header that
  -- announces from 2 ^ 31 to 2 ^ 32 - 15 bytes of payload at the start of what one receive can give,
  -- with anything behind it, an open reader and memory enough: `ws_reader_handle` takes nothing off
  -- the connection. For the opcode CLOSE it returns true and adds an empty CLOSE message; for any
  -- other opcode it returns false and changes neither fragments nor messages.
  pub ws_reader_handle-oversized :
      (w : sys.World) (reader : Reader sys) (info : NetInfo) (ssl codes : ℕ) (mask : Bool) (n : ℕ)
      (behind : List ℕ) (more : List (List ℕ))
      → IsReady sys reader
      → info.ssl ≡ some ssl
      → 2 ^ 31 ≤ n
      → n + 14 < 2 ^ 32
      → pieces w ≡ (header codes mask n ++ behind) ∷ more
      → (w' : sys.World) × (reader' : Reader sys) × (ws_reader_handle sys w reader (some info)
          ≡ done (w', reader', codes % 16 == 8))
        × (pieces w' ≡ pieces w)
        × (view sys reader'
            ≡ (if codes % 16 == 8 then with_empty 8 (view sys reader) else view sys reader))
  ws_reader_handle-oversized w reader info ssl codes mask n behind more ready tls big small e =
      let h = header_read zero_frame codes mask n in
      let len = message_len h in
      let (low, high) = message_len-header codes mask n (omega arith) in
      let (w', reached, same) =
        handle-waiting_header sys mem pieces stream w reader info codes mask n behind more
          (omega arith) e in
      let (block, granted) = mem.malloc_grants (u64 (len + 1)) (omega (arith, high)) in
      let (w'', refused, kept) =
        net_read-refused w' info block ssl len tls (omega (arith, low)) (omega (arith, high)) in
      elim (Bool-cases (codes % 16 == 8)) [
        | inl closing ↦
            let (reader', pushed, _, seen) =
              push_control-accepted sys mem reader (record { type = codes % 16; body = null_array })
                ready in
            let eight : codes % 16 ≡ 8 = ground arith in
            (
              w'',
              reader',
              reached
                  ∙ handle_frame-close sys w' reader info h refl granted refused closing pushed
                  ∙ rw closing refl,
              kept ∙ same,
              seen ∙ rw closing (ap (λ (t : ℕ). with_empty t (view sys reader)) eight),
            )
        | inr other ↦ (
          w'',
          reader,
          reached
              ∙ handle_frame-failed sys w' reader info h refl granted refused other
                  (omega (arith, high))
              ∙ rw other refl,
          kept ∙ same,
          rw other refl,
        )
      ]
