-- ===== src/Reader/Deliver.antt =====
-- `ws_reader_handle` implements the inbox: one call for a frame, and a call for each of many.
use websocket_c.Common.{
  ℕ, ◌+◌, ◌-◌, ◌^◌, ◌≤◌, ◌<◌, ◌≡◌, refl, ap, ◌∙◌, Bool, true, false, some, List, ◌∷◌, ◌++◌,
  append_assoc, length, length-append, take, drop, replicate, ◌==◌, done, arith,
}
use websocket_c.Frame.{Frame, success}
use websocket_c.Net.{NetInfo, net_peek}
use websocket_c.Net.Stream.{net_peek-pieces}
use websocket_c.Protocol.Header.{zero_frame, ws_frame_read_header}
use websocket_c.Protocol.ReadHeader.{ws_frame_read_header-header}
use websocket_c.Protocol.RoundTrip.{header_read}
use websocket_c.Protocol.Wire.{header, body, wire, length_bytes, length-length_bytes_le}
use websocket_c.Reader.{Reader}
use websocket_c.Reader.Accept.{IsReady}
use websocket_c.Reader.Handle.{handle_frame, ws_reader_handle}
use websocket_c.Reader.Inbox.{accept, view}
use websocket_c.Reader.Stream.{take-append_le, handle_frame-accept}
use websocket_c.System.{System, HasMemory, IsStream, left_of}

pub handle-header :
    (sys : System) (w : sys.World) (reader : Reader sys) (info : NetInfo) {w' : sys.World}
    {buffer : List ℕ} {n : ℕ} {h : Frame}
    → net_peek sys w (some info) (some (replicate 10 0)) 10 ≡ done (w', some buffer, some n)
    → 0 < n
    → ws_frame_read_header zero_frame buffer n ≡ done (h, success)
    → ws_reader_handle sys w reader (some info) ≡ handle_frame sys w' reader (some info) h
unfolding ws_reader_handle
handle-header sys w reader info {n = n} p pos e =
    rw (p, let z : (n == 0) ≡ false = ground arith in z, e) refl

-- A frame as a peer sends it.
pub record Sent : Type 0 where
  pub codes : ℕ
  pub mask : Bool
  pub key : List ℕ
  pub payload : List ℕ

-- The key has 4 bytes, there is something behind the header, and the size of the whole frame, which has at
-- most 14 bytes more than the payload, is an int.
pub record IsSent (f : Sent) : Type 0 where
  pub key_size : length f.key ≡ 4
  pub has_body : 0 < length (body f.mask f.key f.payload)
  pub size_limit : length f.payload + 14 < 2 ^ 31

abbrev pub sent_wire : Sent → List ℕ
sent_wire f = wire f.codes f.mask f.key f.payload

module _ (sys : System) (mem : HasMemory sys) (pieces : sys.World → List (List ℕ))
    (stream : IsStream sys pieces) where
  -- The header of the frame that is waiting is read off the ten bytes peeked.
  pub handle-waiting_header :
      (w : sys.World) (reader : Reader sys) (info : NetInfo) (codes : ℕ) (mask : Bool) (n : ℕ)
      (behind : List ℕ) (more : List (List ℕ))
      → n < 2 ^ 64
      → pieces w ≡ (header codes mask n ++ behind) ∷ more
      → (w' : sys.World) × (ws_reader_handle sys w reader (some info)
          ≡ handle_frame sys w' reader (some info) (header_read zero_frame codes mask n))
        × (pieces w' ≡ pieces w)
  handle-waiting_header w reader info codes mask n behind more small e =
      let head = header codes mask n in
      let bytes = take 10 (head ++ behind) in
      let zeros : List ℕ = replicate 10 0 in
      let (w', peeked, same) =
        net_peek-pieces sys pieces stream w info zeros 10 (head ++ behind) more e
          (λ z. absurd (omega (arith, length-append head behind, ap length z))) (omega arith)
          (omega arith) (omega arith) in
      let short = length-length_bytes_le n in
      let found : bytes ≡ head ++ take (10 - length head) behind =
        take-append_le 10 head behind (omega (arith, short)) in
      let count : 2 + length (length_bytes n) ≤ length bytes =
        omega (arith, ap length found, length-append head (take (10 - length head) behind)) in
      (
        w',
        handle-header sys w reader info peeked (omega (arith, count)) (
            ap (λ (t : List ℕ). ws_frame_read_header zero_frame t (length bytes))
              (ap (◌++ drop (length bytes) zeros) found
                ∙ append_assoc head (take (10 - length head) behind) (drop (length bytes) zeros))
            ∙ ws_frame_read_header-header zero_frame codes mask n
                (take (10 - length head) behind ++ drop (length bytes) zeros) (length bytes) small
                count),
        same,
      )

  -- A whole frame with a body at the start of what one receive can give, with any bytes behind it,
  -- an open reader and memory enough: `ws_reader_handle` returns true, takes just that frame off
  -- the connection, and does to the inbox what `accept` says.
  pub ws_reader_handle-accept :
      (w : sys.World) (reader : Reader sys) (info : NetInfo) (f : Sent) (rest : List ℕ)
      (more : List (List ℕ))
      → IsReady sys reader
      → IsSent f
      → pieces w ≡ (sent_wire f ++ rest) ∷ more
      → (w' : sys.World) × (reader' : Reader sys) × (ws_reader_handle sys w reader (some info)
          ≡ done (w', reader', true))
        × (pieces w' ≡ left_of rest more)
        × IsReady sys reader'
        × (view sys reader' ≡ accept (view sys reader) f.codes f.payload)
  ws_reader_handle-accept w reader info f rest more ready sent e =
      let n = length f.payload in
      let head = header f.codes f.mask n in
      let b = body f.mask f.key f.payload in
      let (w', reached, same) =
        handle-waiting_header w reader info f.codes f.mask n (b ++ rest) more
          (omega (arith, sent.size_limit)) (e ∙ ap (◌∷ more) (append_assoc head b rest)) in
      let (w'', reader', ran, left, ready', seen) =
        handle_frame-accept sys mem pieces stream w' reader info f.codes f.mask f.key f.payload rest
          more ready sent.key_size sent.size_limit sent.has_body (same ∙ e) in
      (w'', reader', reached ∙ ran, left, ready', seen)
