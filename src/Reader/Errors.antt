-- ===== src/Reader/Errors.antt =====
-- `ws_reader_handle` on frames that it cannot take.
use websocket_c.Common.{
  ℕ, ◌+◌, ◌-◌, ◌^◌, ◌≤◌, ◌<◌, ◌≡◌, ◌≢◌, refl, ap, ◌∙◌, Bool, true, false, Option, some, List, [],
  ◌∷◌, ◌++◌, length, length-append, length-take, length-drop, drop, ◌==◌, ltb, leb, u64, sub64,
  done, fault, load_bytes, arith,
}
use websocket_c.Frame.{Frame, flags_mask}
use websocket_c.Net.{NetInfo, net_read}
use websocket_c.Net.Stream.{net_read-pieces}
use websocket_c.Protocol.Body.{ws_frame_read_body, ws_frame_extract_mask}
use websocket_c.Protocol.Header.{zero_frame, ws_frame_payload_byte_len}
use websocket_c.Protocol.RoundTrip.{header_read}
use websocket_c.Protocol.Wire.{header, body, wire}
use websocket_c.Reader.{Reader}
use websocket_c.Reader.Deliver.{handle-waiting_header}
use websocket_c.Reader.Handle.{message_len, handle_frame, ws_reader_handle}
use websocket_c.Reader.Stream.{message_len-wire, length-wire_le}
use websocket_c.System.{System, HasMemory, IsStream, left_of}

-- Fewer bytes read than the frame has.
handle_frame-short :
    (sys : System) (w : sys.World) (reader : Reader sys) (info : NetInfo) (h : Frame) {len n : ℕ}
    {m buffer : Option (List ℕ)} {w' : sys.World}
    → message_len h ≡ len
    → sys.malloc (u64 (len + 1)) ≡ m
    → net_read sys w (some info) m len ≡ done (w', buffer, some n)
    → n ≢ len
    → handle_frame sys w reader (some info) h ≡ done (w', reader, false)
unfolding handle_frame
handle_frame-short sys w reader info h {len} {n} l m r other =
    rw (l, m, r, let t : (n == len) ≡ false = ground arith in t) refl

-- A body that the frame codec refuses for its length.
handle_frame-refused :
    (sys : System) (w : sys.World) (reader : Reader sys) (info : NetInfo) (h : Frame) {len : ℕ}
    {m : Option (List ℕ)} {w' : sys.World} {buffer : List ℕ}
    → message_len h ≡ len
    → sys.malloc (u64 (len + 1)) ≡ m
    → net_read sys w (some info) m len ≡ done (w', some buffer, some len)
    → sub64 len (2 + ws_frame_payload_byte_len h) ≡ 0
    → handle_frame sys w reader (some info) h ≡ done (w', reader, false)
unfolding handle_frame ws_frame_read_body
handle_frame-refused sys w reader info h {len} l m r z =
    rw (l, m, r, let t : (len == len) ≡ true = ground arith in t, z) refl

-- A key outside of the block read.
handle_frame-outside :
    (sys : System) (w : sys.World) (reader : Reader sys) (info : NetInfo) (h : Frame) {len : ℕ}
    {m : Option (List ℕ)} {w' : sys.World} {buffer : List ℕ}
    → message_len h ≡ len
    → sys.malloc (u64 (len + 1)) ≡ m
    → net_read sys w (some info) m len ≡ done (w', some buffer, some len)
    → flags_mask h ≡ true
    → 4 ≤ sub64 len (2 + ws_frame_payload_byte_len h)
    → length buffer < 2 + ws_frame_payload_byte_len h + 4
    → handle_frame sys w reader (some info) h ≡ fault
unfolding handle_frame ws_frame_read_body ws_frame_extract_mask load_bytes
handle_frame-outside sys w reader info h {len} {buffer = buffer} l m r mask long short =
    let left = sub64 len (2 + ws_frame_payload_byte_len h) in
    rw
      (
        l,
        m,
        r,
        let t : (len == len) ≡ true = ground arith in t,
        let t : (left == 0) ≡ false = ground arith in t,
        mask,
        let t : ltb left 4 ≡ false = ground arith in t,
        let t : leb (2 + ws_frame_payload_byte_len h + 0 + 4) (length buffer) ≡ false =
              ground arith in
            t,
      )
      refl

drop_past : (n : ℕ) (xs : List ℕ) → length xs ≤ n → drop n xs ≡ []
drop_past ℕ.zero [] h = refl
drop_past ℕ.zero (x ∷ xs) h = absurd (omega arith)
drop_past (ℕ.suc n) [] h = refl
drop_past (ℕ.suc n) (x ∷ xs) h = drop_past n xs (omega arith)

module _ (sys : System) (mem : HasMemory sys) (pieces : sys.World → List (List ℕ))
    (stream : IsStream sys pieces) where
  -- A frame without mask and without payload at the start of what one receive can give, such as an
  -- empty PING, with any bytes behind it, and memory enough: `ws_reader_handle` takes the frame off
  -- the connection, returns false and leaves the reader as it was, whatever the opcode.
  pub ws_reader_handle-empty :
      (w : sys.World) (reader : Reader sys) (info : NetInfo) (codes : ℕ) (rest : List ℕ)
      (more : List (List ℕ))
      → pieces w ≡ (codes ∷ 0 ∷ rest) ∷ more
      → (w' : sys.World) × (ws_reader_handle sys w reader (some info) ≡ done (w', reader, false))
        × (pieces w' ≡ left_of rest more)
  unfolding ws_frame_payload_byte_len message_len
  ws_reader_handle-empty w reader info codes rest more e =
      let (w', reached, same) =
        handle-waiting_header sys mem pieces stream w reader info codes false 0 rest more
          (omega arith) e in
      let (block, granted) = mem.malloc_grants 3 (omega arith) in
      let room = mem.malloc_size 3 block granted in
      let (w'', read, left) =
        net_read-pieces sys pieces stream w' info block 2 (codes ∷ 0 ∷ rest) more (same ∙ e)
          (λ z. absurd (omega (arith, ap length z))) (omega arith) (omega arith)
          (omega (arith, room)) in
      let h = header_read zero_frame codes false 0 in
      (w'', reached ∙ handle_frame-refused sys w' reader info h refl granted read refl, left)

  -- What one receive can give is the start of a frame, its header at least but not the whole, the
  -- frame's size is an int, and there is memory enough: `ws_reader_handle` takes these bytes off the
  -- connection, returns false and leaves the reader as it was, whatever is to come behind them, the
  -- rest of the frame in the next TLS record for one.
  pub ws_reader_handle-partial :
      (w : sys.World) (reader : Reader sys) (info : NetInfo) (codes : ℕ) (mask : Bool)
      (key payload came : List ℕ) (more : List (List ℕ))
      → length key ≡ 4
      → length payload + 14 < 2 ^ 31
      → pieces w ≡ (header codes mask (length payload) ++ came) ∷ more
      → length came < length (body mask key payload)
      → (w' : sys.World) × (ws_reader_handle sys w reader (some info) ≡ done (w', reader, false))
        × (pieces w' ≡ more)
  ws_reader_handle-partial w reader info codes mask key payload came more k small e part =
      let n = length payload in
      let head = header codes mask n in
      let (w', reached, same) =
        handle-waiting_header sys mem pieces stream w reader info codes mask n came more
          (omega arith) e in
      let size = length (wire codes mask key payload) in
      let bound = length-wire_le codes mask key payload k in
      let (block, granted) = mem.malloc_grants (u64 (size + 1)) (omega (arith, bound)) in
      let room = mem.malloc_size (u64 (size + 1)) block granted in
      let (w'', read, left) =
        net_read-pieces sys pieces stream w' info block size (head ++ came) more (same ∙ e)
          (λ z. absurd (omega (arith, length-append head came, ap length z)))
          (omega (arith, length-append head (body mask key payload))) (omega (arith, bound))
          (omega (arith, room, bound)) in
      let waiting : length (head ++ came) < size =
        omega (arith, length-append head came, length-append head (body mask key payload)) in
      (
        w'',
        reached
            ∙ handle_frame-short sys w' reader info (header_read zero_frame codes mask n)
                (message_len-wire codes mask key payload k (omega arith)) granted read
                (omega (arith, length-take size (head ++ came), waiting)),
        left
            ∙ ap (λ (t : List ℕ). left_of t more)
                (drop_past size (head ++ came) (omega (arith, waiting))),
      )

  -- The header of a masked frame that announces 2 ^ 64 - 12 bytes of payload, with any bytes behind
  -- it, at the start of what one receive can give, and memory enough: the size of the whole frame wraps to 2, and
  -- `ws_reader_handle` accesses memory out of range.
  pub ws_reader_handle-wrapped :
      (w : sys.World) (reader : Reader sys) (info : NetInfo) (codes : ℕ) (behind : List ℕ)
      (more : List (List ℕ))
      → pieces w ≡ (header codes true (2 ^ 64 - 12) ++ behind) ∷ more
      → ws_reader_handle sys w reader (some info) ≡ fault
  unfolding ws_frame_payload_byte_len message_len
  ws_reader_handle-wrapped w reader info codes behind more e =
      let n = 2 ^ 64 - 12 in
      let piece = header codes true n ++ behind in
      let (w', reached, same) =
        handle-waiting_header sys mem pieces stream w reader info codes true n behind more
          (omega arith) e in
      let (block, granted) = mem.malloc_grants 3 (omega arith) in
      let room = mem.malloc_size 3 block granted in
      let (w'', read, left) =
        net_read-pieces sys pieces stream w' info block 2 piece more (same ∙ e)
          (λ z. absurd (omega (arith, ap length z))) (omega arith) (omega arith)
          (omega (arith, room)) in
      let two : List ℕ = codes ∷ 255 ∷ [] in
      reached
      ∙ handle_frame-outside sys w' reader info (header_read zero_frame codes true n)
          {buffer = two ++ drop 2 block} refl granted read refl (omega arith)
          (omega (arith, length-drop 2 block, room))
