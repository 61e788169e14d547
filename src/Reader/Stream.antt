-- ===== src/Reader/Stream.antt =====
-- `ws_reader_handle` on a connection where a whole frame is waiting.
use websocket_c.Common.{
  ℕ, zero, suc, ◌+◌, ◌-◌, ◌^◌, ◌≤◌, ◌<◌, ◌≡◌, refl, ap, ◌∙◌, Bool, true, false, Option, some, List,
  [], ◌∷◌, ◌++◌, append_assoc, length, length-append, take, drop, take-append, drop-append,
  take_all, ◌==◌, u64, sub64, done, arith,
}
use websocket_c.Frame.{Frame, success}
use websocket_c.Net.{NetInfo, net_read}
use websocket_c.Net.Stream.{net_read-pieces}
use websocket_c.Protocol.Body.{ws_frame_read_body}
use websocket_c.Protocol.Header.{zero_frame, ws_frame_payload_byte_len}
use websocket_c.Protocol.ReadBody.{key_read, ws_frame_read_body-body}
use websocket_c.Protocol.RoundTrip.{
  header_read, flags_mask-header_read, payload_byte_len-length_bytes,
}
use websocket_c.Protocol.Wire.{header, body, wire, length-length_bytes_le, length-wire}
use websocket_c.Reader.{Reader}
use websocket_c.Reader.Accept.{IsReady, accept_frame-accept}
use websocket_c.Reader.Handle.{message_len, accept_frame, handle_frame}
use websocket_c.Reader.Inbox.{accept, view}
use websocket_c.System.{System, HasMemory, IsStream, left_of}

pub take-append_le :
    (n : ℕ) (xs ys : List ℕ) → length xs ≤ n → take n (xs ++ ys) ≡ xs ++ take (n - length xs) ys
take-append_le n [] ys h = ap (λ (k : ℕ). take k ys) (let e : n ≡ n - 0 = omega arith in e)
take-append_le zero (x ∷ xs) ys h = absurd (omega arith)
take-append_le (suc n) (x ∷ xs) ys h = ap (◌∷◌ x) (
    take-append_le n xs ys (omega arith)
    ∙ ap (λ (k : ℕ). xs ++ take k ys)
        (let e : n - length xs ≡ suc n - suc (length xs) = omega arith in e))

drop-append_le : (n : ℕ) (xs ys : List ℕ) → n ≡ length xs → drop n (xs ++ ys) ≡ ys
drop-append_le n xs ys e = rw e (drop-append xs ys)

-- The length that is read is that of the frame.
pub message_len-wire :
    (codes : ℕ) (mask : Bool) (key payload : List ℕ)
    → length key ≡ 4
    → length payload < 2 ^ 62
    → message_len (header_read zero_frame codes mask (length payload))
      ≡ length (wire codes mask key payload)
unfolding message_len
message_len-wire codes true key payload k small =
    rw
      (
        flags_mask-header_read zero_frame codes true (length payload),
        payload_byte_len-length_bytes zero_frame codes true (length payload),
      )
      (omega (arith, length-wire codes true key payload, length-length_bytes_le (length payload)))
message_len-wire codes false key payload k small =
    rw
      (
        flags_mask-header_read zero_frame codes false (length payload),
        payload_byte_len-length_bytes zero_frame codes false (length payload),
      )
      (omega (arith, length-wire codes false key payload, length-length_bytes_le (length payload)))

pub length-wire_le :
    (codes : ℕ) (mask : Bool) (key payload : List ℕ)
    → length key ≡ 4
    → length (wire codes mask key payload) ≤ 14 + length payload
length-wire_le codes true key payload k =
    omega (arith, length-wire codes true key payload, length-length_bytes_le (length payload))
length-wire_le codes false key payload k =
    omega (arith, length-wire codes false key payload, length-length_bytes_le (length payload))

handle_frame-steps :
    (sys : System) (w : sys.World) (reader : Reader sys) (info : NetInfo) (h : Frame) {len : ℕ}
    {m : Option (List ℕ)} {w' : sys.World} {buffer : List ℕ} {whole : Frame} {reader' : Reader sys}
    {ok : Bool}
    → message_len h ≡ len
    → sys.malloc (u64 (len + 1)) ≡ m
    → net_read sys w (some info) m len ≡ done (w', some buffer, some len)
    → ws_frame_read_body sys.arrays sys.use_simd h buffer
        (2 + ws_frame_payload_byte_len h)
        (sub64 len (2 + ws_frame_payload_byte_len h))
      ≡ done (whole, success)
    → accept_frame sys reader whole ≡ done (reader', ok)
    → handle_frame sys w reader (some info) h ≡ done (w', reader', ok)
unfolding handle_frame
handle_frame-steps sys w reader info h {len} l m r b a =
    rw (l, m, r, let t : (len == len) ≡ true = ground arith in t, b, a) refl

module _ (sys : System) (mem : HasMemory sys) (pieces : sys.World → List (List ℕ))
    (stream : IsStream sys pieces) where
  -- From the header of the frame on.
  pub handle_frame-accept :
      (w : sys.World) (reader : Reader sys) (info : NetInfo) (codes : ℕ) (mask : Bool)
      (key payload rest : List ℕ) (more : List (List ℕ))
      → IsReady sys reader
      → length key ≡ 4
      → length payload + 14 < 2 ^ 31
      → 0 < length (body mask key payload)
      → pieces w ≡ (wire codes mask key payload ++ rest) ∷ more
      → (w' : sys.World) × (reader' : Reader sys) × (handle_frame sys w reader
            (some info)
            (header_read zero_frame codes mask (length payload))
          ≡ done (w', reader', true))
        × (pieces w' ≡ left_of rest more)
        × IsReady sys reader'
        × (view sys reader' ≡ accept (view sys reader) codes payload)
  handle_frame-accept w reader info codes mask key payload rest more ready k small has_body e =
      let n = length payload in
      let bytes = wire codes mask key payload in
      let h = header_read zero_frame codes mask n in
      let head = header codes mask n in
      let b = body mask key payload in
      let bound = length-wire_le codes mask key payload k in
      let size = length bytes in
      let len = message_len-wire codes mask key payload k (omega arith) in
      let sizes = length-append head b in
      let skip = payload_byte_len-length_bytes zero_frame codes mask n in
      let (block, granted) = mem.malloc_grants (u64 (size + 1)) (omega (arith, bound)) in
      let room = mem.malloc_size (u64 (size + 1)) block granted in
      let (w', read, left) =
        net_read-pieces sys pieces stream w info block size (bytes ++ rest) more e
          (λ z. absurd (omega (arith, sizes, ap length z))) (omega (arith, sizes))
          (omega (arith, bound)) (omega (arith, bound, room)) in
      let found : take size (bytes ++ rest) ≡ bytes = take-append bytes rest in
      let after = drop size block in
      let (filled, allocated) = mem.init_grants n (omega arith) in
      let whole : Frame = record h {
        masking_key = key_read mask key h.masking_key;
        payload = record filled { byte_data = payload; len = n };
      } in
      let (reader', accepted, ready', seen) =
        accept_frame-accept sys mem reader whole ready (omega arith) in
      (
        w',
        reader',
        handle_frame-steps sys w reader info h len granted
            (read
              ∙ ap (λ (t : List ℕ). done (w', some (t ++ drop (length t) block), some (length t)))
                  found
              ∙ ap (λ (t : List ℕ). done (w', some t, some size)) (append_assoc head b after))
            (ws_frame_read_body-body sys.arrays mem.array_laws sys.use_simd h mask key payload head
              after (2 + ws_frame_payload_byte_len h) (sub64 size (2 + ws_frame_payload_byte_len h))
              filled (flags_mask-header_read zero_frame codes mask n) k refl refl (omega arith)
              allocated (omega (arith, skip)) (omega (arith, skip, sizes, bound))
              (omega (arith, skip, sizes, bound)))
            accepted,
        left ∙ ap (λ (t : List ℕ). left_of t more) (drop-append bytes rest),
        ready',
        seen ∙ ap (accept (view sys reader) codes) (take_all payload),
      )
