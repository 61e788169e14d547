-- ===== src/Protocol/RoundTrip.antt =====
-- What one side writes the other reads back, the way `ws_reader_handle` reads: the header first,
-- then the body behind it. `ws_frame_read`, which does both, skips no extended length.
use websocket_c.Common.{
  ℕ, ◌+◌, ◌-◌, ◌/◌, ◌%◌, ◌^◌, ◌<◌, ◌≡◌, ◌≢◌, refl, sym, ap, ◌∙◌, Bool, true, false, List, [], ◌∷◌,
  ◌++◌, append-nil, some, ◌==◌, sub64, length, length-append, length-take, take, drop,
  take-append-drop, take_all, arith, done,
}
use websocket_c.Cstd.{ByteArray, ByteArrays, IsByteArrays, contents}
use websocket_c.Frame.{Frame, success, flags_mask}
use websocket_c.Protocol.Body.{ws_frame_read_body, ws_frame_read}
use websocket_c.Protocol.Header.{zero_frame, ws_frame_read_header, ws_frame_payload_byte_len}
use websocket_c.Protocol.ReadBody.{key_read, ws_frame_read_body-body}
use websocket_c.Protocol.ReadHeader.{ws_frame_read_header-header}
use websocket_c.Protocol.Wire.{
  length_code, length_bytes, mask_bit, header, body, wire, length-wire, length-length_bytes_le,
}
use websocket_c.Protocol.WireFormat.{IsWritable, ws_frame_write-wire}
use websocket_c.Protocol.Write.{ws_frame_output_size, ws_frame_write}

-- The structure after the header of a frame.
abbrev pub header_read : Frame → ℕ → Bool → ℕ → Frame
header_read frame codes mask n = record frame {
  codes = codes;
  info = mask_bit mask + length_code n;
  payload_len = n;
}

pub flags_mask-header_read :
    (frame : Frame) (codes : ℕ) (mask : Bool) (n : ℕ)
    → flags_mask (header_read frame codes mask n) ≡ mask
flags_mask-header_read frame codes true n = ground arith
flags_mask-header_read frame codes false n = ground arith

pub payload_byte_len-length_bytes :
    (frame : Frame) (codes : ℕ) (mask : Bool) (n : ℕ)
    → ws_frame_payload_byte_len (header_read frame codes mask n) ≡ length (length_bytes n)
unfolding ws_frame_payload_byte_len
payload_byte_len-length_bytes frame codes true n = ground arith
payload_byte_len-length_bytes frame codes false n = ground arith

module _ (arrays : ByteArrays) (laws : IsByteArrays arrays) where
  -- Reading of the wire format, header and body.
  pub read-wire :
      (use_simd : Bool) (frame : Frame) (codes : ℕ) (mask : Bool) (key payload : List ℕ)
      (filled : ByteArray)
      → length key ≡ 4
      → length frame.masking_key ≡ 4
      → length payload + 32 < 2 ^ 64
      → arrays.init (length payload) ≡ some filled
      → 0 < length (body mask key payload)
      → let h = header_read frame codes mask (length payload) in
        let bytes = wire codes mask key payload in
        let offset = 2 + ws_frame_payload_byte_len h in
        (r : Frame) × (ws_frame_read_body arrays use_simd h bytes offset (length bytes - offset)
          ≡ done (r, success))
        × (r.codes ≡ codes)
        × (r.info ≡ h.info)
        × (contents r.payload ≡ payload)
  read-wire use_simd frame codes mask key payload filled k k' w granted pos =
      let n = length payload in
      let head = header codes mask n in
      let b = body mask key payload in
      let h = header_read frame codes mask n in
      let bytes = wire codes mask key payload in
      let offset = 2 + ws_frame_payload_byte_len h in
      let skipped = payload_byte_len-length_bytes frame codes mask n in
      let size = length-append head b in
      (
        record h {
          masking_key = key_read mask key frame.masking_key;
          payload = record filled { byte_data = payload; len = n };
        },
        ap (λ (t : List ℕ). ws_frame_read_body arrays use_simd h t offset (length bytes - offset))
              (sym (ap (◌++◌ head) (append-nil b)))
            ∙ ws_frame_read_body-body arrays laws use_simd h mask key payload head [] offset
                (length bytes - offset) filled (flags_mask-header_read frame codes mask n) k k' refl
                (omega arith) granted (omega (arith, skipped)) (omega (arith, skipped, size))
                (omega (arith, skipped, size)),
        refl,
        refl,
        take_all payload,
      )

  -- A writable frame that is masked or has a payload, whose payload does not have 65536 bytes, and
  -- an allocator that grants the two arrays: `ws_frame_write` succeeds, `ws_frame_read_header`
  -- succeeds on its output, and `ws_frame_read_body` succeeds on what stands behind that header.
  -- The frame read has the codes, the mask flag and the payload of the frame written, whichever of
  -- the two masking routines each end was built with.
  pub read-write :
      (here there : Bool) (f : Frame) (out : ByteArray) (payload : List ℕ)
      (w : IsWritable f payload) (fresh filled : ByteArray)
      → arrays.init (ws_frame_output_size f) ≡ some fresh
      → arrays.init (length payload) ≡ some filled
      → f.payload.len ≢ 65536
      → 0 < length (body (flags_mask f) f.masking_key payload)
      → (g : Frame) × (o : ByteArray) × (h : Frame) × (r : Frame) × (ws_frame_write arrays here f
            out
          ≡ done (g, o, success))
        × (ws_frame_read_header zero_frame o.byte_data o.len ≡ done (h, success))
        × (ws_frame_read_body arrays there h o.byte_data
              (2 + ws_frame_payload_byte_len h)
              (o.len - (2 + ws_frame_payload_byte_len h))
            ≡ done (r, success))
        × (r.codes ≡ f.codes)
        × (flags_mask r ≡ flags_mask f)
        × (contents r.payload ≡ payload)
  read-write here there f out payload w fresh filled granted granted' other pos =
      let mask = flags_mask f in
      let n = length payload in
      let key = f.masking_key in
      let (g, o, written, bytes, full, _, _) =
        ws_frame_write-wire arrays laws here f out payload w fresh granted other in
      let h = header_read zero_frame f.codes mask n in
      let (r, read, codes, info, data') =
        read-wire there zero_frame f.codes mask key payload filled w.key_size refl w.no_wrap
          granted' pos in
      let size : o.len ≡ length (wire f.codes mask key payload) = full ∙ ap length bytes in
      (
        g,
        o,
        h,
        r,
        written,
        rw (bytes, size)
            (ws_frame_read_header-header zero_frame f.codes mask n (body mask key payload)
              (length (wire f.codes mask key payload)) (omega (arith, w.no_wrap))
              (omega (arith, length-wire f.codes mask key payload))),
        rw (bytes, size) read,
        codes,
        ap (λ (t : ℕ). t / 128 % 2 == 1) info ∙ flags_mask-header_read zero_frame f.codes mask n,
        data',
      )

  -- An unmasked frame with a payload, in a buffer of its own, and an allocator that grants the
  -- payload array: `ws_frame_read` succeeds, and the payload that it returns is made of the first n
  -- bytes behind the second byte. So it starts with the extended length where there is one, and is
  -- the payload exactly when there is none.
  pub ws_frame_read_unmasked :
      (use_simd : Bool) (frame : Frame) (codes : ℕ) (payload : List ℕ) (filled : ByteArray)
      → length frame.masking_key ≡ 4
      → 0 < length payload
      → length payload + 32 < 2 ^ 64
      → arrays.init (length payload) ≡ some filled
      → (r : Frame) × (ws_frame_read arrays use_simd frame
            (wire codes false [] payload)
            (length (wire codes false [] payload))
          ≡ done (r, success))
        × (contents r.payload ≡ take (length payload) (length_bytes (length payload) ++ payload))
  unfolding ws_frame_read
  ws_frame_read_unmasked use_simd frame codes payload filled k pos w granted =
      let n = length payload in
      let line = length_bytes n ++ payload in
      let found = take n line in
      let h = header_read frame codes false n in
      let size = length-append (length_bytes n) payload in
      let found_size : length found ≡ n = omega (arith, length-take n line, size) in
      let key : List ℕ = 0 ∷ 0 ∷ 0 ∷ 0 ∷ [] in
      let before : List ℕ = codes ∷ (mask_bit false + length_code n) ∷ [] in
      let short = length-length_bytes_le n in
      let len = length (wire codes false [] payload) in
      (
        record h {
          masking_key = frame.masking_key;
          payload = record filled { byte_data = found; len = length found };
        },
        rw
            (
              ws_frame_read,
              let z : (len == 0) ≡ false = ground arith in z,
              ws_frame_read_header-header frame codes false n payload len (omega arith)
                  (omega (arith, size)),
            )
            (ap (λ (t : List ℕ). ws_frame_read_body arrays use_simd h (before ++ t) 2 (sub64 len 2))
                (sym (take-append-drop n line))
              ∙ ws_frame_read_body-body arrays laws use_simd h false key found before (drop n line)
                  2 (sub64 len 2) filled (flags_mask-header_read frame codes false n) refl k
                  (sym found_size) (omega (arith, found_size)) (ap arrays.init found_size ∙ granted)
                  refl (omega (arith, size, short)) (omega (arith, size, short, found_size))),
        take_all found,
      )
