-- ===== src/Protocol/ReadBody.antt =====
-- `ws_frame_read_body` reads back the key and the payload of the wire format.
use websocket_c.Common.{
  ℕ, ◌+◌, ◌^◌, ◌≤◌, ◌<◌, ◌≡◌, refl, sym, ap, ◌∙◌, Bool, true, false, List, [], ◌++◌, append_assoc,
  some, ◌==◌, if◌then◌else◌, u64, le→not-ltb, length, length-append, arith, done, load_bytes,
  load_bytes-append,
}
use websocket_c.Cstd.{ByteArray, ByteArrays, IsByteArrays}
use websocket_c.Frame.{Frame, success, flags_mask}
use websocket_c.Protocol.Body.{ws_frame_extract_mask, read_payload, ws_frame_read_body}
use websocket_c.Protocol.Payload.{ws_frame_handle_payload-payload_bytes}
use websocket_c.Protocol.Wire.{key_bytes, payload_bytes, body, length-payload_bytes}
use websocket_c.Simd.Spec.{masked_twice}

payload_bytes_twice :
    (mask : Bool) (key payload : List ℕ)
    → payload_bytes mask key (payload_bytes mask key payload) ≡ payload
payload_bytes_twice true key payload = masked_twice key 0 payload
payload_bytes_twice false key payload = refl

-- The key that the frame structure holds afterwards.
abbrev pub key_read : Bool → List ℕ → List ℕ → List ℕ
key_read mask key old = if mask then key else old

extract_mask-key_bytes :
    (frame : Frame) (mask : Bool) (key before after : List ℕ) (at len : ℕ) {buf : List ℕ}
    → flags_mask frame ≡ mask
    → length key ≡ 4
    → buf ≡ before ++ (key_bytes mask key ++ after)
    → at ≡ length before
    → length (key_bytes mask key) ≤ len
    → ws_frame_extract_mask frame buf at len 0
      ≡ done (
        record frame { masking_key = key_read mask key frame.masking_key },
        length (key_bytes mask key),
        success,
      )
unfolding ws_frame_extract_mask
extract_mask-key_bytes frame false key before after at len m k e p fits = rw m
extract_mask-key_bytes frame true key before after at len {buf} m k e p fits =
    let read : load_bytes buf (at + 0) 4 ≡ done key =
      rw e (load_bytes-append before key after (at + 0) 4 (omega arith) (sym k)) in
    rw (m, le→not-ltb len (u64 (0 + 4)) (omega arith), read, k)

key_read_size :
    (mask : Bool) (key old : List ℕ)
    → length key ≡ 4
    → length old ≡ 4
    → length (key_read mask key old) ≡ 4
key_read_size true key old k k' = k
key_read_size false key old k k' = k'

payload_bytes_read :
    (mask : Bool) (key old bytes : List ℕ)
    → payload_bytes mask (key_read mask key old) bytes ≡ payload_bytes mask key bytes
payload_bytes_read true key old bytes = refl
payload_bytes_read false key old bytes = refl

length-key_bytes_le :
    (mask : Bool) (key : List ℕ) → length key ≡ 4 → length (key_bytes mask key) ≤ 4
length-key_bytes_le true key k = omega arith
length-key_bytes_le false key k = omega arith

-- Past the mask and the length check, the payload is read.
reaches_payload :
    (arrays : ByteArrays) (use_simd : Bool) (frame : Frame) (filled : ByteArray) (buf : List ℕ)
    (at len offset : ℕ) (keyed : Frame)
    → ws_frame_extract_mask frame buf at len 0 ≡ done (keyed, offset, success)
    → 0 < len
    → (offset + keyed.payload_len ≤ len) × (offset + keyed.payload_len < 2 ^ 64)
    → arrays.init keyed.payload_len ≡ some filled
    → ws_frame_read_body arrays use_simd frame buf at len
      ≡ read_payload arrays use_simd keyed filled buf (at + offset)
unfolding ws_frame_read_body
reaches_payload arrays use_simd frame filled buf at len offset keyed e pos fits granted = rw (
  ws_frame_read_body,
  let z : (len == 0) ≡ false = ground arith in z,
  e,
  le→not-ltb len (u64 (offset + keyed.payload_len)) (omega arith),
  granted,
)

module _ (arrays : ByteArrays) (laws : IsByteArrays arrays) (use_simd : Bool) where
  read_payload-payload_bytes :
      (frame : Frame) (filled : ByteArray) (payload : List ℕ) (mask : Bool) (before after : List ℕ)
      (at : ℕ) {buf : List ℕ}
      → flags_mask frame ≡ mask
      → length frame.masking_key ≡ 4
      → frame.payload_len ≡ length payload
      → length payload + 16 < 2 ^ 64
      → length filled.byte_data ≡ length payload
      → buf ≡ before ++ (payload ++ after)
      → at ≡ length before
      → read_payload arrays use_simd frame filled buf at
        ≡ done (
          record frame {
            payload = record filled {
              byte_data = payload_bytes mask frame.masking_key payload;
              len = frame.payload_len;
            };
          },
          success,
        )
  unfolding read_payload
  read_payload-payload_bytes frame filled payload mask before after at m k n w s e p = rw (
    m,
    n,
    ws_frame_handle_payload-payload_bytes use_simd mask frame.masking_key at 0 payload before after
        [] filled.byte_data k w e refl (sym p) refl s,
  )

  -- The body of a frame with a non-empty body, at any place of a buffer and with at least its own
  -- bytes counted in `len`, when the header has set the mask flag and the payload length and the
  -- allocator grants the payload array: `ws_frame_read_body` succeeds with the unmasked payload,
  -- and with the key if the frame is masked.
  pub ws_frame_read_body-body :
      (frame : Frame) (mask : Bool) (key payload before after : List ℕ) (at len : ℕ)
      (filled : ByteArray)
      → flags_mask frame ≡ mask
      → length key ≡ 4
      → length frame.masking_key ≡ 4
      → frame.payload_len ≡ length payload
      → length payload + 16 < 2 ^ 64
      → arrays.init (length payload) ≡ some filled
      → length before ≡ at
      → 0 < len
      → length (body mask key payload) ≤ len
      → ws_frame_read_body arrays use_simd frame (before ++ (body mask key payload ++ after)) at len
        ≡ done (
          record frame {
            masking_key = key_read mask key frame.masking_key;
            payload = record filled { byte_data = payload; len = length payload };
          },
          success,
        )
  ws_frame_read_body-body frame mask key payload before after at len filled m k k' n w granted p pos
        fits =
      let kb = key_bytes mask key in
      let pb = payload_bytes mask key payload in
      let buf = before ++ (body mask key payload ++ after) in
      let keyed = record frame { masking_key = key_read mask key frame.masking_key } in
      let sizes = length-append kb pb in
      let size = length-payload_bytes mask key payload in
      reaches_payload arrays use_simd frame filled buf at len (length kb) keyed
        (extract_mask-key_bytes frame mask key before (pb ++ after) at len {buf = buf} m k
          (ap (◌++◌ before) (append_assoc kb pb after)) (sym p) (omega arith))
        pos (omega (arith, length-key_bytes_le mask key k)) (ap arrays.init n ∙ granted)
      ∙ read_payload-payload_bytes keyed filled pb mask (before ++ kb) after (at + length kb)
          {buf = buf} m (key_read_size mask key frame.masking_key k k') (n ∙ sym size) (omega arith)
          (laws.init_storage (length payload) filled granted ∙ sym size)
          (ap (◌++◌ before) (append_assoc kb pb after) ∙ sym (append_assoc before kb (pb ++ after)))
          (omega (arith, length-append before kb))
      ∙ (λ i. done (
        record keyed {
          payload = record filled {
            byte_data =
                (payload_bytes_read mask key frame.masking_key pb
                    ∙ payload_bytes_twice mask key payload)
                  i;
            len = n i;
          };
        },
        success,
      ))
