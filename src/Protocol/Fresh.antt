-- ===== src/Protocol/Fresh.antt =====
-- `write_fresh`, the part of `ws_frame_write` behind the allocation, from its parts.
use websocket_c.Common.{
  ℕ, ◌+◌, ◌^◌, ◌≤◌, ◌<◌, ◌≡◌, ◌≢◌, refl, sym, ap, ◌∙◌, Bool, List, [], ◌∷◌, ◌++◌, append_assoc, u64,
  lt→ltb, length, drop, length-append, length-drop, arith, done, store_bytes_next,
}
use websocket_c.Cstd.{ByteArray, ByteArrays}
use websocket_c.Frame.{Frame, success, error_len, flags_mask, flags_payload_len, set_payload_len}
use websocket_c.Protocol.Wire.{
  length_code, length_bytes, mask_bit, header, key_bytes, payload_bytes, body, wire, length_code-lt,
  length-key_bytes, length-length_bytes,
}
use websocket_c.Protocol.Write.{ws_frame_output_size, write_payload, write_fresh}
use websocket_c.Protocol.Written.{
  choose-length_code, length_form, ws_frame_write_len-length_bytes, write_key-key_bytes,
  write_payload-payload_bytes,
}

-- The size that the writer allocates is that of the frame, unless the payload has 65536 bytes.
pub output_size-wire :
    (f : Frame) (mask : Bool)
    → flags_mask f ≡ mask
    → length f.masking_key ≡ 4
    → f.payload.len ≢ 65536
    → f.payload.len + 32 < 2 ^ 64
    → ws_frame_output_size f
      ≡ 2
        + length (length_bytes f.payload.len)
        + length (key_bytes mask f.masking_key)
        + f.payload.len
unfolding ws_frame_output_size
output_size-wire f mask m k other big =
    ground (arith, m, length-key_bytes mask f.masking_key k, length-length_bytes f.payload.len)

-- For 65536 bytes the size is that of a frame with a 2-byte length.
pub output_size_65536 :
    (f : Frame) (mask : Bool)
    → flags_mask f ≡ mask
    → length f.masking_key ≡ 4
    → f.payload.len ≡ 65536
    → ws_frame_output_size f ≡ 4 + length (key_bytes mask f.masking_key) + 65536
unfolding ws_frame_output_size
output_size_65536 f mask m k e = ground (arith, m, length-key_bytes mask f.masking_key k)

-- The second byte: the mask flag above the 7-bit length.
info-mask_bit :
    (f : Frame) (mask : Bool) (c : ℕ)
    → flags_mask f ≡ mask
    → f.info < 256
    → c < 128
    → (set_payload_len f c).info ≡ mask_bit mask + c
info-mask_bit f mask c m h lt = ground arith

module _ (arrays : ByteArrays) (use_simd : Bool) (f : Frame) (fresh : ByteArray) (mask : Bool)
    (payload unused : List ℕ) (m : flags_mask f ≡ mask) (i : f.info < 256)
    (k : length f.masking_key ≡ 4) (d : f.payload.byte_data ≡ payload ++ unused)
    (pn : f.payload.len ≡ length payload) (big : length payload + 32 < 2 ^ 64)
    (size : 2 + length (length_bytes f.payload.len) + length (key_bytes mask f.masking_key)
      ≤ length fresh.byte_data) where
  abbrev pub marked : Frame
  marked = set_payload_len f (length_code f.payload.len)

  abbrev pub start : List ℕ
  start = f.codes ∷ marked.info ∷ []

  abbrev pub ext : List ℕ
  ext = length_bytes f.payload.len

  abbrev pub key : List ℕ
  key = key_bytes mask f.masking_key

  abbrev pub left2 : List ℕ
  left2 = drop 1 (drop 1 fresh.byte_data)

  mask_kept : flags_mask marked ≡ mask
  mask_kept = ground (arith, m)

  code_kept : flags_payload_len marked ≡ length_code f.payload.len
  code_kept = omega (arith, length_code-lt f.payload.len)

  length-left2 : length left2 + 2 ≡ length fresh.byte_data
  length-left2 =
      omega (arith, length-drop 1 fresh.byte_data, length-drop 1 (drop 1 fresh.byte_data))

  abbrev pub left3 : List ℕ
  left3 = drop (length ext) left2

  length-left3 : length left3 + length ext + 2 ≡ length fresh.byte_data
  length-left3 = omega (arith, length-drop (length ext) left2, length-left2)

  abbrev pub left4 : List ℕ
  left4 = drop (length key) left3

  length-left4 : length left4 + length key + length ext + 2 ≡ length fresh.byte_data
  length-left4 = omega (arith, length-drop (length key) left3, length-left3)

  length-ext : length ext ≤ 8
  length-ext = ground (arith, length-length_bytes f.payload.len)

  length-key : length key ≤ 4
  length-key = ground (arith, length-key_bytes mask f.masking_key k)

  length-written : length ((start ++ ext) ++ key) ≡ 2 + length ext + length key
  length-written = omega (arith, length-append (start ++ ext) key, length-append start ext)

  abbrev pub headed : ByteArray
  headed = record fresh { byte_data = ((start ++ ext) ++ key) ++ left4 }

  -- Up to the payload, everything is in place.
  write_fresh-header :
      write_fresh arrays use_simd f fresh
      ≡ write_payload arrays use_simd marked headed (2 + length ext + length key)
  unfolding write_fresh
  write_fresh-header = rw (
    choose-length_code f,
    store_bytes_next [] fresh.byte_data (f.codes ∷ []) 0 refl refl (omega arith),
    store_bytes_next (f.codes ∷ []) (drop 1 fresh.byte_data) (marked.info ∷ []) 1 refl refl
        (omega (arith, length-drop 1 fresh.byte_data)),
    ws_frame_write_len-length_bytes (record fresh { byte_data = start ++ left2 }) marked 2 start
        left2 refl refl (omega arith) (length_form f.payload.len) code_kept
        (omega (arith, length-left2)),
    write_key-key_bytes marked (start ++ ext) left3 mask (2 + length ext) mask_kept refl
        (omega (arith, length-append start ext)) k (omega (arith, length-left3))
        (omega (arith, length-ext)),
  )

  pub write_fresh-wire :
      length fresh.byte_data ≡ 2 + length ext + length key + f.payload.len
      → fresh.len ≡ length fresh.byte_data
      → write_fresh arrays use_simd f fresh
        ≡ done (
          record marked { payload_len = f.payload.len },
          record fresh { byte_data = wire f.codes mask f.masking_key payload },
          success,
        )
  write_fresh-wire exact full =
      write_fresh-header
      ∙ write_payload-payload_bytes arrays use_simd marked headed (2 + length ext + length key) mask
          ((start ++ ext) ++ key) left4 payload unused mask_kept refl (sym length-written)
          (omega (arith, length-left4)) (omega (arith, length-written))
          (omega (arith, length-ext, length-key)) (omega arith) k d pn
      ∙ (λ j. done (
        record marked { payload_len = f.payload.len },
        record fresh { byte_data = layout j },
        success,
      ))
    where
      layout :
          ((start ++ ext) ++ key) ++ payload_bytes mask f.masking_key payload
          ≡ wire f.codes mask f.masking_key payload
      layout =
          append_assoc (start ++ ext) key _
          ∙ (λ j.
              (f.codes
                ∷ info-mask_bit f mask (length_code f.payload.len) m i
                    (length_code-lt f.payload.len) j
                ∷ ext)
              ++ body mask f.masking_key payload)
          ∙ ap (λ (n : ℕ). header f.codes mask n ++ body mask f.masking_key payload) pn

  -- An output array that is too short for the payload is given back.
  pub write_fresh_short :
      fresh.len < 2 + length ext + length key + f.payload.len
      → (g : Frame) × (o : ByteArray) × (write_fresh arrays use_simd f fresh
          ≡ done (g, o, error_len))
  unfolding write_payload
  write_fresh_short short = (
    record marked { payload_len = f.payload.len },
    arrays.free headed,
    write_fresh-header
        ∙ rw (
          write_payload,
          lt→ltb fresh.len (u64 (2 + length ext + length key + f.payload.len))
              (omega (arith, length-ext, length-key)),
        ),
  )
