-- ===== src/Protocol/WireFormat.antt =====
-- `ws_frame_write` produces the frame format of RFC 6455, or says why not.
use websocket_c.Common.{
  Option, none, Option-cases, ℕ, ◌+◌, ◌^◌, ◌<◌, ◌≡◌, ◌≢◌, refl, sym, ap, ◌∙◌, Bool, true, false,
  List, ◌++◌, some, ◌==◌, if◌then◌else◌, inl, inr, length, arith, done,
}
use native.Mathlib.Decide.{ℕ_discrete}
use websocket_c.Cstd.{ByteArray, ByteArrays, IsByteArrays}
use websocket_c.Frame.{
  Frame, FrameError, success, error_len, malloc_error, flags_mask, set_payload_len,
}
use websocket_c.Protocol.Wire.{
  length_code, length_bytes, key_bytes, wire, length-length_bytes, length-wire,
}
use websocket_c.Protocol.Write.{ws_frame_output_size, ws_frame_write}
use websocket_c.Protocol.Fresh.{
  output_size-wire, output_size_65536, write_fresh-wire, write_fresh_short,
}

-- A frame as the callers build it: a payload array that holds its bytes, a key of 4 bytes, and
-- lengths for which `size_t` does not wrap.
pub record IsWritable (f : Frame) (payload : List ℕ) : Type 0 where
  pub unused : List ℕ
  pub holds : f.payload.byte_data ≡ payload ++ unused
  pub counts : f.payload.len ≡ length payload
  pub key_size : length f.masking_key ≡ 4
  pub info_byte : f.info < 256
  pub no_wrap : length payload + 32 < 2 ^ 64

module _ (arrays : ByteArrays) (laws : IsByteArrays arrays) (use_simd : Bool) (f : Frame)
    (out : ByteArray) (payload : List ℕ) (w : IsWritable f payload) where
  -- A writable frame whose payload does not have 65536 bytes, and an allocator that grants the
  -- output array: `ws_frame_write` succeeds, the output is the frame of RFC 6455 with the same
  -- codes byte, mask flag and key, its length is in `len`, and the payload and codes of the frame
  -- structure are unchanged.
  pub ws_frame_write-wire :
      (fresh : ByteArray)
      → arrays.init (ws_frame_output_size f) ≡ some fresh
      → f.payload.len ≢ 65536
      → (g : Frame) × (o : ByteArray) × (ws_frame_write arrays use_simd f out
          ≡ done (g, o, success))
        × (o.byte_data ≡ wire f.codes (flags_mask f) f.masking_key payload)
        × (o.len ≡ length o.byte_data)
        × (g.payload ≡ f.payload)
        × (g.codes ≡ f.codes)
  unfolding ws_frame_write
  ws_frame_write-wire fresh granted other =
      let size =
        output_size-wire f (flags_mask f) refl w.key_size other
          (omega (arith, w.counts, w.no_wrap)) in
      let stored = laws.init_storage (ws_frame_output_size f) fresh granted in
      let bytes = wire f.codes (flags_mask f) f.masking_key payload in
      let full = record fresh { len = ws_frame_output_size f } in
      let sized = set_payload_len f (length_code f.payload.len) in
      (
        record sized { payload_len = f.payload.len },
        record full { byte_data = bytes },
        rw (ws_frame_write, granted)
            (write_fresh-wire arrays use_simd f full (flags_mask f) payload w.unused refl
              w.info_byte w.key_size w.holds w.counts w.no_wrap (omega (arith, size, stored))
              (omega (arith, size, stored)) (sym stored)),
        refl,
        size
            ∙ ap
                (λ (n : ℕ).
                  2 + length (length_bytes n) + length (key_bytes (flags_mask f) f.masking_key) + n)
                w.counts
            ∙ sym (length-wire f.codes (flags_mask f) f.masking_key payload),
        refl,
        refl,
      )

-- The code that the writer returns, from the allocator's answer and the length of the payload.
abbrev pub write_code : Option ByteArray → ℕ → FrameError
write_code none n = malloc_error
write_code (some fresh) n = if n == 65536 then error_len else success

module _ (arrays : ByteArrays) (laws : IsByteArrays arrays) (use_simd : Bool) (f : Frame)
    (out : ByteArray) (payload : List ℕ) (w : IsWritable f payload) where
  write_refused :
      arrays.init (ws_frame_output_size f) ≡ none
      → ws_frame_write arrays use_simd f out ≡ done (f, out, malloc_error)
  unfolding ws_frame_write
  write_refused e = rw (ws_frame_write, e)

  -- 65536 bytes get the 8-byte length, for which 6 bytes too few are allocated.
  write_65536 :
      (fresh : ByteArray)
      → arrays.init (ws_frame_output_size f) ≡ some fresh
      → f.payload.len ≡ 65536
      → (g : Frame) × (o : ByteArray) × (ws_frame_write arrays use_simd f out
          ≡ done (g, o, error_len))
  unfolding ws_frame_write
  write_65536 fresh granted e =
      let size = output_size_65536 f (flags_mask f) refl w.key_size e in
      let stored = laws.init_storage (ws_frame_output_size f) fresh granted in
      let full = record fresh { len = ws_frame_output_size f } in
      let eight = length-length_bytes f.payload.len in
      let (g, o, r) =
        write_fresh_short arrays use_simd f full (flags_mask f) payload w.unused refl w.info_byte
          w.key_size w.holds w.counts w.no_wrap (ground (arith, size, stored, eight))
          (ground (arith, size, stored, eight)) in
      (g, o, rw (ws_frame_write, granted) r)

  -- A writable frame, whatever the allocator answers: `ws_frame_write` accesses nothing out of
  -- range and returns WS_FRAME_MALLOC_ERROR if the allocation of the output fails, else
  -- WS_FRAME_ERROR_LEN if the payload has exactly 65536 bytes, else WS_FRAME_SUCCESS.
  pub ws_frame_write-write_code :
      (g : Frame) × (o : ByteArray) × (ws_frame_write arrays use_simd f out
        ≡ done (g, o, write_code (arrays.init (ws_frame_output_size f)) f.payload.len))
  ws_frame_write-write_code = elim (Option-cases (arrays.init (ws_frame_output_size f))) [
    | inl e ↦ (f, out, rw e (write_refused e))
    | inr (fresh, e) ↦ rw e (elim (ℕ_discrete f.payload.len 65536) [
      | yes same ↦
          let (g, o, r) = write_65536 fresh e same in
          (g, o, rw (let z : (f.payload.len == 65536) ≡ true = ground arith in z) r)
      | no other ↦
          let r = ws_frame_write-wire arrays laws use_simd f out payload w fresh e other in
          (r.0, r.1, rw (let z : (f.payload.len == 65536) ≡ false = ground arith in z) r.2)
    ])
  ]
