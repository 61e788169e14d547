-- ===== src/Protocol/Write.antt =====
-- src/protocol.c: writing of a frame into a fresh byte array.
use websocket_c.Common.{
  ℕ, ◌+◌, ◌/◌, ◌^◌, bit_and, Bool, not, List, [], ◌∷◌, none, some, ltb, leb, ◌==◌, if◌then◌else◌,
  u64, Run, done, ◌>>=◌, load, store, store_bytes,
}
use websocket_c.Cstd.{ByteArray, ByteArrays}
use websocket_c.Frame.{
  FrameError, success, error_len, malloc_error, Frame, flags_mask, flags_payload_len,
  set_payload_len,
}
use websocket_c.Protocol.Body.{ws_frame_handle_payload}
use websocket_c.Protocol.Header.{is_success, zero_frame}

-- (x >> n) & 0xFF
abbrev pub low_byte : ℕ → ℕ → ℕ
low_byte x n = bit_and (x / 2 ^ n) 0xff

unfoldable pub ws_frame_write_len : Frame → ByteArray → ℕ → Run (ByteArray × ℕ × FrameError)
ws_frame_write_len frame out idx =
    let n = frame.payload.len in
    if flags_payload_len frame == 126
    then (do
      bytes ← store_bytes out.byte_data idx (low_byte n 8 ∷ low_byte n 0 ∷ [])
      done (record out { byte_data = bytes }, u64 (idx + 2), success))
    else if flags_payload_len frame == 127
    then (do
      bytes ← store_bytes out.byte_data idx (
          low_byte n 56
          ∷ low_byte n 48
          ∷ low_byte n 40
          ∷ low_byte n 32
          ∷ low_byte n 24
          ∷ low_byte n 16
          ∷ low_byte n 8
          ∷ low_byte n 0
          ∷ [])
      done (record out { byte_data = bytes }, u64 (idx + 8), success))
    else done (out, idx, success)

unfoldable pub ws_frame_output_size : Frame → ℕ
ws_frame_output_size frame =
    let base = u64 (2 + frame.payload.len) in
    let out_len = if flags_mask frame then u64 (base + 4) else base in
    if leb frame.payload.len 125
    then out_len
    else if leb frame.payload.len 65536
    then u64 (out_len + 2)
    else u64 (out_len + 8)

-- The 7-bit length field that the writer chooses.
unfoldable pub choose_payload_len : Frame → Frame
choose_payload_len frame =
    if leb frame.payload.len 125
    then set_payload_len frame frame.payload.len
    else if ltb frame.payload.len 65536
    then set_payload_len frame 126
    else set_payload_len frame 127

-- The masking key behind the length, if the frame is masked; the result is the new offset too.
unfoldable pub write_key : Frame → List ℕ → ℕ → Run (List ℕ × ℕ)
write_key frame bytes offset =
    if flags_mask frame
    then (do
      k0 ← load frame.masking_key 0
      k1 ← load frame.masking_key 1
      k2 ← load frame.masking_key 2
      k3 ← load frame.masking_key 3
      out ← store_bytes bytes offset (k0 ∷ k1 ∷ k2 ∷ k3 ∷ [])
      done (out, u64 (offset + 4)))
    else done (bytes, offset)

module _ (arrays : ByteArrays) (use_simd : Bool) where
  -- The last part of `ws_frame_write`: the payload at `offset`.
  unfoldable pub write_payload : Frame → ByteArray → ℕ → Run (Frame × ByteArray × FrameError)
  write_payload frame out offset =
      let sized = record frame { payload_len = frame.payload.len } in
      if ltb out.len (u64 (offset + sized.payload_len))
      then done (sized, arrays.free out, error_len)
      else (do
        (bytes, err) ←
            ws_frame_handle_payload use_simd (flags_mask sized) sized.masking_key out.byte_data
              offset sized.payload.byte_data 0 sized.payload.len
        done (sized, record out { byte_data = bytes }, err))

  -- `fresh` is the output array after byte_array_init and `out->len = out_len`.
  unfoldable pub write_fresh : Frame → ByteArray → Run (Frame × ByteArray × FrameError)
  unfolding choose_payload_len ws_frame_write_len write_key write_payload
  write_fresh frame fresh = do
    coded ← store fresh.byte_data 0 frame.codes
    let marked = choose_payload_len frame
    headed ← store coded 1 marked.info
    (out, offset, err) ← ws_frame_write_len marked (record fresh { byte_data = headed }) 2
    if not (is_success err) then done (marked, arrays.free out, err) else (do
      (keyed, offset') ← write_key marked out.byte_data offset
      write_payload marked (record out { byte_data = keyed }) offset')

  -- The result is the frame, the array `*out` and the code returned.
  unfoldable pub ws_frame_write : Frame → ByteArray → Run (Frame × ByteArray × FrameError)
  unfolding write_fresh ws_frame_output_size
  ws_frame_write frame out =
      let out_len = ws_frame_output_size frame in
      elim (arrays.init out_len) [
        | none ↦ done (frame, out, malloc_error)
        | some fresh ↦ write_fresh frame (record fresh { len = out_len })
      ]

-- memset(frame, 0, ...), then byte_array_free of the payload that the memset has zeroed
unfoldable pub ws_frame_free : ByteArrays → Frame → Frame
ws_frame_free arrays frame = record zero_frame { payload = arrays.free zero_frame.payload }
