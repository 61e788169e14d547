-- ===== src/Protocol/Body.antt =====
-- src/protocol.c: the masking key and the payload. A pointer `buf` into a block is the block and a
-- position `at`.
use websocket_c.Common.{
  ℕ, zero, suc, ◌+◌, Bool, not, List, none, some, ltb, ◌==◌, if◌then◌else◌, u64, sub64, Run, done,
  ◌>>=◌, load, load_bytes, store,
}
use websocket_c.Cstd.{ByteArray, ByteArrays}
use websocket_c.Frame.{FrameError, success, error_len, malloc_error, Frame, flags_mask}
use websocket_c.Protocol.Header.{is_success, ws_frame_read_header}
use websocket_c.Simd.{apply_mask_to_buffer}

-- The result is the frame, the new offset and the code returned.
unfoldable pub ws_frame_extract_mask : Frame → List ℕ → ℕ → ℕ → ℕ → Run (Frame × ℕ × FrameError)
ws_frame_extract_mask frame buf at len offset =
    if flags_mask frame
    then if ltb len (u64 (offset + 4)) then done (frame, offset, error_len) else (do
      key ← load_bytes buf (at + offset) 4
      done (record frame { masking_key = key }, u64 (offset + 4), success))
    else done (frame, offset, success)

-- for (size_t i = 0; i < len; ++i) dest[i] = src[i], with the rounds left
unfoldable pub copy_loop : List ℕ → ℕ → ℕ → ℕ → ℕ → List ℕ → Run (List ℕ)
copy_loop src src_at dest_at zero i dest = done dest
copy_loop src src_at dest_at (suc left) i dest = do
  b ← load src (src_at + i)
  out ← store dest (dest_at + i) b
  copy_loop src src_at dest_at left (i + 1) out

unfoldable pub ws_frame_handle_payload :
    Bool → Bool → List ℕ → List ℕ → ℕ → List ℕ → ℕ → ℕ → Run (List ℕ × FrameError)
unfolding copy_loop
ws_frame_handle_payload use_simd mask masking_key dest dest_at src src_at len =
    if len == 0
    then done (dest, success)
    else if not mask
    then (do out ← copy_loop src src_at dest_at len 0 dest; done (out, success))
    else apply_mask_to_buffer masking_key src src_at dest_at use_simd dest len

module _ (arrays : ByteArrays) (use_simd : Bool) where
  -- `filled` is the payload array after byte_array_init.
  unfoldable pub read_payload : Frame → ByteArray → List ℕ → ℕ → Run (Frame × FrameError)
  read_payload frame filled buf at = do
    (bytes, err) ←
        ws_frame_handle_payload use_simd (flags_mask frame) frame.masking_key filled.byte_data 0 buf
          at frame.payload_len
    done (
      record frame { payload = record filled { byte_data = bytes; len = frame.payload_len } },
      err,
    )

  unfoldable pub ws_frame_read_body : Frame → List ℕ → ℕ → ℕ → Run (Frame × FrameError)
  unfolding ws_frame_extract_mask read_payload
  ws_frame_read_body frame buf at len = if len == 0 then done (frame, error_len) else (do
    (keyed, offset, err) ← ws_frame_extract_mask frame buf at len 0
    if not (is_success err)
        then done (keyed, err)
        else if ltb len (u64 (offset + keyed.payload_len))
        then done (keyed, error_len)
        else elim (arrays.init keyed.payload_len) [
          | none ↦ done (keyed, malloc_error)
          | some filled ↦ read_payload keyed filled buf (at + offset)
        ])

  unfoldable pub ws_frame_read : Frame → List ℕ → ℕ → Run (Frame × FrameError)
  unfolding ws_frame_read_header ws_frame_read_body
  ws_frame_read frame buf len = if len == 0 then done (frame, error_len) else (do
    (headed, err) ← ws_frame_read_header frame buf len
    if not (is_success err)
        then done (headed, err)
        else ws_frame_read_body headed buf 2 (sub64 len 2))
