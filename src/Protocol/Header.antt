-- ===== src/Protocol/Header.antt =====
-- src/protocol.c: the frame header. A frame starts with the two bytes `codes` and `info`; where the
-- 7-bit length is 126 or 127, a length of 2 or 8 bytes follows, most significant byte first.
use websocket_c.Common.{
  ℕ, ◌+◌, ◌*◌, ◌^◌, bit_or, Bool, true, false, List, replicate, ltb, ◌==◌, if◌then◌else◌, u64, Run,
  done, ◌>>=◌, load,
}
use websocket_c.Cstd.{null_array}
use websocket_c.Frame.{
  FrameError, success, invalid, error_len, error_rsv_set, error_opcode, malloc_error, Frame,
  flags_payload_len,
}

-- `err == WS_FRAME_SUCCESS`
abbrev pub is_success : FrameError → Bool
is_success success = true
is_success invalid = false
is_success error_len = false
is_success error_rsv_set = false
is_success error_opcode = false
is_success malloc_error = false

-- memset(frame, 0, sizeof(struct ws_frame_t))
abbrev pub zero_frame : Frame
zero_frame = record {
  codes = 0;
  info = 0;
  payload_len = 0;
  masking_key = replicate 4 0;
  payload = null_array;
}

unfoldable pub ws_frame_init : Frame → Frame × Bool
ws_frame_init frame = (zero_frame, true)

-- _SHIFT_LEN(x, n)
abbrev pub shift_len : ℕ → ℕ → ℕ
shift_len x n = u64 (x * 2 ^ n)

-- The result is the frame, the new offset and the code returned.
unfoldable pub ws_frame_extended_len : Frame → List ℕ → ℕ → ℕ → Run (Frame × ℕ × FrameError)
ws_frame_extended_len frame buf len offset =
    let extend_len : ℕ =
      if frame.payload_len == 126 then 2 else if frame.payload_len == 127 then 8 else 0 in
    if ltb len (extend_len + 2)
    then done (frame, offset, error_len)
    else if extend_len == 2
    then (do
      b3 ← load buf 3
      b2 ← load buf 2
      done (
        record frame { payload_len = bit_or (shift_len b3 0) (shift_len b2 8) },
        u64 (offset + extend_len),
        success,
      ))
    else if extend_len == 8
    then (do
      b9 ← load buf 9
      b8 ← load buf 8
      b7 ← load buf 7
      b6 ← load buf 6
      b5 ← load buf 5
      b4 ← load buf 4
      b3 ← load buf 3
      b2 ← load buf 2
      let low =
          bit_or (bit_or (bit_or (shift_len b9 0) (shift_len b8 8)) (shift_len b7 16))
            (shift_len b6 24)
      let most = bit_or (bit_or (bit_or low (shift_len b5 32)) (shift_len b4 40)) (shift_len b3 48)
      done (
        record frame { payload_len = bit_or most (shift_len b2 56) },
        u64 (offset + extend_len),
        success,
      ))
    else done (frame, u64 (offset + extend_len), success)

unfoldable pub ws_frame_read_header : Frame → List ℕ → ℕ → Run (Frame × FrameError)
unfolding ws_frame_extended_len
ws_frame_read_header frame buf len = if ltb len 2 then done (frame, error_len) else (do
  b0 ← load buf 0
  b1 ← load buf 1
  let read = record frame { codes = b0; info = b1 }
  let sized = record read { payload_len = flags_payload_len read }
  (extended, offset, err) ← ws_frame_extended_len sized buf len 2
  if is_success err then done (extended, success) else done (extended, err))

-- The number of bytes of the extended length.
unfoldable pub ws_frame_payload_byte_len : Frame → ℕ
ws_frame_payload_byte_len frame =
    if flags_payload_len frame == 126 then 2 else if flags_payload_len frame == 127 then 8 else 0
