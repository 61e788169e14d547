-- ===== src/Reader/Handle.antt =====
-- src/reader.c: ws_reader_handle, one frame from the connection.
use websocket_c.Common.{
  ℕ, ◌+◌, ◌^◌, ◌-◌, Bool, true, false, not, ◌&&◌, Option, none, some, List, [], ◌==◌, leb,
  if◌then◌else◌, u64, sub64, replicate, Run, done, ◌>>=◌,
}
use websocket_c.Cstd.{null_array}
use websocket_c.Frame.{Frame, opcode_value, close, flags_opcode, flags_fin, flags_mask}
use websocket_c.Net.{NetInfo, net_peek, net_read}
use websocket_c.Protocol.Body.{ws_frame_read_body}
use websocket_c.Protocol.Header.{
  is_success, zero_frame, ws_frame_read_header, ws_frame_payload_byte_len,
}
use websocket_c.Reader.{Reader, construct_msg_from_frames, push_message}
use websocket_c.System.{System, Message}

-- The pointer NULL as an empty block.
abbrev pub block_of : Option (List ℕ) → List ℕ
block_of none = []
block_of (some block) = block

-- (size_t)n
abbrev pub size_of : Option ℕ → ℕ
size_of none = 2 ^ 64 - 1
size_of (some n) = n

-- n <= -1
abbrev pub is_negative : Option ℕ → Bool
is_negative none = true
is_negative (some n) = false

abbrev pub message_of : Frame → Message
message_of frame = record { type = flags_opcode frame; body = frame.payload }

-- The number of bytes from the frame's start to its end.
unfoldable pub message_len : Frame → ℕ
unfolding ws_frame_payload_byte_len
message_len frame =
    let msg_len = u64 (2 + ws_frame_payload_byte_len frame + frame.payload_len) in
    if flags_mask frame then u64 (msg_len + 4) else msg_len

module _ (sys : System) where
  unfoldable pub push_control : Reader sys → Message → Reader sys × Bool
  push_control reader msg =
      if reader.is_open
      then elim (push_message sys reader msg) [
        | none ↦ (reader, false)
        | some pushed ↦ (pushed, true)
      ]
      else (reader, false)

  unfoldable pub push_frame : Reader sys → Frame → Reader sys × Bool
  push_frame reader frame =
      if reader.is_open
      then elim (sys.frames.push reader.frame_queue frame) [
        | none ↦ (reader, false)
        | some queue ↦ (record reader { frame_queue = queue }, true)
      ]
      else (reader, false)

  -- A frame that has been read whole.
  unfoldable pub accept_frame : Reader sys → Frame → Run (Reader sys × Bool)
  accept_frame reader frame =
      if flags_fin frame
      then if leb (opcode_value close) (flags_opcode frame)
        then done (push_control reader (message_of frame))
        else (do
          let (pushed, ok) = push_frame reader frame
          if ok
              then (do built ← construct_msg_from_frames sys pushed; done (built, true))
              else done (pushed, false))
      else done (push_frame reader frame)

  -- The rest of the function after the header: the body, and the frame's way to a queue.
  unfoldable pub handle_frame :
      sys.World → Reader sys → Option NetInfo → Frame → Run (sys.World × Reader sys × Bool)
  handle_frame w reader info frame = do
    let payload_offset = 2 + ws_frame_payload_byte_len frame
    let msg_len = message_len frame
    (w', buffer, n) ← net_read sys w info (sys.malloc (u64 (msg_len + 1))) msg_len
    if is_negative n && (flags_opcode frame == opcode_value close)
        then (do
          let emptied = record frame { payload = null_array; payload_len = 0 }
          let pushed = push_control reader (message_of emptied)
          done (w', pushed.0, pushed.1))
        else if not (size_of n == msg_len)
        then done (w', reader, false)
        else (do
          (whole, err) ←
              ws_frame_read_body sys.arrays sys.use_simd frame (block_of buffer) payload_offset
                (sub64 msg_len payload_offset)
          if is_success err
              then (do accepted ← accept_frame reader whole; done (w', accepted.0, accepted.1))
              else done (w', reader, false))

  unfoldable pub ws_reader_handle :
      sys.World → Reader sys → Option NetInfo → Run (sys.World × Reader sys × Bool)
  ws_reader_handle w reader none = done (w, reader, false)
  ws_reader_handle w reader (some info) = do
    (w', header, n) ← net_peek sys w (some info) (some (replicate 10 0)) 10
    elim n [
      | none ↦ done (w', reader, false)
      | some size ↦ if size == 0 then done (w', reader, true) else (do
        (frame, err) ← ws_frame_read_header zero_frame (block_of header) size
        if is_success err
            then handle_frame w' reader (some info) frame
            else done (w', reader, false))
    ]
