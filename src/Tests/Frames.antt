-- ===== src/Tests/Frames.antt =====
-- Writing and reading of concrete frames.
use websocket_c.Common.{
  ℕ, ◌+◌, ◌-◌, ◌≡◌, refl, true, false, List, [], ◌∷◌, ◌++◌, some, length, replicate, arith, done,
}
use websocket_c.Cstd.{ByteArray, null_array, contents}
use websocket_c.Frame.{Frame, success, flags_mask}
use websocket_c.Protocol.Body.{ws_frame_read_body, ws_frame_read}
use websocket_c.Protocol.Header.{zero_frame, ws_frame_read_header, ws_frame_payload_byte_len}
use websocket_c.Protocol.ReadHeader.{ws_frame_read_header-header}
use websocket_c.Protocol.RoundTrip.{read-write, ws_frame_read_unmasked}
use websocket_c.Protocol.Wire.{wire, header}
use websocket_c.Protocol.WireFormat.{
  IsWritable, ws_frame_write-wire, ws_frame_write-write_code, write_code,
}
use websocket_c.Protocol.Write.{ws_frame_output_size, ws_frame_write}
use websocket_c.Tests.Fixtures.{
  plain_init, plain_arrays, plain-IsByteArrays, key, hello, hello_frame,
}

hello_size : ws_frame_output_size hello_frame ≡ 11
unfolding ws_frame_output_size
hello_size = refl

hello_granted :
    plain_init (ws_frame_output_size hello_frame)
    ≡ some (record { byte_data = replicate 11 0; len = 0; cap = 11 })
unfolding ws_frame_output_size
hello_granted = refl

hello-IsWritable : IsWritable hello_frame hello
hello-IsWritable = record {
  unused = [];
  holds = refl;
  counts = refl;
  key_size = refl;
  info_byte = omega arith;
  no_wrap = omega arith;
}

-- The masked frame of RFC 6455 section 5.7.
hello-wire :
    wire 129 true key hello ≡ 129 ∷ 133 ∷ 55 ∷ 250 ∷ 33 ∷ 61 ∷ 127 ∷ 159 ∷ 77 ∷ 81 ∷ 88 ∷ []
hello-wire = refl

ws_frame_write-wire_example :
    (g : Frame) × (o : ByteArray) × (ws_frame_write plain_arrays true hello_frame null_array
      ≡ done (g, o, success))
    × (o.byte_data ≡ wire 129 true key hello)
    × (o.len ≡ length o.byte_data)
    × (g.payload ≡ hello_frame.payload)
    × (g.codes ≡ hello_frame.codes)
ws_frame_write-wire_example =
    ws_frame_write-wire plain_arrays plain-IsByteArrays true hello_frame null_array hello
      hello-IsWritable _ hello_granted (λ e. absurd (omega arith))

ws_frame_write-write_code_example :
    (g : Frame) × (o : ByteArray) × (ws_frame_write plain_arrays true hello_frame null_array
      ≡ done (g, o, write_code (plain_init (ws_frame_output_size hello_frame)) 5))
ws_frame_write-write_code_example =
    ws_frame_write-write_code plain_arrays plain-IsByteArrays true hello_frame null_array hello
      hello-IsWritable

-- An extended length of two bytes.
ws_frame_read_header-header_example :
    ws_frame_read_header zero_frame (header 130 false 300 ++ 1 ∷ 2 ∷ []) 6
    ≡ done (record zero_frame { codes = 130; info = 126; payload_len = 300 }, success)
ws_frame_read_header-header_example =
    ws_frame_read_header-header zero_frame 130 false 300 (1 ∷ 2 ∷ []) 6 (omega arith) (omega arith)

read-write_example :
    (g : Frame) × (o : ByteArray) × (h : Frame) × (r : Frame) × (ws_frame_write plain_arrays true
        hello_frame null_array
      ≡ done (g, o, success))
    × (ws_frame_read_header zero_frame o.byte_data o.len ≡ done (h, success))
    × (ws_frame_read_body plain_arrays false h o.byte_data
          (2 + ws_frame_payload_byte_len h)
          (o.len - (2 + ws_frame_payload_byte_len h))
        ≡ done (r, success))
    × (r.codes ≡ 129)
    × (flags_mask r ≡ true)
    × (contents r.payload ≡ hello)
read-write_example =
    read-write plain_arrays plain-IsByteArrays true false hello_frame null_array hello
      hello-IsWritable _ _ hello_granted refl (λ e. absurd (omega arith)) (omega arith)

abbrev long : List ℕ
long = replicate 126 7

ws_frame_read_unmasked_example :
    (r : Frame) × (ws_frame_read plain_arrays true zero_frame
        (wire 130 false [] long)
        (length (wire 130 false [] long))
      ≡ done (r, success))
    × (contents r.payload ≡ 0 ∷ 126 ∷ replicate 124 7)
ws_frame_read_unmasked_example =
    ws_frame_read_unmasked plain_arrays plain-IsByteArrays true zero_frame 130 long _ refl
      (omega arith) (omega arith) refl
