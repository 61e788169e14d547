-- ===== src/Frame.antt =====
-- headers/protocol.h: the codes, and the frame structure with its two bit-field unions.
--
-- The unions are laid out as gcc and clang do on a little-endian target: the first bit-field takes
-- the low bits of the byte, so a byte reads fin, rsv1, rsv2, rsv3, opcode from the top.
use websocket_c.Cstd.{ByteArray}
use websocket_c.Common.{ℕ, ◌+◌, ◌*◌, ◌/◌, ◌%◌, ◌==◌, Bool, List}

pub data FrameError : Type 0 where
  success invalid error_len error_rsv_set error_opcode malloc_error : FrameError

pub data Opcode : Type 0 where
  cont text bin nc_res1 nc_res2 nc_res3 nc_res4 nc_res5 : Opcode
  close ping pong c_res1 c_res2 c_res3 c_res4 c_res5 : Opcode

-- The numeric value of the enum's constants.
unfoldable pub opcode_value : Opcode → ℕ
opcode_value cont = 0
opcode_value text = 1
opcode_value bin = 2
opcode_value nc_res1 = 3
opcode_value nc_res2 = 4
opcode_value nc_res3 = 5
opcode_value nc_res4 = 6
opcode_value nc_res5 = 7
opcode_value close = 8
opcode_value ping = 9
opcode_value pong = 10
opcode_value c_res1 = 11
opcode_value c_res2 = 12
opcode_value c_res3 = 13
opcode_value c_res4 = 14
opcode_value c_res5 = 15

pub record Frame : Type 0 where
  -- `codes.value`
  pub codes : ℕ
  -- `info.value`
  pub info : ℕ
  -- 64 bits
  pub payload_len : ℕ
  -- 4 bytes
  pub masking_key : List ℕ
  pub payload : ByteArray

-- `codes.flags.opcode`, as a number
abbrev pub flags_opcode : Frame → ℕ
flags_opcode f = f.codes % 16

-- `codes.flags.fin`
abbrev pub flags_fin : Frame → Bool
flags_fin f = f.codes / 128 % 2 == 1

-- `info.flags.payload_len`
abbrev pub flags_payload_len : Frame → ℕ
flags_payload_len f = f.info % 128

-- `info.flags.mask`
abbrev pub flags_mask : Frame → Bool
flags_mask f = f.info / 128 % 2 == 1

-- `frame->codes.flags.opcode = type`
abbrev pub set_opcode : Frame → ℕ → Frame
set_opcode f n = record f { codes = f.codes / 16 * 16 + n % 16 }

-- `frame->codes.flags.fin = 1`
abbrev pub set_fin : Frame → Frame
set_fin f = record f { codes = 128 + f.codes % 128 }

-- `frame->info.flags.mask = 1`
abbrev pub set_mask : Frame → Frame
set_mask f = record f { info = 128 + f.info % 128 }

-- `frame->info.flags.payload_len = n`
abbrev pub set_payload_len : Frame → ℕ → Frame
set_payload_len f n = record f { info = f.info / 128 * 128 + n % 128 }
