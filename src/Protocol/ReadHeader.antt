-- ===== src/Protocol/ReadHeader.antt =====
-- `ws_frame_read_header` reads back the header of the wire format.
use websocket_c.Common.{
  ℕ, ◌+◌, ◌*◌, ◌/◌, ◌%◌, ◌^◌, ◌≤◌, ◌<◌, ◌≡◌, ap, ◌∙◌, Bool, true, false, List, ◌∷◌, ◌++◌, bit_or,
  ◌==◌, u64, le→not-ltb, length, arith, done, load,
}
use websocket_c.Common.Bits.{bit_or-shifted}
use websocket_c.Frame.{Frame, success}
use websocket_c.Protocol.Header.{shift_len, ws_frame_read_header}
use websocket_c.Protocol.Wire.{big_endian, length_code, length_bytes, mask_bit, header}
use websocket_c.Protocol.Written.{LengthForm, direct, two_bytes, eight_bytes, length_form}

-- One more byte on top of a number of k bits.
or_byte :
    (k low b : ℕ)
    → low < 2 ^ k
    → k ≤ 56
    → b * 2 ^ k < 2 ^ 64
    → bit_or low (shift_len b k) ≡ low + b * 2 ^ k
or_byte k low b h s big =
    ap (bit_or low) (let e : u64 (b * 2 ^ k) ≡ b * 2 ^ k = grind arith in e)
    ∙ bit_or-shifted k low b h

two_byte_value :
    (n : ℕ) → n < 65536 → bit_or (shift_len (n / 1 % 256) 0) (shift_len (n / 256 % 256) 8) ≡ n
two_byte_value n h =
    or_byte 8 (shift_len (n / 1 % 256) 0) (n / 256 % 256) (omega arith) (omega arith) (omega arith)
    ∙ omega arith

eight_byte_value :
    (b0 b1 b2 b3 b4 b5 b6 b7 : ℕ)
    → b0 < 256
    → b1 < 256
    → b2 < 256
    → b3 < 256
    → b4 < 256
    → b5 < 256
    → b6 < 256
    → b7 < 256
    → bit_or
        (bit_or
          (bit_or
            (bit_or
              (bit_or
                (bit_or (bit_or (shift_len b0 0) (shift_len b1 8)) (shift_len b2 16))
                (shift_len b3 24))
              (shift_len b4 32))
            (shift_len b5 40))
          (shift_len b6 48))
        (shift_len b7 56)
      ≡ b0
        + b1 * 2 ^ 8
        + b2 * 2 ^ 16
        + b3 * 2 ^ 24
        + b4 * 2 ^ 32
        + b5 * 2 ^ 40
        + b6 * 2 ^ 48
        + b7 * 2 ^ 56
eight_byte_value b0 b1 b2 b3 b4 b5 b6 b7 h0 h1 h2 h3 h4 h5 h6 h7 = rw (
  let e : shift_len b0 0 ≡ b0 = omega arith in e,
  or_byte 8 b0 b1 (omega arith) (omega arith) (omega arith),
  or_byte 16 (b0 + b1 * 2 ^ 8) b2 (omega arith) (omega arith) (omega arith),
  or_byte 24 (b0 + b1 * 2 ^ 8 + b2 * 2 ^ 16) b3 (omega arith) (omega arith) (omega arith),
  or_byte 32 (b0 + b1 * 2 ^ 8 + b2 * 2 ^ 16 + b3 * 2 ^ 24) b4 (omega arith) (omega arith)
      (omega arith),
  or_byte 40 (b0 + b1 * 2 ^ 8 + b2 * 2 ^ 16 + b3 * 2 ^ 24 + b4 * 2 ^ 32) b5 (omega arith)
      (omega arith) (omega arith),
  or_byte 48 (b0 + b1 * 2 ^ 8 + b2 * 2 ^ 16 + b3 * 2 ^ 24 + b4 * 2 ^ 32 + b5 * 2 ^ 40) b6
      (omega arith) (omega arith) (omega arith),
  or_byte 56 (b0 + b1 * 2 ^ 8 + b2 * 2 ^ 16 + b3 * 2 ^ 24 + b4 * 2 ^ 32 + b5 * 2 ^ 40 + b6 * 2 ^ 48)
      b7 (omega arith) (omega arith) (omega arith),
)

digits_sum :
    (n : ℕ)
    → n < 2 ^ 64
    → n / 1 % 256
        + n / 256 % 256 * 2 ^ 8
        + n / 65536 % 256 * 2 ^ 16
        + n / 16777216 % 256 * 2 ^ 24
        + n / 4294967296 % 256 * 2 ^ 32
        + n / 1099511627776 % 256 * 2 ^ 40
        + n / 281474976710656 % 256 * 2 ^ 48
        + n / 72057594037927936 % 256 * 2 ^ 56
      ≡ n
digits_sum n h = omega arith

flags-mask_bit : (mask : Bool) (c : ℕ) → c < 128 → (mask_bit mask + c) % 128 ≡ c
flags-mask_bit true c h = omega arith
flags-mask_bit false c h = omega arith

module _ (frame : Frame) (codes : ℕ) (mask : Bool) (n : ℕ) (rest : List ℕ) (len : ℕ) where
  abbrev sized : ℕ → ℕ → Frame
  sized info size = record frame { codes = codes; info = info; payload_len = size }

  read_direct :
      (c : ℕ)
      → c < 126
      → 2 ≤ len
      → ws_frame_read_header frame (codes ∷ (mask_bit mask + c) ∷ rest) len
        ≡ done (sized (mask_bit mask + c) c, success)
  unfolding ws_frame_read_header load
  read_direct c h fits = rw (
    le→not-ltb len 2 fits,
    flags-mask_bit mask c (omega arith),
    let e : (c == 126) ≡ false = ground arith in e,
    let e : (c == 127) ≡ false = ground arith in e,
    le→not-ltb len 2 fits,
  )

  read_two :
      n < 65536
      → 4 ≤ len
      → ws_frame_read_header frame (codes ∷ (mask_bit mask + 126) ∷ (big_endian 2 n ++ rest)) len
        ≡ done (sized (mask_bit mask + 126) n, success)
  unfolding ws_frame_read_header load
  read_two small fits = rw (
    le→not-ltb len 2 (omega arith),
    flags-mask_bit mask 126 (omega arith),
    le→not-ltb len 4 fits,
    two_byte_value n small,
  )

  read_eight :
      n < 2 ^ 64
      → 10 ≤ len
      → ws_frame_read_header frame (codes ∷ (mask_bit mask + 127) ∷ (big_endian 8 n ++ rest)) len
        ≡ done (sized (mask_bit mask + 127) n, success)
  unfolding ws_frame_read_header load
  read_eight small fits = rw (
    le→not-ltb len 2 (omega arith),
    flags-mask_bit mask 127 (omega arith),
    le→not-ltb len 10 fits,
    eight_byte_value (n / 1 % 256) (n / 256 % 256) (n / 65536 % 256) (n / 16777216 % 256)
        (n / 4294967296 % 256) (n / 1099511627776 % 256) (n / 281474976710656 % 256)
        (n / 72057594037927936 % 256) (omega arith) (omega arith) (omega arith) (omega arith)
        (omega arith) (omega arith) (omega arith) (omega arith),
    digits_sum n small,
  )

  read_form :
      LengthForm n
      → n < 2 ^ 64
      → 2 + length (length_bytes n) ≤ len
      → ws_frame_read_header frame (header codes mask n ++ rest) len
        ≡ done (sized (mask_bit mask + length_code n) n, success)
  read_form (direct a) small fits = rw a (read_direct n (ground arith) (rw a at fits))
  read_form (two_bytes a b) small fits = rw (a, b) (read_two (ground arith) (rw (a, b) at fits))
  read_form (eight_bytes a b) small fits = rw (a, b) (read_eight small (rw (a, b) at fits))

-- The header of a frame with any payload length below 2 ^ 64, with any bytes behind it and at least
-- the header's own bytes counted in `len`: `ws_frame_read_header` succeeds, sets the codes, the
-- info byte and the payload length of that header, and leaves the rest of the structure alone.
pub ws_frame_read_header-header :
    (frame : Frame) (codes : ℕ) (mask : Bool) (n : ℕ) (rest : List ℕ) (len : ℕ)
    → n < 2 ^ 64
    → 2 + length (length_bytes n) ≤ len
    → ws_frame_read_header frame (header codes mask n ++ rest) len
      ≡ done (
        record frame { codes = codes; info = mask_bit mask + length_code n; payload_len = n },
        success,
      )
ws_frame_read_header-header frame codes mask n rest len small fits =
    read_form frame codes mask n rest len (length_form n) small fits
