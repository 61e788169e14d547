-- ===== src/Protocol/Written.antt =====
-- What each part of `ws_frame_write` puts behind the bytes written so far.
use websocket_c.Common.{
  ℕ, ◌+◌, ◌/◌, ◌%◌, ◌^◌, ◌≤◌, ◌<◌, ◌≡◌, refl, sym, ap, ◌∙◌, Bool, true, false, List, [], ◌∷◌, ◌++◌,
  append-nil, ◌==◌, ltb, leb, u64, Bool-cases, inl, inr, length, drop, arith, done, load,
  store_bytes_next,
}
use websocket_c.Common.Bits.{bit_and-low_byte}
use websocket_c.Cstd.{ByteArray, ByteArrays}
use websocket_c.Frame.{Frame, success, flags_mask, flags_payload_len, set_payload_len}
use websocket_c.Protocol.Payload.{ws_frame_handle_payload-payload_bytes}
use websocket_c.Protocol.Wire.{big_endian, length_code, length_bytes, key_bytes, payload_bytes}
use websocket_c.Protocol.Write.{
  low_byte, ws_frame_write_len, choose_payload_len, write_key, write_payload,
}

pub choose-length_code :
    (f : Frame) → choose_payload_len f ≡ set_payload_len f (length_code f.payload.len)
unfolding choose_payload_len
choose-length_code f = ground arith

-- The three forms of the length.
pub data LengthForm (n : ℕ) : Type 0 where
  direct : leb n 125 ≡ true → LengthForm n
  two_bytes : leb n 125 ≡ false → ltb n 65536 ≡ true → LengthForm n
  eight_bytes : leb n 125 ≡ false → ltb n 65536 ≡ false → LengthForm n

pub length_form : (n : ℕ) → LengthForm n
length_form n = elim (Bool-cases (leb n 125)) [
  | inl a ↦ direct a
  | inr a ↦ elim (Bool-cases (ltb n 65536)) [ inl b ↦ two_bytes a b | inr b ↦ eight_bytes a b ]
]

-- `x & 0xFF` after a shift is the byte that the wire format wants.
low_byte-mod : (n k : ℕ) → low_byte n k ≡ n / 2 ^ k % 256
low_byte-mod n k = bit_and-low_byte (n / 2 ^ k)

four_bytes :
    (key : List ℕ)
    → length key ≡ 4
    → (k0 : ℕ) × (k1 : ℕ) × (k2 : ℕ) × (k3 : ℕ) × (key ≡ k0 ∷ k1 ∷ k2 ∷ k3 ∷ [])
four_bytes (k0 ∷ k1 ∷ k2 ∷ k3 ∷ []) h = (k0, k1, k2, k3, refl)
four_bytes _ h = absurd (omega arith)

module _ (out : ByteArray) (f : Frame) (idx : ℕ) where
  write_len_direct :
      flags_payload_len f < 126 → ws_frame_write_len f out idx ≡ done (out, idx, success)
  unfolding ws_frame_write_len
  write_len_direct h = ground arith

  module _ (written left : List ℕ) (e : out.byte_data ≡ written ++ left) (p : idx ≡ length written)
      (big : idx + 8 < 2 ^ 64) where
    write_len_two :
        flags_payload_len f ≡ 126
        → 2 ≤ length left
        → ws_frame_write_len f out idx
          ≡ done (
            record out { byte_data = (written ++ big_endian 2 f.payload.len) ++ drop 2 left },
            idx + 2,
            success,
          )
    unfolding ws_frame_write_len
    write_len_two c fits = rw (
      let t : (flags_payload_len f == 126) ≡ true = ground arith in t,
      low_byte-mod f.payload.len 8,
      low_byte-mod f.payload.len 0,
      store_bytes_next written left (big_endian 2 f.payload.len) idx {buf = out.byte_data} e p fits,
      let t : u64 (idx + 2) ≡ idx + 2 = omega arith in t,
    )

    write_len_eight :
        flags_payload_len f ≡ 127
        → 8 ≤ length left
        → ws_frame_write_len f out idx
          ≡ done (
            record out { byte_data = (written ++ big_endian 8 f.payload.len) ++ drop 8 left },
            idx + 8,
            success,
          )
    unfolding ws_frame_write_len
    write_len_eight c fits = rw (
      let t : (flags_payload_len f == 126) ≡ false = ground arith in t,
      let t : (flags_payload_len f == 127) ≡ true = ground arith in t,
      low_byte-mod f.payload.len 56,
      low_byte-mod f.payload.len 48,
      low_byte-mod f.payload.len 40,
      low_byte-mod f.payload.len 32,
      low_byte-mod f.payload.len 24,
      low_byte-mod f.payload.len 16,
      low_byte-mod f.payload.len 8,
      low_byte-mod f.payload.len 0,
      store_bytes_next written left (big_endian 8 f.payload.len) idx {buf = out.byte_data} e p fits,
      let t : u64 (idx + 8) ≡ idx + 8 = omega arith in t,
    )

    -- The extended length goes behind what is written, and the offset moves past it.
    pub ws_frame_write_len-length_bytes :
        LengthForm f.payload.len
        → flags_payload_len f ≡ length_code f.payload.len
        → length (length_bytes f.payload.len) ≤ length left
        → ws_frame_write_len f out idx
          ≡ done (
            record out {
              byte_data =
                  (written ++ length_bytes f.payload.len)
                  ++ drop (length (length_bytes f.payload.len)) left;
            },
            idx + length (length_bytes f.payload.len),
            success,
          )
    ws_frame_write_len-length_bytes (direct a) c fits = rw a (
        write_len_direct (ground arith) ∙ (λ i. done (
          record out {
            byte_data = (e ∙ ap (λ (t : List ℕ). t ++ left) (sym (append-nil written))) i;
          },
          (let z : idx ≡ idx + 0 = omega arith in z) i,
          success,
        )))
    ws_frame_write_len-length_bytes (two_bytes a b) c fits =
        rw (a, b) (write_len_two (rw (a, b) at c) (rw (a, b) at fits))
    ws_frame_write_len-length_bytes (eight_bytes a b) c fits =
        rw (a, b) (write_len_eight (rw (a, b) at c) (rw (a, b) at fits))

-- The key goes behind what is written, if the frame is masked.
pub write_key-key_bytes :
    (f : Frame) (written left : List ℕ) (mask : Bool) (offset : ℕ) {bytes : List ℕ}
    → flags_mask f ≡ mask
    → bytes ≡ written ++ left
    → offset ≡ length written
    → length f.masking_key ≡ 4
    → length (key_bytes mask f.masking_key) ≤ length left
    → offset + 4 < 2 ^ 64
    → write_key f bytes offset
      ≡ done (
        (written ++ key_bytes mask f.masking_key)
            ++ drop (length (key_bytes mask f.masking_key)) left,
        offset + length (key_bytes mask f.masking_key),
      )
unfolding write_key load
write_key-key_bytes f written left false offset {bytes} m e p k fits big = rw m (λ i. done (
  (e ∙ ap (λ (t : List ℕ). t ++ left) (sym (append-nil written))) i,
  (let z : offset ≡ offset + 0 = omega arith in z) i,
))
write_key-key_bytes f written left true offset {bytes} m e p k fits big =
    let (k0, k1, k2, k3, four) = four_bytes f.masking_key k in
    rw m (
      rw (four) (
        rw (
          store_bytes_next written left (k0 ∷ k1 ∷ k2 ∷ k3 ∷ []) offset {buf = bytes} e p
              (rw four at fits),
          let z : u64 (offset + 4) ≡ offset + 4 = omega arith in z,
        )))

module _ (arrays : ByteArrays) (use_simd : Bool) where
  -- The payload fills the rest of the output.
  pub write_payload-payload_bytes :
      (f : Frame) (out : ByteArray) (offset : ℕ) (mask : Bool)
      (written left payload unused : List ℕ)
      → flags_mask f ≡ mask
      → out.byte_data ≡ written ++ left
      → offset ≡ length written
      → length left ≡ length payload
      → out.len ≡ length written + length payload
      → out.len < 2 ^ 64
      → length payload + 16 < 2 ^ 64
      → length f.masking_key ≡ 4
      → f.payload.byte_data ≡ payload ++ unused
      → f.payload.len ≡ length payload
      → write_payload arrays use_simd f out offset
        ≡ done (
          record f { payload_len = f.payload.len },
          record out { byte_data = written ++ payload_bytes mask f.masking_key payload },
          success,
        )
  unfolding write_payload
  write_payload-payload_bytes f out offset mask written left payload unused m e p l n small w k d
        pn =
      rw (
        let z : ltb out.len (u64 (offset + f.payload.len)) ≡ false = ground arith in z,
        m,
        pn,
        ws_frame_handle_payload-payload_bytes use_simd mask f.masking_key 0 offset payload [] unused
            written left {src = f.payload.byte_data} {dest = out.byte_data} k w d e refl (sym p) l,
      )
