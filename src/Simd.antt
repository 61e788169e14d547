-- ===== src/Simd.antt =====
-- src/simd.c: xor of a buffer with the repeating 4-byte masking key, byte by byte and, in the
-- branch that gcc and clang compile, 16 bytes at a time.
--
-- A pointer argument is a block and a position in it: `dest` and `dest_at`, `src` and `src_at`.
-- The pointers are `restrict`, so the two blocks are different.
pub mod Spec
pub mod Serial
pub mod Blocks
pub mod Equivalence
use websocket_c.Common.{
  ℕ, zero, suc, ◌+◌, ◌-◌, ◌<◌, List, [], ◌∷◌, bit_and, bit_xor, ltb, leb, ◌==◌, if◌then◌else◌, Bool,
  true, false, u64, sub64, Run, done, fault, timeout, ◌>>=◌, load, load_bytes, store, store_bytes,
}
use websocket_c.Frame.{FrameError, success}

module _ (key src : List ℕ) (src_at dest_at : ℕ) where
  -- for (size_t index = offset; index < len; index++), with `len - index` rounds left
  pub serial_loop : ℕ → ℕ → List ℕ → Run (List ℕ)
  serial_loop zero index dest = done dest
  serial_loop (suc left) index dest = do
    b ← load src (src_at + index)
    k ← load key (bit_and index 3)
    out ← store dest (dest_at + index) (bit_xor b k)
    serial_loop left (index + 1) out

  unfoldable pub apply_mask_to_buffer_serial : List ℕ → ℕ → ℕ → Run (List ℕ × FrameError)
  unfolding serial_loop
  apply_mask_to_buffer_serial dest len offset =
      if len == 0
      then done (dest, success)
      else (do out ← serial_loop (len - offset) offset dest; done (out, success))

-- `src_vec ^= mask_simd` on vectors of 16 lanes
pub xor_lanes : List ℕ → List ℕ → List ℕ
xor_lanes (x ∷ xs) (y ∷ ys) = bit_xor x y ∷ xor_lanes xs ys
xor_lanes xs ys = []

module _ (lanes src : List ℕ) (src_at dest_at cutoff : ℕ) where
  -- while (offset < cutoff); the result is the destination and the last offset
  pub simd_loop : ℕ → ℕ → List ℕ → Run (List ℕ × ℕ)
  unfolding xor_lanes
  simd_loop zero offset dest = timeout
  simd_loop (suc fuel) offset dest = elim (ltb offset cutoff) [
    | true ↦ do
      vec ← load_bytes src (src_at + sub64 offset 15) 16
      out ← store_bytes dest (dest_at + sub64 offset 15) (xor_lanes vec lanes)
      simd_loop fuel (u64 (offset + 16)) out
    | false ↦ done (dest, offset)
  ]

-- { m1, m2, m3, m4, ... }, the mask repeated 4 times
abbrev pub mask_lanes : ℕ → ℕ → ℕ → ℕ → List ℕ
mask_lanes m1 m2 m3 m4 =
    m1 ∷ m2 ∷ m3 ∷ m4 ∷ m1 ∷ m2 ∷ m3 ∷ m4 ∷ m1 ∷ m2 ∷ m3 ∷ m4 ∷ m1 ∷ m2 ∷ m3 ∷ m4 ∷ []

module _ (key src : List ℕ) (src_at dest_at : ℕ) where
  unfoldable pub apply_mask_to_buffer_simd : List ℕ → ℕ → Run (List ℕ × FrameError)
  unfolding simd_loop apply_mask_to_buffer_serial
  apply_mask_to_buffer_simd dest len =
      if len == 0
      then done (dest, success)
      else if leb len 15
      then apply_mask_to_buffer_serial key src src_at dest_at dest len 0
      else (do
        m1 ← load key 0
        m2 ← load key 1
        m3 ← load key 2
        m4 ← load key 3
        (out, offset) ← simd_loop (mask_lanes m1 m2 m3 m4) src src_at dest_at len len 15 dest
        apply_mask_to_buffer_serial key src src_at dest_at out len (sub64 offset 15))

  -- The preprocessor's choice: `use_simd` is a supported architecture without DISABLE_SIMD.
  unfoldable pub apply_mask_to_buffer : Bool → List ℕ → ℕ → Run (List ℕ × FrameError)
  unfolding apply_mask_to_buffer_simd apply_mask_to_buffer_serial
  apply_mask_to_buffer use_simd dest len =
      if use_simd
      then apply_mask_to_buffer_simd dest len
      else apply_mask_to_buffer_serial key src src_at dest_at dest len 0
