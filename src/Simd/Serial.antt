-- ===== src/Simd/Serial.antt =====
-- The byte-by-byte loop of `apply_mask_to_buffer_serial`.
use websocket_c.Common.{
  ℕ, ◌+◌, ◌%◌, ◌≡◌, refl, sym, ap, ◌∙◌, List, [], ◌∷◌, ◌++◌, append_assoc, bit_and, bit_xor, length,
  get_or, length-append, arith, done, load, store_bytes, load-append, load-get_or,
  store_bytes-append,
}
use websocket_c.Common.Bits.{bit_and-three}
use websocket_c.Simd.Spec.{masked}
use websocket_c.Simd.{serial_loop}

-- A key of 4 bytes holds a byte at every index modulo 4.
load_key :
    (key : List ℕ) (i : ℕ) → length key ≡ 4 → load key (bit_and i 3) ≡ done (get_or key (i % 4) 0)
load_key key i h = rw (bit_and-three i) (load-get_or key (i % 4) (omega arith))

-- One round stores the masked byte at the index.
pub serial_loop-IsMasked :
    (key : List ℕ) (src_at dest_at : ℕ) (xs : List ℕ) (index : ℕ) {src dest : List ℕ}
    (src_before src_after dest_before old dest_after : List ℕ)
    → length key ≡ 4
    → src ≡ src_before ++ (xs ++ src_after)
    → dest ≡ dest_before ++ (old ++ dest_after)
    → length src_before ≡ src_at + index
    → length dest_before ≡ dest_at + index
    → length old ≡ length xs
    → serial_loop key src src_at dest_at (length xs) index dest
      ≡ done (dest_before ++ (masked key index xs ++ dest_after))
unfolding serial_loop
serial_loop-IsMasked key s d [] i sb sa db [] da k e f p q h = ap done f
serial_loop-IsMasked key s d [] i sb sa db (o ∷ old) da k e f p q h = absurd (omega arith)
serial_loop-IsMasked key s d (x ∷ xs) i sb sa db [] da k e f p q h = absurd (omega arith)
serial_loop-IsMasked key s d (x ∷ xs) i {src} {dest} sb sa db (o ∷ old) da k e f p q h =
    let v : ℕ = bit_xor x (get_or key (i % 4) 0) in
    let read : load src (s + i) ≡ done x = rw e (load-append sb x (xs ++ sa) (s + i) (sym p)) in
    let write : store_bytes dest (d + i) (v ∷ []) ≡ done (db ++ (v ∷ (old ++ da))) =
      rw f (store_bytes-append db (o ∷ []) (old ++ da) (v ∷ []) (d + i) (sym q) refl) in
    rw (read, load_key key i k, write)
      (serial_loop-IsMasked key s d xs (i + 1) (sb ++ x ∷ []) sa (db ++ v ∷ []) old da k
          (e ∙ sym (append_assoc sb (x ∷ []) (xs ++ sa)))
          (sym (append_assoc db (v ∷ []) (old ++ da))) (omega (arith, length-append sb (x ∷ [])))
          (omega (arith, length-append db (v ∷ []))) (omega arith)
        ∙ ap done (append_assoc db (v ∷ []) (masked key (i + 1) xs ++ da)))
