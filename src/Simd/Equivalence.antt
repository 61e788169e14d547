-- ===== src/Simd/Equivalence.antt =====
-- Both ways of masking a buffer compute the masked data of RFC 6455, in place in the destination,
-- and access nothing outside of the two buffers.
use websocket_c.Common.{
  ℕ, ◌+◌, ◌-◌, ◌^◌, ◌≤◌, ◌<◌, ◌≡◌, refl, sym, ap, ◌∙◌, List, [], ◌∷◌, ◌++◌, append_assoc,
  append-nil, length, length-append, arith, done, load, leb, sub64,
}
use websocket_c.Common.{Bool, true, false, Bool-cases, inl, inr, ◌==◌}
use native.Mathlib.Decide.{dec_lt}
use websocket_c.Frame.{success}
use websocket_c.Simd.Spec.{masked, length-masked, masked_split, masked_twice}
use websocket_c.Simd.Serial.{serial_loop-IsMasked}
use websocket_c.Simd.Blocks.{mask_key, IsBlocked, simd_loop-IsBlocked}
use websocket_c.Simd.{
  serial_loop, apply_mask_to_buffer_serial, mask_lanes, simd_loop, apply_mask_to_buffer_simd,
  apply_mask_to_buffer,
}

-- An empty buffer is left as it is.
masked_empty :
    (key : List ℕ) (i : ℕ) (xs old : List ℕ)
    → length xs ≡ 0
    → length old ≡ length xs
    → old ≡ masked key i xs
masked_empty key i [] [] z h = refl
masked_empty key i [] (o ∷ old) z h = absurd (omega arith)
masked_empty key i (x ∷ xs) old z h = absurd (omega arith)

-- From any offset on, the serial routine masks what is left.
apply_mask_to_buffer_serial-IsMasked :
    (key : List ℕ) (s d : ℕ) (xs : List ℕ) (len offset : ℕ) {src dest : List ℕ}
    (sb sa db old da : List ℕ)
    → length key ≡ 4
    → offset + length xs ≡ len
    → src ≡ sb ++ (xs ++ sa)
    → dest ≡ db ++ (old ++ da)
    → length sb ≡ s + offset
    → length db ≡ d + offset
    → length old ≡ length xs
    → apply_mask_to_buffer_serial key src s d dest len offset
      ≡ done (db ++ (masked key offset xs ++ da), success)
unfolding apply_mask_to_buffer_serial
apply_mask_to_buffer_serial-IsMasked key s d xs len offset {src} {dest} sb sa db old da k l e f q r
      h =
    elim (Bool-cases (len == 0)) [
      | inl empty ↦ rw empty (λ i. done (unchanged empty i, success))
      | inr more ↦ rw (more, let n : len - offset ≡ length xs = omega arith in n, loop)
    ]
  where
    loop :
        serial_loop key src s d (length xs) offset dest ≡ done (db ++ (masked key offset xs ++ da))
    loop = serial_loop-IsMasked key s d xs offset sb sa db old da k e f q r h

    unchanged : (len == 0) ≡ true → dest ≡ db ++ (masked key offset xs ++ da)
    unchanged z =
        f ∙ ap (λ (t : List ℕ). db ++ (t ++ da)) (masked_empty key offset xs old (ground arith) h)

module _ (m1 m2 m3 m4 : ℕ) (src : List ℕ) (s d : ℕ) where
  simd_short :
      (n : ℕ) (dest : List ℕ)
      → n < 16
      → apply_mask_to_buffer_simd (mask_key m1 m2 m3 m4) src s d dest n
        ≡ apply_mask_to_buffer_serial (mask_key m1 m2 m3 m4) src s d dest n 0
  unfolding apply_mask_to_buffer_simd
  simd_short n dest lt = ground arith

  -- Past 15 bytes the serial routine takes over where the vector loop stops.
  simd_long :
      (n : ℕ) (dest out : List ℕ) (offset : ℕ)
      → 16 ≤ n
      → simd_loop (mask_lanes m1 m2 m3 m4) src s d n n 15 dest ≡ done (out, offset)
      → apply_mask_to_buffer_simd (mask_key m1 m2 m3 m4) src s d dest n
        ≡ apply_mask_to_buffer_serial (mask_key m1 m2 m3 m4) src s d out n (sub64 offset 15)
  unfolding apply_mask_to_buffer_simd load
  simd_long n dest out offset long e = rw (
    let z : (n == 0) ≡ false = ground arith in z,
    let z : leb n 15 ≡ false = ground arith in z,
    e,
  )

-- The vector routine masks the whole buffer, up to lengths where `size_t` would wrap.
apply_mask_to_buffer_simd-IsMasked :
    (m1 m2 m3 m4 s d : ℕ) (xs : List ℕ) {src dest : List ℕ} (sb sa db old da : List ℕ)
    → length xs + 16 < 2 ^ 64
    → src ≡ sb ++ (xs ++ sa)
    → dest ≡ db ++ (old ++ da)
    → length sb ≡ s
    → length db ≡ d
    → length old ≡ length xs
    → apply_mask_to_buffer_simd (mask_key m1 m2 m3 m4) src s d dest (length xs)
      ≡ done (db ++ (masked (mask_key m1 m2 m3 m4) 0 xs ++ da), success)
apply_mask_to_buffer_simd-IsMasked m1 m2 m3 m4 s d xs {src} {dest} sb sa db old da w e f q r h =
    elim (dec_lt (length xs) 16) [
      | yes few ↦
          simd_short m1 m2 m3 m4 src s d (length xs) dest few
          ∙ apply_mask_to_buffer_serial-IsMasked _ s d xs (length xs) 0 sb sa db old da refl
              (omega arith) e f (omega arith) (omega arith) h
      | no many ↦ long (omega arith) (
          simd_loop-IsBlocked m1 m2 m3 m4 (length xs) s d 0 (length xs) xs sb sa db old da refl
            (omega arith) w (omega arith) e f (omega arith) (omega arith) h)
    ]
  where
    long :
        16 ≤ length xs
        → IsBlocked m1 m2 m3 m4
            (simd_loop (mask_lanes m1 m2 m3 m4) src s d (length xs) (length xs) 15 dest)
            0
            xs
            db
            da
        → apply_mask_to_buffer_simd (mask_key m1 m2 m3 m4) src s d dest (length xs)
          ≡ done (db ++ (masked (mask_key m1 m2 m3 m4) 0 xs ++ da), success)
    long big b =
        let bl = b.blocks in
        let tl = b.tail in
        let n : length xs ≡ length bl + length tl = ap length b.splits ∙ length-append bl tl in
        simd_long m1 m2 m3 m4 src s d (length xs) dest _ _ big b.returns
        ∙ rw (let o : sub64 (0 + length bl + 15) 15 ≡ length bl = omega arith in o) (
            apply_mask_to_buffer_serial-IsMasked (mask_key m1 m2 m3 m4) s d tl (length xs)
              (length bl) {src = src} (sb ++ bl) sa (db ++ masked (mask_key m1 m2 m3 m4) 0 bl)
              b.old_tail da refl (omega arith)
              (e ∙ ap (λ (t : List ℕ). sb ++ (t ++ sa)) b.splits ∙ simp append_assoc)
              (sym (append_assoc db (masked (mask_key m1 m2 m3 m4) 0 bl) (b.old_tail ++ da)))
              (omega (arith, length-append sb bl))
              (omega (
                arith,
                length-append db (masked (mask_key m1 m2 m3 m4) 0 bl),
                length-masked (mask_key m1 m2 m3 m4) 0 bl,
              ))
              b.same_length
            ∙ ap (λ (t : List ℕ). done (t, success))
                (append_assoc db (masked (mask_key m1 m2 m3 m4) 0 bl) _
                  ∙ ap (◌++◌ db) (sym (append_assoc (masked (mask_key m1 m2 m3 m4) 0 bl) _ da))
                  ∙ ap (λ (t : List ℕ). db ++ (t ++ da))
                      (sym (masked_split (mask_key m1 m2 m3 m4) bl tl)
                        ∙ ap (masked (mask_key m1 m2 m3 m4) 0) (sym b.splits))))

-- With a key of 4 bytes, source bytes `xs` at `src_at`, as many old bytes at `dest_at`, and a
-- length for which `size_t` does not wrap, both the vector and the byte-by-byte build succeed,
-- access nothing out of range, replace the old bytes by the masked data of RFC 6455 and leave the
-- destination's other bytes alone.
pub apply_mask_to_buffer-masked :
    (use_simd : Bool) (key : List ℕ) (src_at dest_at : ℕ) (xs src_before src_after : List ℕ)
    (dest_before old dest_after : List ℕ)
    → length key ≡ 4
    → length xs + 16 < 2 ^ 64
    → length src_before ≡ src_at
    → length dest_before ≡ dest_at
    → length old ≡ length xs
    → apply_mask_to_buffer key
        (src_before ++ (xs ++ src_after))
        src_at
        dest_at
        use_simd
        (dest_before ++ (old ++ dest_after))
        (length xs)
      ≡ done (dest_before ++ (masked key 0 xs ++ dest_after), success)
unfolding apply_mask_to_buffer
apply_mask_to_buffer-masked false key s d xs sb sa db old da k w q r h =
    apply_mask_to_buffer_serial-IsMasked key s d xs (length xs) 0 sb sa db old da k (omega arith)
      refl refl (omega arith) (omega arith) h
apply_mask_to_buffer-masked true (m1 ∷ m2 ∷ m3 ∷ m4 ∷ []) s d xs sb sa db old da k w q r h =
    apply_mask_to_buffer_simd-IsMasked m1 m2 m3 m4 s d xs sb sa db old da w refl refl q r h
apply_mask_to_buffer-masked true _ s d xs sb sa db old da k w q r h = absurd (omega arith)

-- With a key of 4 bytes and a length for which `size_t` does not wrap: what one call of
-- `apply_mask_to_buffer` masks, a second call with the same key restores, whichever of the two
-- builds each end runs and whatever the destination buffers of that length held.
pub apply_mask_to_buffer_twice :
    (here there : Bool) (key xs old old' : List ℕ)
    → length key ≡ 4
    → length xs + 16 < 2 ^ 64
    → length old ≡ length xs
    → length old' ≡ length xs
    → (ys : List ℕ) × (apply_mask_to_buffer key xs 0 0 here old (length xs) ≡ done (ys, success))
      × (apply_mask_to_buffer key ys 0 0 there old' (length ys) ≡ done (xs, success))
apply_mask_to_buffer_twice here there key xs old old' k w h h' =
    let n : length (masked key 0 xs) ≡ length xs = length-masked key 0 xs in
    (
      masked key 0 xs,
      whole here xs old w h,
      whole there (masked key 0 xs) old' (omega arith) (omega arith)
          ∙ ap (λ (t : List ℕ). done (t, success)) (masked_twice key 0 xs),
    )
  where
    whole :
        (use_simd : Bool) (bytes old : List ℕ)
        → length bytes + 16 < 2 ^ 64
        → length old ≡ length bytes
        → apply_mask_to_buffer key bytes 0 0 use_simd old (length bytes)
          ≡ done (masked key 0 bytes, success)
    whole use_simd bytes old w h =
        simp append-nil at
          (apply_mask_to_buffer-masked use_simd key 0 0 bytes [] [] [] old [] k w refl refl h)
