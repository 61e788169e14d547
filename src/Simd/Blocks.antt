-- ===== src/Simd/Blocks.antt =====
-- The 16-byte loop of `apply_mask_to_buffer_simd`.
use websocket_c.Common.{
  ℕ, zero, suc, ◌+◌, ◌-◌, ◌*◌, ◌%◌, ◌^◌, ◌≤◌, ◌<◌, ◌≡◌, refl, sym, ap, ◌∙◌, List, [], ◌∷◌, ◌++◌,
  append_assoc, length, length-append, arith, Run, done, load_bytes, store_bytes, load_bytes-append,
  store_bytes-append, lt→ltb, le→not-ltb, u64, sub64, split_at,
}
use native.Mathlib.Decide.{dec_lt}
use websocket_c.Simd.Spec.{masked, length-masked, masked_mod, masked-append}
use websocket_c.Simd.{xor_lanes, mask_lanes, simd_loop}

-- Sixteen lanes are four rounds of the key.
xor_lanes-masked :
    (m1 m2 m3 m4 : ℕ) (xs : List ℕ)
    → length xs ≡ 16
    → xor_lanes xs (mask_lanes m1 m2 m3 m4) ≡ masked (m1 ∷ m2 ∷ m3 ∷ m4 ∷ []) 0 xs
unfolding xor_lanes
xor_lanes-masked m1 m2 m3 m4 (a ∷ b ∷ c ∷ d ∷ e ∷ f ∷ g ∷ h ∷ i ∷ j ∷ k ∷ l ∷ m ∷ n ∷ o ∷ p ∷ [])
      eq =
    refl
xor_lanes-masked m1 m2 m3 m4 xs eq = absurd (omega arith)

module _ (m1 m2 m3 m4 : ℕ) where
  abbrev pub mask_key : List ℕ
  mask_key = m1 ∷ m2 ∷ m3 ∷ m4 ∷ []

  -- The loop masks whole blocks of 16 bytes, and stops with fewer than 16 left.
  pub record IsBlocked (run : Run (List ℕ × ℕ)) (p : ℕ) (xs before after : List ℕ) : Type 0 where
    pub blocks : List ℕ
    pub tail : List ℕ
    pub old_tail : List ℕ
    pub splits : xs ≡ blocks ++ tail
    pub same_length : length old_tail ≡ length tail
    pub returns :
        run
        ≡ done (before ++ (masked mask_key p blocks ++ (old_tail ++ after)), p + length blocks + 15)

  IsBlocked-step :
      {run rest : Run (List ℕ × ℕ)} (p : ℕ) (xs x1 x2 before after : List ℕ)
      → xs ≡ x1 ++ x2
      → length x1 ≡ 16
      → run ≡ rest
      → IsBlocked rest (p + 16) x2 (before ++ masked mask_key p x1) after
      → IsBlocked run p xs before after
  IsBlocked-step p xs x1 x2 before after xe n e b = record {
    blocks = x1 ++ b.blocks;
    tail = b.tail;
    old_tail = b.old_tail;
    splits = xe ∙ ap (◌++◌ x1) b.splits ∙ sym (append_assoc x1 b.blocks b.tail);
    same_length = b.same_length;
    returns = e ∙ b.returns ∙ (λ i. done (joined i, counted i));
  }
    where
      joined :
          (before ++ masked mask_key p x1)
            ++ (masked mask_key (p + 16) b.blocks ++ (b.old_tail ++ after))
          ≡ before ++ (masked mask_key p (x1 ++ b.blocks) ++ (b.old_tail ++ after))
      joined = simp (masked-append mask_key p x1 b.blocks, append_assoc, n)

      counted : p + 16 + length b.blocks + 15 ≡ p + length (x1 ++ b.blocks) + 15
      counted = omega (arith, length-append x1 b.blocks)

  simd_loop_stop :
      (fuel s d offset len : ℕ) (src dest : List ℕ)
      → len ≤ offset
      → simd_loop (mask_lanes m1 m2 m3 m4) src s d len (suc fuel) offset dest ≡ done (dest, offset)
  unfolding simd_loop
  simd_loop_stop fuel s d offset len src dest h = rw (simd_loop, le→not-ltb offset len h)

  -- A round masks the next 16 bytes.
  simd_loop_block :
      (fuel s d p len : ℕ) (xs : List ℕ) {src dest : List ℕ} (sb sa db old da : List ℕ)
      → p % 4 ≡ 0
      → p + 16 ≤ len
      → len + 16 < 2 ^ 64
      → length xs ≡ 16
      → src ≡ sb ++ (xs ++ sa)
      → dest ≡ db ++ (old ++ da)
      → length sb ≡ s + p
      → length db ≡ d + p
      → length old ≡ 16
      → simd_loop (mask_lanes m1 m2 m3 m4) src s d len (suc fuel) (p + 15) dest
        ≡ simd_loop
            (mask_lanes m1 m2 m3 m4)
            src
            s
            d
            len
            fuel
            (p + 16 + 15)
            (db ++ (masked mask_key p xs ++ da))
  unfolding simd_loop
  simd_loop_block fuel s d p len xs {src} {dest} sb sa db old da m l w n e f q r h =
      let at : sub64 (p + 15) 15 ≡ p = omega arith in
      let next : u64 (p + 15 + 16) ≡ p + 16 + 15 = omega arith in
      let read : load_bytes src (s + p) 16 ≡ done xs =
        rw e (load_bytes-append sb xs sa (s + p) 16 (sym q) (sym n)) in
      let lanes : xor_lanes xs (mask_lanes m1 m2 m3 m4) ≡ masked mask_key p xs =
        xor_lanes-masked m1 m2 m3 m4 xs n ∙ masked_mod mask_key 0 p xs (omega arith) in
      let write : store_bytes dest (d + p) (masked mask_key p xs)
          ≡ done (db ++ (masked mask_key p xs ++ da)) =
        rw f (
          store_bytes-append db old da (masked mask_key p xs) (d + p) (sym r)
            (omega (arith, length-masked mask_key p xs))) in
      rw (simd_loop, lt→ltb (p + 15) len (omega arith), at, read, lanes, write, next)

  split_blocks :
      (before x1 x2 after : List ℕ) {xs all : List ℕ}
      → all ≡ before ++ (xs ++ after)
      → xs ≡ x1 ++ x2
      → all ≡ before ++ (x1 ++ (x2 ++ after))
  split_blocks before x1 x2 after e xe = rw (e, xe) (simp append_assoc)

  simd_loop-IsBlocked_step :
      (fuel s d p len : ℕ) (xs x1 x2 : List ℕ) {src dest : List ℕ} (sb sa db o1 o2 da : List ℕ)
      → p % 4 ≡ 0
      → p + 16 ≤ len
      → len + 16 < 2 ^ 64
      → src ≡ sb ++ (x1 ++ (x2 ++ sa))
      → dest ≡ db ++ (o1 ++ (o2 ++ da))
      → length sb ≡ s + p
      → length db ≡ d + p
      → xs ≡ x1 ++ x2
      → length x1 ≡ 16
      → length o1 ≡ 16
      → IsBlocked
          (simd_loop
            (mask_lanes m1 m2 m3 m4)
            src
            s
            d
            len
            fuel
            (p + 16 + 15)
            (db ++ (masked mask_key p x1 ++ (o2 ++ da))))
          (p + 16)
          x2
          (db ++ masked mask_key p x1)
          da
      → IsBlocked
          (simd_loop (mask_lanes m1 m2 m3 m4) src s d len (suc fuel) (p + 15) dest)
          p
          xs
          db
          da
  simd_loop-IsBlocked_step fuel s d p len xs x1 x2 {src} {dest} sb sa db o1 o2 da m l w e f q r xe
        n1 k1 rest =
      IsBlocked-step p xs x1 x2 db da xe n1
        (simd_loop_block fuel s d p len x1 {src = src} {dest = dest} sb (x2 ++ sa) db o1 (o2 ++ da)
          m l w n1 e f q r k1)
        rest

  pub simd_loop-IsBlocked :
      (fuel s d p len : ℕ) (xs : List ℕ) {src dest : List ℕ} (sb sa db old da : List ℕ)
      → p % 4 ≡ 0
      → p + length xs ≡ len
      → len + 16 < 2 ^ 64
      → length xs < 16 * fuel
      → src ≡ sb ++ (xs ++ sa)
      → dest ≡ db ++ (old ++ da)
      → length sb ≡ s + p
      → length db ≡ d + p
      → length old ≡ length xs
      → IsBlocked (simd_loop (mask_lanes m1 m2 m3 m4) src s d len fuel (p + 15) dest) p xs db da
  simd_loop-IsBlocked zero s d p len xs sb sa db old da m l w fu e f q r h = absurd (omega arith)
  simd_loop-IsBlocked (suc fuel) s d p len xs {src} {dest} sb sa db old da m l w fu e f q r h =
      elim (dec_lt (length xs) 16) [
        | yes few ↦ record {
          blocks = [];
          tail = xs;
          old_tail = old;
          splits = refl;
          same_length = h;
          returns =
              simd_loop_stop fuel s d (p + 15) len src dest (omega arith)
              ∙ (λ i. done (f i, let n : p + 15 ≡ p + 0 + 15 = omega arith in n i));
        }
        | no many ↦
            let (x1, x2, xe, n1, n2) = split_at 16 (length xs - 16) xs (omega arith) in
            let (o1, o2, oe, k1, k2) = split_at 16 (length xs - 16) old (omega arith) in
            simd_loop-IsBlocked_step fuel s d p len xs x1 x2 sb sa db o1 o2 da m (omega arith) w
              (split_blocks sb x1 x2 sa {xs = xs} {all = src} e xe)
              (split_blocks db o1 o2 da {xs = old} {all = dest} f oe) q r xe n1 k1
              (simd_loop-IsBlocked fuel s d (p + 16) len x2 {src = src}
                {dest = db ++ (masked mask_key p x1 ++ (o2 ++ da))} (sb ++ x1) sa
                (db ++ masked mask_key p x1) o2 da (omega arith) (omega arith) w (omega arith)
                (split_blocks sb x1 x2 sa {xs = xs} {all = src} e xe
                  ∙ sym (append_assoc sb x1 (x2 ++ sa)))
                (sym (append_assoc db (masked mask_key p x1) (o2 ++ da)))
                (omega (arith, length-append sb x1))
                (omega
                  (arith, length-append db (masked mask_key p x1), length-masked mask_key p x1))
                (omega arith))
      ]
