-- ===== src/Encode/Bytes.antt =====
-- src/encode.c: what populate_rand writes are bytes.
use websocket_c.Common.{
  ℕ, zero, suc, ◌+◌, ◌%◌, ◌≤◌, ◌<◌, ◌≡◌, refl, ap, ◌∙◌, some, false, List, [], ◌∷◌, ◌++◌, length,
  length-append, length-drop, drop, ◌==◌, done, store_bytes_next, arith,
}
use websocket_c.Encode.{rand_loop, populate_rand}
use websocket_c.System.{System}

pub data AllBytes : List ℕ → Type 0 where
  no_bytes : AllBytes []
  more_bytes : {b : ℕ} {bytes : List ℕ} → b < 256 → AllBytes bytes → AllBytes (b ∷ bytes)

AllBytes-append : (s t : List ℕ) → AllBytes s → AllBytes t → AllBytes (s ++ t)
AllBytes-append [] t no_bytes ht = ht
AllBytes-append (b ∷ s) t (more_bytes h hs) ht = more_bytes h (AllBytes-append s t hs ht)

drop-drop : (n : ℕ) (xs : List ℕ) → suc n ≤ length xs → drop n (drop 1 xs) ≡ drop (suc n) xs
drop-drop n [] h = absurd (omega arith)
drop-drop n (x ∷ xs) h = refl

module _ (sys : System) where
  rand_loop-bytes :
      (left i : ℕ) (w : sys.World) (written rest : List ℕ) {buf : List ℕ}
      → buf ≡ written ++ rest
      → i ≡ length written
      → left ≤ length rest
      → AllBytes written
      → (w' : sys.World) × (bytes : List ℕ) × (rand_loop sys left i w buf
          ≡ done (w', bytes ++ drop left rest))
        × (length bytes ≡ i + left)
        × AllBytes bytes
  unfolding rand_loop
  rand_loop-bytes zero i w written rest e p h all =
      (w, written, ap (λ (t : List ℕ). done (w, t)) e, omega (arith, p), all)
  rand_loop-bytes (suc left) i w written rest {buf} e p h all =
      let n = (sys.rand w).1 % 256 in
      let small : n < 256 = omega arith in
      let longer = written ++ n ∷ [] in
      let (w', bytes, ran, size, all') =
        rand_loop-bytes left (i + 1) (sys.rand w).0 longer (drop 1 rest)
          {buf = longer ++ drop 1 rest} refl (omega (arith, p, length-append written (n ∷ [])))
          (omega (arith, length-drop 1 rest))
          (AllBytes-append written (n ∷ []) all (more_bytes small no_bytes)) in
      (
        w',
        bytes,
        rw (rand_loop, store_bytes_next written rest (n ∷ []) i e p (omega arith))
            (ran ∙ ap (λ (t : List ℕ). done (w', bytes ++ t)) (drop-drop left rest h)),
        omega (arith, size),
        all',
      )

  -- For a block of at least the length given, which is not zero: `populate_rand` succeeds, stays
  -- within the block, fills that many places at its start with numbers below 256 and leaves what
  -- stands behind them.
  pub populate_rand-bytes :
      (w : sys.World) (buf : List ℕ) (len : ℕ)
      → len ≤ length buf
      → 0 < len
      → (w' : sys.World) × (bytes : List ℕ) × (populate_rand sys w (some buf) len
          ≡ done (w', some (bytes ++ drop len buf)))
        × (length bytes ≡ len)
        × AllBytes bytes
  unfolding populate_rand
  populate_rand-bytes w buf len fits some_len =
      let (w', bytes, ran, size, all) =
        rand_loop-bytes len 0 (sys.srand_time w) [] buf refl refl fits no_bytes in
      (
        w',
        bytes,
        rw (let t : (len == 0) ≡ false = ground arith in t, ran) refl,
        omega (arith, size),
        all,
      )
