-- ===== src/Encode/Key.antt =====
-- src/encode.c: populate_rand fills a buffer of the masking key's size.
use websocket_c.Common.{
  ◌==◌, false, ℕ, zero, suc, ◌+◌, ◌%◌, ◌≤◌, ◌<◌, ◌≡◌, refl, sym, ◌∙◌, some, List, [], ◌∷◌, ◌++◌,
  length, length-append, length-take, length-drop, take, drop, take-append-drop, done, store,
  store_bytes_next, arith,
}
use websocket_c.Encode.{rand_loop, populate_rand}
use websocket_c.Protocol.Header.{zero_frame}
use websocket_c.System.{System}

store_within :
    (buf : List ℕ) (i v : ℕ)
    → i < length buf
    → (out : List ℕ) × (store buf i v ≡ done out) × (length out ≡ length buf)
store_within buf i v h =
    let written = take i buf in
    let left = drop i buf in
    let size : length written ≡ i = omega (arith, length-take i buf) in
    (
      (written ++ v ∷ []) ++ drop 1 left,
      store_bytes_next written left (v ∷ []) i (sym (take-append-drop i buf)) (sym size)
          (omega (arith, length-drop i buf)),
      omega (
        arith,
        size,
        length-append (written ++ v ∷ []) (drop 1 left),
        length-append written (v ∷ []),
        length-drop 1 left,
        length-drop i buf,
      ),
    )

module _ (sys : System) where
  rand_loop-fills :
      (left i : ℕ) (w : sys.World) (buf : List ℕ)
      → i + left ≤ length buf
      → (w' : sys.World) × (out : List ℕ) × (rand_loop sys left i w buf ≡ done (w', out))
        × (length out ≡ length buf)
  unfolding rand_loop
  rand_loop-fills zero i w buf h = (w, buf, refl, refl)
  rand_loop-fills (suc left) i w buf h =
      let (one, stored, same) = store_within buf i ((sys.rand w).1 % 256) (omega arith) in
      let (w', out, ran, size) =
        rand_loop-fills left (i + 1) (sys.rand w).0 one (omega (arith, same)) in
      (w', out, rw stored ran, size ∙ same)

  pub populate_rand-key :
      (w : sys.World)
      → (w' : sys.World) × (key : List ℕ) × (populate_rand sys w (some zero_frame.masking_key) 4
          ≡ done (w', some key))
        × (length key ≡ 4)
  unfolding populate_rand
  populate_rand-key w =
      let (w', key, ran, size) =
        rand_loop-fills 4 0 (sys.srand_time w) zero_frame.masking_key (omega arith) in
      (w', key, rw ran refl, size)

  pub populate_rand-fills :
      (w : sys.World) (buf : List ℕ) (n : ℕ)
      → length buf ≡ n
      → 0 < n
      → (w' : sys.World) × (out : List ℕ) × (populate_rand sys w (some buf) n ≡ done (w', some out))
        × (length out ≡ n)
  unfolding populate_rand
  populate_rand-fills w buf n size some_bytes =
      let (w', out, ran, same) = rand_loop-fills n 0 (sys.srand_time w) buf (omega (arith, size)) in
      (w', out, rw (let t : (n == 0) ≡ false = ground arith in t, ran) refl, same ∙ size)
