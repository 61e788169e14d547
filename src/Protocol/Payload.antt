-- ===== src/Protocol/Payload.antt =====
-- What `ws_frame_handle_payload` leaves in the destination.
use websocket_c.Common.{
  ℕ, ◌+◌, ◌^◌, ◌<◌, ◌≡◌, refl, sym, ap, ◌∙◌, Bool, true, false, List, [], ◌∷◌, ◌++◌, append_assoc,
  append-nil, ◌==◌, Bool-cases, inl, inr, length, length-append, arith, done, load, store_bytes,
  load-append, store_bytes-append,
}
use websocket_c.Frame.{success}
use websocket_c.Protocol.Body.{copy_loop, ws_frame_handle_payload}
use websocket_c.Protocol.Wire.{payload_bytes}
use websocket_c.Simd.Equivalence.{apply_mask_to_buffer-masked}

copy_loop-copies :
    (s d : ℕ) (xs : List ℕ) (i : ℕ) {src dest : List ℕ} (sb sa db old da : List ℕ)
    → src ≡ sb ++ (xs ++ sa)
    → dest ≡ db ++ (old ++ da)
    → length sb ≡ s + i
    → length db ≡ d + i
    → length old ≡ length xs
    → copy_loop src s d (length xs) i dest ≡ done (db ++ (xs ++ da))
unfolding copy_loop
copy_loop-copies s d [] i sb sa db [] da e f q r h = ap done f
copy_loop-copies s d [] i sb sa db (o ∷ old) da e f q r h = absurd (omega arith)
copy_loop-copies s d (x ∷ xs) i sb sa db [] da e f q r h = absurd (omega arith)
copy_loop-copies s d (x ∷ xs) i {src} {dest} sb sa db (o ∷ old) da e f q r h =
    let read : load src (s + i) ≡ done x = rw e (load-append sb x (xs ++ sa) (s + i) (sym q)) in
    let write : store_bytes dest (d + i) (x ∷ []) ≡ done (db ++ (x ∷ (old ++ da))) =
      rw f (store_bytes-append db (o ∷ []) (old ++ da) (x ∷ []) (d + i) (sym r) refl) in
    rw (read, write)
      (copy_loop-copies s d xs (i + 1) (sb ++ x ∷ []) sa (db ++ x ∷ []) old da
          (e ∙ sym (append_assoc sb (x ∷ []) (xs ++ sa)))
          (sym (append_assoc db (x ∷ []) (old ++ da))) (omega (arith, length-append sb (x ∷ [])))
          (omega (arith, length-append db (x ∷ []))) (omega arith)
        ∙ ap done (append_assoc db (x ∷ []) (xs ++ da)))

no_bytes : (xs old : List ℕ) → length xs ≡ 0 → length old ≡ length xs → (xs ≡ []) × (old ≡ [])
no_bytes [] [] z h = (refl, refl)
no_bytes [] (o ∷ old) z h = absurd (omega arith)
no_bytes (x ∷ xs) old z h = absurd (omega arith)

payload_bytes-nil : (mask : Bool) (key : List ℕ) → payload_bytes mask key [] ≡ []
payload_bytes-nil true key = refl
payload_bytes-nil false key = refl

module _ (use_simd : Bool) (key : List ℕ) (s d : ℕ) (xs sb sa db old : List ℕ) {src dest : List ℕ}
    (k : length key ≡ 4) (w : length xs + 16 < 2 ^ 64) (e : src ≡ sb ++ (xs ++ sa))
    (f : dest ≡ db ++ old) (q : length sb ≡ s) (r : length db ≡ d)
    (h : length old ≡ length xs) where
  handle_some :
      (mask : Bool)
      → (length xs == 0) ≡ false
      → ws_frame_handle_payload use_simd mask key dest d src s (length xs)
        ≡ done (db ++ payload_bytes mask key xs, success)
  unfolding ws_frame_handle_payload
  handle_some true z = rw z (
      rw (f, e, ← append-nil old)
        (apply_mask_to_buffer-masked use_simd key s d xs sb sa db old [] k w q r h
          ∙ ap (λ (t : List ℕ). done (db ++ t, success)) (append-nil _)))
  handle_some false z =
      rw
        (
          z,
          copy_loop-copies s d xs 0 sb sa db old [] e (f ∙ ap (◌++◌ db) (sym (append-nil old)))
              (omega arith) (omega arith) h,
        )
        (ap (λ (t : List ℕ). done (db ++ t, success)) (append-nil xs))

  handle_none :
      (mask : Bool)
      → (length xs == 0) ≡ true
      → ws_frame_handle_payload use_simd mask key dest d src s (length xs)
        ≡ done (db ++ payload_bytes mask key xs, success)
  unfolding ws_frame_handle_payload
  handle_none mask z =
      let (xn, on) = no_bytes xs old (ground arith) h in
      let same : dest ≡ db ++ payload_bytes mask key xs =
        f ∙ ap (◌++◌ db) (on ∙ sym (ap (payload_bytes mask key) xn ∙ payload_bytes-nil mask key)) in
      rw z (λ i. done (same i, success))

-- The payload, masked if the flag is set, ends up at the end of the destination.
pub ws_frame_handle_payload-payload_bytes :
    (use_simd mask : Bool) (key : List ℕ) (s d : ℕ) (xs sb sa db old : List ℕ) {src dest : List ℕ}
    → length key ≡ 4
    → length xs + 16 < 2 ^ 64
    → src ≡ sb ++ (xs ++ sa)
    → dest ≡ db ++ old
    → length sb ≡ s
    → length db ≡ d
    → length old ≡ length xs
    → ws_frame_handle_payload use_simd mask key dest d src s (length xs)
      ≡ done (db ++ payload_bytes mask key xs, success)
ws_frame_handle_payload-payload_bytes use_simd mask key s d xs sb sa db old k w e f q r h =
    elim (Bool-cases (length xs == 0)) [
      | inl z ↦ handle_none use_simd key s d xs sb sa db old k w e f q r h mask z
      | inr z ↦ handle_some use_simd key s d xs sb sa db old k w e f q r h mask z
    ]
