-- ===== src/Tests/Masking.antt =====
-- Masking on concrete buffers.
use websocket_c.Common.{
  ℕ, ◌≡◌, refl, true, false, List, [], ◌∷◌, ◌++◌, length, replicate, arith, done, load, load_bytes,
  store_bytes,
}
use websocket_c.Frame.{success}
use websocket_c.Simd.Equivalence.{apply_mask_to_buffer-masked, apply_mask_to_buffer_twice}
use websocket_c.Simd.Spec.{masked}
use websocket_c.Simd.{apply_mask_to_buffer}
use websocket_c.Tests.Fixtures.{key, hello}

abbrev long : List ℕ
long = hello ++ hello ++ hello ++ hello

-- The example of RFC 6455 section 5.7.
hello_masked :
    apply_mask_to_buffer key hello 0 0 true (replicate 5 0) 5
    ≡ done (127 ∷ 159 ∷ 77 ∷ 81 ∷ 88 ∷ [], success)
unfolding apply_mask_to_buffer load load_bytes store_bytes
hello_masked = refl

-- 20 bytes take one round of the vector loop and four bytes of the serial one.
long_masked :
    apply_mask_to_buffer key long 0 0 true (replicate 20 0) 20
    ≡ apply_mask_to_buffer key long 0 0 false (replicate 20 0) 20
unfolding apply_mask_to_buffer load load_bytes store_bytes
long_masked = refl

apply_mask_to_buffer-masked_example :
    apply_mask_to_buffer key (7 ∷ (long ++ 9 ∷ [])) 1 2 true (5 ∷ 5 ∷ (replicate 20 0 ++ 5 ∷ [])) 20
    ≡ done (5 ∷ 5 ∷ (masked key 0 long ++ 5 ∷ []), success)
apply_mask_to_buffer-masked_example =
    apply_mask_to_buffer-masked true key 1 2 long (7 ∷ []) (9 ∷ []) (5 ∷ 5 ∷ []) (replicate 20 0)
      (5 ∷ []) refl (omega arith) refl refl refl

apply_mask_to_buffer_twice_example :
    (ys : List ℕ) × (apply_mask_to_buffer key long 0 0 true (replicate 20 0) 20
      ≡ done (ys, success))
    × (apply_mask_to_buffer key ys 0 0 false (replicate 20 1) (length ys) ≡ done (long, success))
apply_mask_to_buffer_twice_example =
    apply_mask_to_buffer_twice true false key long (replicate 20 0) (replicate 20 1) refl
      (omega arith) refl refl
