-- ===== src/Simd/Spec.antt =====
-- Masking as RFC 6455 section 5.3 defines it: octet i of the data is xored with octet i mod 4 of
-- the key.
use websocket_c.Common.{
  ℕ, suc, ◌+◌, ◌%◌, ◌≡◌, refl, ap, ap₂, ◌∙◌, List, [], ◌∷◌, ◌++◌, bit_xor, length, get_or, arith,
}
use websocket_c.Common.Bits.{bit_xor_twice}

-- The data from index `i` on.
abbrev pub masked : List ℕ → ℕ → List ℕ → List ℕ
masked key i [] = []
masked key i (x ∷ xs) = bit_xor x (get_or key (i % 4) 0) ∷ masked key (i + 1) xs

module _ (key : List ℕ) where
  pub length-masked : (i : ℕ) (xs : List ℕ) → length (masked key i xs) ≡ length xs
  length-masked i [] = refl
  length-masked i (x ∷ xs) = ap suc (length-masked (i + 1) xs)

  -- Only the index modulo 4 matters.
  pub masked_mod : (i j : ℕ) (xs : List ℕ) → i % 4 ≡ j % 4 → masked key i xs ≡ masked key j xs
  masked_mod i j [] h = refl
  masked_mod i j (x ∷ xs) h =
      ap₂ ◌∷◌ (ap (λ (t : ℕ). bit_xor x (get_or key t 0)) h)
        (masked_mod (i + 1) (j + 1) xs (omega arith))

  pub masked-append :
      (i : ℕ) (xs ys : List ℕ)
      → masked key i (xs ++ ys) ≡ masked key i xs ++ masked key (i + length xs) ys
  masked-append i [] ys = ap (λ (t : ℕ). masked key t ys) (omega arith)
  masked-append i (x ∷ xs) ys = ap (◌∷◌ (bit_xor x (get_or key (i % 4) 0))) (
      masked-append (i + 1) xs ys
      ∙ ap (λ (t : ℕ). masked key (i + 1) xs ++ masked key t ys) (omega arith))

  -- Masking twice with one key gives the data back.
  pub masked_twice : (i : ℕ) (xs : List ℕ) → masked key i (masked key i xs) ≡ xs
  masked_twice i [] = refl
  masked_twice i (x ∷ xs) =
      ap₂ ◌∷◌ (bit_xor_twice x (get_or key (i % 4) 0)) (masked_twice (i + 1) xs)

  pub masked_split :
      (xs ys : List ℕ) → masked key 0 (xs ++ ys) ≡ masked key 0 xs ++ masked key (length xs) ys
  masked_split xs ys =
      masked-append 0 xs ys ∙ ap (λ (t : ℕ). masked key 0 xs ++ masked key t ys) (omega arith)
