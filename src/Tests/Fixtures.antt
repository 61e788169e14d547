-- ===== src/Tests/Fixtures.antt =====
-- Concrete byte arrays that satisfy the laws, and a few frames.
use websocket_c.Common.{
  ℕ, ◌^◌, ◌≤◌, ◌<◌, ◌≡◌, sym, ap, ◌∙◌, List, [], ◌∷◌, ◌++◌, Option, none, some, ltb, if◌then◌else◌,
  length, replicate, length-replicate, take_all, arith,
}
use mathlib.Core.Option.{some-injective}
use mathlib.Core.Path.{subst}
use native.Mathlib.Nat.{le_refl}
use websocket_c.Cstd.{ByteArray, ByteArrays, IsByteArrays, contents, null_array}
use websocket_c.Frame.{Frame}

abbrev pub zeros : ℕ → ByteArray
zeros n = record { byte_data = replicate n 0; len = 0; cap = n }

abbrev pub plain_init : ℕ → Option ByteArray
plain_init n = if ltb n (2 ^ 63) then some (zeros n) else none

abbrev pub appended : ByteArray → ℕ → ByteArray
appended a x = record {
  byte_data = contents a ++ x ∷ [];
  len = length (contents a ++ x ∷ []);
  cap = length (contents a ++ x ∷ []);
}

abbrev pub plain_arrays : ByteArrays
plain_arrays = record {
  init = plain_init;
  insert = λ a x. some (appended a x);
  free = λ a. null_array;
}

init-zeros : (n : ℕ) (a : ByteArray) → plain_init n ≡ some a → (a ≡ zeros n) × (n < 2 ^ 63)
init-zeros n a h = ground arith

pub plain-IsByteArrays : IsByteArrays plain_arrays
plain-IsByteArrays = record {
  init_storage = λ n a h.
      ap (λ (t : ByteArray). length t.byte_data) (init-zeros n a h).0 ∙ length-replicate n 0;
  init_len = λ n a h. ap (λ (t : ByteArray). t.len) (init-zeros n a h).0;
  init_cap = λ n a h. ap (λ (t : ByteArray). t.cap) (init-zeros n a h).0;
  init_limit = λ n a h. (init-zeros n a h).1;
  insert_contents = λ a b x h fits.
      ap contents (sym (some-injective (appended a x) b h)) ∙ take_all (contents a ++ x ∷ []);
  insert_fits = λ a b x h fits.
      subst (λ t. t.len ≤ length t.byte_data) (some-injective (appended a x) b h) (le_refl _);
}

abbrev pub key : List ℕ
key = 55 ∷ 250 ∷ 33 ∷ 61 ∷ []

abbrev pub hello : List ℕ
hello = 72 ∷ 101 ∷ 108 ∷ 108 ∷ 111 ∷ []

-- A masked text frame, as a client sends it.
abbrev pub hello_frame : Frame
hello_frame = record {
  codes = 129;
  info = 128;
  payload_len = 0;
  masking_key = key;
  payload = record { byte_data = hello; len = 5; cap = 5 };
}
