-- ===== src/Cstd.antt =====
-- The interface of the cstd library, which the repository builds against and does not contain:
-- byte arrays (unicode_str.h). Its operations are parameters of the model, with the documented
-- behaviour that the program relies on as laws.
pub mod Text
use websocket_c.Common.{ℕ, ◌^◌, ◌≤◌, ◌<◌, ◌≡◌, List, [], ◌∷◌, ◌++◌, Option, some, length, take}

-- `byte_array`: a block of `cap` bytes, of which `len` are in use. The empty block stands for a
-- null pointer.
pub record ByteArray : Type 0 where
  pub byte_data : List ℕ
  pub len : ℕ
  pub cap : ℕ

abbrev pub null_array : ByteArray
null_array = record { byte_data = []; len = 0; cap = 0 }

-- The bytes in use.
abbrev pub contents : ByteArray → List ℕ
contents a = take a.len a.byte_data

pub record ByteArrays : Type 0 where
  -- byte_array_init(&a, cap); `none` is its failure
  pub init : ℕ → Option ByteArray
  -- byte_array_insert(&a, byte); `none` is its failure
  pub insert : ByteArray → ℕ → Option ByteArray
  -- byte_array_free(&a)
  pub free : ByteArray → ByteArray

-- What the program relies on. An allocation of more than PTRDIFF_MAX bytes fails.
pub record IsByteArrays (ops : ByteArrays) : Type 0 where
  pub init_storage : (n : ℕ) (a : ByteArray) → ops.init n ≡ some a → length a.byte_data ≡ n
  pub init_len : (n : ℕ) (a : ByteArray) → ops.init n ≡ some a → a.len ≡ 0
  pub init_cap : (n : ℕ) (a : ByteArray) → ops.init n ≡ some a → a.cap ≡ n
  pub init_limit : (n : ℕ) (a : ByteArray) → ops.init n ≡ some a → n < 2 ^ 63
  pub insert_contents :
      (a b : ByteArray) (x : ℕ)
      → ops.insert a x ≡ some b
      → a.len ≤ length a.byte_data
      → contents b ≡ contents a ++ x ∷ []
  pub insert_fits :
      (a b : ByteArray) (x : ℕ)
      → ops.insert a x ≡ some b
      → a.len ≤ length a.byte_data
      → b.len ≤ length b.byte_data
