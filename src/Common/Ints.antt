-- ===== src/Common/Ints.antt =====
-- The int of 32 bits that a size_t becomes where a function takes an int.
use Prim.Native.Nat.{ℕ, ◌+◌, ◌-◌, ◌%◌, ◌^◌, ◌<◌}
use mathlib.Core.Path.{◌≡◌, refl}
use native.Mathlib.Omega.{arith}
use websocket_c.Common.Tests.{ltb, if◌then◌else◌}

-- `pos n` is n and `negsuc n` is -1 - n.
pub data ℤ : Type 0 where
  pos : ℕ → ℤ
  negsuc : ℕ → ℤ

unfoldable pub to_int : ℕ → ℤ
to_int n =
    let bits = n % 2 ^ 32 in if ltb bits (2 ^ 31) then pos bits else negsuc (2 ^ 32 - 1 - bits)

pub to_int-pos : (n : ℕ) → n < 2 ^ 31 → to_int n ≡ pos n
unfolding to_int
to_int-pos n small = ground arith

narrowed_size : to_int (2 ^ 32 + 5) ≡ pos 5
unfolding to_int
narrowed_size = refl

narrowed_negative : to_int (2 ^ 31) ≡ negsuc (2 ^ 31 - 1)
unfolding to_int
narrowed_negative = refl
