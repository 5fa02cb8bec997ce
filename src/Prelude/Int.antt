-- ===== src/Prelude/Int.antt =====
-- Signed integers over the native numbers, and the machine integers of the program read as such.
use Prim.Native.Nat.{ℕ, ◌-◌, ◌%◌, ◌^◌, ◌<◌}
use native.Mathlib.Omega.{arith}
use ssl_ros_bridge.Prelude.Tests.{ltb, if◌then◌else◌}

-- `negsuc n` is -(n + 1).
pub data ℤ : Type 0 where
  pos : ℕ → ℤ
  negsuc : ℕ → ℤ

-- The integer that a two's complement bit pattern of 32 or of 64 bits stands for.
abbrev pub signed32 : ℕ → ℤ
signed32 w = if ltb w (2 ^ 31) then pos w else negsuc (2 ^ 32 - w - 1)

abbrev pub signed64 : ℕ → ℤ
signed64 w = if ltb w (2 ^ 63) then pos w else negsuc (2 ^ 64 - w - 1)

-- The conversion of an integer to `uint16_t`.
abbrev pub to_u16 : ℤ → ℕ
to_u16 (pos n) = n % 2 ^ 16
to_u16 (negsuc n) = 2 ^ 16 - 1 - n % 2 ^ 16

pub to_u16-lt : (i : ℤ) → to_u16 i < 2 ^ 16
to_u16-lt (pos n) = omega arith
to_u16-lt (negsuc n) = omega arith
