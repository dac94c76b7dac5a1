-- ===== src/Base/Int.antt =====
-- Signed integers as far as the code reads them from bytes and moves by them.
use Prim.Native.Nat.{ℕ, suc, ◌+◌, ◌-◌, ◌%◌}
use dynamic_labyrinth.Base.Tests.{ltb, if◌then◌else◌}

-- `negsuc n` is -(n + 1).
pub data ℤ : Type 0 where
  pos : ℕ → ℤ
  negsuc : ℕ → ℤ

-- int16(v) and int32(v) of an unsigned value.
abbrev pub int16 : ℕ → ℤ
int16 v = if ltb v 32768 then pos v else negsuc (65535 - v)

abbrev pub int32 : ℕ → ℤ
int32 v = if ltb v 2147483648 then pos v else negsuc (4294967295 - v)

-- uint16(v) and uint32(v) of a signed value of that width.
abbrev pub uint16 : ℤ → ℕ
uint16 (pos n) = n % 65536
uint16 (negsuc n) = 65535 - n % 65536

abbrev pub uint32 : ℤ → ℕ
uint32 (pos n) = n % 4294967296
uint32 (negsuc n) = 4294967295 - n % 4294967296

-- An offset moved by a signed amount.
abbrev pub move : ℕ → ℤ → ℤ
move offset (pos n) = pos (offset + n)
move offset (negsuc n) = if ltb n offset then pos (offset - suc n) else negsuc (n - offset)
