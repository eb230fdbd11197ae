-- ===== src/Common/Int.antt =====
-- Signed integers, and the two's complement of a machine word of `w` bits.
use Prim.Native.Nat.{suc, ℕ, ◌+◌, ◌-◌, ◌*◌, ◌^◌, ◌<◌}
use mathlib.Core.Path.{◌≡◌}
use mathlib.Core.Bool.{Bool}
use native.Mathlib.Omega.{arith}
use logical_backup.Common.Tests.{ltb, if◌then◌else◌}

-- `negsuc n` is -(n + 1).
pub data ℤ : Type 0 where
  pos : ℕ → ℤ
  negsuc : ℕ → ℤ

abbrev pub pos_part : ℤ → ℕ
pos_part (pos n) = n
pos_part (negsuc n) = 0

abbrev pub neg_part : ℤ → ℕ
neg_part (pos n) = 0
neg_part (negsuc n) = suc n

abbrev pub ltb_ℤ : ℤ → ℤ → Bool
ltb_ℤ a b = ltb (pos_part a + neg_part b) (pos_part b + neg_part a)

-- The integer that a word of `w` bits stands for: Go's `int32(x)` for `w = 32`.
abbrev pub signed : ℕ → ℕ → ℤ
signed w x = if ltb x (2 ^ (w - 1)) then pos x else negsuc (2 ^ w - 1 - x)

-- The word that stands for an integer: Go's `uint32(x)` for `w = 32`.
abbrev pub unsigned : ℕ → ℤ → ℕ
unsigned w (pos n) = n
unsigned w (negsuc n) = 2 ^ w - 1 - n

-- The integer fits a signed word of `w` bits.
abbrev pub Fits : ℕ → ℤ → Type 0
Fits w (pos n) = n < 2 ^ (w - 1)
Fits w (negsuc n) = n < 2 ^ (w - 1)

-- `x` times a positive constant, with no bound.
abbrev pub times : ℤ → ℕ → ℤ
times (pos n) k = pos (n * k)
times (negsuc n) k = negsuc ((n + 1) * k - 1)

pub signed-unsigned_32 : (x : ℤ) → Fits 32 x → signed 32 (unsigned 32 x) ≡ x
signed-unsigned_32 (pos n) h = ground arith
signed-unsigned_32 (negsuc n) h = ground arith

pub unsigned-lt_32 : (x : ℤ) → Fits 32 x → unsigned 32 x < 2 ^ 32
unsigned-lt_32 (pos n) h = omega arith
unsigned-lt_32 (negsuc n) h = omega arith

pub unsigned-lt_64 : (x : ℤ) → Fits 64 x → unsigned 64 x < 2 ^ 64
unsigned-lt_64 (pos n) h = omega arith
unsigned-lt_64 (negsuc n) h = omega arith
