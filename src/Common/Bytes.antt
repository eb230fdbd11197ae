-- ===== src/Common/Bytes.antt =====
-- Byte strings, and unsigned integers in big-endian order.
use Prim.Native.Nat.{ℕ, zero, suc, ◌+◌, ◌*◌, ◌/◌, ◌%◌, ◌^◌, ◌<◌}
use mathlib.Core.Path.{◌≡◌, refl}
use mathlib.Core.List.{List, [], ◌∷◌, foldl}
use native.Mathlib.Omega.{arith}
use logical_backup.Common.Lists.{length, All}

-- A Go `[]byte` or `string`: numbers below 256.
abbrev pub Bytes : Type 0
Bytes = List ℕ

abbrev pub IsByte : ℕ → Type 0
IsByte b = b < 256

-- `binary.BigEndian.UintN` on as many bytes as the word has: the first byte counts most.
unfoldable pub big_endian : Bytes → ℕ
big_endian = foldl (λ acc b. acc * 256 + b) 0

-- `binary.BigEndian.PutUintN` for a word of `k` bytes.
unfoldable pub put_uint : ℕ → ℕ → Bytes
put_uint zero v = []
put_uint (suc k) v = (v / 256 ^ k % 256) ∷ put_uint k v

pub length-put_uint : (k v : ℕ) → length (put_uint k v) ≡ k
unfolding put_uint
length-put_uint zero v = refl
length-put_uint (suc k) v = omega (arith, length-put_uint k v)

pub put_uint-IsByte : (k v : ℕ) → All IsByte (put_uint k v)
unfolding put_uint
put_uint-IsByte zero v = tt
put_uint-IsByte (suc k) v = (omega arith, put_uint-IsByte k v)

pub big_endian-put_1 : (v : ℕ) → v < 2 ^ 8 → big_endian (put_uint 1 v) ≡ v
unfolding big_endian put_uint
big_endian-put_1 v h = omega arith

pub big_endian-put_2 : (v : ℕ) → v < 2 ^ 16 → big_endian (put_uint 2 v) ≡ v
unfolding big_endian put_uint
big_endian-put_2 v h = omega arith

pub big_endian-put_4 : (v : ℕ) → v < 2 ^ 32 → big_endian (put_uint 4 v) ≡ v
unfolding big_endian put_uint
big_endian-put_4 v h = omega arith

pub big_endian-put_8 : (v : ℕ) → v < 2 ^ 64 → big_endian (put_uint 8 v) ≡ v
unfolding big_endian put_uint
big_endian-put_8 v h = omega arith
