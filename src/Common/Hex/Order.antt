-- ===== src/Common/Hex/Order.antt =====
-- The order of hexadecimal texts of one width, as Go strings.
use logical_backup.Common.Tests.{ltb, ◌==◌}
use logical_backup.Common.Lists.{length, length-append}
use logical_backup.Common.Bytes.{Bytes}
use Prim.Native.Nat.{ℕ, zero, suc, ◌/◌, ◌%◌, ◌^◌, ◌<◌}
use mathlib.Core.Path.{◌≡◌, refl}
use mathlib.Core.Bool.{◌&&◌, ◌||◌}
use mathlib.Core.List.{[], ◌∷◌, ◌++◌}
use native.Mathlib.Omega.{arith}
use native.Mathlib.Nat.{pow-suc}
use logical_backup.Common.Hex.{bytes_ltb, bytes_eq, hex_digit, hex_fixed}

bytes_ltb-snoc :
    (xs ys : Bytes) (d e : ℕ)
    → length xs ≡ length ys
    → bytes_ltb (xs ++ d ∷ []) (ys ++ e ∷ []) ≡ (bytes_ltb xs ys || (bytes_eq xs ys && ltb d e))
unfolding bytes_ltb bytes_eq
bytes_ltb-snoc [] [] d e h = ground arith
bytes_ltb-snoc [] (y ∷ ys) d e h = absurd (omega arith)
bytes_ltb-snoc (x ∷ xs) [] d e h = absurd (omega arith)
bytes_ltb-snoc (x ∷ xs) (y ∷ ys) d e h = ground (arith, bytes_ltb-snoc xs ys d e)

bytes_eq-snoc :
    (xs ys : Bytes) (d e : ℕ)
    → length xs ≡ length ys
    → bytes_eq (xs ++ d ∷ []) (ys ++ e ∷ []) ≡ (bytes_eq xs ys && d == e)
unfolding bytes_eq
bytes_eq-snoc [] [] d e h = ground arith
bytes_eq-snoc [] (y ∷ ys) d e h = absurd (omega arith)
bytes_eq-snoc (x ∷ xs) [] d e h = absurd (omega arith)
bytes_eq-snoc (x ∷ xs) (y ∷ ys) d e h = ground (arith, bytes_eq-snoc xs ys d e)

pub length-hex_fixed : (k v : ℕ) → length (hex_fixed k v) ≡ k
unfolding hex_fixed
length-hex_fixed zero v = refl
length-hex_fixed (suc k) v = omega (
  arith,
  length-append (hex_fixed k (v / 16)) (hex_digit (v % 16) ∷ []),
  length-hex_fixed k (v / 16),
)

pub tenth : (k v : ℕ) → v < 16 ^ suc k → v / 16 < 16 ^ k
tenth k v h = omega (arith, pow-suc 16 k)

-- Texts of one width are ordered as their numbers.
pub bytes_eq-hex :
    (k v w : ℕ) → v < 16 ^ k → w < 16 ^ k → bytes_eq (hex_fixed k v) (hex_fixed k w) ≡ (v == w)
unfolding hex_fixed bytes_eq
bytes_eq-hex zero v w h g = ground arith
bytes_eq-hex (suc k) v w h g = ground (
  arith,
  bytes_eq-snoc (hex_fixed k (v / 16)) (hex_fixed k (w / 16)) (hex_digit (v % 16))
      (hex_digit (w % 16)),
  length-hex_fixed k (v / 16),
  length-hex_fixed k (w / 16),
  bytes_eq-hex k (v / 16) (w / 16) (tenth k v h) (tenth k w g),
)

pub bytes_ltb-hex :
    (k v w : ℕ) → v < 16 ^ k → w < 16 ^ k → bytes_ltb (hex_fixed k v) (hex_fixed k w) ≡ ltb v w
unfolding hex_fixed bytes_ltb
bytes_ltb-hex zero v w h g = ground arith
bytes_ltb-hex (suc k) v w h g = ground (
  arith,
  bytes_ltb-snoc (hex_fixed k (v / 16)) (hex_fixed k (w / 16)) (hex_digit (v % 16))
      (hex_digit (w % 16)),
  length-hex_fixed k (v / 16),
  length-hex_fixed k (w / 16),
  bytes_eq-hex k (v / 16) (w / 16) (tenth k v h) (tenth k w g),
  bytes_ltb-hex k (v / 16) (w / 16) (tenth k v h) (tenth k w g),
)
