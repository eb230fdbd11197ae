-- ===== src/Common/Hex.antt =====
-- Hexadecimal texts: what `fmt` prints under `%016x` and `%x`, what `strconv.ParseUint` and
-- `strconv.ParseInt` read in base 16, and the order of Go strings.
pub mod Order
pub mod Reading
use logical_backup.Common.Tests.{ltb, leb, ◌==◌, if◌then◌else◌, ==_iff, Bool-cases}
use logical_backup.Common.Lists.{length, length-append, All, All-append}
use logical_backup.Common.Bytes.{Bytes}
use Prim.Native.Nat.{ℕ, zero, suc, ◌+◌, ◌-◌, ◌*◌, ◌/◌, ◌%◌, ◌^◌, ◌<◌}
use mathlib.Core.Path.{◌≡◌, refl, sym, ap, ◌∙◌}
use mathlib.Core.Logic.{◌≢◌, inl, inr}
use mathlib.Core.Bool.{Bool, true, false, ◌&&◌, ◌||◌}
use mathlib.Core.Option.{Option, none, some}
use mathlib.Core.List.{[], ◌∷◌, ◌++◌, append-nil, append_assoc}
use mathlib.Core.Option
use logical_backup.Common.Int.{ℤ, pos, negsuc}
use native.Mathlib.Omega.{arith}
use native.Mathlib.Nat.{pow-suc}

-- `<` and `==` on Go strings compare byte by byte.
unfoldable pub bytes_ltb : Bytes → Bytes → Bool
bytes_ltb [] [] = false
bytes_ltb [] (y ∷ ys) = true
bytes_ltb (x ∷ xs) [] = false
bytes_ltb (x ∷ xs) (y ∷ ys) = if ltb x y then true else if ltb y x then false else bytes_ltb xs ys

unfoldable pub bytes_eq : Bytes → Bytes → Bool
bytes_eq [] [] = true
bytes_eq [] (y ∷ ys) = false
bytes_eq (x ∷ xs) [] = false
bytes_eq (x ∷ xs) (y ∷ ys) = x == y && bytes_eq xs ys

abbrev pub hex_digit : ℕ → ℕ
hex_digit d = if ltb d 10 then b'0' + d else b'a' + d - 10

-- The last `k` digits of `v`: `%016x` of a uint64 for `k = 16`.
unfoldable pub hex_fixed : ℕ → ℕ → Bytes
hex_fixed zero v = []
hex_fixed (suc k) v = hex_fixed k (v / 16) ++ hex_digit (v % 16) ∷ []

-- Without the zeros in front, but with one digit at least.
unfoldable pub trim : Bytes → Bytes
trim [] = []
trim (c ∷ []) = c ∷ []
trim (c ∷ d ∷ s) = if c == b'0' then trim (d ∷ s) else c ∷ d ∷ s

-- `%x` of a uint32.
unfoldable pub hex_u32 : ℕ → Bytes
unfolding trim hex_fixed
hex_u32 v = trim (hex_fixed 8 v)

-- The value of a digit in base 16, of either case.
abbrev pub hex_value : ℕ → Option ℕ
hex_value c =
    if leb b'0' c && leb c b'9'
    then some (c - b'0')
    else if leb b'a' c && leb c b'f'
    then some (c - b'a' + 10)
    else if leb b'A' c && leb c b'F'
    then some (c - b'A' + 10)
    else none

-- The loop of `ParseUint`; every error is `none`. `limit` is the first number out of range.
unfoldable pub scan_hex : ℕ → Bytes → ℕ → Option ℕ
scan_hex limit [] n = some n
scan_hex limit (c ∷ s) n = elim (hex_value c) [
  | none ↦ none
  | some d ↦ if ltb (n * 16 + d) limit then scan_hex limit s (n * 16 + d) else none
]

-- `ParseUint(s, 16, 64)` for `limit = 2 ^ 64`.
unfoldable pub parse_uint : ℕ → Bytes → Option ℕ
unfolding scan_hex
parse_uint limit [] = none
parse_uint limit (c ∷ s) = scan_hex limit (c ∷ s) 0

abbrev pub positive : ℕ → ℤ
positive = pos

abbrev pub negative : ℕ → ℤ
negative zero = pos 0
negative (suc n) = negsuc n

-- `ParseInt(s, 16, 32)`
unfoldable pub parse_int32 : Bytes → Option ℤ
parse_int32 [] = none
parse_int32 (c ∷ s) =
    if c == b'-'
    then Option.map negative (parse_uint (2 ^ 31 + 1) s)
    else if c == b'+'
    then Option.map positive (parse_uint (2 ^ 31) s)
    else Option.map positive (parse_uint (2 ^ 31) (c ∷ s))
