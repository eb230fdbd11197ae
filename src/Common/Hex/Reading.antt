-- ===== src/Common/Hex/Reading.antt =====
-- Reading the hexadecimal texts that are printed, and the characters in them.
use logical_backup.Common.Tests.{◌==◌, ==_iff, Bool-cases}
use logical_backup.Common.Lists.{length, All, All-append}
use logical_backup.Common.Bytes.{Bytes}
use Prim.Native.Nat.{ℕ, zero, suc, ◌+◌, ◌*◌, ◌/◌, ◌%◌, ◌^◌, ◌<◌}
use mathlib.Core.Path.{◌≡◌, refl, sym, ap, ◌∙◌}
use mathlib.Core.Logic.{◌≢◌, inl, inr}
use mathlib.Core.Option.{some}
use mathlib.Core.List.{[], ◌∷◌, ◌++◌, append-nil, append_assoc}
use logical_backup.Common.Int.{pos}
use native.Mathlib.Omega.{arith}
use logical_backup.Common.Hex.{
  hex_digit, hex_fixed, trim, hex_u32, hex_value, scan_hex, parse_uint, parse_int32,
}
use logical_backup.Common.Hex.Order.{length-hex_fixed, tenth}

hex_value-digit : (d : ℕ) → d < 16 → hex_value (hex_digit d) ≡ some d
hex_value-digit d h = ground arith

scan_hex-digit :
    (limit n d : ℕ) (rest : Bytes)
    → d < 16
    → n * 16 + d < limit
    → scan_hex limit (hex_digit d ∷ rest) n ≡ scan_hex limit rest (n * 16 + d)
unfolding scan_hex
scan_hex-digit limit n d rest h g = ground (arith, hex_value-digit d h)

-- Reading the printed digits of `v`.
scan_hex-fixed :
    (limit k v : ℕ) (rest : Bytes)
    → v < 16 ^ k
    → v < limit
    → scan_hex limit (hex_fixed k v ++ rest) 0 ≡ scan_hex limit rest v
unfolding hex_fixed
scan_hex-fixed limit zero v rest h g = ap (scan_hex limit rest) (omega arith)
scan_hex-fixed limit (suc k) v rest h g =
    rw (append_assoc (hex_fixed k (v / 16)) (hex_digit (v % 16) ∷ []) rest) (
      scan_hex-fixed limit k (v / 16) _ (tenth k v h) (omega arith)
      ∙ scan_hex-digit limit (v / 16) (v % 16) rest (omega arith) (omega arith)
      ∙ ap (scan_hex limit rest) (omega arith))

scan_hex-trim : (limit : ℕ) (s : Bytes) → 0 < limit → scan_hex limit (trim s) 0 ≡ scan_hex limit s 0
unfolding trim
scan_hex-trim limit [] h = refl
scan_hex-trim limit (c ∷ []) h = refl
scan_hex-trim limit (c ∷ d ∷ s) h = elim (Bool-cases (c == b'0')) [
  | inl e ↦ rw e (
      scan_hex-trim limit (d ∷ s) h
      ∙ sym (rw ((==_iff c b'0').0 e) (scan_hex-digit limit 0 0 (d ∷ s) (omega arith) h)))
  | inr e ↦ rw e refl
]

trim-ne-nil : (s : Bytes) → s ≢ [] → trim s ≢ []
unfolding trim
trim-ne-nil [] h e = h refl
trim-ne-nil (c ∷ []) h e = cc
trim-ne-nil (c ∷ d ∷ s) h e = ground (arith, trim-ne-nil (d ∷ s))

parse_uint-scan : (limit : ℕ) (s : Bytes) → s ≢ [] → parse_uint limit s ≡ scan_hex limit s 0
unfolding parse_uint
parse_uint-scan limit [] h = absurd (h refl)
parse_uint-scan limit (c ∷ s) h = refl

hex_fixed-ne-nil : (k v : ℕ) → hex_fixed (suc k) v ≢ []
hex_fixed-ne-nil k v e = omega (arith, length-hex_fixed (suc k) v, ap length e)

scan_hex-all : (limit k v : ℕ) → v < 16 ^ k → v < limit → scan_hex limit (hex_fixed k v) 0 ≡ some v
unfolding scan_hex
scan_hex-all limit k v h g = rw (← append-nil (hex_fixed k v)) (scan_hex-fixed limit k v [] h g)

-- What `%016x` and `%x` print is read back.
pub parse_uint-hex_fixed :
    (limit k v : ℕ) → v < 16 ^ suc k → v < limit → parse_uint limit (hex_fixed (suc k) v) ≡ some v
parse_uint-hex_fixed limit k v h g =
    parse_uint-scan limit _ (hex_fixed-ne-nil k v) ∙ scan_hex-all limit (suc k) v h g

pub parse_uint-hex_u32 :
    (limit v : ℕ) → v < 2 ^ 32 → v < limit → parse_uint limit (hex_u32 v) ≡ some v
unfolding hex_u32
parse_uint-hex_u32 limit v h g =
    parse_uint-scan limit _ (trim-ne-nil (hex_fixed 8 v) (hex_fixed-ne-nil 7 v))
    ∙ scan_hex-trim limit (hex_fixed 8 v) (omega arith)
    ∙ scan_hex-all limit 8 v (omega arith) g

-- A character that is neither a dot nor a sign, as every digit is.
abbrev pub IsPlain : ℕ → Type 0
IsPlain c = (c ≢ b'.') × (c ≢ b'-') × (c ≢ b'+')

hex_digit-IsPlain : (d : ℕ) → d < 16 → IsPlain (hex_digit d)
hex_digit-IsPlain d h = ((λ e. ground arith), (λ e. ground arith), (λ e. ground arith))

pub hex_fixed-IsPlain : (k v : ℕ) → All IsPlain (hex_fixed k v)
unfolding hex_fixed
hex_fixed-IsPlain zero v = tt
hex_fixed-IsPlain (suc k) v =
    All-append IsPlain (hex_fixed k (v / 16)) _ (hex_fixed-IsPlain k (v / 16))
      (hex_digit-IsPlain (v % 16) (omega arith), tt)

trim-All : (P : ℕ → Type 0) (s : Bytes) → All P s → All P (trim s)
unfolding trim
trim-All P [] h = tt
trim-All P (c ∷ []) h = h
trim-All P (c ∷ d ∷ s) h = elim (Bool-cases (c == b'0')) [
  | inl e ↦ rw e (trim-All P (d ∷ s) h.1)
  | inr e ↦ rw e h
]

pub hex_u32-IsPlain : (v : ℕ) → All IsPlain (hex_u32 v)
unfolding hex_u32
hex_u32-IsPlain v = trim-All IsPlain (hex_fixed 8 v) (hex_fixed-IsPlain 8 v)

-- A text with no sign in front is read as a non-negative number.
parse_int32-plain :
    (v : ℕ) (s : Bytes)
    → All IsPlain s
    → parse_uint (2 ^ 31) s ≡ some v
    → parse_int32 s ≡ some (pos v)
unfolding parse_int32
parse_int32-plain v [] a e = unfold parse_uint in cc
parse_int32-plain v (c ∷ s) a e = ground (arith, a.0)

pub parse_int32-hex_u32 : (v : ℕ) → v < 2 ^ 31 → parse_int32 (hex_u32 v) ≡ some (pos v)
parse_int32-hex_u32 v h =
    parse_int32-plain v (hex_u32 v) (hex_u32-IsPlain v)
      (parse_uint-hex_u32 (2 ^ 31) v (omega arith) h)
