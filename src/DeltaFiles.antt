-- ===== src/DeltaFiles.antt =====
-- The names of delta files: how pkg/tablebackup/tablebackup.go prints them, and how
-- pkg/logicalrestore/logicalrestore.go orders them and pkg/tablebackup/basebackup.go reads them.
pub mod Order
use logical_backup.Common.{
  ℕ, ◌+◌, ◌^◌, Bool, true, false, ◌&&◌, ◌||◌, List, [], ◌∷◌, ◌++◌, Option, none, some, ltb, ◌==◌,
  if◌then◌else◌,
}
use logical_backup.Common.Bytes.{Bytes}
use logical_backup.Common.Outcome.{Outcome, ok, err, panic}
use logical_backup.Common.Hex.{bytes_ltb, bytes_eq, hex_fixed, hex_u32, parse_int32}
use logical_backup.Common.Int.{ℤ, ltb_ℤ}

-- `fmt.Sprintf("%016x", lsn)`, with `.` and `%x` of the postfix behind it if that is positive.
unfoldable pub delta_name : ℕ → ℕ → Bytes
delta_name lsn postfix =
    if ltb 0 postfix then hex_fixed 16 lsn ++ b'.' ∷ hex_u32 postfix else hex_fixed 16 lsn

-- `strings.Contains(s, ".")`
unfoldable pub contains_dot : Bytes → Bool
contains_dot [] = false
contains_dot (c ∷ s) = c == b'.' || contains_dot s

-- `parts[0]` and `parts[1]` of `strings.Split(s, ".")` for a text with a dot: what stands before
-- the first dot, and between that and the next.
unfoldable pub before_dot : Bytes → Bytes
before_dot [] = []
before_dot (c ∷ s) = if c == b'.' then [] else c ∷ before_dot s

unfoldable pub after_dot : Bytes → Bytes
unfolding before_dot
after_dot [] = []
after_dot (c ∷ s) = if c == b'.' then before_dot s else after_dot s

-- The two parts, `"0"` for a postfix that is not there.
unfoldable pub parts : Bytes → Bytes × Bytes
parts name = if contains_dot name then (before_dot name, after_dot name) else (name, b'0' ∷ [])

-- `i1 < i2` after both conversions; an error is a panic.
abbrev pub less_postfix : Option ℤ → Option ℤ → Outcome Bool Bool
less_postfix none b = panic
less_postfix (some i) none = panic
less_postfix (some i) (some j) = ok (ltb_ℤ i j)

-- `deltas.Less`
unfoldable pub less : Bytes → Bytes → Outcome Bool Bool
less d e =
    let (d0, d1) = parts d in
    let (e0, e1) = parts e in
    if bytes_eq d0 e0 then less_postfix (parse_int32 d1) (parse_int32 e1) else ok (bytes_ltb d0 e0)
