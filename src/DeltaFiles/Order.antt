-- ===== src/DeltaFiles/Order.antt =====
-- The order of delta files on restore is the order of their positions and postfixes.
use logical_backup.Common.{
  ℕ, ◌^◌, ◌<◌, ◌≡◌, refl, true, false, ◌&&◌, ◌||◌, [], ◌∷◌, ◌++◌, some, ltb, ◌==◌, if◌then◌else◌,
  All, arith, Bool-cases, inl, inr,
}
use logical_backup.Common.Bytes.{Bytes}
use logical_backup.Common.Int.{pos}
use logical_backup.Common.Outcome.{ok}
use logical_backup.Common.Hex.{hex_fixed, hex_u32, parse_int32, parse_uint}
use logical_backup.Common.Hex.Order.{bytes_eq-hex, bytes_ltb-hex}
use logical_backup.Common.Hex.Reading.{
  IsPlain, hex_fixed-IsPlain, hex_u32-IsPlain, parse_int32-hex_u32,
}
use logical_backup.DeltaFiles.{delta_name, contains_dot, before_dot, after_dot, parts, less}

pub contains_dot-plain : (s : Bytes) → All IsPlain s → contains_dot s ≡ false
unfolding contains_dot
contains_dot-plain [] h = refl
contains_dot-plain (c ∷ s) h = ground (arith, h.0, contains_dot-plain s h.1)

pub contains_dot-dot : (s t : Bytes) → contains_dot (s ++ b'.' ∷ t) ≡ true
unfolding contains_dot
contains_dot-dot [] t = refl
contains_dot-dot (c ∷ s) t = ground (arith, contains_dot-dot s t)

before_dot-plain : (s : Bytes) → All IsPlain s → before_dot s ≡ s
unfolding before_dot
before_dot-plain [] h = refl
before_dot-plain (c ∷ s) h = ground (arith, h.0, before_dot-plain s h.1)

pub before_dot-dot : (s t : Bytes) → All IsPlain s → before_dot (s ++ b'.' ∷ t) ≡ s
unfolding before_dot
before_dot-dot [] t h = refl
before_dot-dot (c ∷ s) t h = ground (arith, h.0, before_dot-dot s t h.1)

after_dot-dot : (s t : Bytes) → All IsPlain s → after_dot (s ++ b'.' ∷ t) ≡ before_dot t
unfolding after_dot
after_dot-dot [] t h = refl
after_dot-dot (c ∷ s) t h = ground (arith, h.0, after_dot-dot s t h.1)

-- The two parts of a printed name.
abbrev postfix_text : ℕ → Bytes
postfix_text p = if ltb 0 p then hex_u32 p else b'0' ∷ []

pub parts-delta_name : (lsn p : ℕ) → parts (delta_name lsn p) ≡ (hex_fixed 16 lsn, postfix_text p)
unfolding parts delta_name
parts-delta_name lsn p =
    let plain = hex_fixed-IsPlain 16 lsn in
    ground (
      arith,
      contains_dot-plain (hex_fixed 16 lsn) plain,
      contains_dot-dot (hex_fixed 16 lsn) (hex_u32 p),
      before_dot-dot (hex_fixed 16 lsn) (hex_u32 p) plain,
      after_dot-dot (hex_fixed 16 lsn) (hex_u32 p) plain,
      before_dot-plain (hex_u32 p) (hex_u32-IsPlain p),
    )

parse_postfix_text : (p : ℕ) → p < 2 ^ 31 → parse_int32 (postfix_text p) ≡ some (pos p)
parse_postfix_text p h = elim (Bool-cases (ltb 0 p)) [
  | inl e ↦ rw e (parse_int32-hex_u32 p h)
  | inr e ↦ rw e (unfold parse_int32 parse_uint in ground arith)
]

-- `deltas.Less` on two names that the backup prints, with 64-bit positions and postfixes that fit
-- an int32, returns without a panic, and compares the positions first and then the postfixes.
pub less-delta_name :
    (l p m q : ℕ)
    → l < 2 ^ 64
    → m < 2 ^ 64
    → p < 2 ^ 31
    → q < 2 ^ 31
    → less (delta_name l p) (delta_name m q) ≡ ok (ltb l m || (l == m && ltb p q))
unfolding less
less-delta_name l p m q hl hm hp hq =
    rw
      (parts-delta_name l p, parts-delta_name m q, parse_postfix_text p hp, parse_postfix_text q hq)
      (ground (
        arith,
        bytes_eq-hex 16 l m (omega arith) (omega arith),
        bytes_ltb-hex 16 l m (omega arith) (omega arith),
      ))
