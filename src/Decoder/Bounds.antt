-- ===== src/Decoder/Bounds.antt =====
-- What the methods of `decoder` return on bytes: words below their width, and lists as long as a
-- 16-bit count.
pub mod Messages
use logical_backup.Common.{
  ℕ, zero, suc, ◌+◌, ◌*◌, ◌%◌, ◌^◌, ◌<◌, ◌≤◌, ◌≡◌, refl, sym, ap, ◌∙◌, Bool, true, false, ◌||◌,
  List, [], ◌∷◌, length, take, drop, All, ltb, ◌==◌, if◌then◌else◌, Bool-cases, inl, inr, ◌⊎◌,
  arith,
}
use logical_backup.Common.Bytes.{Bytes, IsByte, big_endian}
use logical_backup.Common.Int.{ℤ, pos, negsuc, signed, Fits}
use logical_backup.Common.Outcome.{Outcome, ok, err, panic}
use logical_backup.Message.{
  Column, Tuple, Message, Begin, Commit, Origin, Relation, TypeInfo, Insert, Update, Delete,
  Truncate, raw_of, zero_tuple, null_value, toasted_value, text_value, begin, commit, origin,
  relation, type, insert, update, delete, truncate,
}
use logical_backup.Decoder.{
  Error, unknown_message_type, Decode, ◌>>=◌, pure, next, uint8, uint, uint16, uint32, uint64,
  int32, bool, push_byte, string, timestamp, row_info, tuple, repeat, tupledata, column, columns,
  old_row, parse_begin, parse_commit, parse_origin, parse_relation, parse_type, parse_insert,
  parse_update, parse_delete, parse_truncate, parse_body, result, parse,
}
use native.Mathlib.Nat.{mul_assoc, mul_comm, pow-suc}
use mathlib.Core.List.{foldl}
use logical_backup.Decoder.Within.{
  AtMost, Below, Bounded, Bounded-bind, Bounded-next, Bounded-pure, Bounded-uint, Bounded-uint8,
  Free, Within, signed_32-Fits, signed_64-Fits,
}

Bounded-uint16 : Bounded (Below (2 ^ 16)) uint16
unfolding uint16
Bounded-uint16 = Bounded-uint 2

pub Bounded-uint32 : Bounded (Below (2 ^ 32)) uint32
unfolding uint32
Bounded-uint32 = Bounded-uint 4

pub Bounded-uint64 : Bounded (Below (2 ^ 64)) uint64
unfolding uint64
Bounded-uint64 = Bounded-uint 8

pub Bounded-int32 : Bounded (Fits 32) int32
unfolding int32
Bounded-int32 = Bounded-bind Bounded-uint32 (λ x h. Bounded-pure _ (signed_32-Fits x h))

pub Bounded-timestamp : Bounded (Fits 64) timestamp
unfolding timestamp
Bounded-timestamp =
    Bounded-bind Bounded-uint64
      (λ x h. Bounded-pure _ (signed_64-Fits (x * 1000 % 2 ^ 64) (omega arith)))

Bounded-bool : Bounded Free bool
unfolding bool
Bounded-bool = Bounded-bind Bounded-uint8 (λ x h. Bounded-pure _ tt)

Within-push_byte :
    (c : ℕ) (o : Outcome Error (Bytes × Bytes))
    → IsByte c
    → Within (All IsByte) o
    → Within (All IsByte) (push_byte c o)
Within-push_byte c (ok (s, rest)) h (k, bytes) = ((h, k), bytes)
Within-push_byte c (err e) h k = tt
Within-push_byte c panic h k = tt

Within-string : (buf : Bytes) → All IsByte buf → Within (All IsByte) (string buf)
unfolding string
Within-string [] a = tt
Within-string (c ∷ s) (here, later) = elim (Bool-cases (c == 0)) [
  | inl e ↦ rw e (tt, later)
  | inr e ↦ rw e (Within-push_byte c (string s) here (Within-string s later))
]

pub Bounded-string : Bounded (All IsByte) string
Bounded-string = record { at = Within-string }

pub Bounded-row_info : (char : ℕ) → Bounded Free (row_info char)
unfolding row_info uint8 ◌>>=◌ pure
Bounded-row_info char = record { at = Within-row_info }
  where
    Within-row_info : (buf : Bytes) → All IsByte buf → Within Free (row_info char buf)
    Within-row_info [] a = tt
    Within-row_info (b ∷ bs) (here, later) = elim (Bool-cases (b == char)) [
      | inl e ↦ rw e (tt, later)
      | inr e ↦ rw e (tt, (here, later))
    ]

-- A kind is one of the three, or 0 for one that is not known. Only a text has a value.
pub record InRangeTuple (t : Tuple) : Type 0 where
  pub value_length : length t.value < 2 ^ 32
  pub value_bytes : All IsByte t.value
  pub of_text : (t.kind ≡ text_value) ⊎ (t.value ≡ [])

abbrev pub InRangeColumn : Column → Type 0
InRangeColumn c = All IsByte c.name × (c.type_oid < 2 ^ 32) × Fits 32 c.mode

empty_value : (k : ℕ) → InRangeTuple (record { kind = k; value = [] })
empty_value k = record { value_length = omega arith; value_bytes = tt; of_text = inr refl }

pub Bounded-if :
    {A : Type 0} {P : A → Type 0} (b : Bool) {x y : Decode A}
    → Bounded P x
    → Bounded P y
    → Bounded P (if b then x else y)
Bounded-if true h k = h
Bounded-if false h k = k

text_tuple :
    (n : ℕ) (v : Bytes)
    → n < 2 ^ 32
    → AtMost n v
    → InRangeTuple (record { kind = text_value; value = v })
text_tuple n v h (short, bytes) = record {
  value_length = omega arith;
  value_bytes = bytes;
  of_text = inl refl;
}

Bounded-tuple : Bounded InRangeTuple tuple
unfolding tuple
Bounded-tuple = Bounded-bind Bounded-uint8 λ kind h.
    Bounded-if (kind == null_value) (Bounded-pure _ (empty_value null_value)) (
      Bounded-if (kind == toasted_value) (Bounded-pure _ (empty_value toasted_value)) (
        Bounded-if (kind == text_value)
          (Bounded-bind Bounded-uint32
            (λ n k. Bounded-bind (Bounded-next n) (λ v l. Bounded-pure _ (text_tuple n v k l))))
          (Bounded-pure _ (empty_value 0))))

Bounded-column : Bounded InRangeColumn column
unfolding column
Bounded-column = Bounded-bind Bounded-bool λ key _. Bounded-bind Bounded-string λ name n.
    Bounded-bind Bounded-uint32
      λ oid o. Bounded-bind Bounded-int32 (λ mode m. Bounded-pure _ (n, o, m))

-- As many elements as the count says.
abbrev pub InRangeList : {A : Type 0} → (A → Type 0) → List A → Type 0
InRangeList P xs = (length xs < 2 ^ 16) × All P xs

Bounded-repeat :
    {A : Type 0} {P : A → Type 0} {d : Decode A} (n : ℕ)
    → Bounded P d
    → Bounded (λ xs. (length xs ≡ n) × All P xs) (repeat d n)
unfolding repeat
Bounded-repeat zero h = Bounded-pure [] (refl, tt)
Bounded-repeat (suc n) h = Bounded-bind h (λ a p.
    Bounded-bind (Bounded-repeat n h) (λ rest q. Bounded-pure (a ∷ rest) (ap suc q.0, (p, q.1))))

Bounded-list :
    {A : Type 0} {P : A → Type 0} {d : Decode A} (n : ℕ)
    → n < 2 ^ 16
    → Bounded P d
    → Bounded (InRangeList P) (repeat d n)
Bounded-list {A = A} {P = P} n h k = record {
  at = λ buf bytes. Within-list _ ((Bounded-repeat n k).at buf bytes);
}
  where
    Within-list :
        (o : Outcome Error (List A × Bytes))
        → Within (λ xs. (length xs ≡ n) × All P xs) o
        → Within (InRangeList P) o
    Within-list (ok (xs, rest)) ((l, p), bytes) = ((rw l h, p), bytes)
    Within-list (err e) w = tt
    Within-list panic w = tt

pub Bounded-tupledata : Bounded (InRangeList InRangeTuple) tupledata
unfolding tupledata
Bounded-tupledata = Bounded-bind Bounded-uint16 (λ n h. Bounded-list n h Bounded-tuple)

pub Bounded-columns : Bounded (InRangeList InRangeColumn) columns
unfolding columns
Bounded-columns = Bounded-bind Bounded-uint16 (λ n h. Bounded-list n h Bounded-column)

pub Bounded-old_row : (b : Bool) → Bounded (InRangeList InRangeTuple) (old_row b)
unfolding old_row
Bounded-old_row true = Bounded-tupledata
Bounded-old_row false = Bounded-pure [] (omega arith, tt)
