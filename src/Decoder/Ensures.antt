-- ===== src/Decoder/Ensures.antt =====
-- What holds of the value that a method of `decoder` returns, on any input: it returns no error.
use logical_backup.Common.{
  ℕ, zero, suc, ◌^◌, ◌<◌, ◌≤◌, ◌≡◌, refl, ◌≢◌, ◌↔◌, inl, inr, Bool, true, false, List, [], ◌∷◌,
  ◌++◌, length, take, drop, take_all, drop_all, All, ltb, ◌==◌, if◌then◌else◌, Bool-cases, arith,
}
use logical_backup.Common.Bytes.{Bytes, big_endian}
use logical_backup.Common.Outcome.{Outcome, ok, err, panic}
use logical_backup.Decoder.{
  Error, Decode, ◌>>=◌, pure, next, uint8, uint, uint16, uint32, uint64, int32, bool, push_byte,
  string, timestamp, row_info, tuple, repeat, tupledata, column, columns, old_row,
}

-- A call that returned no error, and whose value, if it did not panic, meets `P`.
abbrev pub Post : {A : Type 0} → (A → Type 0) → Outcome Error (A × Bytes) → Type 0
Post P (ok (a, rest)) = P a
Post P (err e) = ⊥
Post P panic = Unit

pub record Ensures {A : Type 0} (P : A → Type 0) (d : Decode A) : Type 0 where
  pub at : (buf : Bytes) → Post P (d buf)

abbrev pub Anything : {A : Type 0} → A → Type 0
Anything a = Unit {0}

module _ {A B : Type 0} where
  pub Post-bind :
      (P : B → Type 0) (f : A → Decode B) (o : Outcome Error (A × Bytes))
      → Post Anything o
      → ((a : A) → Ensures P (f a))
      → Post P (elim o [ ok (a, rest) ↦ f a rest | err e ↦ err e | panic ↦ panic ])
  Post-bind P f (ok (a, rest)) h k = (k a).at rest
  Post-bind P f (err e) h k = h
  Post-bind P f panic h k = tt

  pub Ensures-bind :
      {P : B → Type 0} {d : Decode A} {f : A → Decode B}
      → Ensures Anything d
      → ((a : A) → Ensures P (f a))
      → Ensures P (d >>= f)
  unfolding ◌>>=◌
  Ensures-bind {P} {d} {f} h k = record { at = λ buf. Post-bind P f (d buf) (h.at buf) k }

pub Ensures-pure : {A : Type 0} {P : A → Type 0} (a : A) → P a → Ensures P (pure a)
unfolding pure
Ensures-pure a h = record { at = λ buf. h }

pub Ensures-next : (n : ℕ) → Ensures Anything (next n)
unfolding next
Ensures-next n = record { at = λ buf. tt }

pub Ensures-uint8 : Ensures Anything uint8
unfolding uint8
Ensures-uint8 = record { at = λ buf. Post-uint8 buf }
  where
    Post-uint8 : (buf : Bytes) → Post Anything (uint8 buf)
    Post-uint8 [] = tt
    Post-uint8 (b ∷ bs) = tt

pub Ensures-uint : (k : ℕ) → Ensures Anything (uint k)
unfolding uint ◌>>=◌ next
Ensures-uint k = record { at = λ buf. Post-if (ltb (length (take k buf)) k) buf }
  where
    Post-if :
        (b : Bool) (buf : Bytes)
        → Post Anything (if b then panic else ok (big_endian (take k buf), drop k buf))
    Post-if true buf = tt
    Post-if false buf = tt

pub Post-string : (buf : Bytes) → Post Anything (string buf)
unfolding string
Post-string [] = tt
Post-string (c ∷ s) = split (c == 0) (string s) (Post-string s)
  where
    split :
        (b : Bool) (o : Outcome Error (Bytes × Bytes))
        → Post Anything o
        → Post Anything (if b then ok ([], s) else push_byte c o)
    split true o h = tt
    split false (ok p) h = tt
    split false (err e) h = h
    split false panic h = tt

pub Ensures-string : Ensures Anything string
Ensures-string = record { at = Post-string }

pub Ensures-row_info : (char : ℕ) → Ensures Anything (row_info char)
unfolding row_info uint8 ◌>>=◌ pure
Ensures-row_info char = record { at = λ buf. Post-row_info buf }
  where
    Post-row_info : (buf : Bytes) → Post Anything (row_info char buf)
    Post-row_info [] = tt
    Post-row_info (b ∷ bs) = ground arith

pub Ensures-if :
    {A : Type 0} {P : A → Type 0} (b : Bool) {x y : Decode A}
    → Ensures P x
    → Ensures P y
    → Ensures P (if b then x else y)
Ensures-if true h k = h
Ensures-if false h k = k

pub ruleset readers = (
  Ensures-bind, Ensures-pure, Ensures-next, Ensures-uint8, Ensures-uint, Ensures-string,
  Ensures-row_info, Ensures-if,
)

pub Ensures-tuple : Ensures Anything tuple
unfolding tuple uint32
Ensures-tuple = search readers depth 12

pub Ensures-column : Ensures Anything column
unfolding column bool int32 uint32
Ensures-column = search readers depth 14

pub Ensures-repeat :
    {A : Type 0} {d : Decode A} (n : ℕ) → Ensures Anything d → Ensures Anything (repeat d n)
unfolding repeat
Ensures-repeat zero h = Ensures-pure [] tt
Ensures-repeat (suc n) h =
    Ensures-bind h (λ a. Ensures-bind (Ensures-repeat n h) (λ rest. Ensures-pure (a ∷ rest) tt))

pub Ensures-tupledata : Ensures Anything tupledata
unfolding tupledata uint16
Ensures-tupledata = Ensures-bind (Ensures-uint 2) (λ n. Ensures-repeat n Ensures-tuple)

pub Ensures-columns : Ensures Anything columns
unfolding columns uint16
Ensures-columns = Ensures-bind (Ensures-uint 2) (λ n. Ensures-repeat n Ensures-column)

pub Ensures-timestamp : Ensures Anything timestamp
unfolding timestamp uint64
Ensures-timestamp = search readers depth 8

pub Ensures-old_row : (b : Bool) → Ensures Anything (old_row b)
unfolding old_row
Ensures-old_row true = Ensures-tupledata
Ensures-old_row false = Ensures-pure [] tt

pub ruleset parts =
    (readers, Ensures-timestamp, Ensures-tupledata, Ensures-columns, Ensures-old_row, refl)
