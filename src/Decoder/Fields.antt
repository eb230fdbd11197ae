-- ===== src/Decoder/Fields.antt =====
-- What the decoder's methods read of the fields that `Decoder.Wire` writes, whatever follows them.
use logical_backup.Common.{
  ℕ, ◌*◌, ◌%◌, ◌^◌, ◌<◌, ◌≡◌, refl, ◌≢◌, inl, inr, Bool, true, false, List, [], ◌∷◌, ◌++◌,
  append_assoc, length, take-append, drop-append, take-append_exact, drop-append_exact, All, arith,
}
use logical_backup.Common.Int.{
  ℤ, pos, negsuc, signed, unsigned, Fits, signed-unsigned_32, unsigned-lt_32,
}
use logical_backup.Common.Bytes.{
  Bytes, big_endian, put_uint, length-put_uint, big_endian-put_2, big_endian-put_4,
  big_endian-put_8,
}
use logical_backup.Common.Outcome.{ok}
use logical_backup.Message.{Column, Tuple, text_value}
use logical_backup.Decoder.{
  Decode, ◌>>=◌, pure, next, uint8, uint, uint16, uint32, uint64, int32, bool, string, timestamp,
  row_info, tuple, repeat, tupledata, column, columns,
}
use logical_backup.Decoder.Wire.{
  micros, put_flag, put_string, put_time, put_tuple, put_column, put_each, put_row, put_columns,
  IsName, IsTime, IsTuple, IsRow, IsColumn,
}

-- `d` reads the bytes `bs` as `a`, and leaves what follows them.
pub record Reads {ℓ} {A : Type ℓ} (d : Decode A) (bs : Bytes) (a : A) : Type ℓ where
  pub at : (rest : Bytes) → d (bs ++ rest) ≡ ok (a, rest)

-- A value that is equal to what is read.
pub Reads-eq {ℓ} :
    {A : Type ℓ} {d : Decode A} {bs : Bytes} {a b : A} → Reads d bs a → a ≡ b → Reads d bs b
Reads-eq h e = rw (← e) h

module _ {ℓ κ} {A : Type ℓ} {B : Type κ} {d : Decode A} {bs : Bytes} {a : A} where
  pub Reads-bind :
      (f : A → Decode B) {cs : Bytes} {b : B}
      → Reads d bs a
      → Reads (f a) cs b
      → Reads (d >>= f) (bs ++ cs) b
  unfolding ◌>>=◌
  Reads-bind f {cs} {b} h k = record {
    at = λ rest. rw (append_assoc bs cs rest, h.at (cs ++ rest), ◌>>=◌) (k.at rest);
  }

  pub Reads-map : (f : A → B) → Reads d bs a → Reads (d >>= λ x. pure (f x)) bs (f a)
  unfolding ◌>>=◌ pure
  Reads-map f h = record { at = λ rest. rw (h.at rest, ◌>>=◌) }

pub Reads-pure {ℓ} : {A : Type ℓ} (a : A) → Reads (pure a) [] a
unfolding pure
Reads-pure a = record { at = λ rest. refl }

pub Reads-uint8 : (b : ℕ) → Reads uint8 (b ∷ []) b
unfolding uint8
Reads-uint8 b = record { at = λ rest. refl }

Reads-next : (bs : Bytes) → Reads (next (length bs)) bs bs
unfolding next
Reads-next bs = record { at = λ rest. rw (take-append bs rest, drop-append bs rest) }

Reads-uint : (k v : ℕ) → big_endian (put_uint k v) ≡ v → Reads (uint k) (put_uint k v) v
unfolding uint next ◌>>=◌
Reads-uint k v h =
    let e = length-put_uint k v in
    record {
      at = λ rest.
          rw (take-append_exact (put_uint k v) rest e, drop-append_exact (put_uint k v) rest e, h)
            (ground (arith, e));
    }

pub Reads-uint16 : (v : ℕ) → v < 2 ^ 16 → Reads uint16 (put_uint 2 v) v
unfolding uint16
Reads-uint16 v h = Reads-uint 2 v (big_endian-put_2 v h)

pub Reads-uint32 : (v : ℕ) → v < 2 ^ 32 → Reads uint32 (put_uint 4 v) v
unfolding uint32
Reads-uint32 v h = Reads-uint 4 v (big_endian-put_4 v h)

pub Reads-uint64 : (v : ℕ) → v < 2 ^ 64 → Reads uint64 (put_uint 8 v) v
unfolding uint64
Reads-uint64 v h = Reads-uint 8 v (big_endian-put_8 v h)

pub Reads-int32 : (x : ℤ) → Fits 32 x → Reads int32 (put_uint 4 (unsigned 32 x)) x
unfolding int32
Reads-int32 x h =
    Reads-eq (Reads-map (signed 32) (Reads-uint32 (unsigned 32 x) (unsigned-lt_32 x h)))
      (signed-unsigned_32 x h)

Reads-bool : (b : Bool) → Reads bool (put_flag b ∷ []) b
unfolding bool uint8 ◌>>=◌ pure
Reads-bool true = record { at = λ rest. refl }
Reads-bool false = record { at = λ rest. refl }

string-put : (s : Bytes) → IsName s → (rest : Bytes) → string (put_string s ++ rest) ≡ ok (s, rest)
unfolding string
string-put [] h rest = refl
string-put (c ∷ s) h rest = ground (arith, string-put s h.1 rest)

pub Reads-string : (s : Bytes) → IsName s → Reads string (put_string s) s
Reads-string s h = record { at = string-put s h }

micros-exact : (t : ℤ) → IsTime t → signed 64 (unsigned 64 (micros t) * 1000 % 2 ^ 64) ≡ t
micros-exact (pos n) h = ground arith
micros-exact (negsuc n) h = ground arith

micros-lt : (t : ℤ) → IsTime t → unsigned 64 (micros t) < 2 ^ 64
micros-lt (pos n) h = omega arith
micros-lt (negsuc n) h = omega arith

pub Reads-timestamp : (t : ℤ) → IsTime t → Reads timestamp (put_time t) t
unfolding timestamp
Reads-timestamp t h =
    Reads-eq
      (Reads-map (λ micro. signed 64 (micro * 1000 % 2 ^ 64))
        (Reads-uint64 (unsigned 64 (micros t)) (micros-lt t h)))
      (micros-exact t h)

pub Reads-row_info : (char : ℕ) → Reads (row_info char) (char ∷ []) true
unfolding row_info uint8 ◌>>=◌ pure
Reads-row_info char = record { at = λ rest. ground arith }

-- Any other byte stays in the buffer.
pub row_info_miss :
    (char b : ℕ) (rest : Bytes) → b ≢ char → row_info char (b ∷ rest) ≡ ok (false, b ∷ rest)
unfolding row_info uint8 ◌>>=◌ pure
row_info_miss char b rest h = ground arith

text_tuple : Bytes → Tuple
text_tuple value = record { kind = text_value; value = value }

Reads-text :
    (v : Bytes)
    → length v < 2 ^ 32
    → Reads
        (uint32 >>= λ vsize. next vsize >>= λ value. pure (text_tuple value))
        (put_uint 4 (length v) ++ v)
        (text_tuple v)
Reads-text v h = Reads-bind _ (Reads-uint32 (length v) h) (Reads-map text_tuple (Reads-next v))

tuple-put : (t : Tuple) → IsTuple t → (rest : Bytes) → tuple (put_tuple t ++ rest) ≡ ok (t, rest)
unfolding tuple uint8 text_tuple ◌>>=◌ pure
tuple-put t (inl (k, v)) rest = ground arith
tuple-put t (inr (inl (k, v))) rest = ground arith
tuple-put t (inr (inr (k, v))) rest = ground (arith, (Reads-text t.value v).at rest)

Reads-tuple : (t : Tuple) → IsTuple t → Reads tuple (put_tuple t) t
Reads-tuple t h = record { at = tuple-put t h }

Reads-column : (c : Column) → IsColumn c → Reads column (put_column c) c
unfolding column
Reads-column c (n, o, m, f) =
    Reads-eq
      (Reads-bind _ (Reads-bool c.is_key) (
        Reads-bind _ (Reads-string c.name n)
          (Reads-bind _ (Reads-uint32 c.type_oid o) (Reads-map _ (Reads-int32 c.mode m)))))
      (ground arith)

module _ {ℓ κ} {A : Type ℓ} (P : A → Type κ) (d : Decode A) (put : A → Bytes)
    (h : (a : A) → P a → Reads d (put a) a) where
  Reads-repeat : (xs : List A) → All P xs → Reads (repeat d (length xs)) (put_each put xs) xs
  unfolding repeat pure
  Reads-repeat [] p = record { at = λ rest. refl }
  Reads-repeat (x ∷ xs) p = Reads-bind _ (h x p.0) (Reads-map (λ ys. x ∷ ys) (Reads-repeat xs p.1))

pub Reads-tupledata : (row : List Tuple) → IsRow row → Reads tupledata (put_row row) row
unfolding tupledata
Reads-tupledata row (n, p) =
    Reads-bind _ (Reads-uint16 (length row) n)
      (Reads-repeat IsTuple tuple put_tuple Reads-tuple row p)

pub Reads-columns :
    (cs : List Column) → length cs < 2 ^ 16 → All IsColumn cs → Reads columns (put_columns cs) cs
unfolding columns
Reads-columns cs n p =
    Reads-bind _ (Reads-uint16 (length cs) n)
      (Reads-repeat IsColumn column put_column Reads-column cs p)
