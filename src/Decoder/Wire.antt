-- ===== src/Decoder/Wire.antt =====
-- The wire format of pgoutput messages, written from the protocol's documentation, to which the
-- comment on `Parse` refers: an encoder for each message, and which messages have an encoding.
use logical_backup.Common.{
  ℕ, suc, ◌-◌, ◌*◌, ◌/◌, ◌^◌, ◌<◌, Bool, true, false, ◌||◌, List, [], ◌∷◌, ◌++◌, ◌≡◌, ◌⊎◌, ◌≢◌,
  length, All, ◌==◌, if◌then◌else◌,
}
use logical_backup.Common.Int.{ℤ, pos, negsuc, unsigned, Fits, times}
use logical_backup.Common.Bytes.{Bytes, put_uint}
use logical_backup.Message.{
  Column, Tuple, Message, null_value, toasted_value, text_value, begin, commit, origin, relation,
  type, insert, update, delete, truncate,
}

-- Microseconds of a time in nanoseconds.
abbrev pub micros : ℤ → ℤ
micros (pos n) = pos (n / 1000)
micros (negsuc n) = negsuc (suc n / 1000 - 1)

abbrev pub put_flag : Bool → ℕ
put_flag true = 1
put_flag false = 0

abbrev pub put_string : Bytes → Bytes
put_string s = s ++ 0 ∷ []

abbrev pub put_time : ℤ → Bytes
put_time t = put_uint 8 (unsigned 64 (micros t))

abbrev pub put_tuple : Tuple → Bytes
put_tuple t = t.kind ∷ (if t.kind == text_value then put_uint 4 (length t.value) ++ t.value else [])

abbrev pub put_column : Column → Bytes
put_column c =
    (put_flag c.is_key ∷ [])
    ++ (put_string c.name ++ (put_uint 4 c.type_oid ++ put_uint 4 (unsigned 32 c.mode)))

abbrev pub put_each {ℓ} : {A : Type ℓ} → (A → Bytes) → List A → Bytes
put_each put [] = []
put_each put (x ∷ xs) = put x ++ put_each put xs

abbrev pub put_row : List Tuple → Bytes
put_row row = put_uint 2 (length row) ++ put_each put_tuple row

abbrev pub put_columns : List Column → Bytes
put_columns cs = put_uint 2 (length cs) ++ put_each put_column cs

-- The marker and the row of the old tuple: `K` for the key, `O` for the whole row, or nothing.
abbrev pub put_old : Bool → Bool → List Tuple → Bytes
put_old true old row = b'K' ∷ put_row row
put_old false true row = b'O' ∷ put_row row
put_old false false row = []

-- The bytes behind the first.
abbrev pub encode_body : Message → Bytes
encode_body (begin m) =
    put_uint 8 m.final_lsn ++ (put_time m.timestamp ++ put_uint 4 (unsigned 32 m.xid))
encode_body (commit m) =
    (m.flags ∷ []) ++ (put_uint 8 m.lsn ++ (put_uint 8 m.transaction_lsn ++ put_time m.timestamp))
encode_body (origin m) = put_uint 8 m.lsn ++ put_string m.name
encode_body (relation m) =
    put_uint 4 m.oid
    ++ (put_string m.namespace
        ++ (put_string m.name ++ ((m.replica_identity ∷ []) ++ put_columns m.columns)))
encode_body (type m) = put_uint 4 m.id ++ (put_string m.namespace ++ put_string m.name)
encode_body (insert m) = put_uint 4 m.relation_oid ++ ((b'N' ∷ []) ++ put_row m.new_row)
encode_body (update m) =
    put_uint 4 m.relation_oid
    ++ (put_old m.is_key m.is_old m.old_row ++ ((b'N' ∷ []) ++ put_row m.new_row))
encode_body (delete m) = put_uint 4 m.relation_oid ++ put_old m.is_key m.is_old m.old_row
encode_body (truncate m) = []

abbrev pub type_byte : Message → ℕ
type_byte (begin m) = b'B'
type_byte (commit m) = b'C'
type_byte (origin m) = b'O'
type_byte (relation m) = b'R'
type_byte (type m) = b'Y'
type_byte (insert m) = b'I'
type_byte (update m) = b'U'
type_byte (delete m) = b'D'
type_byte (truncate m) = b'T'

abbrev pub encode : Message → Bytes
encode m = type_byte m ∷ encode_body m

-- A zero byte ends a string, so there is none in it.
abbrev pub IsName : Bytes → Type 0
IsName = All (λ c. c ≢ 0)

-- A whole number of microseconds, within the 292 years that a time.Duration spans.
abbrev pub IsTime : ℤ → Type 0
IsTime t = (times (micros t) 1000 ≡ t) × Fits 64 t

abbrev pub IsTuple : Tuple → Type 0
IsTuple t =
    ((t.kind ≡ null_value) × (t.value ≡ []))
    ⊎ (((t.kind ≡ toasted_value) × (t.value ≡ []))
        ⊎ ((t.kind ≡ text_value) × (length t.value < 2 ^ 32)))

abbrev pub IsRow : List Tuple → Type 0
IsRow row = (length row < 2 ^ 16) × All IsTuple row

-- `formatted_type` does not go over the wire.
abbrev pub IsColumn : Column → Type 0
IsColumn c = IsName c.name × (c.type_oid < 2 ^ 32) × Fits 32 c.mode × (c.formatted_type ≡ [])

-- The high byte of the column count of a key tuple is not the letter `O`: the decoder looks for
-- the marker `O` behind the marker `K`. PostgreSQL tables have at most 1600 columns.
abbrev pub IsOld : Bool → Bool → List Tuple → Type 0
IsOld true old row = (old ≡ false) × IsRow row × (length row < b'O' * 256)
IsOld false true row = IsRow row
IsOld false false row = row ≡ []

-- The messages that the protocol can express and the decoder reads in full. The body of a truncate
-- message is not among them.
abbrev pub IsWire : Message → Type 0
IsWire (begin m) = (m.final_lsn < 2 ^ 64) × IsTime m.timestamp × Fits 32 m.xid
IsWire (commit m) =
    (m.flags < 2 ^ 8) × (m.lsn < 2 ^ 64) × (m.transaction_lsn < 2 ^ 64) × IsTime m.timestamp
IsWire (origin m) = (m.lsn < 2 ^ 64) × IsName m.name
IsWire (relation m) =
    (m.oid < 2 ^ 32)
    × IsName m.namespace
    × IsName m.name
    × (m.replica_identity < 2 ^ 8)
    × (length m.columns < 2 ^ 16)
    × All IsColumn m.columns
IsWire (type m) = (m.id < 2 ^ 32) × IsName m.namespace × IsName m.name
IsWire (insert m) = (m.relation_oid < 2 ^ 32) × (m.is_new ≡ true) × IsRow m.new_row
IsWire (update m) =
    (m.relation_oid < 2 ^ 32)
    × IsOld m.is_key m.is_old m.old_row
    × (m.is_new ≡ true)
    × IsRow m.new_row
IsWire (delete m) =
    (m.relation_oid < 2 ^ 32) × IsOld m.is_key m.is_old m.old_row × ((m.is_key || m.is_old) ≡ true)
IsWire (truncate m) = ⊥

-- The message with another copy of its source.
abbrev pub with_raw : Bytes → Message → Message
with_raw src (begin m) = begin (record m { raw = src })
with_raw src (commit m) = commit (record m { raw = src })
with_raw src (origin m) = origin (record m { raw = src })
with_raw src (relation m) = relation (record m { raw = src })
with_raw src (type m) = type (record m { raw = src })
with_raw src (insert m) = insert (record m { raw = src })
with_raw src (update m) = update (record m { raw = src })
with_raw src (delete m) = delete (record m { raw = src })
with_raw src (truncate m) = truncate (record m { raw = src })
