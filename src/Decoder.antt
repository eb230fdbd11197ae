-- ===== src/Decoder.antt =====
-- pkg/decoder/decoder.go: parsing one pgoutput message. The state of a decoder is what its
-- bytes.Buffer has not handed out yet. An index or a slice out of range panics, and so does
-- `string()` where no zero byte follows.
pub mod Within
pub mod Ensures
pub mod Wire
pub mod Fields
pub mod Bounds
pub mod Errors
pub mod RoundTrip
use logical_backup.Common.{
  ℕ, zero, suc, ◌+◌, ◌*◌, ◌%◌, ◌^◌, Bool, true, false, not, ◌||◌, List, [], ◌∷◌, length, take, drop,
  ltb, ◌==◌, if◌then◌else◌,
}
use logical_backup.Common.Int.{ℤ, signed, times}
use logical_backup.Common.Bytes.{Bytes, big_endian}
use logical_backup.Common.Outcome.{Outcome, ok, err, panic}
use logical_backup.Message.{
  Column, Tuple, Message, zero_tuple, null_value, toasted_value, text_value, begin, commit, origin,
  relation, type, insert, update, delete, truncate,
}

-- `unknown message type` with the byte that was read.
pub data Error : Type 0 where
  unknown_message_type : ℕ → Error

-- A method of `decoder` takes the buffer, and returns what is left of it.
abbrev pub Decode {ℓ} : Type ℓ → Type ℓ
Decode A = Bytes → Outcome Error (A × Bytes)

infixl 5 ◌>>=◌
unfoldable pub ◌>>=◌ {ℓ κ} : {A : Type ℓ} {B : Type κ} → Decode A → (A → Decode B) → Decode B
◌>>=◌ m f buf = elim (m buf) [ ok (a, rest) ↦ f a rest | err e ↦ err e | panic ↦ panic ]

unfoldable pub pure {ℓ} : {A : Type ℓ} → A → Decode A
pure a buf = ok (a, buf)

-- `buf.Next(n)`: at most `n` bytes.
unfoldable pub next : ℕ → Decode Bytes
next n buf = ok (take n buf, drop n buf)

-- `buf.Next(1)[0]`
unfoldable pub uint8 : Decode ℕ
uint8 [] = panic
uint8 (b ∷ rest) = ok (b, rest)

-- `order.UintN(buf.Next(k))` for a word of `k` bytes; a shorter slice is an index out of range.
unfoldable pub uint : ℕ → Decode ℕ
uint k = do b ← next k; λ rest. if ltb (length b) k then panic else ok (big_endian b, rest)

unfoldable pub uint16 : Decode ℕ
uint16 = uint 2

unfoldable pub uint32 : Decode ℕ
uint32 = uint 4

unfoldable pub uint64 : Decode ℕ
uint64 = uint 8

unfoldable pub int32 : Decode ℤ
int32 = do x ← uint32; pure (signed 32 x)

unfoldable pub bool : Decode Bool
bool = do b ← uint8; pure (not (b == 0))

-- A byte in front of the string that has been read.
abbrev pub push_byte : ℕ → Outcome Error (Bytes × Bytes) → Outcome Error (Bytes × Bytes)
push_byte c (ok (s, rest)) = ok (c ∷ s, rest)
push_byte c (err e) = err e
push_byte c panic = panic

-- `buf.ReadBytes(0)` without the zero byte at its end; an error is a panic.
unfoldable pub string : Decode Bytes
string [] = panic
string (c ∷ s) = if c == 0 then ok ([], s) else push_byte c (string s)

-- `time.Duration(micro) * time.Microsecond` wraps at 64 bits; `Time.Add` is exact.
unfoldable pub timestamp : Decode ℤ
timestamp = do micro ← uint64; pure (signed 64 (micro * 1000 % 2 ^ 64))

-- `UnreadByte` undoes the `Next(1)` before it.
unfoldable pub row_info : ℕ → Decode Bool
row_info char buf = (do b ← uint8; if b == char then pure true else λ rest. ok (false, buf)) buf

-- One round of the loop of `tupledata`. Any other kind leaves the zero value of the slice.
unfoldable pub tuple : Decode Tuple
tuple = do
  kind ← uint8
  if kind == null_value
      then pure (record { kind = null_value; value = [] })
      else if kind == toasted_value
      then pure (record { kind = toasted_value; value = [] })
      else if kind == text_value
      then (do
        vsize ← uint32
        value ← next vsize
        pure (record { kind = text_value; value = value }))
      else pure zero_tuple

-- `size` rounds of `item`, first to last.
unfoldable pub repeat {ℓ} : {A : Type ℓ} → Decode A → ℕ → Decode (List A)
repeat item zero = pure []
repeat item (suc size) = do a ← item; rest ← repeat item size; pure (a ∷ rest)

unfoldable pub tupledata : Decode (List Tuple)
tupledata = do size ← uint16; repeat tuple size

unfoldable pub column : Decode Column
column = do
  is_key ← bool
  name ← string
  type_oid ← uint32
  mode ← int32
  pure (record {
    is_key = is_key;
    name = name;
    type_oid = type_oid;
    mode = mode;
    formatted_type = [];
  })

unfoldable pub columns : Decode (List Column)
columns = do size ← uint16; repeat column size

-- The bodies of the cases of `Parse`, over the bytes behind the first; `src` is the copy in `Raw`.
unfoldable pub parse_begin : Bytes → Decode Message
parse_begin src = do
  final_lsn ← uint64
  time ← timestamp
  xid ← int32
  pure (begin (record { raw = src; final_lsn = final_lsn; timestamp = time; xid = xid }))

unfoldable pub parse_commit : Bytes → Decode Message
parse_commit src = do
  flags ← uint8
  lsn ← uint64
  transaction_lsn ← uint64
  time ← timestamp
  pure (
      commit (record {
        raw = src;
        flags = flags;
        lsn = lsn;
        transaction_lsn = transaction_lsn;
        timestamp = time;
      }))

unfoldable pub parse_origin : Bytes → Decode Message
parse_origin src = do
  lsn ← uint64
  name ← string
  pure (origin (record { raw = src; lsn = lsn; name = name }))

unfoldable pub parse_relation : Bytes → Decode Message
parse_relation src = do
  oid ← uint32
  namespace ← string
  name ← string
  replica_identity ← uint8
  cols ← columns
  pure (
      relation (record {
        identifier = record { namespace = namespace; name = name };
        raw = src;
        oid = oid;
        replica_identity = replica_identity;
        columns = cols;
      }))

unfoldable pub parse_type : Bytes → Decode Message
parse_type src = do
  id ← uint32
  namespace ← string
  name ← string
  pure (type (record { raw = src; id = id; namespace = namespace; name = name }))

unfoldable pub parse_insert : Bytes → Decode Message
parse_insert src = do
  relation_oid ← uint32
  new ← uint8
  new_row ← tupledata
  pure (
      insert (record {
        raw = src;
        relation_oid = relation_oid;
        is_new = new == b'N';
        new_row = new_row;
      }))

-- `if m.IsKey || m.IsOld { m.OldRow = d.tupledata() }`
unfoldable pub old_row : Bool → Decode (List Tuple)
old_row true = tupledata
old_row false = pure []

unfoldable pub parse_update : Bytes → Decode Message
parse_update src = do
  relation_oid ← uint32
  is_key ← row_info b'K'
  is_old ← row_info b'O'
  old ← old_row (is_key || is_old)
  new ← uint8
  new_row ← tupledata
  pure (
      update (record {
        raw = src;
        relation_oid = relation_oid;
        is_key = is_key;
        is_old = is_old;
        is_new = new == b'N';
        old_row = old;
        new_row = new_row;
      }))

unfoldable pub parse_delete : Bytes → Decode Message
parse_delete src = do
  relation_oid ← uint32
  is_key ← row_info b'K'
  is_old ← row_info b'O'
  old ← tupledata
  pure (
      delete (record {
        raw = src;
        relation_oid = relation_oid;
        is_key = is_key;
        is_old = is_old;
        old_row = old;
      }))

-- The body of a truncate message is not read.
unfoldable pub parse_truncate : Bytes → Decode Message
parse_truncate src = pure (
    truncate (record {
      raw = src;
      relations = 0;
      cascade = false;
      restart_identity = false;
      relation_oids = [];
    }))

-- The `switch` on the first byte.
unfoldable pub parse_body : ℕ → Bytes → Decode Message
parse_body msg_type src =
    if msg_type == b'B'
    then parse_begin src
    else if msg_type == b'C'
    then parse_commit src
    else if msg_type == b'O'
    then parse_origin src
    else if msg_type == b'R'
    then parse_relation src
    else if msg_type == b'Y'
    then parse_type src
    else if msg_type == b'I'
    then parse_insert src
    else if msg_type == b'U'
    then parse_update src
    else if msg_type == b'D'
    then parse_delete src
    else if msg_type == b'T'
    then parse_truncate src
    else λ _. err (unknown_message_type msg_type)

-- What a decoder returns, without the rest of its buffer.
abbrev pub result {ℓ} : {A : Type ℓ} → Outcome Error (A × Bytes) → Outcome Error A
result (ok (a, rest)) = ok a
result (err e) = err e
result panic = panic

-- `src[0]` of an empty slice panics. What is left in the buffer at the end is dropped.
unfoldable pub parse : Bytes → Outcome Error Message
parse [] = panic
parse (msg_type ∷ body) = result (parse_body msg_type (msg_type ∷ body) body)
