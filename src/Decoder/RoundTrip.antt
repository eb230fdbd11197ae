-- ===== src/Decoder/RoundTrip.antt =====
-- Decoding what the protocol encodes: `parse` after `encode`, one lemma for each kind of message.
use logical_backup.Common.{
  ℕ, ◌*◌, ◌/◌, ◌%◌, ◌^◌, ◌<◌, ◌≡◌, ◌≢◌, Bool, true, false, ◌||◌, List, [], ◌∷◌, ◌++◌, append-nil,
  length, ◌==◌, arith,
}
use logical_backup.Common.Bytes.{Bytes, put_uint}
use logical_backup.Common.Outcome.{ok}
use logical_backup.Message.{
  Tuple, Begin, Commit, Origin, Relation, TypeInfo, Insert, Update, Delete, Message, begin, commit,
  origin, relation, type, insert, update, delete, truncate,
}
use logical_backup.Decoder.{
  Decode, ◌>>=◌, pure, uint8, row_info, tupledata, old_row, parse_begin, parse_commit, parse_origin,
  parse_relation, parse_type, parse_insert, parse_update, parse_delete, parse_body, parse,
}
use logical_backup.Decoder.Wire.{
  put_row, put_old, encode_body, type_byte, encode, IsRow, IsOld, IsWire, with_raw,
}
use logical_backup.Decoder.Fields.{
  Reads, Reads-eq, Reads-bind, Reads-map, Reads-pure, Reads-uint8, Reads-uint32, Reads-uint64,
  Reads-int32, Reads-string, Reads-timestamp, Reads-row_info, row_info_miss, Reads-tupledata,
  Reads-columns,
}

-- A marker that does not stand in the buffer is read as `false`, and takes nothing.
Reads-miss {ℓ} :
    {B : Type ℓ} (char b : ℕ) (f : Bool → Decode B) {bs : Bytes} {v : B}
    → b ≢ char
    → Reads (f false) (b ∷ bs) v
    → Reads (row_info char >>= f) (b ∷ bs) v
unfolding ◌>>=◌
Reads-miss char b f {bs} h r = record {
  at = λ rest. rw (row_info_miss char b (bs ++ rest) h, ◌>>=◌) (r.at rest);
}

module _ (src : Bytes) where
  Reads-begin :
      (m : Begin)
      → IsWire (begin m)
      → Reads (parse_begin src) (encode_body (begin m)) (with_raw src (begin m))
  unfolding parse_begin
  Reads-begin m (l, t, x) =
      Reads-bind _ (Reads-uint64 m.final_lsn l)
        (Reads-bind _ (Reads-timestamp m.timestamp t) (Reads-map _ (Reads-int32 m.xid x)))

  Reads-commit :
      (m : Commit)
      → IsWire (commit m)
      → Reads (parse_commit src) (encode_body (commit m)) (with_raw src (commit m))
  unfolding parse_commit
  Reads-commit m (f, l, e, t) = Reads-bind _ (Reads-uint8 m.flags) (
      Reads-bind _ (Reads-uint64 m.lsn l) (
        Reads-bind _ (Reads-uint64 m.transaction_lsn e)
          (Reads-map _ (Reads-timestamp m.timestamp t))))

  Reads-origin :
      (m : Origin)
      → IsWire (origin m)
      → Reads (parse_origin src) (encode_body (origin m)) (with_raw src (origin m))
  unfolding parse_origin
  Reads-origin m (l, n) = Reads-bind _ (Reads-uint64 m.lsn l) (Reads-map _ (Reads-string m.name n))

  Reads-relation :
      (m : Relation)
      → IsWire (relation m)
      → Reads (parse_relation src) (encode_body (relation m)) (with_raw src (relation m))
  unfolding parse_relation
  Reads-relation m (o, s, n, r, c, cs) = Reads-bind _ (Reads-uint32 m.oid o) (
      Reads-bind _ (Reads-string m.namespace s) (
        Reads-bind _ (Reads-string m.name n) (
          Reads-bind _ (Reads-uint8 m.replica_identity)
            (Reads-map _ (Reads-columns m.columns c cs)))))

  Reads-type :
      (m : TypeInfo)
      → IsWire (type m)
      → Reads (parse_type src) (encode_body (type m)) (with_raw src (type m))
  unfolding parse_type
  Reads-type m (i, s, n) =
      Reads-bind _ (Reads-uint32 m.id i)
        (Reads-bind _ (Reads-string m.namespace s) (Reads-map _ (Reads-string m.name n)))

  Reads-insert :
      (m : Insert)
      → IsWire (insert m)
      → Reads (parse_insert src) (encode_body (insert m)) (with_raw src (insert m))
  unfolding parse_insert
  Reads-insert m (o, n, r) =
      Reads-eq
        (Reads-bind _ (Reads-uint32 m.relation_oid o)
          (Reads-bind _ (Reads-uint8 b'N') (Reads-map _ (Reads-tupledata m.new_row r))))
        (ground arith)

-- The high byte of the count in front of a row that is short enough is no marker.
high_byte : (row : List Tuple) → length row < b'O' * 256 → length row / 256 ^ 1 % 256 ≢ b'O'
high_byte row h = omega arith

-- The three shapes of an old tuple, read by any continuation of the two markers.
module _ {ℓ} {B : Type ℓ} (f : Bool → Bool → Decode B) (bs : Bytes) {v : B} where
  Reads-key :
      (row : List Tuple)
      → length row < b'O' * 256
      → Reads (f true false) (put_row row ++ bs) v
      → Reads (row_info b'K' >>= λ k. row_info b'O' >>= λ o. f k o) (b'K' ∷ put_row row ++ bs) v
  unfolding put_uint
  Reads-key row h r =
      Reads-bind _ (Reads-row_info b'K') (Reads-miss b'O' _ (f true) (high_byte row h) r)

  Reads-whole :
      (row : List Tuple)
      → Reads (f false true) (put_row row ++ bs) v
      → Reads (row_info b'K' >>= λ k. row_info b'O' >>= λ o. f k o) (b'O' ∷ put_row row ++ bs) v
  Reads-whole row r = Reads-miss b'K' b'O' _ (omega arith) (Reads-bind _ (Reads-row_info b'O') r)

  Reads-none :
      Reads (f false false) (b'N' ∷ bs) v
      → Reads (row_info b'K' >>= λ k. row_info b'O' >>= λ o. f k o) (b'N' ∷ bs) v
  Reads-none r =
      Reads-miss b'K' b'N' _ (omega arith) (Reads-miss b'O' b'N' (f false) (omega arith) r)

-- The two rows of an update, behind its relation.
module _ (g : Bool → Bool → List Tuple → Bool → List Tuple → Message) where
  read_rows : Bool → Bool → Decode Message
  read_rows k o = do
    old ← old_row (k || o)
    new ← uint8
    new_row ← tupledata
    pure (g k o old (new == b'N') new_row)

  Reads-new :
      (k o : Bool) (old new : List Tuple)
      → IsRow new
      → Reads
          (uint8 >>= λ n. tupledata >>= λ new_row. pure (g k o old (n == b'N') new_row))
          ((b'N' ∷ []) ++ put_row new)
          (g k o old true new)
  Reads-new k o old new r =
      Reads-eq (Reads-bind _ (Reads-uint8 b'N') (Reads-map _ (Reads-tupledata new r)))
        (ground arith)

  Reads-rows :
      (k o : Bool) (old new : List Tuple)
      → IsOld k o old
      → IsRow new
      → Reads
          (row_info b'K' >>= λ k. row_info b'O' >>= λ o. read_rows k o)
          (put_old k o old ++ ((b'N' ∷ []) ++ put_row new))
          (g k o old true new)
  unfolding read_rows old_row
  Reads-rows true true old new h r = cc
  Reads-rows true false old new h r =
      Reads-key read_rows _ old h.2
        (Reads-bind _ (Reads-tupledata old h.1) (Reads-new true false old new r))
  Reads-rows false true old new h r =
      Reads-whole read_rows _ old
        (Reads-bind _ (Reads-tupledata old h) (Reads-new false true old new r))
  Reads-rows false false old new h r =
      rw h (Reads-none read_rows _ (Reads-bind _ (Reads-pure []) (Reads-new false false [] new r)))

-- The row of a delete, behind its relation.
module _ (g : Bool → Bool → List Tuple → Message) where
  read_row : Bool → Bool → Decode Message
  read_row k o = do old ← tupledata; pure (g k o old)

  Reads-row :
      (k o : Bool) (old : List Tuple)
      → IsOld k o old
      → (k || o) ≡ true
      → Reads
          (row_info b'K' >>= λ k. row_info b'O' >>= λ o. read_row k o)
          (put_old k o old)
          (g k o old)
  unfolding read_row
  Reads-row true true old h e = cc
  Reads-row true false old h e =
      rw (← append-nil (put_row old))
        (Reads-key read_row [] old h.2 (rw append-nil (Reads-map _ (Reads-tupledata old h.1))))
  Reads-row false true old h e =
      rw (← append-nil (put_row old))
        (Reads-whole read_row [] old (rw append-nil (Reads-map _ (Reads-tupledata old h))))
  Reads-row false false old h e = cc

module _ (src : Bytes) where
  update_of : Update → Bool → Bool → List Tuple → Bool → List Tuple → Message
  update_of m k o old new new_row = update (record {
    raw = src;
    relation_oid = m.relation_oid;
    is_key = k;
    is_old = o;
    is_new = new;
    old_row = old;
    new_row = new_row;
  })

  Reads-update :
      (m : Update)
      → IsWire (update m)
      → Reads (parse_update src) (encode_body (update m)) (with_raw src (update m))
  unfolding parse_update update_of read_rows
  Reads-update m (o, old, n, r) =
      Reads-eq
        (Reads-bind _ (Reads-uint32 m.relation_oid o)
          (Reads-rows (update_of m) m.is_key m.is_old m.old_row m.new_row old r))
        (ground arith)

  delete_of : Delete → Bool → Bool → List Tuple → Message
  delete_of m k o old =
      delete
        (record { raw = src; relation_oid = m.relation_oid; is_key = k; is_old = o; old_row = old })

  Reads-delete :
      (m : Delete)
      → IsWire (delete m)
      → Reads (parse_delete src) (encode_body (delete m)) (with_raw src (delete m))
  unfolding parse_delete delete_of read_row
  Reads-delete m (o, old, e) =
      Reads-bind _ (Reads-uint32 m.relation_oid o)
        (Reads-row (delete_of m) m.is_key m.is_old m.old_row old e)

  Reads-body :
      (m : Message)
      → IsWire m
      → Reads (parse_body (type_byte m) src) (encode_body m) (with_raw src m)
  unfolding parse_body
  Reads-body (begin m) h = Reads-begin src m h
  Reads-body (commit m) h = Reads-commit src m h
  Reads-body (origin m) h = Reads-origin src m h
  Reads-body (relation m) h = Reads-relation src m h
  Reads-body (type m) h = Reads-type src m h
  Reads-body (insert m) h = Reads-insert src m h
  Reads-body (update m) h = Reads-update m h
  Reads-body (delete m) h = Reads-delete m h
  Reads-body (truncate m) h = elim h [ ]

-- `parse` reads back a message, all fields included, from its encoding and from any bytes that begin
-- with it; its field `Raw` is the whole input. Condition: it is no truncate message, the body of
-- which is not read; its numbers fit their words and its names have no zero byte; a time is a whole
-- number of microseconds and within 292 years of the year 2000; an insert or an update has a new row,
-- and a delete either a key or an old row; a row has less than 65536 columns, and a key less than
-- 20224.
pub parse-encode :
    (m : Message) (rest : Bytes)
    → IsWire m
    → parse (encode m ++ rest) ≡ ok (with_raw (encode m ++ rest) m)
unfolding parse
parse-encode m rest h = rw ((Reads-body (encode m ++ rest) m h).at rest)
