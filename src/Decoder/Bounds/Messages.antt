-- ===== src/Decoder/Bounds/Messages.antt =====
-- The fields of a parsed message fit the types that they have in Go.
use logical_backup.Common.{ℕ, ◌^◌, ◌<◌, ◌≡◌, ◌||◌, [], ◌∷◌, All, ◌==◌, arith}
use logical_backup.Common.Bytes.{Bytes, IsByte}
use logical_backup.Common.Int.{Fits}
use logical_backup.Common.Outcome.{Outcome, ok, err, panic}
use logical_backup.Message.{
  Message, Begin, Commit, Origin, Relation, TypeInfo, Insert, Update, Delete, Truncate, begin,
  commit, origin, relation, type, insert, update, delete, truncate,
}
use logical_backup.Decoder.{
  Error, unknown_message_type, parse_begin, parse_commit, parse_origin, parse_relation, parse_type,
  parse_insert, parse_update, parse_delete, parse_truncate, parse_body, result, parse,
}
use logical_backup.Decoder.Bounds.{
  Bounded-uint32, Bounded-uint64, Bounded-int32, Bounded-timestamp, Bounded-string,
  Bounded-row_info, InRangeTuple, InRangeColumn, Bounded-if, InRangeList, Bounded-tupledata,
  Bounded-columns, Bounded-old_row,
}
use logical_backup.Decoder.Within.{Within, Bounded, Bounded-bind, Bounded-pure, Bounded-uint8}

-- The fields of a message fit their types in Go.
pub data InRange : Message → Type 0 where
  begin_in :
      (m : Begin) → m.final_lsn < 2 ^ 64 → Fits 64 m.timestamp → Fits 32 m.xid → InRange (begin m)
  commit_in :
      (m : Commit)
      → m.flags < 2 ^ 8
      → m.lsn < 2 ^ 64
      → m.transaction_lsn < 2 ^ 64
      → Fits 64 m.timestamp
      → InRange (commit m)
  origin_in : (m : Origin) → m.lsn < 2 ^ 64 → All IsByte m.name → InRange (origin m)
  relation_in :
      (m : Relation)
      → m.oid < 2 ^ 32
      → All IsByte m.namespace
      → All IsByte m.name
      → m.replica_identity < 2 ^ 8
      → InRangeList InRangeColumn m.columns
      → InRange (relation m)
  type_in :
      (m : TypeInfo) → m.id < 2 ^ 32 → All IsByte m.namespace → All IsByte m.name → InRange (type m)
  insert_in :
      (m : Insert)
      → m.relation_oid < 2 ^ 32
      → InRangeList InRangeTuple m.new_row
      → InRange (insert m)
  update_in :
      (m : Update)
      → m.relation_oid < 2 ^ 32
      → InRangeList InRangeTuple m.old_row
      → InRangeList InRangeTuple m.new_row
      → InRange (update m)
  delete_in :
      (m : Delete)
      → m.relation_oid < 2 ^ 32
      → InRangeList InRangeTuple m.old_row
      → InRange (delete m)
  truncate_in : (m : Truncate) → m.relations < 2 ^ 32 → InRange (truncate m)

module _ (src : Bytes) where
  Bounded-begin : Bounded InRange (parse_begin src)
  unfolding parse_begin
  Bounded-begin = Bounded-bind Bounded-uint64 λ lsn l.
      Bounded-bind Bounded-timestamp
        λ time t. Bounded-bind Bounded-int32 (λ xid x. Bounded-pure _ (begin_in _ l t x))

  Bounded-commit : Bounded InRange (parse_commit src)
  unfolding parse_commit
  Bounded-commit = Bounded-bind Bounded-uint8 λ flags f. Bounded-bind Bounded-uint64 λ lsn l.
      Bounded-bind Bounded-uint64
        λ end e. Bounded-bind Bounded-timestamp (λ time t. Bounded-pure _ (commit_in _ f l e t))

  Bounded-origin : Bounded InRange (parse_origin src)
  unfolding parse_origin
  Bounded-origin =
      Bounded-bind Bounded-uint64
        (λ lsn l. Bounded-bind Bounded-string (λ name n. Bounded-pure _ (origin_in _ l n)))

  Bounded-relation : Bounded InRange (parse_relation src)
  unfolding parse_relation
  Bounded-relation = Bounded-bind Bounded-uint32 λ oid o. Bounded-bind Bounded-string λ space s.
      Bounded-bind Bounded-string λ name n. Bounded-bind Bounded-uint8 λ identity i.
        Bounded-bind Bounded-columns (λ cols c. Bounded-pure _ (relation_in _ o s n i c))

  Bounded-type : Bounded InRange (parse_type src)
  unfolding parse_type
  Bounded-type = Bounded-bind Bounded-uint32 λ id i.
      Bounded-bind Bounded-string
        λ space s. Bounded-bind Bounded-string (λ name n. Bounded-pure _ (type_in _ i s n))

  Bounded-insert : Bounded InRange (parse_insert src)
  unfolding parse_insert
  Bounded-insert = Bounded-bind Bounded-uint32 λ oid o.
      Bounded-bind Bounded-uint8
        λ new _. Bounded-bind Bounded-tupledata (λ row r. Bounded-pure _ (insert_in _ o r))

  Bounded-update : Bounded InRange (parse_update src)
  unfolding parse_update
  Bounded-update = Bounded-bind Bounded-uint32 λ oid o.
      Bounded-bind (Bounded-row_info b'K') λ key _. Bounded-bind (Bounded-row_info b'O') λ old _.
        Bounded-bind (Bounded-old_row (key || old)) λ old_row w.
          Bounded-bind Bounded-uint8
            λ new _. Bounded-bind Bounded-tupledata (λ row r. Bounded-pure _ (update_in _ o w r))

  Bounded-delete : Bounded InRange (parse_delete src)
  unfolding parse_delete
  Bounded-delete = Bounded-bind Bounded-uint32 λ oid o.
      Bounded-bind (Bounded-row_info b'K') λ key _.
        Bounded-bind (Bounded-row_info b'O')
          λ old _. Bounded-bind Bounded-tupledata (λ row r. Bounded-pure _ (delete_in _ o r))

  Bounded-truncate : Bounded InRange (parse_truncate src)
  unfolding parse_truncate
  Bounded-truncate = Bounded-pure _ (truncate_in _ (omega arith))

Bounded-unknown : (b : ℕ) → Bounded InRange (λ _. err (unknown_message_type b))
Bounded-unknown b = record { at = λ buf bytes. tt }

parse_body-Bounded : (b : ℕ) (src : Bytes) → Bounded InRange (parse_body b src)
unfolding parse_body
parse_body-Bounded b src = Bounded-if (b == b'B') (Bounded-begin src) (
    Bounded-if (b == b'C') (Bounded-commit src) (
      Bounded-if (b == b'O') (Bounded-origin src) (
        Bounded-if (b == b'R') (Bounded-relation src) (
          Bounded-if (b == b'Y') (Bounded-type src) (
            Bounded-if (b == b'I') (Bounded-insert src) (
              Bounded-if (b == b'U') (Bounded-update src) (
                Bounded-if (b == b'D') (Bounded-delete src)
                  (Bounded-if (b == b'T') (Bounded-truncate src) (Bounded-unknown b)))))))))

InRange-result :
    (o : Outcome Error (Message × Bytes)) {m : Message}
    → Within InRange o
    → result o ≡ ok m
    → InRange m
InRange-result (ok (a, rest)) (h, bytes) e = ground arith
InRange-result (err x) h e = cc
InRange-result panic h e = cc

-- The fields of every message that `parse` returns fit their types in Go: positions 64 bits, oids and
-- lengths of values 32 bits, counts of columns and values 16 bits, times and transaction ids the
-- signed types. Texts and values are bytes, and only a text value is not empty. Condition: the input
-- is bytes.
pub InRange-parse : (src : Bytes) (m : Message) → All IsByte src → parse src ≡ ok m → InRange m
unfolding parse
InRange-parse [] m a h = cc
InRange-parse (b ∷ body) m (here, later) h =
    InRange-result _ ((parse_body-Bounded b (b ∷ body)).at body later) h
