-- ===== src/Message.antt =====
-- pkg/message/message.go: the logical replication messages. A Go string or []byte is a list of
-- bytes, and a nil slice is the empty list. A time.Time is its distance in nanoseconds from
-- 2000-01-01 00:00:00 UTC. The marker methods msg() are the type `Message` itself.
pub mod Sql
use logical_backup.Common.{ℕ, Bool, List, []}
use logical_backup.Common.Int.{ℤ}
use logical_backup.Common.Bytes.{Bytes}

-- The three kinds of column that a message carries. A TupleKind is a byte.
abbrev pub null_value : ℕ
null_value = b'n'

abbrev pub toasted_value : ℕ
toasted_value = b'u'

abbrev pub text_value : ℕ
text_value = b't'

pub record Identifier : Type 0 where
  pub namespace : Bytes
  pub name : Bytes

pub record Column : Type 0 where
  pub is_key : Bool
  pub name : Bytes
  pub type_oid : ℕ
  pub mode : ℤ
  pub formatted_type : Bytes

pub record Tuple : Type 0 where
  pub kind : ℕ
  pub value : Bytes

-- What `make([]Tuple, n)` puts in each place.
abbrev pub zero_tuple : Tuple
zero_tuple = record { kind = 0; value = [] }

pub record Begin : Type 0 where
  pub raw : Bytes
  pub final_lsn : ℕ
  pub timestamp : ℤ
  pub xid : ℤ

pub record Commit : Type 0 where
  pub raw : Bytes
  pub flags : ℕ
  pub lsn : ℕ
  pub transaction_lsn : ℕ
  pub timestamp : ℤ

pub record Origin : Type 0 where
  pub raw : Bytes
  pub lsn : ℕ
  pub name : Bytes

-- `identifier` is the embedded struct: `r.namespace` and `r.name` are its fields.
pub record Relation : Type 0 where
  pub identifier : Identifier
  pub open identifier use *
  pub raw : Bytes
  pub oid : ℕ
  pub replica_identity : ℕ
  pub columns : List Column

pub record Insert : Type 0 where
  pub raw : Bytes
  pub relation_oid : ℕ
  pub is_new : Bool
  pub new_row : List Tuple

pub record Update : Type 0 where
  pub raw : Bytes
  pub relation_oid : ℕ
  pub is_key : Bool
  pub is_old : Bool
  pub is_new : Bool
  pub old_row : List Tuple
  pub new_row : List Tuple

pub record Delete : Type 0 where
  pub raw : Bytes
  pub relation_oid : ℕ
  pub is_key : Bool
  pub is_old : Bool
  pub old_row : List Tuple

pub record Truncate : Type 0 where
  pub raw : Bytes
  pub relations : ℕ
  pub cascade : Bool
  pub restart_identity : Bool
  pub relation_oids : List ℕ

pub record TypeInfo : Type 0 where
  pub raw : Bytes
  pub id : ℕ
  pub namespace : Bytes
  pub name : Bytes

-- The interface `Message`, by its implementations.
pub data Message : Type 0 where
  begin : Begin → Message
  commit : Commit → Message
  origin : Origin → Message
  relation : Relation → Message
  type : TypeInfo → Message
  insert : Insert → Message
  update : Update → Message
  delete : Delete → Message
  truncate : Truncate → Message

-- The field `Raw`, which every message has.
abbrev pub raw_of : Message → Bytes
raw_of (begin m) = m.raw
raw_of (commit m) = m.raw
raw_of (origin m) = m.raw
raw_of (relation m) = m.raw
raw_of (type m) = m.raw
raw_of (insert m) = m.raw
raw_of (update m) = m.raw
raw_of (delete m) = m.raw
raw_of (truncate m) = m.raw

-- The interface `DeltaMessage`, as the record of its methods.
pub record DeltaMessage : Type 0 where
  pub get_sql : Bytes
  pub get_lsn : ℕ
  pub get_relation_oid : ℕ
  pub get_tx_id : ℤ

pub record DdlMessage : Type 0 where
  pub last_lsn : ℕ
  pub tx_id : ℤ
  pub relation_oid : ℕ
  pub origin : Bytes
  pub query : Bytes

pub record DmlMessage : Type 0 where
  pub last_lsn : ℕ
  pub tx_id : ℤ
  pub relation_oid : ℕ
  pub origin : Bytes
  pub query : Bytes

-- Their methods.
abbrev pub dml_delta : DmlMessage → DeltaMessage
dml_delta m = record {
  get_sql = m.query;
  get_lsn = m.last_lsn;
  get_relation_oid = m.relation_oid;
  get_tx_id = m.tx_id;
}

abbrev pub ddl_delta : DdlMessage → DeltaMessage
ddl_delta m = record {
  get_sql = m.query;
  get_lsn = m.last_lsn;
  get_relation_oid = m.relation_oid;
  get_tx_id = m.tx_id;
}
