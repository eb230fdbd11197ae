-- ===== src/LogicalBackup/State.antt =====
-- pkg/logicalbackup/logicalbackup.go: the struct `LogicalBackup`, its maps, and what the handler
-- and the replication loop take from outside.
use logical_backup.Common.{
  ℕ, Bool, false, ◌&&◌, ◌||◌, List, [], ◌∷◌, Option, none, some, ◌==◌, if◌then◌else◌,
}
use logical_backup.Common.Assoc.{Map}
use logical_backup.Common.Bytes.{Bytes}
use logical_backup.Common.Exec.{Exec}
use logical_backup.Common.Hex.{bytes_eq}
use logical_backup.Common.Int.{ℤ}
use logical_backup.Config.{Config}
use logical_backup.Decoder
use logical_backup.Message.{Identifier, Relation, TypeInfo}
use logical_backup.Message.Sql.{codes}

-- `tablebackup.TableBackuper` and `tablebackup.New`, over the state of all tables.
pub record TableBackuper : Type 1 where
  pub Store : Type 0
  pub Err : Type 0
  pub save_raw_message : ℕ → Bytes → ℕ → Exec Store Err ℕ
  pub truncate : ℕ → Exec Store Err (Unit {0})
  pub create : Identifier → Exec Store Err ℕ

abbrev pub identifier_eq : Identifier → Identifier → Bool
identifier_eq a b = bytes_eq a.namespace b.namespace && bytes_eq a.name b.name

-- `map[message.Identifier]message.Relation`
abbrev pub Relations : Type 0
Relations = List (Identifier × Relation)

unfoldable pub lookup_relation : Identifier → Relations → Option Relation
lookup_relation k [] = none
lookup_relation k ((j, r) ∷ m) = if identifier_eq j k then some r else lookup_relation k m

unfoldable pub insert_relation : Identifier → Relation → Relations → Relations
insert_relation k r [] = (k, r) ∷ []
insert_relation k r ((j, s) ∷ m) =
    if identifier_eq j k then (k, r) ∷ m else (j, s) ∷ insert_relation k r m

unfoldable pub delete_relation : Identifier → Relations → Relations
delete_relation k [] = []
delete_relation k ((j, s) ∷ m) =
    if identifier_eq j k then delete_relation k m else (j, s) ∷ delete_relation k m

-- `map[uint32]struct{}`
unfoldable pub member : ℕ → List ℕ → Bool
member k [] = false
member k (j ∷ m) = j == k || member k m

-- `range` is the order of a map's range. `encode_yaml` is yaml's text of a struct with these fields,
-- `format_lsn` is `pgx.FormatLSN`, the times are those of the two calls of `time.Now`, and `cut_state`
-- and `cut_archive` are what an Encode that fails has written of its text.
pub record Io : Type 0 where
  pub range : List ℕ → List ℕ
  pub new_status_ok : Bool
  pub send_ok : Bool
  pub open_state_ok : Bool
  pub open_archive_ok : Bool
  pub encode_state_ok : Bool
  pub encode_archive_ok : Bool
  pub format_lsn : ℕ → Bytes
  pub encode_yaml : List (Bytes × Bytes) → Bytes
  pub state_time : Bytes
  pub archive_time : Bytes
  pub cut_state : Bytes → Bytes
  pub cut_archive : Bytes → Bytes

abbrev pub timestamp_field : Bytes
timestamp_field = codes "Timestamp"

abbrev pub current_lsn_field : Bytes
current_lsn_field = codes "CurrentLSN"

-- The struct that `storeRestartLSN` encodes, as a text.
unfoldable pub state_yaml : Io → Bytes → ℕ → Bytes
state_yaml io time lsn =
    io.encode_yaml ((timestamp_field, time) ∷ (current_lsn_field, io.format_lsn lsn) ∷ [])

abbrev pub encoded : Bool → (Bytes → Bytes) → Bytes → Bytes
encoded whole cut text = if whole then text else cut text

pub data Error {ℓ} (E : Type ℓ) : Type ℓ where
  table_error : E → Error E
  status_failed store_failed replication_failed : Error E
  invalid_message : Decoder.Error → Error E

-- `map[cmdType]int`
pub record Counts : Type 0 where
  pub inserts : ℕ
  pub updates : ℕ
  pub deletes : ℕ

abbrev pub no_counts : Counts
no_counts = record { inserts = 0; updates = 0; deletes = 0 }

-- `tx_begin_rel_msg` and `type_msg` are `none` where Go's value is nil. `statuses` are the positions
-- sent to the server so far, last first; a state file is none if it does not exist.
pub record LogicalBackup (S : Type 0) : Type 0 where
  pub cfg : Config
  pub store : S
  pub backup_tables : Map ℕ
  pub relations : Relations
  pub relation_names : Map Identifier
  pub types : Map TypeInfo
  pub stored_flush_lsn : ℕ
  pub start_lsn : ℕ
  pub flush_lsn : ℕ
  pub last_tx_id : ℤ
  pub msg_cnt : Counts
  pub bytes_written : ℕ
  pub tx_begin_rel_msg : Option (List ℕ)
  pub begin_msg : Bytes
  pub type_msg : Option Bytes
  pub statuses : List ℕ
  pub state_file : Option Bytes
  pub archive_state_file : Option Bytes

-- What `select` and `WaitForReplicationMessage` bring to the loop: the ticker, a message with its WAL
-- data and its heartbeat's `ReplyRequested`, a timeout or a null message, an error, or `ctx.Done()`.
pub data Event : Type 0 where
  tick : Event
  arrives : Option Bytes → Option ℕ → Event
  nothing : Event
  fails : Event
  cancelled : Event
