-- ===== src/LogicalBackup/Startup.antt =====
-- pkg/logicalbackup/logicalbackup.go: `New`, up to the state in which the replication starts, and
-- `QueueBasebackupTables`. `Answers` holds what the server and the system answer, and pgx's functions
-- on positions. A row that cannot be scanned is `none`, and `log.Fatalf` is an error. The HTTP server
-- and the plugin's arguments are not modelled.
pub mod Positions
pub mod Restart
pub mod Tables
use logical_backup.Common.{
  ℕ, Bool, true, false, not, ◌||◌, List, [], ◌∷◌, ◌++◌, Option, none, some, length, ◌==◌,
  if◌then◌else◌,
}
use logical_backup.Common.Assoc.{Map, insert}
use logical_backup.Common.Bytes.{Bytes}
use logical_backup.Common.Exec.{
  Step, ok, err, panic, blocked, Exec, ◌>>=◌, ◌>>◌, get, modify, done, fail, guard, when, pure,
}
use logical_backup.Common.Hex.{bytes_eq}
use logical_backup.Common.Int.{pos}
use logical_backup.Config.{Config}
use logical_backup.LogicalBackup.{
  TableBackuper, LogicalBackup, Io, Error, no_counts, current_lsn_field, store_restart_lsn,
}
use logical_backup.Message.{Identifier}
use logical_backup.Queue
use logical_backup.Queue.{Queue}

-- A row of pg_replication_slots: the confirmed position as a text, the type and the database.
pub record Slot : Type 0 where
  pub lsn : Bytes
  pub slot_type : Bytes
  pub database : Bytes

-- `has_publication` is whether the query for it has a row; `slot` and `created` are the first row.
-- `decode_yaml` gives the fields that yaml sets in a struct, also where it returns an error.
pub record Answers : Type 0 where
  pub temp_dir_ok : Bool
  pub connect_ok : Bool
  pub identity_rows : Option (List (Option Bytes))
  pub alter_ok : Bytes → Bool
  pub has_publication : Option Bool
  pub publish_ok : Bool
  pub slot : Option (Option (Option Slot))
  pub database : Bytes
  pub table_rows : Option (List (Option (ℕ × Identifier)))
  pub replication_ok : Bool
  pub created : Option (Option Bytes)
  pub state_open_ok : Bool
  pub decode_yaml : Bytes → List (Bytes × Bytes)
  pub parse_lsn : Bytes → Option ℕ

pub data StartError {ℓ} (E : Type ℓ) : Type ℓ where
  temp_dir_failed connect_failed query_failed scan_failed alter_failed publish_failed not_logical
        other_database lsn_failed no_tables replication_failed null_lsn open_failed :
      StartError E
  table_failed : E → StartError E

abbrev pub logical_slot_type : Bytes
logical_slot_type = b'l' ∷ b'o' ∷ b'g' ∷ b'i' ∷ b'c' ∷ b'a' ∷ b'l' ∷ []

-- The rows of a query, up to one that cannot be scanned.
unfoldable pub scan_rows {ℓ} : {A : Type ℓ} → List (Option A) → Option (List A)
scan_rows [] = some []
scan_rows (none ∷ rows) = none
scan_rows (some a ∷ rows) = elim (scan_rows rows) [ none ↦ none | some as' ↦ some (a ∷ as') ]

-- A field of a struct that has been decoded, the empty text if it has not been set.
unfoldable pub field : Bytes → List (Bytes × Bytes) → Bytes
field name [] = []
field name ((key, text) ∷ fields) = if bytes_eq key name then text else field name fields

-- The variable `LSNstr` after Decode.
unfoldable pub state_text : Answers → Bytes → Bytes
state_text io text = field current_lsn_field (io.decode_yaml text)

module _ (T : TableBackuper) where
  open T use {Store, Err, create}

  abbrev pub S : Type 0 → Type 0
  S A = Exec (LogicalBackup Store) (StartError Err) A

  -- The struct before the first call. The files are those that an earlier run has left.
  unfoldable pub fresh : Config → Store → Option Bytes → Option Bytes → LogicalBackup Store
  fresh cfg store state_file archive_state_file = record {
    cfg = cfg;
    store = store;
    backup_tables = [];
    relations = [];
    relation_names = [];
    types = [];
    stored_flush_lsn = 0;
    start_lsn = 0;
    flush_lsn = 0;
    last_tx_id = pos 0;
    msg_cnt = no_counts;
    bytes_written = 0;
    tx_begin_rel_msg = none;
    begin_msg = [];
    type_msg = none;
    statuses = [];
    state_file = state_file;
    archive_state_file = archive_state_file;
  }

  unfoldable pub alter_tables : Answers → List Bytes → S (Unit {0})
  alter_tables io [] = done
  alter_tables io (t ∷ ts) = guard (io.alter_ok t) alter_failed >> alter_tables io ts

  abbrev pub alter_scanned : Answers → Option (List Bytes) → S (Unit {0})
  alter_scanned io none = fail scan_failed
  alter_scanned io (some ts) = alter_tables io ts

  -- `checkTablesReplicaIdentities`
  unfoldable pub check_tables_replica_identities : Answers → S (Unit {0})
  check_tables_replica_identities io b = elim io.identity_rows [
    | none ↦ err query_failed b
    | some rows ↦ alter_scanned io (scan_rows rows) b
  ]

  unfoldable pub init_publication : Answers → S (Unit {0})
  init_publication io b = elim io.has_publication [
    | none ↦ err query_failed b
    | some found ↦ when (not found) (guard io.publish_ok publish_failed) b
  ]

  abbrev pub set_start : Option ℕ → S Bool
  set_start none b = err lsn_failed b
  set_start (some lsn) b = ok true (record b { start_lsn = lsn })

  unfoldable pub check_slot : Answers → Option Slot → S Bool
  check_slot io none b = err scan_failed b
  check_slot io (some slot) b =
      if bytes_eq slot.slot_type logical_slot_type
      then if bytes_eq slot.database io.database
        then set_start (io.parse_lsn slot.lsn) b
        else err other_database b
      else err not_logical b

  -- `initSlot`: whether the slot exists.
  unfoldable pub init_slot : Answers → S Bool
  init_slot io b = elim io.slot [
    | none ↦ err query_failed b
    | some row ↦ elim row [ none ↦ ok false b | some slot ↦ check_slot io slot b ]
  ]

  -- `tablebackup.New`, and `b.backupTables[oid] = tb`.
  abbrev pub created_table :
      ℕ
      → Step Store Err ℕ
      → LogicalBackup Store
      → Step (LogicalBackup Store) (StartError Err) (Unit {0})
  created_table oid (ok t s) b =
      ok tt (record b { store = s; backup_tables = insert oid t b.backup_tables })
  created_table oid (err e s) b = err (table_failed e) (record b { store = s })
  created_table oid panic b = panic
  created_table oid blocked b = blocked

  unfoldable pub init_table : Option (ℕ × Identifier) → S (Unit {0})
  init_table none b = err scan_failed b
  init_table (some (oid, t)) b = created_table oid (create t b.store) b

  unfoldable pub init_rows : List (Option (ℕ × Identifier)) → S (Unit {0})
  init_rows [] = done
  init_rows (row ∷ rows) = init_table row >> init_rows rows

  unfoldable pub init_tables : Answers → S (Unit {0})
  init_tables io b = elim io.table_rows [ none ↦ err query_failed b | some rows ↦ init_rows rows b ]

  abbrev pub returned : Option ℕ → S ℕ
  returned none b = err lsn_failed b
  returned (some lsn) b = ok lsn b

  -- `createSlot`
  unfoldable pub create_slot : Answers → S ℕ
  create_slot io b = elim io.created [
    | none ↦ err scan_failed b
    | some text ↦ elim text [ none ↦ err null_lsn b | some t ↦ returned (io.parse_lsn t) b ]
  ]

  -- `readRestartLSN`: a file that does not exist gives 0, and the error of yaml is dropped.
  unfoldable pub read_restart_lsn : Answers → S ℕ
  read_restart_lsn io b = elim b.state_file [
    | none ↦ ok 0 b
    | some text ↦
        if io.state_open_ok
        then returned (io.parse_lsn (state_text io text)) b
        else err open_failed b
  ]

  -- An error of `storeRestartLSN` is only logged.
  abbrev pub logged :
      Step (LogicalBackup Store) (Error Err) (Unit {0})
      → Step (LogicalBackup Store) (StartError Err) (Unit {0})
  logged (ok a b) = ok tt b
  logged (err e b) = ok tt b
  logged panic = panic
  logged blocked = blocked

  unfoldable pub start_new_slot : Answers → Io → S (Unit {0})
  start_new_slot io files = do
    lsn ← create_slot io
    modify (λ b. record b { start_lsn = lsn })
    λ b. logged (store_restart_lsn T files b)

  unfoldable pub start_old_slot : Answers → S (Unit {0})
  start_old_slot io = do
    lsn ← read_restart_lsn io
    when (not (lsn == 0)) (modify (λ b. record b { start_lsn = lsn; stored_flush_lsn = lsn }))

  unfoldable pub start_slot : Answers → Io → Bool → S (Unit {0})
  start_slot io files true = start_old_slot io
  start_slot io files false = start_new_slot io files

  -- `New` on the struct
  unfoldable pub new : Answers → Io → S (Unit {0})
  new io files = do
    guard io.temp_dir_ok temp_dir_failed
    guard io.connect_ok connect_failed
    check_tables_replica_identities io
    init_publication io
    exists ← init_slot io
    init_tables io
    b ← get
    guard (not (length b.backup_tables == 0) || b.cfg.track_new_tables) no_tables
    guard io.replication_ok replication_failed
    start_slot io files exists

-- `QueueBasebackupTables`, over the tables in the order of the map's range.
unfoldable pub queue_basebackup_tables : List ℕ → Queue ℕ → Option (Queue ℕ)
queue_basebackup_tables [] q = some q
queue_basebackup_tables (t ∷ ts) q = elim (Queue.put t q) [
  | none ↦ none
  | some (e, q') ↦ queue_basebackup_tables ts q'
]
