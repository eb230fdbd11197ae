-- ===== src/TableBackup/Basebackup.antt =====
-- pkg/tablebackup/basebackup.go: the base backup of a table. Deltas that arrive while it runs are
-- not modelled: a base backup is one step here. `Session` has the fields of the struct that only a
-- base backup uses; `info` is the position in the info file, and `dumped` tells whether the file of
-- the dump has been put in place. The answers of the server and of the system are in `Backups`; the
-- temporary files, which are removed in the end, are left out.
pub mod Completion
pub mod Retention
pub mod Sessions
use logical_backup.Common.{
  ℕ, ◌-◌, ◌^◌, Bool, true, false, ◌&&◌, not, List, [], ◌∷◌, ◌++◌, Option, none, some, length, ltb,
  leb, ◌==◌, if◌then◌else◌,
}
use logical_backup.Common.Bytes.{Bytes}
use logical_backup.Common.Exec.{
  Step, ok, err, panic, blocked, Exec, ◌>>=◌, ◌>>◌, get, modify, done, fail, guard, when,
}
use logical_backup.Common.Files.{remove_file}
use logical_backup.Common.Hex.{parse_uint}
use logical_backup.DeltaFiles.{parts}
use logical_backup.TableBackup.{TableBackup, archiver_buffer, delta_path}

pub record Session : Type 0 where
  pub table : TableBackup
  pub locked : Bool
  pub conn : Bool
  pub tx : Bool
  pub last_basebackup_time : Option ℕ
  pub sleep_between_backups : ℕ
  pub info : Option ℕ
  pub dumped : Bool

-- The answers to one base backup. `slot` is the consistent point of the temporary slot, `has_rows`
-- the answer of the query, and `list` what `ioutil.ReadDir` returns.
pub record Backups : Type 0 where
  pub info_open_ok : Bool
  pub connect_ok : Bool
  pub begin_ok : Bool
  pub slot : Option ℕ
  pub lock_ok : Bool
  pub has_rows : Option Bool
  pub relation_ok : Bool
  pub dump_open_ok : Bool
  pub dump_ok : Bool
  pub rollback_ok : Bool
  pub dump_rename_ok : Bool
  pub commit_ok : Bool
  pub encode_ok : Bool
  pub info_rename_ok : Bool
  pub list : Option (List Bytes)
  pub remove_ok : Bytes → Bool

pub data BackupError : Type 0 where
  info_failed connect_failed tx_in_progress no_connection begin_failed no_tx slot_failed lock_failed
        rows_failed relation_failed no_point dump_failed commit_failed rollback_failed encode_failed
        list_failed bad_name remove_failed :
      BackupError

abbrev pub B : Type 0
B = Exec Session BackupError (Unit {0})

abbrev pub set_table : (TableBackup → TableBackup) → Session → Session
set_table f s = record s { table = f s.table }

-- `t.archiveFiles <- file`
unfoldable pub queue_file : Bytes → B
queue_file file s =
    if ltb (length s.table.archive_files) archiver_buffer
    then ok tt (set_table (λ t. record t { archive_files = t.archive_files ++ file ∷ [] }) s)
    else blocked

unfoldable pub tx_begin : Backups → B
tx_begin io = do
  s ← get
  guard (not s.tx) tx_in_progress
  guard s.conn no_connection
  guard io.begin_ok begin_failed
  modify (λ s. record s { tx = true })

unfoldable pub tx_commit : Backups → B
tx_commit io = do
  s ← get
  guard s.tx no_tx
  guard s.conn no_connection
  guard io.commit_ok commit_failed
  modify (λ s. record s { tx = false })

unfoldable pub tx_rollback : Backups → B
tx_rollback io = do
  s ← get
  guard s.tx no_tx
  guard s.conn no_connection
  guard io.rollback_ok rollback_failed
  modify (λ s. record s { tx = false })

-- `createTempReplicationSlot`; `slot` is none where the answer has no position.
unfoldable pub create_temp_replication_slot : Backups → B
create_temp_replication_slot io s =
    if s.tx
    then elim io.slot [
      | none ↦ err slot_failed s
      | some lsn ↦ ok tt (set_table (λ t. record t { basebackup_lsn = lsn }) s)
    ]
    else err no_tx s

abbrev pub dump_name : Bytes
dump_name =
    b'b' ∷ b'a' ∷ b's' ∷ b'e' ∷ b'b' ∷ b'a' ∷ b'c' ∷ b'k' ∷ b'u' ∷ b'p' ∷ b'.' ∷ b'c' ∷ b'o' ∷ b'p'
    ∷ b'y' ∷ []

abbrev pub info_name : Bytes
info_name = b'i' ∷ b'n' ∷ b'f' ∷ b'o' ∷ b'.' ∷ b'y' ∷ b'a' ∷ b'm' ∷ b'l' ∷ []

-- A failed copy rolls back the transaction.
unfoldable pub copy_dump : Backups → B
copy_dump io = do
  s ← get
  guard s.tx no_tx
  guard (not (s.table.basebackup_lsn == 0)) no_point
  guard io.dump_open_ok dump_failed
  when (not io.dump_ok) (tx_rollback io >> fail dump_failed)
  guard io.dump_rename_ok dump_failed
  modify (λ s. record s { dumped = true })
  queue_file dump_name

-- The position in the name of a delta file.
unfoldable pub file_lsn : Bytes → Option ℕ
file_lsn name = parse_uint (2 ^ 64) (parts name).0

abbrev pub is_obsolete : ℕ → ℕ → ℕ → Bool
is_obsolete last_lsn basebackup_lsn lsn = not (last_lsn == lsn) && ltb lsn basebackup_lsn

-- The loop of `RotateOldDeltas`. A file is obsolete if it is not the current one, and its position
-- is before that of the base backup.
unfoldable pub remove_old : Backups → ℕ → List Bytes → B
remove_old io last_lsn [] s = ok tt s
remove_old io last_lsn (name ∷ names) s =
    let rest = remove_old io last_lsn names in
    elim (file_lsn name) [
      | none ↦ err bad_name s
      | some lsn ↦
          if is_obsolete last_lsn s.table.basebackup_lsn lsn
          then if io.remove_ok name
            then rest (set_table (λ t. record t { disk = remove_file (delta_path name) t.disk }) s)
            else err remove_failed s
          else rest s
    ]

unfoldable pub rotate_old_deltas : Backups → B
rotate_old_deltas io s = elim io.list [
  | none ↦ err list_failed s
  | some names ↦ remove_old io s.table.last_lsn names s
]

-- `Basebackup` from `hasRows` on, for a table with rows.
unfoldable pub backup_rows : Backups → ℕ → B
backup_rows io now = do
  guard io.relation_ok relation_failed
  copy_dump io
  tx_commit io
  guard io.encode_ok encode_failed
  when io.info_rename_ok (modify (λ s. record s { info = some s.table.basebackup_lsn }))
  queue_file info_name
  rotate_old_deltas io
  modify (λ s. record s {
    table = record s.table { deltas_since_backup_cnt = 0 };
    last_basebackup_time = some now;
  })

-- An empty table is skipped, as an early return.
unfoldable pub backup_if_rows : Backups → ℕ → B
backup_if_rows io now = elim io.has_rows [
  | none ↦ fail rows_failed
  | some false ↦ done
  | some true ↦ backup_rows io now
]

abbrev pub too_often : ℕ → Session → Bool
too_often now s = often s.last_basebackup_time s.sleep_between_backups
  where
    often : Option ℕ → ℕ → Bool
    often none sleep = false
    often (some last) sleep = leb (now - last) sleep

-- From the connection on; `conn` stays set when it is closed.
unfoldable pub run_backup : Backups → ℕ → B
run_backup io now = do
  guard io.connect_ok connect_failed
  modify (λ s. record s { conn = true })
  tx_begin io
  create_temp_replication_slot io
  guard io.lock_ok lock_failed
  backup_if_rows io now

-- The deferred release of the lock.
abbrev pub unlocked : Step Session BackupError (Unit {0}) → Step Session BackupError (Unit {0})
unlocked (ok a s) = ok a (record s { locked = false })
unlocked (err e s) = err e (record s { locked = false })
unlocked panic = panic
unlocked blocked = blocked

-- `Basebackup`: one that finds the table locked returns at once.
unfoldable pub basebackup : Backups → ℕ → B
basebackup io now s =
    if s.locked
    then ok tt s
    else unlocked (
        (do
          guard io.info_open_ok info_failed
          s ← get
          when (not (too_often now s)) (run_backup io now))
          (record s { locked = true }))
