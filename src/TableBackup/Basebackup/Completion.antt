-- ===== src/TableBackup/Basebackup/Completion.antt =====
-- A base backup that meets no error.
use logical_backup.Common.{
  ℕ, ◌+◌, ◌^◌, ◌<◌, ◌≡◌, refl, ◌≢◌, true, false, List, [], ◌∷◌, ◌++◌, map, none, some, length,
  length-append, All, if◌then◌else◌, arith,
}
use logical_backup.Common.Bytes.{Bytes}
use logical_backup.Common.Exec.{ok}
use logical_backup.Common.Files.{find}
use logical_backup.TableBackup.{archiver_buffer}
use logical_backup.TableBackup.Basebackup.{
  Session, Backups, set_table, too_often, tx_begin, tx_commit, create_temp_replication_slot,
  copy_dump, queue_file, dump_name, info_name, rotate_old_deltas, backup_rows, backup_if_rows,
  run_backup, basebackup,
}
use logical_backup.TableBackup.Basebackup.Retention.{name_of, is_removed, rotate_old_deltas_ok}
use logical_backup.TableBackup.Basebackup.Sessions.{Starts}

-- The answers from there on.
pub record Finishes (io : Backups) : Type 0 where
  pub rows : io.has_rows ≡ some true
  pub fetches : io.relation_ok ≡ true
  pub creates : io.dump_open_ok ≡ true
  pub dumps : io.dump_ok ≡ true
  pub moves : io.dump_rename_ok ≡ true
  pub commits : io.commit_ok ≡ true
  pub encodes : io.encode_ok ≡ true
  pub renames : io.info_rename_ok ≡ true

-- The session once the transaction has begun at `point`, after the dump, and after the info file.
abbrev opened : ℕ → Session → Session
opened point s = record s {
  table = record s.table { basebackup_lsn = point };
  locked = true;
  conn = true;
  tx = true;
}

abbrev queued : Bytes → Session → Session
queued file s = set_table (λ t. record t { archive_files = t.archive_files ++ file ∷ [] }) s

abbrev saved : ℕ → Session → Session
saved point s =
    queued info_name (record (queued dump_name (record (opened point s) { dumped = true })) {
      tx = false;
      info = some point;
    })

queue_file_room :
    (file : Bytes) (s : Session)
    → length s.table.archive_files < archiver_buffer
    → queue_file file s ≡ ok tt (queued file s)
unfolding queue_file
queue_file_room file s h = ground arith

copy_dump_ok :
    (io : Backups) (s : Session)
    → Finishes io
    → s.tx ≡ true
    → s.table.basebackup_lsn ≢ 0
    → length s.table.archive_files < archiver_buffer
    → copy_dump io s ≡ ok tt (queued dump_name (record s { dumped = true }))
unfolding copy_dump
copy_dump_ok io s f t p room = ground (
  arith,
  f.creates,
  f.dumps,
  f.moves,
  queue_file_room dump_name (record s { dumped = true }) room,
)

backup_rows_run :
    (io : Backups) (point now : ℕ) (s s' : Session)
    → Finishes io
    → point ≢ 0
    → length s.table.archive_files + 1 < archiver_buffer
    → rotate_old_deltas io (saved point s) ≡ ok tt s'
    → backup_rows io now (opened point s)
      ≡ ok tt (record s' {
        table = record s'.table { deltas_since_backup_cnt = 0 };
        last_basebackup_time = some now;
      })
unfolding backup_rows tx_commit
backup_rows_run io point now s s' f p room r =
    let dump = copy_dump_ok io (opened point s) f refl p (omega arith) in
    let more = length-append s.table.archive_files (dump_name ∷ []) in
    ground (
      arith,
      dump,
      f.fetches,
      f.commits,
      f.encodes,
      f.renames,
      r,
      queue_file_room info_name
          (record (queued dump_name (record (opened point s) { dumped = true })) {
            tx = false;
            info = some point;
          })
          (omega (arith, more)),
    )

basebackup_run :
    (io : Backups) (point now : ℕ) (s s' : Session)
    → Starts io point
    → io.has_rows ≡ some true
    → s.locked ≡ false
    → s.tx ≡ false
    → too_often now s ≡ false
    → backup_rows io now (opened point s) ≡ ok tt s'
    → basebackup io now s ≡ ok tt (record s' { locked = false })
unfolding basebackup run_backup tx_begin create_temp_replication_slot backup_if_rows
basebackup_run io point now s s' c n l t o r =
    ground (arith, c.opens, c.connects, c.begins, c.slots, c.locks, r)

-- A base backup of a table with rows, all of whose calls succeed, returns without an error. The dump
-- is in place, the info file has the consistent point of its slot, the transaction and the lock are
-- released, the count of deltas since the last base backup is 0, and of the table's files exactly
-- the listed delta files before that point, without the current one, are gone. Condition: the point
-- is not 0, the archiver has room for two files, the table is not locked, has no transaction in
-- progress, and had no base backup too short a time ago.
pub basebackup_ok :
    (io : Backups) (fs : List (ℕ × ℕ)) (point now : ℕ) (s : Session)
    → Starts io point
    → Finishes io
    → io.list ≡ some (map name_of fs)
    → ((name : Bytes) → io.remove_ok name ≡ true)
    → All (λ f. f.0 < 2 ^ 64) fs
    → point ≢ 0
    → length s.table.archive_files + 1 < archiver_buffer
    → s.locked ≡ false
    → s.tx ≡ false
    → too_often now s ≡ false
    → (s' : Session) × (basebackup io now s ≡ ok tt s')
      × (s'.dumped ≡ true)
      × (s'.info ≡ some point)
      × (s'.tx ≡ false)
      × (s'.locked ≡ false)
      × (s'.table.deltas_since_backup_cnt ≡ 0)
      × ((path : Bytes)
          → find path s'.table.disk
            ≡ (if is_removed s.table.last_lsn point fs path then none else find path s.table.disk))
basebackup_ok io fs point now s c f list remove small p room l t o =
    let (d, r, k) = rotate_old_deltas_ok io fs (saved point s) list remove small in
    (
      _,
      basebackup_run io point now s _ c f.rows l t o (backup_rows_run io point now s _ f p room r),
      refl,
      refl,
      refl,
      refl,
      refl,
      k,
    )
