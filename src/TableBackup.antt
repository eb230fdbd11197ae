-- ===== src/TableBackup.antt =====
-- pkg/tablebackup/tablebackup.go: the deltas of one table. The state is the struct, the files below
-- its two directories, the buffer of the channel `archiveFiles`, and the queue of base backups that
-- all tables share, in which a table is known by its number. The operating system's answers are the
-- argument `Io`, the clock is the argument `now` in nanoseconds. The texts around errors and the
-- log are not modelled.
mod State
pub mod Archive
pub mod Basebackup
pub mod Calls
pub mod Create
pub mod Deltas
pub mod Naming
pub mod Idle
pub mod Log
unfoldable pub use State.*
use logical_backup.Common.{
  ℕ, suc, ◌+◌, ◌-◌, ◌*◌, ◌%◌, ◌^◌, Bool, true, false, not, ◌&&◌, ◌||◌, List, [], ◌∷◌, ◌++◌, Option,
  none, some, length, ltb, leb, ◌==◌, if◌then◌else◌,
}
use logical_backup.Common.Bytes.{Bytes, put_uint}
use logical_backup.Common.Exec.{
  Step, ok, err, panic, blocked, Exec, ◌>>=◌, ◌>>◌, get, modify, done, fail, pure, when, guard,
}
use logical_backup.Common.Files.{Files, find, write_file, append_file, remove_file}
use logical_backup.Config.{Config}
use logical_backup.DeltaFiles.{delta_name}
use logical_backup.Message.{Identifier}
use logical_backup.Queue
use logical_backup.Queue.{Queue}

-- `t.basebackupQueue.Put(t)`
unfoldable pub queue_put : M (Unit {0})
queue_put w = elim (Queue.put w.table.self w.queue) [
  | none ↦ blocked
  | some (e, q) ↦ ok tt (record w { queue = q })
]

-- `t.archiveFiles <- file`, which waits while the buffer is full.
unfoldable pub send_archive : Bytes → M (Unit {0})
send_archive file w =
    if ltb (length w.table.archive_files) archiver_buffer
    then ok tt (set_table (λ t. record t { archive_files = t.archive_files ++ file ∷ [] }) w)
    else blocked

-- `t.currentDeltaFp.Close()`. Closing twice is an error, and so is closing a nil file.
unfoldable pub close_file : Io → M (Unit {0})
close_file io w = elim w.table.current_delta_fp [
  | none ↦ err close_failed w
  | some fp ↦
      if fp.is_open && io.close_ok
      then ok tt
          (set_table (λ t. record t { current_delta_fp = some (record fp { is_open = false }) }) w)
      else err close_failed
          (set_table (λ t. record t { current_delta_fp = some (record fp { is_open = false }) }) w)
]

abbrev pub is_some {ℓ} : {A : Type ℓ} → Option A → Bool
is_some none = false
is_some (some a) = true

-- The postfix of the file that `rotateFile` is about to open; `filenamePostfix` is a uint32.
abbrev pub next_postfix : Io → ℕ → TableBackup → ℕ
next_postfix io new_lsn t =
    if t.last_lsn == new_lsn || io.stat_is_exist then (t.filename_postfix + 1) % 2 ^ 32 else 0

abbrev pub set_postfix : ℕ → TableBackup → TableBackup
set_postfix p t = record t { filename_postfix = p }

-- The fields that `rotateFile` sets once the file is open.
abbrev pub opened : ℕ → TableBackup → TableBackup
opened new_lsn t =
    let path = delta_path (delta_name new_lsn t.filename_postfix) in
    record t {
      disk = write_file path [] t.disk;
      current_delta_fp = some (record { path = path; is_open = true });
      current_delta_filename = path;
      last_lsn = new_lsn;
      delta_files_cnt = t.delta_files_cnt + 1;
      delta_cnt = 0;
    }

-- `rotateFile`: a name is opened with O_TRUNC, so a file of that name loses its contents.
unfoldable pub rotate_file : Io → ℕ → M (Unit {0})
rotate_file io new_lsn = do
  w ← get
  when (is_some w.table.current_delta_fp)
      (close_file io >> send_archive w.table.current_delta_filename)
  modify (set_table (λ t. set_postfix (next_postfix io new_lsn t) t))
  guard io.open_ok open_failed
  modify (set_table (opened new_lsn))

-- A base backup is due when a file begins whose number the threshold divides.
unfoldable pub queue_if_due : M (Unit {0})
queue_if_due w =
    let t = w.table in
    if t.cfg.backup_threshold == 0
    then panic
    else when (t.delta_files_cnt % t.cfg.backup_threshold == 0 && t.delta_cnt == 0) queue_put w

abbrev pub count_delta : TableBackup → TableBackup
count_delta t = record t {
  delta_cnt = t.delta_cnt + 1;
  deltas_since_backup_cnt = t.deltas_since_backup_cnt + 1;
}

-- `t.currentDeltaFp.Write(bs)`
unfoldable pub write_delta : Io → Bytes → M (Unit {0})
write_delta io bs w = elim w.table.current_delta_fp [
  | none ↦ err write_failed w
  | some fp ↦
      if fp.is_open
      then elim io.write_fault [
        | none ↦ ok tt (set_table (λ t. record t { disk = append_file fp.path bs t.disk }) w)
        | some part ↦
            err write_failed
              (set_table (λ t. record t { disk = append_file fp.path part t.disk }) w)
      ]
      else err write_failed w
]

-- A delta in its file: its length, these eight bytes counted, and the message.
abbrev pub frame : Bytes → Bytes
frame msg = put_uint 8 (length msg + 8) ++ msg

-- `SaveRawMessage` from the test of the threshold on.
unfoldable pub store_delta : Io → ℕ → Bytes → M ℕ
store_delta io now msg = do
  w ← get
  queue_if_due
  modify (set_table count_delta)
  write_delta io (frame msg)
  when w.table.cfg.fsync (guard io.sync_ok sync_failed)
  modify (set_table (λ t. record t { last_written_message = some now }))
  pure (length msg + 8)

unfoldable pub save_raw_message : Io → ℕ → Bytes → ℕ → M ℕ
save_raw_message io now msg lsn = do
  w ← get
  when (leb w.table.cfg.deltas_per_file w.table.delta_cnt || not (is_some w.table.current_delta_fp))
      (rotate_file io lsn)
  store_delta io now msg

-- `Files`
unfoldable pub files : TableBackup → ℕ
files t = t.delta_files_cnt

-- `createDirs` after the tree has been removed: both directories exist then, or it fails.
unfoldable pub truncate : Io → M (Unit {0})
truncate io w = elim io.remove_all_fault [
  | some left ↦ err remove_failed (set_table (λ t. record t { disk = left }) w)
  | none ↦
      let cleared = set_table (λ t. record t { disk = [] }) w in
      if io.mkdir_ok
      then ok tt (
          set_table
            (λ t. record t {
              current_delta_fp = none;
              delta_cnt = 0;
              delta_files_cnt = 0;
              filename_postfix = 0;
            })
            cleared)
      else err mkdir_failed cleared
]

abbrev pub three_hours : ℕ
three_hours = 3 * 3600 * 10 ^ 9

unfoldable pub close_old_files : Io → ℕ → M (Unit {0})
close_old_files io now w = elim w.table.last_written_message [
  | none ↦ ok tt w
  | some last ↦ if leb (now - last) three_hours then ok tt w else close_file io w
]

-- The heartbeat case of `periodicBackup`; the other ticker only logs.
unfoldable pub heartbeat : ℕ → M (Unit {0})
heartbeat now w =
    let t = w.table in
    elim t.last_written_message [
      | none ↦ ok tt w
      | some last ↦
          if ltb t.cfg.old_delta_backup_trigger (10 ^ 9) || t.deltas_since_backup_cnt == 0
          then ok tt w
          else when (ltb t.cfg.old_delta_backup_trigger (now - last)) queue_put w
    ]

-- One file that `archiver` receives: copied to the archive and removed, or left where it is if the
-- copy fails; a failed removal is only logged. `os.IsExist` of Stat's error guards an overwrite that
-- neither branch prevents, so it is not here.
unfoldable pub archive_one : Io → Bytes → TableBackup → TableBackup
archive_one io file t = elim (find file t.disk) [
  | none ↦ t
  | some c ↦
      if io.copy_ok
      then record t {
        archive = write_file file c t.archive;
        disk = if io.remove_ok then remove_file file t.disk else t.disk;
      }
      else record t { archive = remove_file file t.archive }
]

-- A round of the loop of `archiver`, while there is something in the channel.
unfoldable pub archiver_step : Io → TableBackup → TableBackup
archiver_step io t = elim t.archive_files [
  | [] ↦ t
  | file ∷ rest ↦ archive_one io file (record t { archive_files = rest })
]
