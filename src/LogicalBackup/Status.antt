-- ===== src/LogicalBackup/Status.antt =====
-- The status report and the state files.
use logical_backup.Common.{ℕ, ◌≡◌, ◌≢◌, ◌⊎◌, ◌∷◌, Option, some, arith}
use logical_backup.Common.Bytes.{Bytes}
use logical_backup.Common.Exec.{Step, ok, err, panic, blocked}
use logical_backup.LogicalBackup.{
  TableBackuper, LogicalBackup, Io, Error, state_yaml, write_state, write_archive_state,
  store_restart_lsn, send_status,
}

module _ (T : TableBackuper) where
  -- A state file holds a position, with some time.
  abbrev pub Holds : Io → Option Bytes → ℕ → Type 0
  Holds io file lsn = (time : Bytes) × (file ≡ some (state_yaml io time lsn))

  -- Both state files hold the position that was last stored.
  abbrev pub Synced : Io → LogicalBackup T.Store → Type 0
  Synced io b =
      Holds io b.state_file b.stored_flush_lsn × Holds io b.archive_state_file b.stored_flush_lsn

  -- How a report from `b` may end.
  abbrev pub Reported :
      Io → LogicalBackup T.Store → Step (LogicalBackup T.Store) (Error T.Err) (Unit {0}) → Type 0
  Reported io b (ok a b') =
      (b'.statuses ≡ b.flush_lsn ∷ b.statuses)
      × (b'.stored_flush_lsn ≡ b.flush_lsn)
      × (b'.flush_lsn ≡ b.flush_lsn)
      × Synced io b'
  Reported io b (err e b') =
      (b'.stored_flush_lsn ≡ b.stored_flush_lsn)
      × (((b'.statuses ≡ b.statuses) × Synced io b')
          ⊎ ((b'.statuses ≡ b.flush_lsn ∷ b.statuses) × (b.stored_flush_lsn ≢ b.flush_lsn)))
  Reported io b panic = ⊥
  Reported io b blocked = ⊥

  -- From a state whose files agree, whatever the server and the system answer: a report that
  -- succeeds has sent the position `flushLSN`, stored it, and left it in both state files. One that
  -- fails leaves the stored position as it was, and either nothing was sent and the files are as
  -- before, or the position was sent and it is one that had to be stored.
  pub send_status_reports :
      (io : Io) (b : LogicalBackup T.Store) → Synced io b → Reported io b (send_status T io b)
  unfolding send_status store_restart_lsn write_state write_archive_state
  send_status_reports io b (s, a) = ground arith
