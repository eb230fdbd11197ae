-- ===== src/TableBackup/Basebackup/Sessions.antt =====
-- What a base backup leaves of its transaction.
use logical_backup.Common.{ℕ, ◌≡◌, refl, true, false, some, arith}
use logical_backup.Common.Exec.{ok, err}
use logical_backup.TableBackup.Basebackup.{
  Session, Backups, tx_in_progress, too_often, tx_begin, create_temp_replication_slot,
  backup_if_rows, run_backup, basebackup,
}

-- The answers up to the question whether the table has rows.
pub record Starts (io : Backups) (point : ℕ) : Type 0 where
  pub opens : io.info_open_ok ≡ true
  pub connects : io.connect_ok ≡ true
  pub begins : io.begin_ok ≡ true
  pub slots : io.slot ≡ some point
  pub locks : io.lock_ok ≡ true

-- A table without rows is skipped with its transaction still in progress.
basebackup_empty :
    (io : Backups) (point now : ℕ) (s : Session)
    → Starts io point
    → io.has_rows ≡ some false
    → s.locked ≡ false
    → s.tx ≡ false
    → too_often now s ≡ false
    → basebackup io now s
      ≡ ok tt (record s {
        table = record s.table { basebackup_lsn = point };
        locked = false;
        conn = true;
        tx = true;
      })
unfolding basebackup run_backup tx_begin create_temp_replication_slot backup_if_rows
basebackup_empty io point now s c n l t o =
    ground (arith, c.opens, c.connects, c.begins, c.slots, c.locks)

-- The next base backup cannot begin one.
basebackup_stuck :
    (io : Backups) (now : ℕ) (s : Session)
    → io.info_open_ok ≡ true
    → io.connect_ok ≡ true
    → s.locked ≡ false
    → s.tx ≡ true
    → too_often now s ≡ false
    → basebackup io now s ≡ err tx_in_progress (record s { locked = false; conn = true })
unfolding basebackup run_backup tx_begin
basebackup_stuck io now s a c l t o = ground arith

-- A base backup that meets an empty table returns without an error and leaves its transaction in
-- progress, and so the next one, even of a table with rows, fails, and leaves it in progress again.
-- Condition: the calls before the question for rows succeed in both, neither finds the table locked
-- or comes too early after a base backup, and no transaction is in progress at first.
pub basebackup_after_empty :
    (io io' : Backups) (point now later : ℕ) (s : Session)
    → Starts io point
    → io.has_rows ≡ some false
    → io'.info_open_ok ≡ true
    → io'.connect_ok ≡ true
    → s.locked ≡ false
    → s.tx ≡ false
    → too_often now s ≡ false
    → too_often later s ≡ false
    → (s1 : Session) × (s2 : Session) × (basebackup io now s ≡ ok tt s1)
      × (basebackup io' later s1 ≡ err tx_in_progress s2)
      × (s2.tx ≡ true)
      × (s2.info ≡ s.info)
basebackup_after_empty io io' point now later s c n a k l t o o' = (
  record s {
    table = record s.table { basebackup_lsn = point };
    locked = false;
    conn = true;
    tx = true;
  },
  _,
  basebackup_empty io point now s c n l t o,
  basebackup_stuck io' later _ a k refl refl o',
  refl,
  refl,
)
