-- ===== src/Tests/Basebackup.antt =====
-- Examples for the base backups of one table, pkg/tablebackup/basebackup.go.
use logical_backup.Common.{
  ℕ, ◌≡◌, refl, Bool, true, false, List, [], ◌∷◌, map, some, none, if◌then◌else◌, arith,
}
use logical_backup.Common.Bytes.{Bytes}
use logical_backup.Common.Exec.{ok, err}
use logical_backup.Common.Files.{find}
use logical_backup.TableBackup.Basebackup.{
  Session, Backups, tx_in_progress, rotate_old_deltas, basebackup,
}
use logical_backup.TableBackup.Basebackup.Completion.{Finishes, basebackup_ok}
use logical_backup.TableBackup.Basebackup.Retention.{
  name_of, is_removed, with_disk, rotate_old_deltas_ok,
}
use logical_backup.TableBackup.Basebackup.Sessions.{Starts, basebackup_after_empty}
use logical_backup.Tests.Samples.{table}

-- A file that is no longer the current one, and the current one.
abbrev listed : List (ℕ × ℕ)
listed = (8, 0) ∷ (16, 0) ∷ []

abbrev session : Session
session = record {
  table = table;
  locked = false;
  conn = false;
  tx = false;
  last_basebackup_time = none;
  sleep_between_backups = 0;
  info = none;
  dumped = false;
}

abbrev answers : Bool → Backups
answers rows = record {
  info_open_ok = true;
  connect_ok = true;
  begin_ok = true;
  slot = some 64;
  lock_ok = true;
  has_rows = some rows;
  relation_ok = true;
  dump_open_ok = true;
  dump_ok = true;
  rollback_ok = true;
  dump_rename_ok = true;
  commit_ok = true;
  encode_ok = true;
  info_rename_ok = true;
  list = some (map name_of listed);
  remove_ok = λ name. true;
}

answers-Starts : (rows : Bool) → Starts (answers rows) 64
answers-Starts rows = record {
  opens = refl;
  connects = refl;
  begins = refl;
  slots = refl;
  locks = refl;
}

answers-Finishes : Finishes (answers true)
answers-Finishes = record {
  rows = refl;
  fetches = refl;
  creates = refl;
  dumps = refl;
  moves = refl;
  commits = refl;
  encodes = refl;
  renames = refl;
}

rotate_old_deltas_ok_example :
    (d : List (Bytes × Bytes)) × (rotate_old_deltas (answers true) session
      ≡ ok tt (with_disk d session))
    × ((path : Bytes)
        → find path d ≡ (if is_removed 16 0 listed path then none else find path table.disk))
rotate_old_deltas_ok_example =
    rotate_old_deltas_ok (answers true) listed session refl (λ name. refl)
      (omega arith, (omega arith, tt))

basebackup_ok_example :
    (s : Session) × (basebackup (answers true) 100 session ≡ ok tt s)
    × (s.dumped ≡ true)
    × (s.info ≡ some 64)
    × (s.tx ≡ false)
    × (s.locked ≡ false)
    × (s.table.deltas_since_backup_cnt ≡ 0)
    × ((path : Bytes)
        → find path s.table.disk
          ≡ (if is_removed 16 64 listed path then none else find path table.disk))
basebackup_ok_example =
    basebackup_ok (answers true) listed 64 100 session (answers-Starts true) answers-Finishes refl
      (λ name. refl) (omega arith, (omega arith, tt)) (omega arith) (omega arith) refl refl refl

basebackup_after_empty_example :
    (s1 : Session) × (s2 : Session) × (basebackup (answers false) 100 session ≡ ok tt s1)
    × (basebackup (answers true) 200 s1 ≡ err tx_in_progress s2)
    × (s2.tx ≡ true)
    × (s2.info ≡ none)
basebackup_after_empty_example =
    basebackup_after_empty (answers false) (answers true) 64 100 200 session (answers-Starts false)
      refl refl refl refl refl refl refl
