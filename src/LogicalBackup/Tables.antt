-- ===== src/LogicalBackup/Tables.antt =====
-- The tables of pkg/tablebackup behind the interface that pkg/logicalbackup uses: `*TableBackup` as a
-- `TableBackuper`, and `New`. All tables share one queue; a new table takes the next number. The
-- answers of the system are the same at each call, and so is the clock.
pub mod Disk
pub mod Lawful
use logical_backup.Common.{ℕ, suc, Bool, List, ◌==◌, if◌then◌else◌}
use logical_backup.Common.Bytes.{Bytes}
use logical_backup.Common.Exec.{Step, ok, err, panic, blocked}
use logical_backup.Config.{Config}
use logical_backup.LogicalBackup.{TableBackuper}
use logical_backup.Message.{Identifier}
use logical_backup.Queue.{Queue}
use logical_backup.TableBackup
use logical_backup.TableBackup.{Io, TableBackup, World}
use logical_backup.TableBackup.Basebackup.{Session}
use logical_backup.TableBackup.Create.{Paths, DirIo, DirError, Left, new}

pub record Tables : Type 0 where
  pub table : ℕ → TableBackup
  pub queue : Queue ℕ
  pub dirs : List Bytes
  pub count : ℕ

pub data Error : Type 0 where
  method_failed : TableBackup.Error → Error
  new_failed : DirError → Error

-- What the tables take from outside.
pub record Setup : Type 0 where
  pub io : Io
  pub now : ℕ
  pub cfg : Config
  pub paths : Paths
  pub dir_io : DirIo
  pub left : Identifier → Left

abbrev pub put_table : ℕ → TableBackup → (ℕ → TableBackup) → ℕ → TableBackup
put_table t table tables u = if t == u then table else tables u

-- A method of the table `t`.
abbrev pub of_table :
    {A : Type 0} → ℕ → Step World TableBackup.Error A → Tables → Step Tables Error A
of_table t (ok a w) s = ok a (record s { table = put_table t w.table s.table; queue = w.queue })
of_table t (err e w) s =
    err (method_failed e) (record s { table = put_table t w.table s.table; queue = w.queue })
of_table t panic s = panic
of_table t blocked s = blocked

abbrev pub world : ℕ → Tables → World
world t s = record { table = s.table t; queue = s.queue }

abbrev pub created : Step (List Bytes) DirError Session → Tables → Step Tables Error ℕ
created (ok session dirs) s =
    ok s.count (record s {
      table = put_table s.count session.table s.table;
      dirs = dirs;
      count = suc s.count;
    })
created (err e dirs) s = err (new_failed e) (record s { dirs = dirs })
created panic s = panic
created blocked s = blocked

abbrev pub tables : Setup → TableBackuper
tables u = record {
  Store = Tables;
  Err = Error;
  save_raw_message =
      λ t msg lsn s. of_table t (TableBackup.save_raw_message u.io u.now msg lsn (world t s)) s;
  truncate = λ t s. of_table t (TableBackup.truncate u.io (world t s)) s;
  create = λ tbl s. created (new u.paths u.dir_io s.count u.cfg tbl (u.left tbl) s.dirs) s;
}
