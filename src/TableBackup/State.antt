-- ===== src/TableBackup/State.antt =====
-- pkg/tablebackup/tablebackup.go: the struct `TableBackup`, the files of a table, and what the system
-- calls answer.
use logical_backup.Common.{ℕ, Bool, List, ◌∷◌, Option}
use logical_backup.Common.Bytes.{Bytes}
use logical_backup.Common.Exec.{Exec}
use logical_backup.Common.Files.{Files}
use logical_backup.Config.{Config}
use logical_backup.Message.{Identifier}
use logical_backup.Queue.{Queue}

-- An `*os.File`: its path below the table's directory, and whether it has been closed.
pub record File : Type 0 where
  pub path : Bytes
  pub is_open : Bool

-- What the system calls of one operation answer. A failed write leaves the first bytes, a failed
-- removal of a tree leaves some files. `stat_is_exist` is `os.IsExist(err)` for the error of Stat.
pub record Io : Type 0 where
  pub close_ok : Bool
  pub stat_is_exist : Bool
  pub open_ok : Bool
  pub write_fault : Option Bytes
  pub sync_ok : Bool
  pub remove_all_fault : Option Files
  pub mkdir_ok : Bool
  pub copy_ok : Bool
  pub remove_ok : Bool

pub data Error : Type 0 where
  close_failed open_failed write_failed sync_failed remove_failed mkdir_failed : Error

pub record TableBackup : Type 0 where
  pub self : ℕ
  pub identifier : Identifier
  pub cfg : Config
  pub disk : Files
  pub archive : Files
  pub delta_cnt : ℕ
  pub delta_files_cnt : ℕ
  pub deltas_since_backup_cnt : ℕ
  pub filename_postfix : ℕ
  pub last_lsn : ℕ
  pub current_delta_fp : Option File
  pub current_delta_filename : Bytes
  pub basebackup_lsn : ℕ
  pub last_written_message : Option ℕ
  pub archive_files : List Bytes

pub record World : Type 0 where
  pub table : TableBackup
  pub queue : Queue ℕ

abbrev pub M : Type 0 → Type 0
M A = Exec World Error A

abbrev pub set_table : (TableBackup → TableBackup) → World → World
set_table f w = record w { table = f w.table }

abbrev pub archiver_buffer : ℕ
archiver_buffer = 100

-- `path.Join(deltasDir, name)`
abbrev pub delta_path : Bytes → Bytes
delta_path name = b'd' ∷ b'e' ∷ b'l' ∷ b't' ∷ b'a' ∷ b's' ∷ b'/' ∷ name
