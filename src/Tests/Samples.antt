-- ===== src/Tests/Samples.antt =====
-- The sample data of the examples: settings, a table with one delta, and the answers of a system
-- that does not fail.
use logical_backup.Common.{refl, true, false, [], ◌∷◌, ◌++◌, none, some}
use logical_backup.Common.Bytes.{Bytes}
use logical_backup.Config.{Config}
use logical_backup.DeltaFiles.{delta_name}
use logical_backup.Message.{Identifier}
use logical_backup.Message.Sql.{codes}
use logical_backup.Queue.{empty}
use logical_backup.TableBackup.{Io, TableBackup, World, delta_path, frame}
use logical_backup.TableBackup.Calls.{IsCalm}
use logical_backup.TableBackup.Create.{Paths, DirIo}

abbrev pub config : Config
config = record {
  temp_dir = [];
  tables = [];
  slotname = [];
  publication_name = [];
  track_new_tables = true;
  deltas_per_file = 2;
  backup_threshold = 3;
  concurrent_basebackups = 1;
  initial_basebackup = false;
  send_status_on_commit = false;
  fsync = true;
  archive_dir = [];
  period_between_backups = 0;
  old_delta_backup_trigger = 0;
}

abbrev pub calm : Io
calm = record {
  close_ok = true;
  stat_is_exist = false;
  open_ok = true;
  write_fault = none;
  sync_ok = true;
  remove_all_fault = none;
  mkdir_ok = true;
  copy_ok = true;
  remove_ok = true;
}

abbrev pub orders : Identifier
orders = record { namespace = b'a' ∷ []; name = b'o' ∷ [] }

abbrev pub old_delta : Bytes
old_delta = b'I' ∷ 1 ∷ []

abbrev pub new_delta : Bytes
new_delta = b'I' ∷ 2 ∷ []

abbrev pub old_path : Bytes
old_path = delta_path (delta_name 16 0)

abbrev pub table : TableBackup
table = record {
  self = 7;
  identifier = orders;
  cfg = config;
  disk = (old_path, frame old_delta) ∷ [];
  archive = [];
  delta_cnt = 1;
  delta_files_cnt = 1;
  deltas_since_backup_cnt = 1;
  filename_postfix = 0;
  last_lsn = 16;
  current_delta_fp = some (record { path = old_path; is_open = true });
  current_delta_filename = old_path;
  basebackup_lsn = 0;
  last_written_message = some 5;
  archive_files = [];
}

abbrev pub world : World
world = record { table = table; queue = empty }

abbrev pub zeros : Bytes
zeros = codes "0000000000000000000000000000000"

-- A hash that keeps the first byte, and paths that are joined without cleaning.
abbrev pub hash : Bytes → Bytes
hash [] = b'0' ∷ zeros
hash (c ∷ s) = c ∷ zeros

abbrev pub paths : Paths
paths = record {
  sanitize = λ i. i.namespace ++ b'.' ∷ i.name;
  md5_hex = hash;
  path_join = λ p q. p ++ b'/' ∷ q;
}

abbrev pub dir_io : DirIo
dir_io = record { stat_ok = λ p. true; mkdir_ok = λ p. true }

pub calm-IsCalm : IsCalm calm
calm-IsCalm = record { closes = refl; opens = refl; writes = refl; syncs = refl }
