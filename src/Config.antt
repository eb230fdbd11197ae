-- ===== src/Config.antt =====
-- pkg/config/config.go: the settings that the modelled code reads. The connection settings are not
-- modelled. The counts are natural numbers: a negative one in the file is not modelled. Durations
-- are in nanoseconds.
use logical_backup.Common.{ℕ, Bool, true, false, List, Option, none, some}
use logical_backup.Common.Bytes.{Bytes}
use logical_backup.Common.Outcome.{Outcome, ok, err}

pub record Config : Type 0 where
  pub temp_dir : Bytes
  pub tables : List Bytes
  pub slotname : Bytes
  pub publication_name : Bytes
  pub track_new_tables : Bool
  pub deltas_per_file : ℕ
  pub backup_threshold : ℕ
  pub concurrent_basebackups : ℕ
  pub initial_basebackup : Bool
  pub send_status_on_commit : Bool
  pub fsync : Bool
  pub archive_dir : Bytes
  pub period_between_backups : ℕ
  pub old_delta_backup_trigger : ℕ

pub data Error : Type 0 where
  open_failed decode_failed : Error

abbrev pub decoded : Option Config → Outcome Error Config
decoded none = err decode_failed
decoded (some cfg) = ok cfg

-- `New`, over whether the file opens and what the yaml decoder gives.
unfoldable pub new : Bool → Option Config → Outcome Error Config
new false content = err open_failed
new true content = decoded content
