-- ===== src/TableBackup/Log/Fresh.antt =====
-- A table that `New` makes where no earlier run has left a file.
use logical_backup.Common.{ℕ, ◌+◌, ◌*◌, ◌^◌, ◌≤◌, ◌<◌, ◌≡◌, ◌≢◌, refl, inl, [], arith}
use logical_backup.Config.{Config}
use logical_backup.Message.{Identifier}
use logical_backup.TableBackup.{archiver_buffer}
use logical_backup.TableBackup.Create.{Left, new_session}
use logical_backup.TableBackup.Log.Saves.{Ready}
use logical_backup.TableBackup.Log.Unarchived.{unarchived}

-- Nothing is left.
abbrev pub IsEmpty : Left → Type 0
IsEmpty left = (left.disk ≡ []) × (left.archive ≡ [])

-- It has room for as many messages as a current file and a full channel of files take.
pub new_session-Ready :
    (self : ℕ) (cfg : Config) (tbl : Identifier) (left : Left) (n lsn : ℕ)
    → IsEmpty left
    → cfg.backup_threshold ≢ 0
    → lsn < 2 ^ 64
    → n < 2 ^ 31
    → n ≤ cfg.deltas_per_file * archiver_buffer + cfg.deltas_per_file
    → Ready n lsn (new_session self cfg tbl left).table
unfolding new_session unarchived
new_session-Ready self cfg tbl left n lsn (d, a) threshold wide postfix h = record {
  tidy = record {
    in_order = rw d refl;
    distinct = rw d tt;
    disk_named = rw d tt;
    archive_named = rw a tt;
    has_file = inl (refl, refl, refl);
  };
  backs_up = threshold;
  rises = omega arith;
  wide = wide;
  postfixes = omega (arith, postfix);
  room = archiver_buffer;
  channel = omega arith;
  fits = omega (arith, h);
}
