-- ===== src/Tests/TableBackup.antt =====
-- Examples for the deltas of one table, pkg/tablebackup/tablebackup.go.
use Prim.Native.Nat.{max}
use logical_backup.Common.{
  ◌⊎◌, ◌+◌, ◌*◌, ◌≤◌, ◌≡◌, refl, inr, [], ◌∷◌, append-nil, some, none, length, true, arith,
}
use logical_backup.Common.Bytes.{Bytes}
use logical_backup.Common.Exec.{ok, err}
use logical_backup.Common.Outcome
use logical_backup.Common.Files.{find, bytes_eq_refl}
use logical_backup.DeltaFiles.{delta_name, less}
use logical_backup.Queue.Invariant.{Inv, empty-Inv}
use logical_backup.TableBackup.{
  TableBackup, archiver_step, frame, World, save_raw_message, close_old_files, next_postfix,
  delta_path, opened, set_postfix, three_hours, write_failed,
}
use logical_backup.TableBackup.Deltas.{OpenLog, present, next_msgs, save_raw_message_ok}
use logical_backup.TableBackup.Archive.{archiver_step_keeps}
use logical_backup.TableBackup.Naming.{Named, rotate_less, rotate_keeps}
use logical_backup.TableBackup.Idle.{save_after_close}
use logical_backup.Tests.Samples.{calm, calm-IsCalm, old_delta, new_delta, table, world, old_path}

table-OpenLog : OpenLog table (old_delta ∷ [])
unfolding find
table-OpenLog = record {
  fp = record { path = old_path; is_open = true };
  current = refl;
  is_open = refl;
  content = ground (arith, bytes_eq_refl old_path, append-nil (frame old_delta));
  counted = refl;
}

save_raw_message_ok_example :
    (w' : World) × (save_raw_message calm 8 new_delta 32 world ≡ ok (length new_delta + 8) w')
    × OpenLog w'.table (next_msgs 2 (old_delta ∷ []) new_delta)
    × (length (next_msgs 2 (old_delta ∷ []) new_delta) ≤ max 1 2)
    × Inv w'.queue
save_raw_message_ok_example =
    save_raw_message_ok calm calm-IsCalm 8 new_delta 32 world (old_delta ∷ [])
      (present table-OpenLog) (omega arith) (omega arith) empty-Inv

-- A second file of the same position.
rotate_less_example :
    less (delta_name 16 0) (delta_name 16 (next_postfix calm 16 table)) ≡ Outcome.ok true
rotate_less_example = rotate_less calm 16 table refl (omega arith) (omega arith) (omega arith)

table-Named : Named table
table-Named = (
  record {
    l = 16;
    p = 0;
    named = refl;
    small = (omega arith, omega arith);
    past = inr (refl, omega arith);
  },
  tt,
)

rotate_keeps_example :
    (find (delta_path (delta_name 16 (next_postfix calm 16 table))) table.disk ≡ none)
    × ((path c : Bytes)
        → find path table.disk ≡ some c
        → find path (opened 16 (set_postfix (next_postfix calm 16 table) table)).disk ≡ some c)
    × Named (opened 16 (set_postfix (next_postfix calm 16 table) table))
rotate_keeps_example =
    rotate_keeps calm 16 table refl (omega arith) (omega arith) (omega arith) table-Named

-- The one delta of a table that then rests for a day.
save_after_close_example :
    (w1 : World) × (w2 : World) × (close_old_files calm (24 * three_hours) world ≡ ok tt w1)
    × (save_raw_message calm (25 * three_hours) new_delta 32 w1 ≡ err write_failed w2)
save_after_close_example =
    save_after_close calm calm (24 * three_hours) 5 (25 * three_hours) 32 new_delta world
      (old_delta ∷ []) refl table-OpenLog (omega arith) refl (omega arith) (omega arith) empty-Inv

-- A file that is copied and then removed.
abbrev closed_table : TableBackup
closed_table = record table { archive_files = old_path ∷ [] }

old_path-find : find old_path closed_table.disk ≡ some (frame old_delta)
unfolding find
old_path-find = ground (arith, bytes_eq_refl old_path)

archiver_step_keeps_example :
    (find old_path (archiver_step calm closed_table).disk ≡ some (frame old_delta))
    ⊎ (find old_path (archiver_step calm closed_table).archive ≡ some (frame old_delta))
archiver_step_keeps_example =
    archiver_step_keeps calm old_path (frame old_delta) closed_table old_path-find
