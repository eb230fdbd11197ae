-- ===== src/TableBackup/Idle.antt =====
-- What `CloseOldFiles` does to the deltas that come after it.
use logical_backup.Common.{ℕ, ◌-◌, ◌<◌, ◌≡◌, ◌≢◌, true, false, List, some, length, arith}
use logical_backup.Common.Bytes.{Bytes}
use logical_backup.Common.Exec.{ok, err}
use logical_backup.Queue.Invariant.{Inv}
use logical_backup.TableBackup.{
  File, Io, write_failed, World, set_table, close_file, count_delta, write_delta, store_delta,
  save_raw_message, close_old_files, three_hours,
}
use logical_backup.TableBackup.Calls.{queue_if_due_ok}
use logical_backup.TableBackup.Deltas.{OpenLog}

-- The table with its current file closed.
abbrev pub shut : World → File → World
shut w fp = set_table (λ t. record t { current_delta_fp = some (record fp { is_open = false }) }) w

-- A file that has not been written for more than three hours is closed, and stays the current one.
close_old_files-shut :
    (io : Io) (now last : ℕ) (w : World) (msgs : List Bytes) (l : OpenLog w.table msgs)
    → io.close_ok ≡ true
    → w.table.last_written_message ≡ some last
    → three_hours < now - last
    → close_old_files io now w ≡ ok tt (shut w l.fp)
unfolding close_old_files close_file
close_old_files-shut io now last w msgs l c e h = ground (arith, l.current, l.is_open)

-- After `CloseOldFiles` has closed a current file that is not full, `SaveRawMessage` fails on the
-- next message, whatever it is and whatever the system calls answer: the closed file is still the
-- current one, and it is not rotated.
pub save_after_close :
    (io io' : Io) (now last later lsn : ℕ) (msg : Bytes) (w : World) (msgs : List Bytes)
    → io.close_ok ≡ true
    → OpenLog w.table msgs
    → length msgs < w.table.cfg.deltas_per_file
    → w.table.last_written_message ≡ some last
    → three_hours < now - last
    → w.table.cfg.backup_threshold ≢ 0
    → Inv w.queue
    → (w1 : World) × (w2 : World) × (close_old_files io now w ≡ ok tt w1)
      × (save_raw_message io' later msg lsn w1 ≡ err write_failed w2)
unfolding save_raw_message store_delta write_delta
save_after_close io io' now last later lsn msg w msgs c l room e h t i =
    let w1 = shut w l.fp in
    let (q, r, j) = queue_if_due_ok w1 t i in
    (
      w1,
      record { table = count_delta w1.table; queue = q },
      close_old_files-shut io now last w msgs l c e h,
      ground (arith, r, l.counted),
    )
