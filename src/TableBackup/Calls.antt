-- ===== src/TableBackup/Calls.antt =====
-- What the calls inside `SaveRawMessage` do when the system calls succeed.
use logical_backup.Common.{
  ℕ, ◌+◌, ◌%◌, ◌<◌, ◌≡◌, refl, ◌≢◌, ◌⊎◌, inl, inr, Bool, true, false, not, ◌&&◌, ◌||◌, [], ◌∷◌,
  ◌++◌, none, some, length, leb, ◌==◌, arith, Bool-cases,
}
use logical_backup.Common.Bytes.{Bytes}
use logical_backup.Common.Exec.{ok}
use logical_backup.Common.Files.{append_file}
use logical_backup.DeltaFiles.{delta_name}
use logical_backup.Queue.{Queue, puts, step}
use logical_backup.Queue.Invariant.{Inv, step-Move}
use logical_backup.Queue.Order.{Move-Inv}
use logical_backup.TableBackup.{
  File, Io, TableBackup, World, set_table, archiver_buffer, queue_put, send_archive, close_file,
  delta_path, is_some, next_postfix, set_postfix, opened, rotate_file, queue_if_due, count_delta,
  write_delta, frame, store_delta, save_raw_message,
}

-- The system calls succeed.
pub record IsCalm (io : Io) : Type 0 where
  pub closes : io.close_ok ≡ true
  pub opens : io.open_ok ≡ true
  pub writes : io.write_fault ≡ none
  pub syncs : io.sync_ok ≡ true

-- There is no current file, or it is open.
abbrev pub IsUsable : TableBackup → Type 0
IsUsable t =
    (t.current_delta_fp ≡ none)
    ⊎ ((fp : File) × (t.current_delta_fp ≡ some fp) × (fp.is_open ≡ true))

-- The old file, closed and sent to the archiver.
abbrev pub closed : TableBackup → TableBackup
closed t = elim t.current_delta_fp [
  | none ↦ t
  | some fp ↦ record t {
    current_delta_fp = some (record fp { is_open = false });
    archive_files = t.archive_files ++ t.current_delta_filename ∷ [];
  }
]

abbrev pub rotated : Io → ℕ → TableBackup → TableBackup
rotated io lsn t = opened lsn (set_postfix (next_postfix io lsn t) (closed t))

-- The file that `rotateFile` opens.
abbrev pub new_file : Io → ℕ → TableBackup → File
new_file io lsn t = record {
  path = delta_path (delta_name lsn (next_postfix io lsn t));
  is_open = true;
}

module _ (io : Io) (c : IsCalm io) where
  pub rotate_file_ok :
      (lsn : ℕ) (w : World)
      → IsUsable w.table
      → length w.table.archive_files < archiver_buffer
      → rotate_file io lsn w ≡ ok tt (set_table (rotated io lsn) w)
  unfolding rotate_file close_file send_archive
  rotate_file_ok lsn w (inl n) room = ground (arith, n, c.opens)
  rotate_file_ok lsn w (inr (fp, e, o)) room = ground (arith, c.opens, c.closes, e, o)

pub queue_if_due_ok :
    (w : World)
    → w.table.cfg.backup_threshold ≢ 0
    → Inv w.queue
    → (q : Queue ℕ) × (queue_if_due w ≡ ok tt (record w { queue = q })) × Inv q
unfolding queue_if_due queue_put step
queue_if_due_ok w h i = elim (Bool-cases due) [
  | inl e ↦
      let (eff, q, s, m) = step-Move (puts w.table.self) w.queue i in
      (q, ground (arith, e, s), Move-Inv m i)
  | inr e ↦ (w.queue, ground (arith, e), i)
]
  where
    due : Bool
    due = w.table.delta_files_cnt % w.table.cfg.backup_threshold == 0 && w.table.delta_cnt == 0

write_delta_ok :
    (io : Io) (w : World) (fp : File) (bs : Bytes)
    → IsCalm io
    → w.table.current_delta_fp ≡ some fp
    → fp.is_open ≡ true
    → write_delta io bs w
      ≡ ok tt (set_table (λ t. record t { disk = append_file fp.path bs t.disk }) w)
unfolding write_delta
write_delta_ok io w fp bs c e o = ground (arith, c.writes)

-- The table after a delta in the file `fp`.
abbrev pub stored : ℕ → Bytes → File → TableBackup → TableBackup
stored now msg fp t =
    let u = count_delta t in
    record u { disk = append_file fp.path (frame msg) u.disk; last_written_message = some now }

-- The test in front of `rotateFile`.
abbrev pub is_full : TableBackup → Bool
is_full t = leb t.cfg.deltas_per_file t.delta_cnt || not (is_some t.current_delta_fp)

pub rotated_current :
    (io : Io) (lsn : ℕ) (t : TableBackup)
    → (rotated io lsn t).current_delta_fp ≡ some (new_file io lsn t)
rotated_current io lsn t = ground arith

pub rotated_cfg : (io : Io) (lsn : ℕ) (t : TableBackup) → (rotated io lsn t).cfg ≡ t.cfg
rotated_cfg io lsn t = ground arith

module _ (io : Io) (c : IsCalm io) (now : ℕ) (msg : Bytes) where
  store_delta_ok :
      (w : World) (fp : File)
      → w.table.current_delta_fp ≡ some fp
      → fp.is_open ≡ true
      → w.table.cfg.backup_threshold ≢ 0
      → Inv w.queue
      → (q : Queue ℕ) × (store_delta io now msg w
          ≡ ok (length msg + 8) (record { table = stored now msg fp w.table; queue = q }))
        × Inv q
  unfolding store_delta
  store_delta_ok w fp e o h i =
      let (q, r, i') = queue_if_due_ok w h i in
      let w2 = record w { table = count_delta w.table; queue = q } in
      (q, ground (arith, r, write_delta_ok io w2 fp (frame msg) c e o, c.syncs), i')

  pub save_in_new :
      (lsn : ℕ) (w : World)
      → is_full w.table ≡ true
      → IsUsable w.table
      → w.table.cfg.backup_threshold ≢ 0
      → length w.table.archive_files < archiver_buffer
      → Inv w.queue
      → (q : Queue ℕ) × (save_raw_message io now msg lsn w
          ≡ ok (length msg + 8) (record {
            table = stored now msg (new_file io lsn w.table) (rotated io lsn w.table);
            queue = q;
          }))
        × Inv q
  unfolding save_raw_message
  save_in_new lsn w f u h room i =
      let (q, e, i') =
        store_delta_ok (set_table (rotated io lsn) w) (new_file io lsn w.table)
          (rotated_current io lsn w.table) refl (rw (rotated_cfg io lsn w.table) h) i in
      (q, ground (arith, f, rotate_file_ok io c lsn w u room, e), i')

  pub save_in_old :
      (lsn : ℕ) (w : World) (fp : File)
      → is_full w.table ≡ false
      → w.table.current_delta_fp ≡ some fp
      → fp.is_open ≡ true
      → w.table.cfg.backup_threshold ≢ 0
      → Inv w.queue
      → (q : Queue ℕ) × (save_raw_message io now msg lsn w
          ≡ ok (length msg + 8) (record { table = stored now msg fp w.table; queue = q }))
        × Inv q
  unfolding save_raw_message
  save_in_old lsn w fp f e o h i =
      let (q, r, i') = store_delta_ok w fp e o h i in (q, ground (arith, f, r), i')
