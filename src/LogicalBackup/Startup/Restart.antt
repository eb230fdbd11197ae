-- ===== src/LogicalBackup/Startup/Restart.antt =====
-- The positions with which the backup starts, and the state files between two runs.
use logical_backup.Common.{
  ℕ, ◌≡◌, refl, ap, ◌∙◌, ◌≢◌, List, true, false, [], ◌∷◌, none, some, arith,
}
use logical_backup.Common.Bytes.{Bytes}
use logical_backup.Common.Exec.{ok, err}
use logical_backup.Common.Hex.{bytes_eq}
use logical_backup.LogicalBackup.{
  TableBackuper, LogicalBackup, Io, no_counts, store_failed, timestamp_field, current_lsn_field,
  state_yaml, write_state, write_archive_state, store_restart_lsn, send_status,
}
use logical_backup.LogicalBackup.Startup.{
  Answers, lsn_failed, field, state_text, read_restart_lsn, start_old_slot,
}

module _ (T : TableBackuper) (io : Answers) where
  -- What a decoder gives for the text that `storeRestartLSN` encodes: the position is in the field
  -- that `readRestartLSN` asks for.
  state_text-yaml :
      (files : Io) (time : Bytes) (lsn : ℕ)
      → ((fields : List (Bytes × Bytes)) → io.decode_yaml (files.encode_yaml fields) ≡ fields)
      → state_text io (state_yaml files time lsn) ≡ files.format_lsn lsn
  unfolding state_text state_yaml field bytes_eq
  state_text-yaml files time lsn d =
      ap (field current_lsn_field)
        (d ((timestamp_field, time) ∷ (current_lsn_field, files.format_lsn lsn) ∷ []))

  -- The state file of a store without an error, as the next process reads it.
  pub stored_text :
      (files : Io) (b b' : LogicalBackup T.Store)
      → store_restart_lsn T files b ≡ ok tt b'
      → ((fields : List (Bytes × Bytes)) → io.decode_yaml (files.encode_yaml fields) ≡ fields)
      → (text : Bytes) × (b'.state_file ≡ some text)
        × (state_text io text ≡ files.format_lsn b.flush_lsn)
  unfolding store_restart_lsn write_state write_archive_state
  stored_text files b b' h d =
      let text = state_yaml files files.state_time b.flush_lsn in
      (text, ground arith, state_text-yaml files files.state_time b.flush_lsn d)

  -- The state file is truncated before the archive's file is opened. If the latter fails, then the
  -- next start fails on the empty file. Condition: the state file could be opened both times, yaml
  -- sets no field from an empty file, and `pgx.ParseLSN` refuses the empty text.
  pub read_after_failed_store :
      (files : Io) (b : LogicalBackup T.Store)
      → files.open_state_ok ≡ true
      → files.open_archive_ok ≡ false
      → io.state_open_ok ≡ true
      → io.decode_yaml [] ≡ []
      → io.parse_lsn [] ≡ none
      → (b' : LogicalBackup T.Store) × (store_restart_lsn T files b ≡ err store_failed b')
        × ((c : LogicalBackup T.Store)
            → c.state_file ≡ b'.state_file
            → read_restart_lsn T io c ≡ err lsn_failed c)
  unfolding store_restart_lsn read_restart_lsn state_text field
  read_after_failed_store files b s f o d p =
      (record b { state_file = some [] }, ground arith, λ c e. rw (e, o, d, p) refl)

-- The status report and all that it stores succeed.
pub record IsCalm (files : Io) : Type 0 where
  pub makes : files.new_status_ok ≡ true
  pub sends : files.send_ok ≡ true
  pub opens : files.open_state_ok ≡ true
  pub opens_archive : files.open_archive_ok ≡ true
  pub encodes : files.encode_state_ok ≡ true
  pub encodes_archive : files.encode_archive_ok ≡ true

abbrev reported : {S : Type 0} → Io → LogicalBackup S → LogicalBackup S
reported files b = record b {
  msg_cnt = no_counts;
  bytes_written = 0;
  statuses = b.flush_lsn ∷ b.statuses;
  state_file = some (state_yaml files files.state_time b.flush_lsn);
  archive_state_file = some (state_yaml files files.archive_time b.flush_lsn);
  stored_flush_lsn = b.flush_lsn;
}

send_status_ok :
    (T : TableBackuper) (files : Io) (b : LogicalBackup T.Store)
    → b.stored_flush_lsn ≢ b.flush_lsn
    → IsCalm files
    → send_status T files b ≡ ok tt (reported files b)
unfolding send_status store_restart_lsn write_state write_archive_state
send_status_ok T files b n c =
    ground (arith, c.makes, c.sends, c.opens, c.opens_archive, c.encodes, c.encodes_archive)

abbrev restarted : {S : Type 0} → ℕ → LogicalBackup S → LogicalBackup S
restarted lsn b = record b { start_lsn = lsn; stored_flush_lsn = lsn }

start_old_slot_ok :
    (T : TableBackuper) (io : Answers) (lsn : ℕ) (b : LogicalBackup T.Store)
    → read_restart_lsn T io b ≡ ok lsn b
    → lsn ≢ 0
    → start_old_slot T io b ≡ ok tt (restarted lsn b)
unfolding start_old_slot
start_old_slot_ok T io lsn b r n = ground arith

module _ (T : TableBackuper) (io : Answers) (files : Io) where
  -- After a restart, a status report before the first transaction reports the position 0, and
  -- overwrites the position in both state files with it. Condition: the slot exists, the file has a
  -- position other than 0, no transaction has begun, and the calls of the report succeed.
  pub restart_forgets :
      (lsn : ℕ) (b : LogicalBackup T.Store)
      → read_restart_lsn T io b ≡ ok lsn b
      → lsn ≢ 0
      → b.flush_lsn ≡ 0
      → IsCalm files
      → (b1 : LogicalBackup T.Store) × (b2 : LogicalBackup T.Store) × (start_old_slot T io b
          ≡ ok tt b1)
        × (b1.start_lsn ≡ lsn)
        × (send_status T files b1 ≡ ok tt b2)
        × (b2.statuses ≡ 0 ∷ b.statuses)
        × (b2.state_file ≡ some (state_yaml files files.state_time 0))
        × (b2.archive_state_file ≡ some (state_yaml files files.archive_time 0))
  restart_forgets lsn b r n z c =
      let b1 = restarted lsn b in
      (
        b1,
        reported files b1,
        start_old_slot_ok T io lsn b r n,
        refl,
        send_status_ok T files b1 (λ e. n (e ∙ z)) c,
        ap (λ l. l ∷ b.statuses) z,
        ap (λ l. some (state_yaml files files.state_time l)) z,
        ap (λ l. some (state_yaml files files.archive_time l)) z,
      )
