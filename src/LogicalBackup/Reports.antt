-- ===== src/LogicalBackup/Reports.antt =====
-- A status report that is accepted.
use logical_backup.Common.{
  ◌≡◌, refl, ◌⊎◌, inl, inr, true, false, ◌∷◌, some, ◌==◌, arith, Bool-cases,
}
use logical_backup.Common.Exec.{ok}
use logical_backup.Config.{Config}
use logical_backup.LogicalBackup.{
  TableBackuper, LogicalBackup, Io, no_counts, state_yaml, send_status, write_state,
  write_archive_state, store_restart_lsn,
}

-- The server and the system accept the report.
pub record Accepts (io : Io) : Type 0 where
  pub status : io.new_status_ok ≡ true
  pub sends : io.send_ok ≡ true
  pub state_opens : io.open_state_ok ≡ true
  pub archive_opens : io.open_archive_ok ≡ true
  pub state_written : io.encode_state_ok ≡ true
  pub archive_written : io.encode_archive_ok ≡ true

-- No report is sent on commit, or it is accepted.
abbrev pub CanReport : Io → Config → Type 0
CanReport io cfg = (cfg.send_status_on_commit ≡ false) ⊎ Accepts io

-- What a report leaves as it is.
pub record Same {S : Type 0} (b b' : LogicalBackup S) : Type 0 where
  pub store_kept : b'.store ≡ b.store
  pub tables_kept : b'.backup_tables ≡ b.backup_tables
  pub cfg_same : b'.cfg ≡ b.cfg
  pub relations_same : b'.relations ≡ b.relations
  pub type_same : b'.type_msg ≡ b.type_msg
  pub lsn_same : b'.flush_lsn ≡ b.flush_lsn

pub Same-refl : {S : Type 0} (b : LogicalBackup S) → Same b b
Same-refl b = record {
  store_kept = refl;
  tables_kept = refl;
  cfg_same = refl;
  relations_same = refl;
  type_same = refl;
  lsn_same = refl;
}

module _ (T : TableBackuper) where
  pub send_status_ok :
      (io : Io) (b : LogicalBackup T.Store)
      → Accepts io
      → (b' : LogicalBackup T.Store) × (send_status T io b ≡ ok tt b')
        × Same b b'
        × (b'.statuses ≡ b.flush_lsn ∷ b.statuses)
  unfolding send_status store_restart_lsn write_state write_archive_state
  send_status_ok io b a =
      let reported = record b {
        msg_cnt = no_counts;
        bytes_written = 0;
        statuses = b.flush_lsn ∷ b.statuses;
        stored_flush_lsn = b.flush_lsn;
      } in
      elim (Bool-cases (b.stored_flush_lsn == b.flush_lsn)) [
        | inl e ↦ (
          reported,
          ground (arith, e, a.status, a.sends),
          record {
            store_kept = refl;
            tables_kept = refl;
            cfg_same = refl;
            relations_same = refl;
            type_same = refl;
            lsn_same = refl;
          },
          refl,
        )
        | inr e ↦ (
          record reported {
            state_file = some (state_yaml io io.state_time b.flush_lsn);
            archive_state_file = some (state_yaml io io.archive_time b.flush_lsn);
          },
          ground (
            arith, e, a.status, a.sends, a.state_opens, a.archive_opens, a.state_written,
            a.archive_written,
          ),
          record {
            store_kept = refl;
            tables_kept = refl;
            cfg_same = refl;
            relations_same = refl;
            type_same = refl;
            lsn_same = refl;
          },
          refl,
        )
      ]
