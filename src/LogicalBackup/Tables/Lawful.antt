-- ===== src/LogicalBackup/Tables/Lawful.antt =====
-- The tables keep what is saved.
use logical_backup.Common.{
  ℕ, suc, ◌≡◌, refl, ap, ◌≢◌, ◌++◌, false, ◌==◌, arith, Bool-cases, inl, inr,
}
use logical_backup.Common.Bytes.{Bytes}
use logical_backup.Common.Exec.{ok}
use logical_backup.LogicalBackup.Laws.{Lawful}
use logical_backup.LogicalBackup.Tables.{Tables, Setup, put_table, of_table, world, tables}
use logical_backup.Queue.Invariant.{Inv}
use logical_backup.TableBackup.{TableBackup, frame}
use logical_backup.TableBackup.Calls.{IsCalm}
use logical_backup.TableBackup.Log.Saves.{Ready, Ready-less, Ready-later, save_appends}
use logical_backup.TableBackup.Log.Steps.{log}

-- The shared queue is well formed, and every table has room for as many messages.
abbrev pub AllReady : ℕ → ℕ → Tables → Type 0
AllReady n lsn s = Inv s.queue × ((t : ℕ) → Ready n lsn (s.table t))

put_table-same : (t : ℕ) (table : TableBackup) (s : ℕ → TableBackup) → put_table t table s t ≡ table
put_table-same t table s = ground arith

put_table-other :
    (t : ℕ) (table : TableBackup) (s : ℕ → TableBackup) (u : ℕ)
    → u ≢ t
    → put_table t table s u ≡ s u
put_table-other t table s u h = ground arith

module _ (u : Setup) (c : IsCalm u.io) (stat : u.io.stat_is_exist ≡ false) where
  pub tables_keep :
      (t : ℕ) (msg : Bytes) (n lsn : ℕ) (s : Tables)
      → AllReady (suc n) lsn s
      → (ln : ℕ) × (s' : Tables) × ((tables u).save_raw_message t msg lsn s ≡ ok ln s')
        × AllReady n lsn s'
        × (log (s'.table t) ≡ log (s.table t) ++ frame msg)
        × ((v : ℕ) → v ≢ t → log (s'.table v) ≡ log (s.table v))
  tables_keep t msg n lsn s (i, r) =
      let (w, e, (r', i', l)) = save_appends u.io c stat u.now msg n lsn (world t s) (r t) i in
      (
        _,
        _,
        ap (λ x. of_table t x s) e,
        (i', λ v. elim (Bool-cases (t == v)) [ inl h ↦ rw h r' | inr h ↦ rw h (Ready-less (r v)) ]),
        rw (put_table-same t w.table s.table) l,
        λ v h. rw (put_table-other t w.table s.table v h) refl,
      )

  -- The tables of pkg/tablebackup fulfil what the handler relies on, in a calm system.
  abbrev pub lawful_tables : Lawful (tables u)
  lawful_tables = record {
    log = λ s t. log (s.table t);
    frame = frame;
    IsReady = AllReady;
    fewer = λ (i, r). (i, λ t. Ready-less (r t));
    later = λ h w (i, r). (i, λ t. Ready-later h w (r t));
    saves = tables_keep;
  }
