-- ===== src/LogicalBackup/Tables/Disk.antt =====
-- What the handler leaves in the delta files of pkg/tablebackup.
use mathlib.Core.Path.{subst}
use logical_backup.Common.{
  sym, ap, ◌∙◌, map, All, ℕ, ◌*◌, ◌≡◌, ◌≢◌, false, List, ◌++◌, none, some, collect,
}
use logical_backup.Common.Assoc.{lookup}
use logical_backup.Common.Exec.{ok}
use logical_backup.LogicalBackup.{LogicalBackup, Io, Event, replicate}
use logical_backup.LogicalBackup.Stream.{Injective}
use logical_backup.LogicalBackup.Tables.{Tables, Setup, tables}
use logical_backup.LogicalBackup.Tables.Lawful.{AllReady, lawful_tables}
use logical_backup.LogicalBackup.Reports.{CanReport}
use logical_backup.LogicalBackup.Rows.{Ranges, handle_all}
use logical_backup.Decoder.Wire.{IsWire, encode}
use logical_backup.LogicalBackup.Wire.{
  IsQuiet, wal_data, replicate-handle_all, read_transaction, as_read-on_wire, row_count-read,
  InOrder-read, sent, gain-read,
}
use logical_backup.TableBackup.Log.Saves.{Ready}
use logical_backup.LogicalBackup.Transactions.{
  Transaction, on_wire, row_count, InOrder, gain, transactions,
}
use logical_backup.TableBackup.{frame}
use logical_backup.TableBackup.Calls.{IsCalm}
use logical_backup.TableBackup.Log.Steps.{log}

-- The handler over the delta files: if the system calls succeed, then after any sequence of whole
-- transactions whose positions do not fall, the handler has returned without an error, and the
-- delta files of each tracked table hold, behind all that they held, exactly the frames of the
-- table's part of each transaction in order: the begin message, the table's messages, and the
-- commit message, or nothing if there is no message of it. The files of any other table hold what
-- they held. Condition: between begin and commit there are rows and known relations only, each
-- table's files are in order and it has room for three times as many messages, the queue is well
-- formed, different oids have different tables, no type message is pending, `range` meets each key
-- of the map once, and a report on commit, if one is sent, is accepted.
pub transactions_on_disk :
    (u : Setup) (io : Io) (lsn : ℕ) (xs : List Transaction) (b : LogicalBackup Tables)
    → IsCalm u.io
    → u.io.stat_is_exist ≡ false
    → Ranges io.range
    → Injective b.backup_tables
    → AllReady (3 * row_count xs) lsn b.store
    → b.type_msg ≡ none
    → CanReport io b.cfg
    → InOrder b.relations lsn xs
    → (b' : LogicalBackup Tables) × (handle_all (tables u) io (collect on_wire xs) b ≡ ok tt b')
      × ((o t : ℕ)
          → lookup o b.backup_tables ≡ some t
          → log (b'.store.table t) ≡ log (b.store.table t) ++ collect frame (collect (gain o) xs))
      × ((t : ℕ)
          → ((o : ℕ) → lookup o b.backup_tables ≢ some t)
          → log (b'.store.table t) ≡ log (b.store.table t))
transactions_on_disk u io lsn xs b calm stat range =
    transactions (tables u) (lawful_tables u calm stat) io range lsn xs b

-- From the bytes of the server to the bytes of the delta files: whatever sequence of whole
-- transactions the server sends, each message encoded as the protocol says and parsed by the
-- decoder, with timeouts and heartbeats that ask for no reply anywhere in between, the loop of
-- `startReplication` returns without an error, and the delta files of each tracked table hold,
-- behind all that they held, exactly the frames of the bytes that were sent for it, in order: of
-- each transaction with a message of the table the begin message, these messages, and the commit
-- message. The files of any other table hold what they held. Condition: positions do not fall,
-- between begin and commit there are rows and relations that are known under their names and oids,
-- the protocol can express the messages, the system calls succeed, each table's files are in order
-- and it has room for three times as many messages as stand between begin and commit, the queue is
-- well formed, different oids have different tables, no type message is pending, `range` meets each
-- key of the map once, and a report on commit, if one is sent, is accepted.
pub replicated_to_disk :
    (u : Setup) (io : Io) (lsn : ℕ) (xs : List Transaction) (es : List Event)
    (b : LogicalBackup Tables)
    → IsCalm u.io
    → u.io.stat_is_exist ≡ false
    → Ranges io.range
    → Injective b.backup_tables
    → AllReady (3 * row_count xs) lsn b.store
    → b.type_msg ≡ none
    → CanReport io b.cfg
    → InOrder b.relations lsn xs
    → All IsWire (collect on_wire xs)
    → All IsQuiet es
    → wal_data es ≡ map encode (collect on_wire xs)
    → (b' : LogicalBackup Tables) × (replicate (tables u) (map (λ e. (io, e)) es) b ≡ ok tt b')
      × ((o t : ℕ)
          → lookup o b.backup_tables ≡ some t
          → log (b'.store.table t) ≡ log (b.store.table t) ++ collect frame (collect (sent o) xs))
      × ((t : ℕ)
          → ((o : ℕ) → lookup o b.backup_tables ≢ some t)
          → log (b'.store.table t) ≡ log (b.store.table t))
replicated_to_disk u io lsn xs es b calm stat range inj (i, ready) no_type quiet order wire quiets
      sends =
    let (b', e, logs, others) =
      transactions_on_disk u io lsn (map read_transaction xs) b calm stat range inj
        (
          i,
          λ t. subst (λ n. Ready (3 * n) lsn (b.store.table t)) (sym (row_count-read xs)) (ready t),
        )
        no_type quiet (InOrder-read b.relations lsn xs order) in
    (
      b',
      replicate-handle_all (tables u) io es (collect on_wire xs) b quiets sends wire
          ∙ ap (λ ms. handle_all (tables u) io ms b) (as_read-on_wire xs)
          ∙ e,
      λ o t h.
          logs o t h
          ∙ ap (λ l. log (b.store.table t) ++ collect frame l)
              (gain-read b.relations o lsn xs order),
      others,
    )
