-- ===== src/LogicalBackup.antt =====
-- pkg/logicalbackup/logicalbackup.go: the handler of replication messages and the replication loop.
-- The tables are behind the interface `TableBackuper`; a table is known by its number, as two oids
-- may share one. `Io` holds the answers of pgx and of the file system, and the order in which Go
-- ranges over a map. The log and the texts around errors are not modelled.
pub mod Commits
pub mod Confirmed
pub mod Laws
pub mod Reports
pub mod Rows
pub mod Startup
mod State
pub mod Wire
pub mod Workers
pub mod Status
pub mod Stream
pub mod Tables
pub mod Transaction
pub mod Transactions
unfoldable pub use State.*
use logical_backup.Common.{
  ℕ, ◌+◌, ◌%◌, ◌^◌, Bool, true, false, not, ◌&&◌, ◌||◌, List, [], ◌∷◌, ◌++◌, Option, none, some,
  ◌==◌, if◌then◌else◌,
}
use logical_backup.Common.Assoc.{Map, lookup, insert, delete}
use logical_backup.Common.Bytes.{Bytes}
use logical_backup.Common.Exec.{
  Step, ok, err, panic, blocked, Exec, ◌>>=◌, ◌>>◌, get, modify, done, fail, pure, when, guard,
}
use logical_backup.Common.Hex.{bytes_eq}
use logical_backup.Common.Int.{ℤ, pos}
use logical_backup.Common.Outcome
use logical_backup.Common.Outcome.{Outcome}
use logical_backup.Config.{Config}
use logical_backup.Decoder
use logical_backup.Message
use logical_backup.Message.{Identifier, Relation, Begin, Commit, TypeInfo, Message}

module _ (T : TableBackuper) where
  open T use {Store, Err, save_raw_message, truncate, create}

  abbrev pub M : Type 0 → Type 0
  M A = Exec (LogicalBackup Store) (Error Err) A

  -- A call of a table's method.
  abbrev pub lifted :
      {A : Type 0}
      → Step Store Err A
      → LogicalBackup Store
      → Step (LogicalBackup Store) (Error Err) A
  lifted (ok a s) b = ok a (record b { store = s })
  lifted (err e s) b = err (table_error e) (record b { store = s })
  lifted panic b = panic
  lifted blocked b = blocked

  abbrev pub call : {A : Type 0} → Exec Store Err A → M A
  call f b = lifted (f b.store) b

  abbrev pub written : ℕ → LogicalBackup Store → LogicalBackup Store
  written ln b = record b { bytes_written = (b.bytes_written + ln) % 2 ^ 64 }

  -- `ln, err := bt.SaveRawMessage(raw, b.flushLSN)`, and `b.bytesWritten += ln`.
  unfoldable pub save : ℕ → Bytes → M (Unit {0})
  save t raw = do b ← get; ln ← call (save_raw_message t raw b.flush_lsn); modify (written ln)

  -- `b.txBeginRelMsg[tableOID] = struct{}{}`: a write to a nil map panics.
  unfoldable pub mark_begun : ℕ → M (Unit {0})
  mark_begun oid b = elim b.tx_begin_rel_msg [
    | none ↦ panic
    | some begun ↦ ok tt (record b { tx_begin_rel_msg = some (begun ++ oid ∷ []) })
  ]

  abbrev pub has_begun : ℕ → Option (List ℕ) → Bool
  has_begun oid none = false
  has_begun oid (some begun) = member oid begun

  -- The first message of a table in a transaction is preceded by the transaction's begin message.
  unfoldable pub save_begin : ℕ → ℕ → M (Unit {0})
  save_begin oid t = do
    b ← get
    when (not (has_begun oid b.tx_begin_rel_msg)) (save t b.begin_msg >> mark_begun oid)

  unfoldable pub save_type : ℕ → M (Unit {0})
  save_type t b = elim b.type_msg [
    | none ↦ ok tt b
    | some raw ↦ (save t raw >> modify (λ c. record c { type_msg = none })) b
  ]

  -- `saveRawMessage`: nothing is saved for a table that is not tracked.
  unfoldable pub save_message : ℕ → Bytes → M (Unit {0})
  save_message oid raw b = elim (lookup oid b.backup_tables) [
    | none ↦ ok tt b
    | some t ↦ (do save_begin oid t; save_type t; save t raw) b
  ]

  -- `b.relations[tblName] = v` and `b.relationNames[v.OID] = tblName`
  abbrev pub know_relation : Relation → LogicalBackup Store → LogicalBackup Store
  know_relation v b = record b {
    relations = insert_relation v.identifier v b.relations;
    relation_names = insert v.oid v.identifier b.relation_names;
  }

  unfoldable pub track_new : Relation → M (Unit {0})
  track_new v b = elim (lookup v.oid b.backup_tables) [
    | some t ↦ ok tt b
    | none ↦
        when b.cfg.track_new_tables
          (do
            t ← call (create v.identifier)
            modify (λ c. record c { backup_tables = insert v.oid t c.backup_tables }))
          b
  ]

  -- A relation whose name is not known: renamed if its oid is, and new otherwise.
  unfoldable pub unknown_name : Relation → M (Unit {0})
  unknown_name v b = elim (lookup v.oid b.relation_names) [
    | some old ↦ save_message v.oid v.raw (record b {
      relations = delete_relation old b.relations;
      relation_names = delete v.oid b.relation_names;
    })
    | none ↦ track_new v b
  ]

  -- What an error leaves: Go goes on to the end of the case with `err` set.
  abbrev pub finally :
      (LogicalBackup Store → LogicalBackup Store)
      → Step (LogicalBackup Store) (Error Err) (Unit {0})
      → Step (LogicalBackup Store) (Error Err) (Unit {0})
  finally f (ok a b) = ok a (f b)
  finally f (err e b) = err e (f b)
  finally f panic = panic
  finally f blocked = blocked

  -- A relation whose name is known under another oid was dropped and created again.
  unfoldable pub recreated : Relation → Relation → M (Unit {0})
  recreated old v b = elim (lookup old.oid b.backup_tables) [
    | none ↦ ok tt b
    | some t ↦ finally (know_relation v) (
        finally (λ c. record c { backup_tables = insert v.oid t c.backup_tables })
          (call (truncate t) b))
  ]

  unfoldable pub handle_relation : Relation → M (Unit {0})
  handle_relation v b = elim (lookup_relation v.identifier b.relations) [
    | none ↦ finally (know_relation v) (unknown_name v b)
    | some old ↦
        if old.oid == v.oid
        then finally (know_relation v) (save_message v.oid v.raw b)
        else recreated old v b
  ]

  -- The two calls of Encode, which write a part of the text if they fail.
  unfoldable pub write_state : Io → M (Unit {0})
  write_state io = modify λ b. record b {
    state_file =
        some (encoded io.encode_state_ok io.cut_state (state_yaml io io.state_time b.flush_lsn));
  }

  unfoldable pub write_archive_state : Io → M (Unit {0})
  write_archive_state io = modify λ b. record b {
    archive_state_file =
        some
          (encoded io.encode_archive_ok io.cut_archive (state_yaml io io.archive_time b.flush_lsn));
  }

  -- `storeRestartLSN`: both files are truncated before either is written.
  unfoldable pub store_restart_lsn : Io → M (Unit {0})
  store_restart_lsn io = do
    guard io.open_state_ok store_failed
    modify (λ b. record b { state_file = some [] })
    guard io.open_archive_ok store_failed
    modify (λ b. record b { archive_state_file = some [] })
    write_state io
    guard io.encode_state_ok store_failed
    write_archive_state io
    guard io.encode_archive_ok store_failed

  unfoldable pub send_status : Io → M (Unit {0})
  send_status io = do
    modify (λ b. record b { msg_cnt = no_counts; bytes_written = 0 })
    guard io.new_status_ok status_failed
    guard io.send_ok status_failed
    modify (λ b. record b { statuses = b.flush_lsn ∷ b.statuses })
    b ← get
    when (not (b.stored_flush_lsn == b.flush_lsn)) (store_restart_lsn io)
    modify (λ c. record c { stored_flush_lsn = c.flush_lsn })

  -- The loop over `txBeginRelMsg`: a table that is not there is a nil interface. An error ends it.
  unfoldable pub save_commit : Bytes → List ℕ → M (Unit {0})
  save_commit raw [] b = ok tt b
  save_commit raw (oid ∷ oids) b =
      let rest = save_commit raw oids in
      elim (lookup oid b.backup_tables) [ none ↦ panic | some t ↦ (save t raw >> rest) b ]

  abbrev pub begun_tables : Option (List ℕ) → List ℕ
  begun_tables none = []
  begun_tables (some begun) = begun

  unfoldable pub handle_commit : Io → Commit → M (Unit {0})
  handle_commit io v = do
    b ← get
    save_commit v.raw (io.range (begun_tables b.tx_begin_rel_msg))
    when b.cfg.send_status_on_commit (send_status io)

  unfoldable pub handle_begin : Begin → M (Unit {0})
  handle_begin v = modify λ b. record b {
    last_tx_id = v.xid;
    flush_lsn = v.final_lsn;
    tx_begin_rel_msg = some [];
    begin_msg = v.raw;
  }

  unfoldable pub handle_type : TypeInfo → M (Unit {0})
  handle_type v b = elim (lookup v.id b.types) [
    | none ↦ ok tt (record b { types = insert v.id v b.types; type_msg = some v.raw })
    | some old ↦ ok tt (record b { type_msg = some v.raw })
  ]

  abbrev pub count_insert : LogicalBackup Store → LogicalBackup Store
  count_insert b = record b { msg_cnt = record b.msg_cnt { inserts = b.msg_cnt.inserts + 1 } }

  abbrev pub count_update : LogicalBackup Store → LogicalBackup Store
  count_update b = record b { msg_cnt = record b.msg_cnt { updates = b.msg_cnt.updates + 1 } }

  abbrev pub count_delete : LogicalBackup Store → LogicalBackup Store
  count_delete b = record b { msg_cnt = record b.msg_cnt { deletes = b.msg_cnt.deletes + 1 } }

  -- `handler`
  unfoldable pub handler : Io → Message → M (Unit {0})
  handler io (Message.relation v) = handle_relation v
  handler io (Message.insert v) = modify count_insert >> save_message v.relation_oid v.raw
  handler io (Message.update v) = modify count_update >> save_message v.relation_oid v.raw
  handler io (Message.delete v) = modify count_delete >> save_message v.relation_oid v.raw
  handler io (Message.begin v) = handle_begin v
  handler io (Message.commit v) = handle_commit io v
  handler io (Message.origin v) = done
  handler io (Message.truncate v) = done
  handler io (Message.type v) = handle_type v

  -- `decoder.Parse`, where every error ends the process by `log.Fatalf`.
  abbrev pub handle_parsed : Io → Outcome Decoder.Error Message → M (Unit {0})
  handle_parsed io (Outcome.ok m) = handler io m
  handle_parsed io (Outcome.err e) = fail (invalid_message e)
  handle_parsed io Outcome.panic = λ b. panic

  unfoldable pub handle_wal : Io → Option Bytes → M (Unit {0})
  handle_wal io none = done
  handle_wal io (some wal_data) = handle_parsed io (Decoder.parse wal_data)

  unfoldable pub handle_heartbeat : Io → Option ℕ → M (Unit {0})
  handle_heartbeat io none = done
  handle_heartbeat io (some reply_requested) = when (reply_requested == 1) (send_status io)

  -- The loop of `startReplication`, over what its rounds meet. `err` is the end of the process.
  unfoldable pub replicate : List (Io × Event) → M (Unit {0})
  replicate [] = done
  replicate ((io, tick) ∷ es) = send_status io >> replicate es
  replicate ((io, arrives wal beat) ∷ es) =
      handle_wal io wal >> (handle_heartbeat io beat >> replicate es)
  replicate ((io, nothing) ∷ es) = replicate es
  replicate ((io, fails) ∷ es) = fail replication_failed
  replicate ((io, cancelled) ∷ es) = done
