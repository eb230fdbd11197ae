-- ===== src/Tests/LogicalBackup.antt =====
-- Examples for the handler of pkg/logicalbackup/logicalbackup.go.
use logical_backup.Common.{
  suc, inl, ℕ, ◌≡◌, refl, ◌≢◌, true, List, [], ◌∷◌, ◌++◌, map, collect, some, none, ◌==◌,
  if◌then◌else◌, arith, ==_refl,
}
use logical_backup.Common.Assoc.{lookup}
use logical_backup.Common.Bytes.{Bytes}
use logical_backup.Common.Exec.{ok}
use logical_backup.Common.Int.{pos}
use logical_backup.Message.{Begin, Commit, Relation, Message}
use logical_backup.LogicalBackup.{
  lookup_relation, state_yaml, send_status, TableBackuper, LogicalBackup, Io, no_counts,
}
use logical_backup.LogicalBackup.Confirmed.{reported_saved}
use logical_backup.LogicalBackup.Reports.{Accepts}
use logical_backup.Common.Hex.{bytes_eq}
use logical_backup.LogicalBackup.Stream.Names.{IsKnown}
use logical_backup.LogicalBackup.Laws.{Lawful}
use logical_backup.LogicalBackup.Status.{Reported, send_status_reports}
use logical_backup.LogicalBackup.Stream.{Injective, raws, body, whole}
use logical_backup.LogicalBackup.Rows.{row, handle_all}
use logical_backup.LogicalBackup.Transaction.{transaction}
use logical_backup.LogicalBackup.Transactions.{Transaction, on_wire, gain}
use logical_backup.Tests.Samples.{config, orders}

-- Tables that are nothing but their logs.
abbrev add : ℕ → Bytes → (ℕ → Bytes) → ℕ → Bytes
add t msg s u = if t == u then s u ++ msg else s u

abbrev pub logs : TableBackuper
logs = record {
  Store = ℕ → Bytes;
  Err = Unit {0};
  save_raw_message = λ t msg lsn s. ok 0 (add t msg s);
  truncate = λ t s. ok tt s;
  create = λ i s. ok 0 s;
}

add-own : (t : ℕ) (msg : Bytes) (s : ℕ → Bytes) → add t msg s t ≡ s t ++ msg
add-own t msg s = rw (==_refl t) refl

add-others : (t : ℕ) (msg : Bytes) (s : ℕ → Bytes) (u : ℕ) → u ≢ t → add t msg s u ≡ s u
add-others t msg s u h = ground arith

abbrev lawful_logs : Lawful logs
lawful_logs = record {
  log = λ s. s;
  frame = λ msg. msg;
  IsReady = λ n lsn s. Unit {0};
  fewer = λ r. tt;
  later = λ h w r. tt;
  saves = λ t msg n lsn s r. (0, add t msg s, refl, tt, add-own t msg s, add-others t msg s);
}

-- A yaml of its own: each text ends in 0, and its characters are one higher.
abbrev pub put_text : Bytes → Bytes → Bytes
put_text [] rest = 0 ∷ rest
put_text (c ∷ cs) rest = suc c ∷ put_text cs rest

abbrev pub put_fields : List (Bytes × Bytes) → Bytes
put_fields [] = []
put_fields ((key, text) ∷ fields) = put_text key (put_text text (put_fields fields))

abbrev pub io : Io
io = record {
  range = λ xs. xs;
  new_status_ok = true;
  send_ok = true;
  open_state_ok = true;
  open_archive_ok = true;
  encode_state_ok = true;
  encode_archive_ok = true;
  format_lsn = λ lsn. lsn ∷ [];
  encode_yaml = put_fields;
  state_time = b't' ∷ [];
  archive_time = b'u' ∷ [];
  cut_state = λ text. [];
  cut_archive = λ text. [];
}

-- The relation of the table under the oid 10.
abbrev pub orders_relation : Relation
orders_relation = record {
  identifier = orders;
  raw = b'R' ∷ [];
  oid = 10;
  replica_identity = b'd';
  columns = [];
}

pub io-Accepts : Accepts io
io-Accepts = record {
  status = refl;
  sends = refl;
  state_opens = refl;
  archive_opens = refl;
  state_written = refl;
  archive_written = refl;
}

-- Two tables are tracked, under the oids 10 and 20.
abbrev pub state_with : {S : Type 0} → S → LogicalBackup S
state_with s = record {
  cfg = config;
  store = s;
  backup_tables = (10, 1) ∷ (20, 2) ∷ [];
  relations = (orders, orders_relation) ∷ [];
  relation_names = (10, orders) ∷ [];
  types = [];
  stored_flush_lsn = 0;
  start_lsn = 0;
  flush_lsn = 0;
  last_tx_id = pos 0;
  msg_cnt = no_counts;
  bytes_written = 0;
  tx_begin_rel_msg = none;
  begin_msg = [];
  type_msg = none;
  statuses = [];
  state_file = none;
  archive_state_file = none;
}

abbrev pub state : LogicalBackup (ℕ → Bytes)
state = state_with (λ t. [])

abbrev pub start : Begin
start = record { raw = b'B' ∷ []; final_lsn = 64; timestamp = pos 0; xid = pos 5 }

abbrev pub finish : Commit
finish = record { raw = b'C' ∷ []; flags = 0; lsn = 64; transaction_lsn = 72; timestamp = pos 0 }

abbrev pub insert_into : ℕ → ℕ → Message
insert_into oid n =
    Message.insert (record { raw = b'I' ∷ n ∷ []; relation_oid = oid; is_new = true; new_row = [] })

-- A relation that is known, and rows of the two tables, of which one is met twice, and of a table
-- that is not tracked.
abbrev pub rows : List Message
rows =
    Message.relation orders_relation
    ∷ insert_into 10 1
    ∷ insert_into 20 2
    ∷ insert_into 30 3
    ∷ insert_into 10 4
    ∷ []

pub orders_relation-IsKnown : IsKnown state.relations orders_relation
unfolding lookup_relation bytes_eq
orders_relation-IsKnown = refl

pub state-Injective : Injective state.backup_tables
unfolding lookup
state-Injective o p t h k = ground arith

-- The transaction with these rows.
abbrev first : List Transaction
first = record { start = start; rows = rows; finish = finish } ∷ []

transaction_example :
    (b' : LogicalBackup (ℕ → Bytes)) × (handle_all logs io
        (Message.begin start ∷ rows ++ Message.commit finish ∷ [])
        state
      ≡ ok tt b')
    × ((o t : ℕ)
        → lookup o state.backup_tables ≡ some t
        → b'.store t ≡ collect (λ m. m) (whole start.raw (raws o (map row rows)) finish.raw))
    × ((t : ℕ) → ((o : ℕ) → lookup o state.backup_tables ≢ some t) → b'.store t ≡ [])
transaction_example =
    transaction logs lawful_logs io start rows finish state (λ xs d. (d, refl, λ o. refl))
      state-Injective tt refl (inl refl) (orders_relation-IsKnown, (tt, (tt, (tt, (tt, tt)))))

-- A position that has to be stored.
abbrev behind : LogicalBackup (ℕ → Bytes)
behind = record state {
  stored_flush_lsn = 32;
  flush_lsn = 64;
  state_file = some (state_yaml io [] 32);
  archive_state_file = some (state_yaml io (b't' ∷ []) 32);
}

send_status_reports_example : Reported logs io behind (send_status logs io behind)
send_status_reports_example = send_status_reports logs io behind (([], refl), (b't' ∷ [], refl))

-- A report in the middle of a second transaction.
reported_saved_example :
    (b1 : LogicalBackup (ℕ → Bytes)) × (b2 : LogicalBackup (ℕ → Bytes)) × (handle_all logs io
        (collect on_wire first ++ Message.begin start ∷ insert_into 20 5 ∷ [])
        state
      ≡ ok tt b1)
    × (send_status logs io b1 ≡ ok tt b2)
    × (b2.statuses ≡ 64 ∷ b1.statuses)
    × ((o t : ℕ)
        → lookup o state.backup_tables ≡ some t
        → b2.store t
          ≡ collect
              (λ m. m)
              (collect (gain o) first ++ body start.raw (raws o (map row (insert_into 20 5 ∷ [])))))
reported_saved_example =
    reported_saved logs lawful_logs io io 0 first start (insert_into 20 5 ∷ []) state
      (λ xs d. (d, refl, λ o. refl)) io-Accepts state-Injective tt refl (inl refl)
      (omega arith, omega arith, (orders_relation-IsKnown, (tt, (tt, (tt, (tt, tt))))), tt)
      (omega arith) (omega arith) (tt, tt)
