-- ===== src/Tests/Startup.antt =====
-- Examples for the start in pkg/logicalbackup/logicalbackup.go.
use logical_backup.Common.{
  ℕ, zero, suc, ◌≡◌, refl, ap, ◌∙◌, inl, inr, true, false, List, [], ◌∷◌, ◌++◌, map, Option, some,
  none, ◌==◌, if◌then◌else◌, arith,
}
use logical_backup.Common.Assoc.{lookup}
use logical_backup.Common.Bytes.{Bytes}
use logical_backup.Common.Exec.{Exec, ok, err}
use logical_backup.Common.Hex.{bytes_eq}
use logical_backup.LogicalBackup.{
  LogicalBackup, Io, state_yaml, write_state, write_archive_state, store_failed, store_restart_lsn,
  send_status, member,
}
use logical_backup.LogicalBackup.Startup.{
  Answers, Slot, lsn_failed, logical_slot_type, field, state_text, read_restart_lsn, start_old_slot,
  new, fresh, queue_basebackup_tables,
}
use logical_backup.LogicalBackup.Startup.Positions.{
  Prepares, Resumes, new_resumes, restart_resumes, new_creates,
}
use logical_backup.LogicalBackup.Startup.Restart.{IsCalm, read_after_failed_store, restart_forgets}
use logical_backup.LogicalBackup.Startup.Tables.{Creates, is_tracked}
use logical_backup.LogicalBackup.Workers.{
  Wake, canceled, waits, gone, for_tables, background_basebackuper, awaited, initial_backups,
}
use logical_backup.Message.{Identifier}
use logical_backup.Queue.{Queue, empty}
use logical_backup.Tests.LogicalBackup.{logs, io, state, put_text, put_fields}
use logical_backup.Tests.Samples.{config, orders}

-- A position as one byte.
abbrev one_byte : Bytes → Option ℕ
one_byte [] = none
one_byte (c ∷ cs) = some c

abbrev slot : Slot
slot = record { lsn = 48 ∷ []; slot_type = logical_slot_type; database = b'd' ∷ [] }

abbrev tables : List (ℕ × Identifier)
tables = (10, orders) ∷ (20, orders) ∷ []

abbrev cons_head : ℕ → List Bytes → List Bytes
cons_head c [] = []
cons_head c (t ∷ ts) = (c ∷ t) ∷ ts

abbrev get_texts : Bytes → List Bytes
get_texts [] = []
get_texts (zero ∷ s) = [] ∷ get_texts s
get_texts (suc c ∷ s) = cons_head c (get_texts s)

abbrev get_fields : List Bytes → List (Bytes × Bytes)
get_fields [] = []
get_fields (key ∷ []) = []
get_fields (key ∷ text ∷ texts) = (key, text) ∷ get_fields texts

get_texts-put_text : (t s : Bytes) → get_texts (put_text t s) ≡ t ∷ get_texts s
get_texts-put_text [] s = refl
get_texts-put_text (c ∷ t) s = ap (cons_head c) (get_texts-put_text t s)

get_fields-put_fields :
    (fields : List (Bytes × Bytes)) → get_fields (get_texts (put_fields fields)) ≡ fields
get_fields-put_fields [] = refl
get_fields-put_fields ((key, text) ∷ fields) =
    ap get_fields (
      get_texts-put_text key (put_text text (put_fields fields))
      ∙ ap (◌∷◌ key) (get_texts-put_text text (put_fields fields)))
    ∙ ap (◌∷◌ (key, text)) (get_fields-put_fields fields)

-- A server with two tables and a slot, and a state file.
abbrev answers : Answers
answers = record {
  temp_dir_ok = true;
  connect_ok = true;
  identity_rows = some (some (b'o' ∷ []) ∷ []);
  alter_ok = λ t. true;
  has_publication = some true;
  publish_ok = true;
  slot = some (some (some slot));
  database = b'd' ∷ [];
  table_rows = some (map some tables);
  replication_ok = true;
  created = some (some (16 ∷ []));
  state_open_ok = true;
  decode_yaml = λ text. get_fields (get_texts text);
  parse_lsn = one_byte;
}

abbrev answers_without_slot : Answers
answers_without_slot = record answers { slot = some none }

prepared : Prepares answers tables
prepared = record {
  identities = (b'o' ∷ []) ∷ [];
  makes = refl;
  connects = refl;
  lists = refl;
  alters = λ t. refl;
  publishes = inl refl;
  tables = refl;
  replicates = refl;
}

prepared_without_slot : Prepares answers_without_slot tables
prepared_without_slot = record {
  identities = (b'o' ∷ []) ∷ [];
  makes = refl;
  connects = refl;
  lists = refl;
  alters = λ t. refl;
  publishes = inl refl;
  tables = refl;
  replicates = refl;
}

creates : Creates logs
creates = λ i s. (0, s, refl)

abbrev file_64 : Bytes
file_64 = state_yaml io io.state_time 64

text_64 : state_text answers file_64 ≡ 64 ∷ []
unfolding state_text state_yaml field bytes_eq
text_64 = refl

reads_64 :
    (b : LogicalBackup (ℕ → Bytes))
    → b.state_file ≡ some file_64
    → read_restart_lsn logs answers b ≡ ok 64 b
unfolding read_restart_lsn state_text state_yaml field bytes_eq
reads_64 b e = rw e refl

resumes : Resumes logs answers io 48 64 (some file_64)
unfolding bytes_eq
resumes = record {
  slot = slot;
  found = refl;
  is_logical = refl;
  same_database = refl;
  confirms = refl;
  saves = inr (file_64, refl, refl, ap one_byte text_64);
}

calm_io : IsCalm io
calm_io = record {
  makes = refl;
  sends = refl;
  opens = refl;
  opens_archive = refl;
  encodes = refl;
  encodes_archive = refl;
}

new_resumes_example :
    (b : LogicalBackup (ℕ → Bytes)) × (new logs answers io
        (fresh logs config (λ t. []) (some file_64) (some file_64))
      ≡ ok tt b)
    × (b.start_lsn ≡ (if 64 == 0 then 48 else 64))
    × (b.stored_flush_lsn ≡ 64)
    × (b.flush_lsn ≡ 0)
    × ((o : ℕ) → is_tracked (lookup o b.backup_tables) ≡ member o (map (λ r. r.0) tables))
new_resumes_example =
    new_resumes logs answers io config (λ t. []) (some file_64) (some file_64) tables 48 64 prepared
      creates resumes (inr refl)

new_creates_example :
    (b : LogicalBackup (ℕ → Bytes)) × (new logs answers_without_slot io
        (fresh logs config (λ t. []) none none)
      ≡ ok tt b)
    × (b.start_lsn ≡ 16)
    × (b.stored_flush_lsn ≡ 0)
    × (b.state_file ≡ some (state_yaml io io.state_time 0))
    × (b.archive_state_file ≡ some (state_yaml io io.archive_time 0))
new_creates_example =
    new_creates logs answers_without_slot io config (λ t. []) none none tables (16 ∷ []) 16
      prepared_without_slot creates refl refl refl (inr refl) calm_io

-- A position that has been flushed.
abbrev flushed : LogicalBackup (ℕ → Bytes)
flushed = record state { flush_lsn = 64 }

abbrev flushed_and_stored : LogicalBackup (ℕ → Bytes)
flushed_and_stored = record flushed {
  state_file = some file_64;
  archive_state_file = some (state_yaml io io.archive_time 64);
}

stored_64 : store_restart_lsn logs io flushed ≡ ok tt flushed_and_stored
unfolding store_restart_lsn write_state write_archive_state
stored_64 = refl

logical_slot : bytes_eq slot.slot_type logical_slot_type ≡ true
unfolding bytes_eq
logical_slot = refl

slot_database : bytes_eq slot.database answers.database ≡ true
unfolding bytes_eq
slot_database = refl

restart_resumes_example :
    (b : LogicalBackup (ℕ → Bytes)) × (new logs answers io (
        fresh logs config
          (λ t. [])
          flushed_and_stored.state_file
          flushed_and_stored.archive_state_file)
      ≡ ok tt b)
    × (b.start_lsn ≡ 64)
    × (b.stored_flush_lsn ≡ 64)
restart_resumes_example =
    restart_resumes logs answers io io flushed flushed_and_stored config (λ t. []) tables slot 48
      prepared creates stored_64 (omega arith) get_fields-put_fields refl refl refl logical_slot
      slot_database refl (inr refl)

-- The disk of the archive is full.
abbrev no_archive : Io
no_archive = record io { open_archive_ok = false }

read_after_failed_store_example :
    (b' : LogicalBackup (ℕ → Bytes)) × (store_restart_lsn logs no_archive flushed
      ≡ err store_failed b')
    × ((c : LogicalBackup (ℕ → Bytes))
        → c.state_file ≡ b'.state_file
        → read_restart_lsn logs answers c ≡ err lsn_failed c)
read_after_failed_store_example =
    read_after_failed_store logs answers no_archive flushed refl refl refl refl refl

-- What a new process finds on disk.
abbrev found : LogicalBackup (ℕ → Bytes)
found = record state { state_file = some file_64; archive_state_file = some file_64 }

restart_forgets_example :
    (b1 : LogicalBackup (ℕ → Bytes)) × (b2 : LogicalBackup (ℕ → Bytes)) × (start_old_slot logs
        answers found
      ≡ ok tt b1)
    × (b1.start_lsn ≡ 64)
    × (send_status logs io b1 ≡ ok tt b2)
    × (b2.statuses ≡ 0 ∷ [])
    × (b2.state_file ≡ some (state_yaml io io.state_time 0))
    × (b2.archive_state_file ≡ some (state_yaml io io.archive_time 0))
restart_forgets_example =
    restart_forgets logs answers io 64 found (reads_64 found refl) (ground arith) refl calm_io

-- A base backup that fails, behind its entry in a list.
abbrev failing : ℕ → Exec (List ℕ) (Unit {0}) (Unit {0})
failing t done_before = err tt (done_before ++ t ∷ [])

both_tried : for_tables failing (7 ∷ 8 ∷ []) [] ≡ some (7 ∷ 8 ∷ [])
unfolding for_tables
both_tried = refl

initial_backups_example :
    (q : Queue ℕ) × (queue_basebackup_tables (7 ∷ 8 ∷ []) empty ≡ some q)
    × (background_basebackuper failing 3 [] q [] ≡ some (waits 0, awaited empty, 7 ∷ 8 ∷ []))
    × ((wakes : List Wake)
        → background_basebackuper failing 3 (canceled ∷ wakes) q []
          ≡ some (gone, awaited empty, 7 ∷ 8 ∷ []))
initial_backups_example = initial_backups failing (7 ∷ 8 ∷ []) [] (7 ∷ 8 ∷ []) both_tried
