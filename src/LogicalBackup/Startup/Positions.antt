-- ===== src/LogicalBackup/Startup/Positions.antt =====
-- The state in which `New` leaves the backup.
use logical_backup.Common.{
  ℕ, ◌≡◌, refl, ap, ◌∙◌, ◌≢◌, ◌⊎◌, inl, inr, Bool, true, false, not, ◌||◌, List, [], ◌∷◌, Option,
  none, some, map, length, ◌==◌, if◌then◌else◌, arith,
}
use logical_backup.Common.Assoc.{Map, lookup}
use logical_backup.Common.Bytes.{Bytes}
use logical_backup.Common.Exec.{ok}
use logical_backup.Common.Hex.{bytes_eq}
use logical_backup.Config.{Config}
use logical_backup.LogicalBackup.{
  TableBackuper, LogicalBackup, Io, member, state_yaml, write_state, write_archive_state,
  store_restart_lsn,
}
use logical_backup.LogicalBackup.Startup.{
  Answers, Slot, logical_slot_type, fresh, scan_rows, alter_tables, check_tables_replica_identities,
  init_publication, init_slot, check_slot, init_tables, create_slot, state_text, read_restart_lsn,
  start_new_slot, start_old_slot, start_slot, new,
}
use logical_backup.LogicalBackup.Startup.Restart.{IsCalm, stored_text}
use logical_backup.LogicalBackup.Startup.Tables.{Creates, is_tracked, with_tables, init_tables_ok}
use logical_backup.Message.{Identifier}

-- The answers of a start up to the slot, whose publication has the tables `rows`.
pub record Prepares (io : Answers) (rows : List (ℕ × Identifier)) : Type 0 where
  pub identities : List Bytes
  pub makes : io.temp_dir_ok ≡ true
  pub connects : io.connect_ok ≡ true
  pub lists : io.identity_rows ≡ some (map some identities)
  pub alters : (t : Bytes) → io.alter_ok t ≡ true
  pub publishes :
      (io.has_publication ≡ some true)
      ⊎ ((io.has_publication ≡ some false) × (io.publish_ok ≡ true))
  pub tables : io.table_rows ≡ some (map some rows)
  pub replicates : io.replication_ok ≡ true

scan_rows-some {ℓ} : {A : Type ℓ} (xs : List A) → scan_rows (map some xs) ≡ some xs
unfolding scan_rows
scan_rows-some [] = refl
scan_rows-some (x ∷ xs) = rw (scan_rows-some xs) refl

tracked-length : (o : ℕ) (m : Map ℕ) → is_tracked (lookup o m) ≡ true → not (length m == 0) ≡ true
unfolding lookup
tracked-length o [] e = ground arith
tracked-length o (x ∷ m) e = ground arith

-- There is a table, or new ones are tracked.
has_tables :
    (rows : List (ℕ × Identifier)) (m : Map ℕ) (track : Bool)
    → ((o : ℕ) → is_tracked (lookup o m) ≡ member o (map (λ r. r.0) rows))
    → rows ≢ [] ⊎ (track ≡ true)
    → (not (length m == 0) || track) ≡ true
unfolding member
has_tables rows m track k (inr t) = ground arith
has_tables [] m track k (inl n) = absurd (n refl)
has_tables ((oid, i) ∷ rows) m track k (inl n) =
    rw (tracked-length oid m (ground (arith, k oid))) refl

tracked_none : (o : ℕ) (x : Bool) → (x || is_tracked (lookup {V = ℕ} o [])) ≡ x
unfolding lookup
tracked_none o x = ground arith

module _ (T : TableBackuper) (io : Answers) (files : Io) where
  alter_tables_ok :
      (ts : List Bytes) (b : LogicalBackup T.Store)
      → ((t : Bytes) → io.alter_ok t ≡ true)
      → alter_tables T io ts b ≡ ok tt b
  unfolding alter_tables
  alter_tables_ok [] b h = refl
  alter_tables_ok (t ∷ ts) b h = ground (arith, h t, alter_tables_ok ts b h)

  check_identities_ok :
      (rows : List (ℕ × Identifier)) (b : LogicalBackup T.Store)
      → Prepares io rows
      → check_tables_replica_identities T io b ≡ ok tt b
  unfolding check_tables_replica_identities
  check_identities_ok rows b p =
      ground (arith, p.lists, scan_rows-some p.identities, alter_tables_ok p.identities b p.alters)

  init_publication_ok :
      (rows : List (ℕ × Identifier)) (b : LogicalBackup T.Store)
      → Prepares io rows
      → init_publication T io b ≡ ok tt b
  unfolding init_publication
  init_publication_ok rows b p = ground (arith, p.publishes)

  new_run :
      (rows : List (ℕ × Identifier)) (exists : Bool) (b b1 b2 b3 : LogicalBackup T.Store)
      → Prepares io rows
      → init_slot T io b ≡ ok exists b1
      → init_tables T io b1 ≡ ok tt b2
      → (not (length b2.backup_tables == 0) || b2.cfg.track_new_tables) ≡ true
      → start_slot T io files exists b2 ≡ ok tt b3
      → new T io files b ≡ ok tt b3
  unfolding new
  new_run rows exists b b1 b2 b3 p s t n e = ground (
    arith,
    p.makes,
    p.connects,
    p.replicates,
    check_identities_ok rows b p,
    init_publication_ok rows b p,
    s,
    t,
    n,
    e,
  )

  -- A slot that exists, with its confirmed position, and the state file: it is missing, and `saved`
  -- is 0, or it can be opened and its text has the position `saved`.
  pub record Resumes (confirmed saved : ℕ) (state_file : Option Bytes) : Type 0 where
    pub slot : Slot
    pub found : io.slot ≡ some (some (some slot))
    pub is_logical : bytes_eq slot.slot_type logical_slot_type ≡ true
    pub same_database : bytes_eq slot.database io.database ≡ true
    pub confirms : io.parse_lsn slot.lsn ≡ some confirmed
    pub saves :
        ((state_file ≡ none) × (saved ≡ 0))
        ⊎ ((text : Bytes) × (state_file ≡ some text)
            × (io.state_open_ok ≡ true)
            × (io.parse_lsn (state_text io text) ≡ some saved))

  abbrev resumed : ℕ → ℕ → LogicalBackup T.Store → LogicalBackup T.Store
  resumed confirmed saved b = record b {
    start_lsn = if saved == 0 then confirmed else saved;
    stored_flush_lsn = if saved == 0 then b.stored_flush_lsn else saved;
  }

  init_slot_old :
      (confirmed saved : ℕ) (file : Option Bytes) (b : LogicalBackup T.Store)
      → Resumes confirmed saved file
      → init_slot T io b ≡ ok true (record b { start_lsn = confirmed })
  unfolding init_slot check_slot
  init_slot_old confirmed saved file b r =
      ground (arith, r.found, r.is_logical, r.same_database, r.confirms)

  start_old_slot_lem :
      (saved : ℕ) (b : LogicalBackup T.Store)
      → read_restart_lsn T io b ≡ ok saved b
      → start_old_slot T io b ≡ ok tt (resumed b.start_lsn saved b)
  unfolding start_old_slot
  start_old_slot_lem saved b r = ground (arith, r)

  read_saved :
      (confirmed saved : ℕ) (file : Option Bytes) (b : LogicalBackup T.Store)
      → Resumes confirmed saved file
      → b.state_file ≡ file
      → read_restart_lsn T io b ≡ ok saved b
  unfolding read_restart_lsn state_text
  read_saved confirmed saved file b r e = elim r.saves [
    | inl (m, z) ↦ rw (e ∙ m, z) refl
    | inr (text, m, o, p) ↦ rw (e ∙ m, o, p) refl
  ]

  init_slot_new : (b : LogicalBackup T.Store) → io.slot ≡ some none → init_slot T io b ≡ ok false b
  unfolding init_slot
  init_slot_new b q = rw q refl

  abbrev stored_at : ℕ → LogicalBackup T.Store → LogicalBackup T.Store
  stored_at lsn b = record b {
    start_lsn = lsn;
    state_file = some (state_yaml files files.state_time b.flush_lsn);
    archive_state_file = some (state_yaml files files.archive_time b.flush_lsn);
  }

  start_new_slot_lem :
      (text : Bytes) (lsn : ℕ) (b : LogicalBackup T.Store)
      → io.created ≡ some (some text)
      → io.parse_lsn text ≡ some lsn
      → IsCalm files
      → start_new_slot T io files b ≡ ok tt (stored_at lsn b)
  unfolding start_new_slot create_slot store_restart_lsn write_state write_archive_state
  start_new_slot_lem text lsn b w l c =
      ground (arith, w, l, c.opens, c.opens_archive, c.encodes, c.encodes_archive)

  -- With a slot, the backup starts at the position of the state file, or, if that is missing or 0, at
  -- the slot's confirmed position. It has flushed nothing, and exactly the publication's tables are
  -- tracked. Condition: the server and the system answer without errors, and there is a table or new
  -- ones are tracked.
  pub new_resumes :
      (cfg : Config) (s0 : T.Store) (file archive : Option Bytes) (rows : List (ℕ × Identifier))
      → (confirmed saved : ℕ) → Prepares io rows
      → Creates T
      → Resumes confirmed saved file
      → rows ≢ [] ⊎ (cfg.track_new_tables ≡ true)
      → (b : LogicalBackup T.Store) × (new T io files (fresh T cfg s0 file archive) ≡ ok tt b)
        × (b.start_lsn ≡ (if saved == 0 then confirmed else saved))
        × (b.stored_flush_lsn ≡ saved)
        × (b.flush_lsn ≡ 0)
        × ((o : ℕ) → is_tracked (lookup o b.backup_tables) ≡ member o (map (λ r. r.0) rows))
  unfolding fresh start_slot
  new_resumes cfg s0 file archive rows confirmed saved p c r n =
      let b0 = fresh T cfg s0 file archive in
      let b1 = record b0 { start_lsn = confirmed } in
      let (s, m, e, k) = init_tables_ok T io rows b1 p.tables c in
      let k' = (λ (o : ℕ). k o ∙ tracked_none o (member o (map (λ r. r.0) rows))) in
      let b2 = with_tables T s m b1 in
      (
        resumed confirmed saved b2,
        new_run rows true b0 b1 b2 (resumed confirmed saved b2) p
            (init_slot_old confirmed saved file b0 r) e
            (has_tables rows m cfg.track_new_tables k' n)
            (start_old_slot_lem saved b2 (read_saved confirmed saved file b2 r refl)),
        refl,
        ground arith,
        refl,
        k',
      )

  -- A position other than 0 that a process has stored without an error is where the next one starts,
  -- whatever position the slot has confirmed. Condition: the next process finds that state file and
  -- the slot, the server and the system answer without errors, there is a table or new ones are
  -- tracked, yaml decodes what it encodes, and `pgx.ParseLSN` reads what `pgx.FormatLSN` prints of
  -- the position.
  pub restart_resumes :
      (earlier : Io) (b0 b1 : LogicalBackup T.Store) (cfg : Config) (s0 : T.Store)
      → (rows : List (ℕ × Identifier)) (slot : Slot) (confirmed : ℕ) → Prepares io rows
      → Creates T
      → store_restart_lsn T earlier b0 ≡ ok tt b1
      → b0.flush_lsn ≢ 0
      → ((fields : List (Bytes × Bytes)) → io.decode_yaml (earlier.encode_yaml fields) ≡ fields)
      → io.parse_lsn (earlier.format_lsn b0.flush_lsn) ≡ some b0.flush_lsn
      → io.state_open_ok ≡ true
      → io.slot ≡ some (some (some slot))
      → bytes_eq slot.slot_type logical_slot_type ≡ true
      → bytes_eq slot.database io.database ≡ true
      → io.parse_lsn slot.lsn ≡ some confirmed
      → rows ≢ [] ⊎ (cfg.track_new_tables ≡ true)
      → (b : LogicalBackup T.Store) × (new T io files
            (fresh T cfg s0 b1.state_file b1.archive_state_file)
          ≡ ok tt b)
        × (b.start_lsn ≡ b0.flush_lsn)
        × (b.stored_flush_lsn ≡ b0.flush_lsn)
  restart_resumes earlier b0 b1 cfg s0 rows slot confirmed p c h nz d l o q t u k n =
      let (text, e, w) = stored_text T io earlier b0 b1 h d in
      let r : Resumes confirmed b0.flush_lsn b1.state_file = record {
        slot = slot;
        found = q;
        is_logical = t;
        same_database = u;
        confirms = k;
        saves = inr (text, e, o, ap io.parse_lsn w ∙ l);
      } in
      let (b, runs, starts, stored, flushed, tracked) =
        new_resumes cfg s0 b1.state_file b1.archive_state_file rows confirmed b0.flush_lsn p c r
          n in
      (b, runs, ground (arith, starts, nz), stored)

  -- Without a slot, the backup starts at the position of the slot that it creates. It stores the
  -- position 0 in both state files. Condition: the server and the system answer without errors,
  -- there is a table or new ones are tracked, and `pgx.ParseLSN` reads the position.
  pub new_creates :
      (cfg : Config) (s0 : T.Store) (file archive : Option Bytes) (rows : List (ℕ × Identifier))
      → (text : Bytes) (lsn : ℕ) → Prepares io rows
      → Creates T
      → io.slot ≡ some none
      → io.created ≡ some (some text)
      → io.parse_lsn text ≡ some lsn
      → rows ≢ [] ⊎ (cfg.track_new_tables ≡ true)
      → IsCalm files
      → (b : LogicalBackup T.Store) × (new T io files (fresh T cfg s0 file archive) ≡ ok tt b)
        × (b.start_lsn ≡ lsn)
        × (b.stored_flush_lsn ≡ 0)
        × (b.state_file ≡ some (state_yaml files files.state_time 0))
        × (b.archive_state_file ≡ some (state_yaml files files.archive_time 0))
  unfolding fresh start_slot
  new_creates cfg s0 file archive rows text lsn p c q w l n calm =
      let b0 = fresh T cfg s0 file archive in
      let (s, m, e, k) = init_tables_ok T io rows b0 p.tables c in
      let k' = (λ (o : ℕ). k o ∙ tracked_none o (member o (map (λ r. r.0) rows))) in
      let b2 = with_tables T s m b0 in
      (
        stored_at lsn b2,
        new_run rows false b0 b0 b2 (stored_at lsn b2) p (init_slot_new b0 q) e
            (has_tables rows m cfg.track_new_tables k' n) (start_new_slot_lem text lsn b2 w l calm),
        refl,
        refl,
        refl,
        refl,
      )
