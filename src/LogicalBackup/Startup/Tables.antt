-- ===== src/LogicalBackup/Startup/Tables.antt =====
-- The tables that the backup tracks from its start, and the queue of their first base backups.
use logical_backup.Common.{
  ℕ, ◌≡◌, refl, ◌∙◌, Bool, true, false, ◌||◌, List, [], ◌∷◌, ◌++◌, append-nil, append_assoc, Option,
  none, some, map, ◌==◌, arith,
}
use logical_backup.Common.Assoc.{Map, lookup, insert, lookup-insert}
use logical_backup.Common.Exec.{ok, continue-eq}
use logical_backup.LogicalBackup.{TableBackuper, LogicalBackup, member}
use logical_backup.LogicalBackup.Startup.{
  Answers, init_table, init_rows, init_tables, queue_basebackup_tables,
}
use logical_backup.Message.{Identifier}
use logical_backup.Queue
use logical_backup.Queue.{Queue, stored, wake, notify_getter, put_item}
use logical_backup.Queue.Invariant.{Inv, store, clear_pending_idle}
use logical_backup.Queue.Order.{Move-Inv}

abbrev pub is_tracked : Option ℕ → Bool
is_tracked none = false
is_tracked (some t) = true

is_tracked-insert :
    (k o t : ℕ) (m : Map ℕ)
    → is_tracked (lookup o (insert k t m)) ≡ (k == o || is_tracked (lookup o m))
is_tracked-insert k o t m = ground (arith, lookup-insert k o t m)

module _ (T : TableBackuper) where
  -- Whether an oid has a table.
  abbrev pub tracks : ℕ → LogicalBackup T.Store → Bool
  tracks o b = is_tracked (lookup o b.backup_tables)

  -- `tablebackup.New` succeeds.
  abbrev pub Creates : Type 0
  Creates = (i : Identifier) (s : T.Store) → (t : ℕ) × (s' : T.Store) × (T.create i s ≡ ok t s')

  init_table_ok :
      (oid t : ℕ) (i : Identifier) (s : T.Store) (b : LogicalBackup T.Store)
      → T.create i b.store ≡ ok t s
      → init_table T (some (oid, i)) b
        ≡ ok tt (record b { store = s; backup_tables = insert oid t b.backup_tables })
  unfolding init_table
  init_table_ok oid t i s b e = rw e refl

  -- The state after other tables have been created.
  abbrev pub with_tables : T.Store → Map ℕ → LogicalBackup T.Store → LogicalBackup T.Store
  with_tables s m b = record b { store = s; backup_tables = m }

  init_rows_ok :
      (rows : List (ℕ × Identifier)) (b : LogicalBackup T.Store)
      → Creates
      → (s : T.Store) × (m : Map ℕ) × (init_rows T (map some rows) b ≡ ok tt (with_tables s m b))
        × ((o : ℕ) → is_tracked (lookup o m) ≡ (member o (map (λ r. r.0) rows) || tracks o b))
  unfolding init_rows member
  init_rows_ok [] b c = (b.store, b.backup_tables, refl, λ o. refl)
  init_rows_ok ((oid, i) ∷ rows) b c =
      let (t, s, e) = c i b.store in
      let b1 = record b { store = s; backup_tables = insert oid t b.backup_tables } in
      let (s2, m2, e2, k) = init_rows_ok rows b1 c in
      (
        s2,
        m2,
        continue-eq _ _ (init_table_ok oid t i s b e) ∙ e2,
        λ o. ground (arith, k o, is_tracked-insert oid o t b.backup_tables),
      )

  -- From the rows of the publication's tables, exactly their oids are tracked, next to those that
  -- were before, however often an oid occurs. Condition: the query succeeds, each row can be
  -- scanned, and each table can be created.
  pub init_tables_ok :
      (io : Answers) (rows : List (ℕ × Identifier)) (b : LogicalBackup T.Store)
      → io.table_rows ≡ some (map some rows)
      → Creates
      → (s : T.Store) × (m : Map ℕ) × (init_tables T io b ≡ ok tt (with_tables s m b))
        × ((o : ℕ) → is_tracked (lookup o m) ≡ (member o (map (λ r. r.0) rows) || tracks o b))
  unfolding init_tables
  init_tables_ok io rows b q c =
      let (s, m, e, k) = init_rows_ok rows b c in (s, m, ground (arith, q, e), k)

put_lem :
    (t : ℕ) (q : Queue ℕ)
    → Inv q
    → q.getters ≡ []
    → Queue.put t q ≡ some (stored t, record q { items = q.items ++ t ∷ [] })
unfolding Queue.put wake notify_getter put_item
put_lem t q i e = ground (arith, clear_pending_idle q i)

-- While nobody waits at the queue, queueing the tables for their first base backup puts them behind
-- its items, in the order of the range, and no put blocks.
pub queue_basebackup_tables_lem :
    (ts : List ℕ) (q : Queue ℕ)
    → Inv q
    → q.getters ≡ []
    → queue_basebackup_tables ts q ≡ some (record q { items = q.items ++ ts })
unfolding queue_basebackup_tables
queue_basebackup_tables_lem [] q i e = ground (arith, append-nil q.items)
queue_basebackup_tables_lem (t ∷ ts) q i e = ground (
  arith,
  put_lem t q i e,
  queue_basebackup_tables_lem ts (record q { items = q.items ++ t ∷ [] }) (Move-Inv (store t e) i)
      e,
  append_assoc q.items (t ∷ []) ts,
)
