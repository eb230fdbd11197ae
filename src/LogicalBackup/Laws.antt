-- ===== src/LogicalBackup/Laws.antt =====
-- What the handler relies on in the tables, and what its steps then do to their logs.
use logical_backup.Common.{
  ℕ, suc, ◌^◌, ◌≤◌, ◌<◌, ◌≡◌, refl, sym, ap, ◌∙◌, ◌≢◌, true, false, List, [], ◌∷◌, ◌++◌, append-nil,
  append_assoc, none, some, collect, collect-append, arith,
}
use logical_backup.Common.Assoc.{lookup}
use logical_backup.Common.Bytes.{Bytes}
use logical_backup.Common.Exec.{ok}
use logical_backup.LogicalBackup.{
  TableBackuper, LogicalBackup, written, save, member, mark_begun, save_begin, save_type,
  save_message,
}

-- Tables that keep what is saved. A state that is ready for so many messages at a position saves
-- one of them: its frame stands at the end of its own table's log and of no other's, and the state
-- is ready for one less. What is ready is so at later positions too.
pub record Lawful (T : TableBackuper) : Type 1 where
  pub log : T.Store → ℕ → Bytes
  pub frame : Bytes → Bytes
  pub IsReady : ℕ → ℕ → T.Store → Type 0
  pub fewer : {n lsn : ℕ} {s : T.Store} → IsReady (suc n) lsn s → IsReady n lsn s
  pub later :
      {n lsn lsn' : ℕ} {s : T.Store}
      → lsn ≤ lsn'
      → lsn' < 2 ^ 64
      → IsReady n lsn s
      → IsReady n lsn' s
  pub saves :
      (t : ℕ) (msg : Bytes) (n lsn : ℕ) (s : T.Store)
      → IsReady (suc n) lsn s
      → (ln : ℕ) × (s' : T.Store) × (T.save_raw_message t msg lsn s ≡ ok ln s')
        × IsReady n lsn s'
        × (log s' t ≡ log s t ++ frame msg)
        × ((u : ℕ) → u ≢ t → log s' u ≡ log s u)

module _ (T : TableBackuper) (L : Lawful T) where
  -- `b'` is `b` after `msgs` have been saved for the table `t`, and nothing else. It is ready for
  -- `n` more.
  pub record Saved (t : ℕ) (msgs : List Bytes) (n : ℕ) (b b' : LogicalBackup T.Store) : Type 0 where
    pub ready : L.IsReady n b'.flush_lsn b'.store
    pub same_tables : b'.backup_tables ≡ b.backup_tables
    pub same_cfg : b'.cfg ≡ b.cfg
    pub same_begin : b'.begin_msg ≡ b.begin_msg
    pub same_relations : b'.relations ≡ b.relations
    pub same_lsn : b'.flush_lsn ≡ b.flush_lsn
    pub own : L.log b'.store t ≡ L.log b.store t ++ collect L.frame msgs
    pub others : (u : ℕ) → u ≢ t → L.log b'.store u ≡ L.log b.store u

  pub save-Saved :
      (t : ℕ) (raw : Bytes) (n : ℕ) (b : LogicalBackup T.Store)
      → L.IsReady (suc n) b.flush_lsn b.store
      → (b' : LogicalBackup T.Store) × (save T t raw b ≡ ok tt b')
        × Saved t (raw ∷ []) n b b'
        × (b'.tx_begin_rel_msg ≡ b.tx_begin_rel_msg)
        × (b'.type_msg ≡ b.type_msg)
  unfolding save
  save-Saved t raw n b r =
      let (ln, s, e, r', own, others) = L.saves t raw n b.flush_lsn b.store r in
      (
        written T ln (record b { store = s }),
        rw e refl,
        record {
          ready = r';
          same_tables = refl;
          same_cfg = refl;
          same_begin = refl;
          same_relations = refl;
          same_lsn = refl;
          own = own ∙ ap (λ f. L.log b.store t ++ f) (sym (append-nil (L.frame raw)));
          others = others;
        },
        refl,
        refl,
      )

  -- What is gained in two parts.
  pub gained :
      (log : Bytes) {log' log'' : Bytes} (xs ys : List Bytes)
      → log' ≡ log ++ collect L.frame xs
      → log'' ≡ log' ++ collect L.frame ys
      → log'' ≡ log ++ collect L.frame (xs ++ ys)
  gained log xs ys e e' =
      e'
      ∙ ap (λ l. l ++ collect L.frame ys) e
      ∙ append_assoc log (collect L.frame xs) (collect L.frame ys)
      ∙ ap (λ l. log ++ l) (sym (collect-append L.frame xs ys))

  -- A message of a table that has begun is saved alone; the first one follows the begin message,
  -- and its oid joins the set.
  pub save_message-begun :
      (oid t : ℕ) (raw : Bytes) (n : ℕ) (b : LogicalBackup T.Store) (begun : List ℕ)
      → L.IsReady (suc n) b.flush_lsn b.store
      → b.type_msg ≡ none
      → b.tx_begin_rel_msg ≡ some begun
      → lookup oid b.backup_tables ≡ some t
      → member oid begun ≡ true
      → (b' : LogicalBackup T.Store) × (save_message T oid raw b ≡ ok tt b')
        × Saved t (raw ∷ []) n b b'
        × (b'.tx_begin_rel_msg ≡ some begun)
        × (b'.type_msg ≡ none)
  unfolding save_message save_begin save_type
  save_message-begun oid t raw n b begun r ty tx lk m =
      let (b', e, s, x, y) = save-Saved t raw n b r in (b', ground (arith, e), s, x ∙ tx, y ∙ ty)

  pub save_message-first :
      (oid t : ℕ) (raw : Bytes) (n : ℕ) (b : LogicalBackup T.Store) (begun : List ℕ)
      → L.IsReady (suc (suc n)) b.flush_lsn b.store
      → b.type_msg ≡ none
      → b.tx_begin_rel_msg ≡ some begun
      → lookup oid b.backup_tables ≡ some t
      → member oid begun ≡ false
      → (b' : LogicalBackup T.Store) × (save_message T oid raw b ≡ ok tt b')
        × Saved t (b.begin_msg ∷ raw ∷ []) n b b'
        × (b'.tx_begin_rel_msg ≡ some (begun ++ oid ∷ []))
        × (b'.type_msg ≡ none)
  unfolding save_message save_begin save_type mark_begun
  save_message-first oid t raw n b begun r ty tx lk m =
      let (b1, e1, s1, x1, y1) = save-Saved t b.begin_msg (suc n) b r in
      let b2 = record b1 { tx_begin_rel_msg = some (begun ++ oid ∷ []) } in
      let (b3, e3, s3, x3, y3) = save-Saved t raw n b2 s1.ready in
      (
        b3,
        ground (arith, e1, e3, x1, y1),
        record {
          ready = s3.ready;
          same_tables = s3.same_tables ∙ s1.same_tables;
          same_cfg = s3.same_cfg ∙ s1.same_cfg;
          same_begin = s3.same_begin ∙ s1.same_begin;
          same_relations = s3.same_relations ∙ s1.same_relations;
          same_lsn = s3.same_lsn ∙ s1.same_lsn;
          own = gained (L.log b.store t) (b.begin_msg ∷ []) (raw ∷ []) s1.own s3.own;
          others = λ u h. s3.others u h ∙ s1.others u h;
        },
        x3,
        y3 ∙ y1 ∙ ty,
      )
