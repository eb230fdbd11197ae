-- ===== src/LogicalBackup/Commits.antt =====
-- What the commit of a transaction leaves in the logs of the tables.
use mathlib.Core.Path.{subst}
use logical_backup.Common.{
  ℕ, ◌+◌, ◌≡◌, refl, sym, ap, ◌∙◌, ◌≢◌, true, false, List, [], ◌∷◌, ◌++◌, append-nil, length,
  collect, some, ◌==◌, ==_iff, if◌then◌else◌, arith, Bool-cases, inl, inr,
}
use logical_backup.Common.Assoc.{lookup}
use logical_backup.Common.Bytes.{Bytes}
use logical_backup.Common.Exec.{ok}
use logical_backup.LogicalBackup.{TableBackuper, LogicalBackup, save, member, save_commit}
use logical_backup.LogicalBackup.Laws.{Lawful, Saved, save-Saved}
use logical_backup.LogicalBackup.Stream.{Distinct, Injective, other_table}

module _ (T : TableBackuper) (L : Lawful T) (b0 : LogicalBackup T.Store) (begin : Bytes) (lsn : ℕ)
    (inj : Injective b0.backup_tables) where
  -- The commit message at the end of the log of each table in `ys`.
  pub record Committed (raw : Bytes) (ys : List ℕ) (n : ℕ) (b b' : LogicalBackup T.Store)
      : Type 0 where
    pub tables : b'.backup_tables ≡ b.backup_tables
    pub cfg_kept : b'.cfg ≡ b.cfg
    pub relations_kept : b'.relations ≡ b.relations
    pub type_kept : b'.type_msg ≡ b.type_msg
    pub lsn_kept : b'.flush_lsn ≡ b.flush_lsn
    pub ready : L.IsReady n b'.flush_lsn b'.store
    pub logs :
        (o t : ℕ)
        → lookup o b0.backup_tables ≡ some t
        → L.log b'.store t
          ≡ L.log b.store t ++ collect L.frame (if member o ys then raw ∷ [] else [])
    pub untouched :
        (t : ℕ)
        → ((o : ℕ) → lookup o b0.backup_tables ≢ some t)
        → L.log b'.store t ≡ L.log b.store t

  save_commit-cons :
      (raw : Bytes) (y u : ℕ) (ys : List ℕ) (b b1 b2 : LogicalBackup T.Store)
      → lookup y b.backup_tables ≡ some u
      → save T u raw b ≡ ok tt b1
      → save_commit T raw ys b1 ≡ ok tt b2
      → save_commit T raw (y ∷ ys) b ≡ ok tt b2
  unfolding save_commit
  save_commit-cons raw y u ys b b1 b2 h e k = ground (arith, h, e, k)

  -- The commit message of the table `u` of `y`, and then of those of `ys`.
  commit-log :
      (raw : Bytes) (y u : ℕ) (ys : List ℕ) {k n : ℕ} (b b1 b2 : LogicalBackup T.Store)
      → member y ys ≡ false
      → lookup y b0.backup_tables ≡ some u
      → Saved T L u (raw ∷ []) k b b1
      → Committed raw ys n b1 b2
      → (o t : ℕ) → lookup o b0.backup_tables ≡ some t
      → L.log b2.store t
        ≡ L.log b.store t ++ collect L.frame (if member o (y ∷ ys) then raw ∷ [] else [])
  unfolding member
  commit-log raw y u ys {k} {n} b b1 b2 m h s c o t g = elim (Bool-cases (y == o)) [
    | inl e ↦
        let same = (==_iff y o).0 e in
        let mo : member o ys ≡ false = cc in
        let tu : t ≡ u = inj-table same in rw e (c.logs o t g ∙ rw mo (append-nil _ ∙ rw tu s.own))
    | inr e ↦
        let differ : y ≢ o = ground arith in
        rw e (
          c.logs o t g
          ∙ ap (λ l. l ++ collect L.frame (if member o ys then raw ∷ [] else []))
              (s.others t (other_table T L b0 begin lsn inj o y t u g h (λ x. differ (sym x)))))
  ]
    where
      inj-table : y ≡ o → t ≡ u
      inj-table q = ground (arith, g, h, q)

  pub save_commit-Committed :
      (raw : Bytes) (ys : List ℕ) (n : ℕ) (b : LogicalBackup T.Store)
      → Distinct ys
      → ((o : ℕ) → member o ys ≡ true → (t : ℕ) × (lookup o b0.backup_tables ≡ some t))
      → b.backup_tables ≡ b0.backup_tables
      → L.IsReady (length ys + n) b.flush_lsn b.store
      → (b' : LogicalBackup T.Store) × (save_commit T raw ys b ≡ ok tt b') × Committed raw ys n b b'
  save_commit-Committed raw [] n b d k e r = (
    b,
    unfold save_commit in refl,
    record {
      tables = refl;
      cfg_kept = refl;
      relations_kept = refl;
      type_kept = refl;
      lsn_kept = refl;
      ready = subst (λ k. L.IsReady k b.flush_lsn b.store) (omega arith) r;
      logs = λ o t h. unfold member in sym (append-nil _);
      untouched = λ t h. refl;
    },
  )
  save_commit-Committed raw (y ∷ ys) n b (m, d) k e r =
      let (u, h) = k y (unfold member in ground arith) in
      let (b1, e1, s, x1, y1) =
        save-Saved T L u raw (length ys + n) b
          (subst (λ k. L.IsReady k b.flush_lsn b.store) (omega arith) r) in
      let (b2, e2, c) =
        save_commit-Committed raw ys n b1 d (λ o q. k o (unfold member in ground arith))
          (s.same_tables ∙ e) s.ready in
      (
        b2,
        save_commit-cons raw y u ys b b1 b2 (ap (lookup y) e ∙ h) e1 e2,
        record {
          tables = c.tables ∙ s.same_tables;
          cfg_kept = c.cfg_kept ∙ s.same_cfg;
          relations_kept = c.relations_kept ∙ s.same_relations;
          type_kept = c.type_kept ∙ y1;
          lsn_kept = c.lsn_kept ∙ s.same_lsn;
          ready = c.ready;
          logs = commit-log raw y u ys b b1 b2 m h s c;
          untouched = λ t n. c.untouched t n ∙ s.others t (λ q. n y (h ∙ ap some (sym q)));
        },
      )
