-- ===== src/LogicalBackup/Stream.antt =====
-- What one transaction leaves in the logs of the tables.
mod Parts
pub mod Names
pub use Parts.*
use mathlib.Core.Path.{subst}
use logical_backup.Common.{
  ℕ, ◌≡◌, refl, sym, ap, ◌∙◌, ◌≢◌, Bool, true, false, not, ◌&&◌, ◌||◌, List, [], ◌∷◌, ◌++◌, suc,
  ◌+◌, ◌*◌, append-nil, length, length-append, collect, none, some, All, All-append, ◌==◌, ==_iff,
  if◌then◌else◌, arith, Option-cases, Bool-cases, inl, inr,
}
use logical_backup.Common.Assoc.{Map, lookup}
use logical_backup.Common.Bytes.{Bytes}
use logical_backup.Common.Exec.{ok}
use logical_backup.LogicalBackup.{TableBackuper, LogicalBackup, member, save_message}
use logical_backup.LogicalBackup.Stream.Names.{SameOids, SameOids-eq}
use logical_backup.LogicalBackup.Laws.{
  Lawful, Saved, gained, save_message-begun, save_message-first,
}

module _ (T : TableBackuper) (L : Lawful T) (b0 : LogicalBackup T.Store) (begin : Bytes) (lsn : ℕ)
    (inj : Injective b0.backup_tables) where
  -- The state inside a transaction that began in `b0`, after `rows`, with room for `left` more: a
  -- row takes at most three messages, the begin message, the row and the commit message.
  pub record Open (left : ℕ) (rows : List (ℕ × Bytes)) (b : LogicalBackup T.Store) : Type 0 where
    pub begun : List ℕ
    pub tx : b.tx_begin_rel_msg ≡ some begun
    pub no_type : b.type_msg ≡ none
    pub tables : b.backup_tables ≡ b0.backup_tables
    pub cfg_kept : b.cfg ≡ b0.cfg
    pub begin_kept : b.begin_msg ≡ begin
    pub known : SameOids b0.relations b.relations
    pub at_lsn : b.flush_lsn ≡ lsn
    pub ready : L.IsReady (3 * left + length begun) b.flush_lsn b.store
    pub distinct : Distinct begun
    pub tracked : All (λ o. (t : ℕ) × (lookup o b0.backup_tables ≡ some t)) begun
    pub members :
        (o t : ℕ) → lookup o b0.backup_tables ≡ some t → member o begun ≡ not (is_nil (raws o rows))
    pub logs :
        (o t : ℕ)
        → lookup o b0.backup_tables ≡ some t
        → L.log b.store t ≡ L.log b0.store t ++ collect L.frame (body begin (raws o rows))
    pub untouched :
        (t : ℕ)
        → ((o : ℕ) → lookup o b0.backup_tables ≢ some t)
        → L.log b.store t ≡ L.log b0.store t

  pub other_table :
      (o p t u : ℕ)
      → lookup o b0.backup_tables ≡ some t
      → lookup p b0.backup_tables ≡ some u
      → o ≢ p
      → t ≢ u
  other_table o p t u h k ne e = ne (inj o p u (h ∙ ap some e) k)

  -- The logs after `extra` has been saved for the table of `oid`.
  logs-after :
      (oid u : ℕ) (raw : Bytes) (rows : List (ℕ × Bytes)) (extra : List Bytes) {left n : ℕ}
      {b b' : LogicalBackup T.Store}
      → Open left rows b
      → lookup oid b0.backup_tables ≡ some u
      → Saved T L u extra n b b'
      → body begin (raws oid rows) ++ extra ≡ body begin (raws oid rows ++ raw ∷ [])
      → (o t : ℕ) → lookup o b0.backup_tables ≡ some t
      → L.log b'.store t
        ≡ L.log b0.store t ++ collect L.frame (body begin (raws o (rows ++ (oid, raw) ∷ [])))
  logs-after oid u raw rows extra {left} {n} {b} {b'} w h s k o t g = elim (Bool-cases (oid == o)) [
    | inl e ↦
        let same = (==_iff oid o).0 e in
        let own =
          gained T L (L.log b0.store u) (body begin (raws oid rows)) extra (w.logs oid u h) s.own
          ∙ ap (λ m. L.log b0.store u ++ collect L.frame m) k in
        rw (raws-snoc o oid raw rows, e) (cc (same, own, h, g))
    | inr e ↦
        let differ : oid ≢ o = ground arith in
        rw (raws-snoc o oid raw rows, e, append-nil)
          (s.others t (other_table o oid t u g h (λ x. differ (sym x))) ∙ w.logs o t g)
  ]

  untouched-after :
      (oid u : ℕ) (rows : List (ℕ × Bytes)) (extra : List Bytes) {left n : ℕ}
      {b b' : LogicalBackup T.Store}
      → Open left rows b
      → lookup oid b0.backup_tables ≡ some u
      → Saved T L u extra n b b'
      → (t : ℕ) → ((o : ℕ) → lookup o b0.backup_tables ≢ some t)
      → L.log b'.store t ≡ L.log b0.store t
  untouched-after oid u rows extra w h s t n =
      s.others t (λ e. n oid (h ∙ ap some (sym e))) ∙ w.untouched t n

  is_nil-snoc : (rs : List Bytes) (r : Bytes) → is_nil (rs ++ r ∷ []) ≡ false
  is_nil-snoc [] r = refl
  is_nil-snoc (x ∷ rs) r = refl

  body-more :
      (rs : List Bytes) (r : Bytes)
      → is_nil rs ≡ false
      → body begin rs ++ r ∷ [] ≡ body begin (rs ++ r ∷ [])
  body-more [] r h = cc
  body-more (x ∷ rs) r h = refl

  body-first :
      (rs : List Bytes) (r : Bytes)
      → is_nil rs ≡ true
      → body begin rs ++ begin ∷ r ∷ [] ≡ body begin (rs ++ r ∷ [])
  body-first [] r h = refl
  body-first (x ∷ rs) r h = cc

  saves_left :
      (left : ℕ) (begun : List ℕ) {lsn : ℕ} {s : T.Store}
      → L.IsReady (3 * suc left + length begun) lsn s
      → L.IsReady (suc (suc (suc (3 * left + length begun)))) lsn s
  saves_left left begun {lsn} {s} = subst (λ n. L.IsReady n lsn s) (omega arith)

  one_more :
      (left : ℕ) (begun : List ℕ) (oid : ℕ) {lsn : ℕ} {s : T.Store}
      → L.IsReady (suc (3 * left + length begun)) lsn s
      → L.IsReady (3 * left + length (begun ++ oid ∷ [])) lsn s
  one_more left begun oid {lsn} {s} =
      subst (λ n. L.IsReady n lsn s) (omega (arith, length-append begun (oid ∷ [])))

  save-untracked :
      (oid : ℕ) (raw : Bytes) (rows : List (ℕ × Bytes)) (left : ℕ) (b : LogicalBackup T.Store)
      → Open (suc left) rows b
      → lookup oid b0.backup_tables ≡ none
      → (b' : LogicalBackup T.Store) × (save_message T oid raw b ≡ ok tt b')
        × Open left (rows ++ (oid, raw) ∷ []) b'
  unfolding save_message
  save-untracked oid raw rows left b w h = (
    b,
    ground (arith, w.tables),
    record {
      begun = w.begun;
      tx = w.tx;
      no_type = w.no_type;
      tables = w.tables;
      cfg_kept = w.cfg_kept;
      begin_kept = w.begin_kept;
      known = w.known;
      at_lsn = w.at_lsn;
      ready = L.fewer (L.fewer (L.fewer (saves_left left w.begun w.ready)));
      distinct = w.distinct;
      tracked = w.tracked;
      members = λ o t g. rw (same o t g) (w.members o t g);
      logs = λ o t g. rw (same o t g) (w.logs o t g);
      untouched = w.untouched;
    },
  )
    where
      same :
          (o t : ℕ)
          → lookup o b0.backup_tables ≡ some t
          → raws o (rows ++ (oid, raw) ∷ []) ≡ raws o rows
      same o t g = ground (arith, raws-snoc o oid raw rows, append-nil (raws o rows))

  -- A row keeps the state of the transaction, whichever table it belongs to.
  pub save-Open :
      (oid : ℕ) (raw : Bytes) (rows : List (ℕ × Bytes)) (left : ℕ) (b : LogicalBackup T.Store)
      → Open (suc left) rows b
      → (b' : LogicalBackup T.Store) × (save_message T oid raw b ≡ ok tt b')
        × Open left (rows ++ (oid, raw) ∷ []) b'
  save-Open oid raw rows left b w = elim (Option-cases (lookup oid b0.backup_tables)) [
    | inl h ↦ save-untracked oid raw rows left b w h
    | inr (u, h) ↦ elim (Bool-cases (member oid w.begun)) [
      | inl m ↦
          let (b', e, s, x, y) =
            save_message-begun T L oid u raw _ b w.begun
              (L.fewer (L.fewer (saves_left left w.begun w.ready))) w.no_type w.tx (rw w.tables h)
              m in
          (
            b',
            e,
            record {
              begun = w.begun;
              tx = x;
              no_type = y;
              tables = s.same_tables ∙ w.tables;
              cfg_kept = s.same_cfg ∙ w.cfg_kept;
              begin_kept = s.same_begin ∙ w.begin_kept;
              known = SameOids-eq b0.relations s.same_relations w.known;
              at_lsn = s.same_lsn ∙ w.at_lsn;
              ready = s.ready;
              distinct = w.distinct;
              tracked = w.tracked;
              members = λ o t g. ground (arith, is_nil-after o oid raw rows, w.members o t g, m);
              logs =
                  logs-after oid u raw rows (raw ∷ []) w h s
                    (body-more (raws oid rows) raw (ground (arith, w.members oid u h)));
              untouched = untouched-after oid u rows (raw ∷ []) w h s;
            },
          )
      | inr m ↦
          let (b', e, s, x, y) =
            save_message-first T L oid u raw _ b w.begun (saves_left left w.begun w.ready) w.no_type
              w.tx (rw w.tables h) m in
          let s' =
            subst (λ m. Saved T L u (m ∷ raw ∷ []) (suc (3 * left + length w.begun)) b b')
              w.begin_kept s in
          (
            b',
            e,
            record {
              begun = w.begun ++ oid ∷ [];
              tx = x;
              no_type = y;
              tables = s.same_tables ∙ w.tables;
              cfg_kept = s.same_cfg ∙ w.cfg_kept;
              begin_kept = s.same_begin ∙ w.begin_kept;
              known = SameOids-eq b0.relations s.same_relations w.known;
              at_lsn = s.same_lsn ∙ w.at_lsn;
              ready = one_more left w.begun oid s.ready;
              distinct = Distinct-snoc oid w.begun w.distinct m;
              tracked = All-append _ w.begun (oid ∷ []) w.tracked ((u, h), tt);
              members = λ o t g. ground (
                arith,
                is_nil-after o oid raw rows,
                w.members o t g,
                m,
                member-snoc o oid w.begun,
              );
              logs =
                  logs-after oid u raw rows (begin ∷ raw ∷ []) w h s'
                    (body-first (raws oid rows) raw (ground (arith, w.members oid u h)));
              untouched = untouched-after oid u rows (begin ∷ raw ∷ []) w h s';
            },
          )
    ]
  ]
