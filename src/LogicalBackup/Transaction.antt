-- ===== src/LogicalBackup/Transaction.antt =====
-- A whole transaction, from its begin message to its commit message.
use mathlib.Core.Path.{subst}
use logical_backup.Common.{
  inl, inr, Bool-cases, ℕ, ◌+◌, ◌*◌, length, collect, ◌≡◌, refl, sym, ap, ◌∙◌, ◌≢◌, List, [], ◌∷◌,
  ◌++◌, map, append-nil, none, some, All, arith,
}
use logical_backup.Common.Assoc.{lookup}
use logical_backup.Common.Bytes.{Bytes}
use logical_backup.Common.Exec.{ok}
use logical_backup.Message.{Message, Begin, Commit}
use logical_backup.LogicalBackup.{
  TableBackuper, LogicalBackup, Io, member, save_commit, handle_begin, handle_commit, handler,
}
use logical_backup.LogicalBackup.Laws.{Lawful, gained}
use logical_backup.LogicalBackup.Commits.{save_commit-Committed}
use logical_backup.LogicalBackup.Reports.{CanReport, Same, Same-refl, send_status_ok}
use logical_backup.LogicalBackup.Rows.{
  IsRow, row, Ranges, handle_all, rows-Open, member-tracked, commit-logs,
}
use logical_backup.LogicalBackup.Stream.Names.{SameOids, SameOids-refl, SameOids-trans, SameOids-eq}
use logical_backup.LogicalBackup.Stream.{raws, whole, Injective, Open}

-- The commit message, and the report behind it, if there is one.
commit-run :
    (T : TableBackuper) (io : Io) (c : Commit) (b b' : LogicalBackup T.Store) (begun : List ℕ)
    → b.tx_begin_rel_msg ≡ some begun
    → CanReport io b.cfg
    → save_commit T c.raw (io.range begun) b ≡ ok tt b'
    → (rest : List Message)
    → (b'' : LogicalBackup T.Store) × (handle_all T io (Message.commit c ∷ rest) b
        ≡ handle_all T io rest b'')
      × Same b' b''
unfolding handle_all handle_commit handler
commit-run T io c b b' begun x (inl quiet) e rest = (b', ground (arith, x, quiet, e), Same-refl b')
commit-run T io c b b' begun x (inr a) e rest =
    let (b'', r, s, st) = send_status_ok T io b' a in
    elim (Bool-cases b.cfg.send_status_on_commit) [
      | inl on ↦ (b'', ground (arith, x, on, e, r), s)
      | inr off ↦ (b', ground (arith, x, off, e), Same-refl b')
    ]

abbrev pub after_begin : (T : TableBackuper) → Begin → LogicalBackup T.Store → LogicalBackup T.Store
after_begin T v b = record b {
  last_tx_id = v.xid;
  flush_lsn = v.final_lsn;
  tx_begin_rel_msg = some [];
  begin_msg = v.raw;
}

pub begin-Open :
    (T : TableBackuper) (L : Lawful T) (v : Begin) (left : ℕ) (b : LogicalBackup T.Store)
    (inj : Injective b.backup_tables)
    → L.IsReady (3 * left) v.final_lsn b.store
    → b.type_msg ≡ none
    → Open T L b v.raw v.final_lsn inj left [] (after_begin T v b)
begin-Open T L v left b inj r n = record {
  begun = [];
  tx = refl;
  no_type = n;
  tables = refl;
  cfg_kept = refl;
  begin_kept = refl;
  known = SameOids-refl b.relations;
  at_lsn = refl;
  ready = subst (λ n. L.IsReady n v.final_lsn b.store) (omega arith) r;
  distinct = tt;
  tracked = tt;
  members = λ o t g. unfold member in refl;
  logs = λ o t g. sym (append-nil _);
  untouched = λ t n. refl;
}

module _ (T : TableBackuper) (L : Lawful T) where
  -- From `b` to `b'` the log of each tracked table has gained the frames of `gain`, and no other log
  -- has changed. There is room for `n` more messages at the position `lsn`.
  pub record Gained (gain : ℕ → List Bytes) (n lsn : ℕ) (b b' : LogicalBackup T.Store)
      : Type 0 where
    pub tables : b'.backup_tables ≡ b.backup_tables
    pub cfg_kept : b'.cfg ≡ b.cfg
    pub known : SameOids b.relations b'.relations
    pub no_type : b'.type_msg ≡ none
    pub ready : L.IsReady n lsn b'.store
    pub logs :
        (o t : ℕ)
        → lookup o b.backup_tables ≡ some t
        → L.log b'.store t ≡ L.log b.store t ++ collect L.frame (gain o)
    pub untouched :
        (t : ℕ) → ((o : ℕ) → lookup o b.backup_tables ≢ some t) → L.log b'.store t ≡ L.log b.store t

  pub Gained-then :
      {f g : ℕ → List Bytes} {m n l k : ℕ} {b b1 b2 : LogicalBackup T.Store}
      → Gained f m l b b1
      → Gained g n k b1 b2
      → Gained (λ o. f o ++ g o) n k b b2
  Gained-then {f} {g} {b = b} {b1 = b1} {b2 = b2} x y = record {
    tables = y.tables ∙ x.tables;
    cfg_kept = y.cfg_kept ∙ x.cfg_kept;
    known = SameOids-trans b.relations b1.relations b2.relations x.known y.known;
    no_type = y.no_type;
    ready = y.ready;
    logs = λ o t h.
        gained T L (L.log b.store t) (f o) (g o) (x.logs o t h)
          (y.logs o t (ap (lookup o) x.tables ∙ h));
    untouched =
        λ t h. y.untouched t (λ o e. h o (ap (lookup o) (sym x.tables) ∙ e)) ∙ x.untouched t h;
  }

  -- A transaction in front of other messages.
  pub run_transaction :
      (io : Io) (v : Begin) (ms : List Message) (c : Commit) (more : ℕ) (b : LogicalBackup T.Store)
      → Ranges io.range
      → Injective b.backup_tables
      → L.IsReady (3 * (length ms + more)) v.final_lsn b.store
      → b.type_msg ≡ none
      → CanReport io b.cfg
      → All (IsRow b.relations) ms
      → (rest : List Message)
      → (b' : LogicalBackup T.Store) × (handle_all T io
            (Message.begin v ∷ ms ++ Message.commit c ∷ rest)
            b
          ≡ handle_all T io rest b')
        × Gained (λ o. whole v.raw (raws o (map row ms)) c.raw) (3 * more) v.final_lsn b b'
  unfolding handle_all handle_begin handler
  run_transaction io v ms c more b range inj ready no_type quiet rows rest =
      let lsn = v.final_lsn in
      let (b1, e1, w) =
        rows-Open T L b v.raw lsn inj io ms [] more (after_begin T v b) rows
          (begin-Open T L v (length ms + more) b inj ready no_type) (Message.commit c ∷ rest) in
      let (d, l, m) = range w.begun w.distinct in
      let (b2, e2, k) =
        save_commit-Committed T L b v.raw lsn inj c.raw (io.range w.begun) (3 * more) b1 d
          (λ o q. member-tracked T L b v.raw lsn inj w.begun w.tracked o (sym (m o) ∙ q)) w.tables
          (subst (λ n. L.IsReady n b1.flush_lsn b1.store) (omega (arith, l)) w.ready) in
      let (b3, e3, s) =
        commit-run T io c b1 b2 w.begun w.tx (subst (CanReport io) (sym w.cfg_kept) quiet) e2
          rest in
      (
        b3,
        e1 ∙ e3,
        record {
          tables = s.tables_kept ∙ k.tables ∙ w.tables;
          cfg_kept = s.cfg_same ∙ k.cfg_kept ∙ w.cfg_kept;
          known = SameOids-eq b.relations (s.relations_same ∙ k.relations_kept) w.known;
          no_type = s.type_same ∙ k.type_kept ∙ w.no_type;
          ready =
              subst (L.IsReady (3 * more) lsn) (sym s.store_kept)
                (subst (λ p. L.IsReady (3 * more) p b2.store) (k.lsn_kept ∙ w.at_lsn) k.ready);
          logs = λ o t h.
              ap (λ st. L.log st t) s.store_kept
              ∙ commit-logs T L b v.raw lsn inj (map row ms) c.raw (io.range w.begun) b1 b2 w k m o
                  t h;
          untouched = λ t n. ap (λ st. L.log st t) s.store_kept ∙ k.untouched t n ∙ w.untouched t n;
        },
      )

-- A whole transaction: after its begin message, any messages with rows or with relations that are
-- known under their names and oids, and its commit message, the handler has returned without an
-- error, and the log of each tracked table has gained the frames of the begin message, the table's
-- messages in their order, and the commit message, or nothing if there is no message of it; any
-- other table's log is as before. Condition: the tables keep what they save (`Lawful`) and are
-- ready for three times as many messages as stand between begin and commit, different oids have
-- different tables, no type message is pending, `range` meets each key of the map once, and a
-- report on commit, if one is sent, is accepted.
pub transaction :
    (T : TableBackuper)
    → (L : Lawful T) → (io : Io) → (v : Begin) → (ms : List Message) → (c : Commit)
    → (b : LogicalBackup T.Store) → Ranges io.range
    → Injective b.backup_tables
    → L.IsReady (3 * length ms) v.final_lsn b.store
    → b.type_msg ≡ none
    → CanReport io b.cfg
    → All (IsRow b.relations) ms
    → (b' : LogicalBackup T.Store) × (handle_all T io
          (Message.begin v ∷ ms ++ Message.commit c ∷ [])
          b
        ≡ ok tt b')
      × ((o t : ℕ)
          → lookup o b.backup_tables ≡ some t
          → L.log b'.store t
            ≡ L.log b.store t ++ collect L.frame (whole v.raw (raws o (map row ms)) c.raw))
      × ((t : ℕ)
          → ((o : ℕ) → lookup o b.backup_tables ≢ some t)
          → L.log b'.store t ≡ L.log b.store t)
transaction T L io v ms c b range inj ready no_type quiet rows =
    let (b', e, g) =
      run_transaction T L io v ms c 0 b range inj
        (subst (λ n. L.IsReady n v.final_lsn b.store) (omega arith) ready) no_type quiet rows [] in
    (b', unfold handle_all in e, g.logs, g.untouched)
