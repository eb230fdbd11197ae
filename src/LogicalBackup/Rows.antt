-- ===== src/LogicalBackup/Rows.antt =====
-- The rows of a transaction with the known relations among them, and the logs after its commit message.
use mathlib.Core.Path.{subst}
use logical_backup.Common.{
  Option, none, ==_refl, ℕ, suc, ◌+◌, length, collect, ◌≡◌, refl, sym, ap, ◌∙◌, true, not, List, [],
  ◌∷◌, ◌++◌, map, append-nil, append_assoc, some, All, ◌==◌, ==_iff, if◌then◌else◌, arith,
  Bool-cases, inl, inr,
}
use logical_backup.Common.Assoc.{Map, lookup}
use logical_backup.Common.Bytes.{Bytes}
use logical_backup.Common.Exec.{ok, ◌>>◌, done}
use logical_backup.Message.{Identifier, Relation, Message}
use logical_backup.LogicalBackup.{
  Relations, lookup_relation, handle_relation, know_relation, TableBackuper, LogicalBackup, Io, M,
  Counts, member, handler,
}
use logical_backup.LogicalBackup.Stream.Names.{oid_of, SameOids, SameOids-insert, IsKnown}
use logical_backup.LogicalBackup.Laws.{Lawful, gained}
use logical_backup.LogicalBackup.Commits.{Committed}
use logical_backup.LogicalBackup.Stream.{
  raws, body, whole, is_nil, Distinct, Injective, Open, save-Open,
}

-- The messages that are saved for one table: those of its rows, and those of a relation that is
-- known under its name and oid.
abbrev pub IsRow : Relations → Message → Type 0
IsRow known (Message.insert v) = Unit {0}
IsRow known (Message.update v) = Unit {0}
IsRow known (Message.delete v) = Unit {0}
IsRow known (Message.relation v) = IsKnown known v
IsRow known _ = ⊥

-- With the oid of the table and the raw message.
abbrev pub row : Message → ℕ × Bytes
row (Message.insert v) = (v.relation_oid, v.raw)
row (Message.update v) = (v.relation_oid, v.raw)
row (Message.delete v) = (v.relation_oid, v.raw)
row (Message.relation v) = (v.oid, v.raw)
row _ = (0, [])

-- A known relation stays known.
pub IsRow-SameOids :
    (m m' : Relations) (ms : List Message) → SameOids m m' → All (IsRow m) ms → All (IsRow m') ms
IsRow-SameOids m m' [] x h = tt
IsRow-SameOids m m' (msg ∷ ms) x (h, hs) = (one msg h, IsRow-SameOids m m' ms x hs)
  where
    one : (msg : Message) → IsRow m msg → IsRow m' msg
    one (Message.insert v) h = tt
    one (Message.update v) h = tt
    one (Message.delete v) h = tt
    one (Message.relation v) h = x v.identifier ∙ h
    one (Message.begin v) h = absurd h
    one (Message.commit v) h = absurd h
    one (Message.origin v) h = absurd h
    one (Message.type v) h = absurd h
    one (Message.truncate v) h = absurd h

-- The order in which `range` meets the keys of a set: all of them, each once.
abbrev pub Ranges : (List ℕ → List ℕ) → Type 0
Ranges range =
    (xs : List ℕ)
    → Distinct xs
    → Distinct (range xs)
      × (length (range xs) ≡ length xs)
      × ((o : ℕ) → member o (range xs) ≡ member o xs)

module _ (T : TableBackuper) where
  -- The handler over a stream of messages.
  unfoldable pub handle_all : Io → List Message → M T (Unit {0})
  handle_all io [] = done
  handle_all io (m ∷ ms) = handler T io m >> handle_all io ms

module _ (T : TableBackuper) (L : Lawful T) (b0 : LogicalBackup T.Store) (begin : Bytes) (lsn : ℕ)
    (inj : Injective b0.backup_tables) where
  -- What the handler does beside saving.
  Open-with :
      (left : ℕ) (rows : List (ℕ × Bytes)) (b : LogicalBackup T.Store) (k : Counts) (m : Relations)
      (names : Map Identifier)
      → SameOids b0.relations m
      → Open T L b0 begin lsn inj left rows b
      → Open T L b0 begin lsn inj left rows
          (record b { msg_cnt = k; relations = m; relation_names = names })
  Open-with left rows b k m names x w = record {
    begun = w.begun;
    tx = w.tx;
    no_type = w.no_type;
    tables = w.tables;
    cfg_kept = w.cfg_kept;
    begin_kept = w.begin_kept;
    known = x;
    at_lsn = w.at_lsn;
    ready = w.ready;
    distinct = w.distinct;
    tracked = w.tracked;
    members = w.members;
    logs = w.logs;
    untouched = w.untouched;
  }

  Open-count :
      (left : ℕ) (rows : List (ℕ × Bytes)) (b : LogicalBackup T.Store) (k : Counts)
      → Open T L b0 begin lsn inj left rows b
      → Open T L b0 begin lsn inj left rows (record b { msg_cnt = k })
  Open-count left rows b k w = Open-with left rows b k b.relations b.relation_names w.known w

  known_as :
      (o : Option Relation) (oid : ℕ)
      → oid_of o ≡ some oid
      → (old : Relation) × (o ≡ some old) × (old.oid ≡ oid)
  known_as none oid h = absurd cc
  known_as (some old) oid h = (old, refl, ground (arith, h))

  -- A known relation is saved like a row.
  relation-Open :
      (v : Relation) (rows : List (ℕ × Bytes)) (left : ℕ) (b : LogicalBackup T.Store)
      → IsKnown b0.relations v
      → Open T L b0 begin lsn inj (suc left) rows b
      → (b' : LogicalBackup T.Store) × (handle_relation T v b ≡ ok tt b')
        × Open T L b0 begin lsn inj left (rows ++ (v.oid, v.raw) ∷ []) b'
  unfolding handle_relation
  relation-Open v rows left b h w =
      let (old, found, same) =
        known_as (lookup_relation v.identifier b.relations) v.oid (w.known v.identifier ∙ h) in
      let (b', e, w') = save-Open T L b0 begin lsn inj v.oid v.raw rows left b w in
      (
        know_relation T v b',
        ground (arith, found, same, e, ==_refl v.oid),
        Open-with left (rows ++ (v.oid, v.raw) ∷ []) b' b'.msg_cnt _ _
            (SameOids-insert v b0.relations b'.relations h w'.known) w',
      )

  row-Open :
      (io : Io) (m : Message) (rows : List (ℕ × Bytes)) (left : ℕ) (b : LogicalBackup T.Store)
      → IsRow b0.relations m
      → Open T L b0 begin lsn inj (suc left) rows b
      → (b' : LogicalBackup T.Store) × (handler T io m b ≡ ok tt b')
        × Open T L b0 begin lsn inj left (rows ++ row m ∷ []) b'
  unfolding handler
  row-Open io (Message.insert v) rows left b h w =
      save-Open T L b0 begin lsn inj v.relation_oid v.raw rows left _
        (Open-count (suc left) rows b _ w)
  row-Open io (Message.update v) rows left b h w =
      save-Open T L b0 begin lsn inj v.relation_oid v.raw rows left _
        (Open-count (suc left) rows b _ w)
  row-Open io (Message.delete v) rows left b h w =
      save-Open T L b0 begin lsn inj v.relation_oid v.raw rows left _
        (Open-count (suc left) rows b _ w)
  row-Open io (Message.begin v) rows left b h w = absurd h
  row-Open io (Message.commit v) rows left b h w = absurd h
  row-Open io (Message.origin v) rows left b h w = absurd h
  row-Open io (Message.relation v) rows left b h w = relation-Open v rows left b h w
  row-Open io (Message.type v) rows left b h w = absurd h
  row-Open io (Message.truncate v) rows left b h w = absurd h

  pub rows-Open :
      (io : Io) (ms : List Message) (rows : List (ℕ × Bytes)) (more : ℕ) (b : LogicalBackup T.Store)
      → All (IsRow b0.relations) ms
      → Open T L b0 begin lsn inj (length ms + more) rows b
      → (rest : List Message)
      → (b' : LogicalBackup T.Store) × (handle_all T io (ms ++ rest) b ≡ handle_all T io rest b')
        × Open T L b0 begin lsn inj more (rows ++ map row ms) b'
  unfolding handle_all
  rows-Open io [] rows more b h w rest = (
    b,
    refl,
    rw (append-nil rows) (subst (λ n. Open T L b0 begin lsn inj n rows b) (omega arith) w),
  )
  rows-Open io (m ∷ ms) rows more b (h, hs) w rest =
      let (b1, e1, w1) =
        row-Open io m rows (length ms + more) b h
          (subst (λ n. Open T L b0 begin lsn inj n rows b) (omega arith) w) in
      let (b2, e2, w2) = rows-Open io ms (rows ++ row m ∷ []) more b1 hs w1 rest in
      (
        b2,
        ground (arith, e1, e2),
        subst (λ r. Open T L b0 begin lsn inj more r b2)
            (append_assoc rows (row m ∷ []) (map row ms)) w2,
      )

  pub member-tracked :
      (begun : List ℕ)
      → All (λ o. (t : ℕ) × (lookup o b0.backup_tables ≡ some t)) begun
      → (o : ℕ) → member o begun ≡ true
      → (t : ℕ) × (lookup o b0.backup_tables ≡ some t)
  member-tracked [] h o q = absurd (unfold member in ground arith)
  member-tracked (x ∷ xs) (h, hs) o q = elim (Bool-cases (x == o)) [
    | inl e ↦ (h.0, ap (λ p. lookup p b0.backup_tables) (sym ((==_iff x o).0 e)) ∙ h.1)
    | inr e ↦ member-tracked xs hs o (unfold member in ground arith)
  ]

  pub commit-logs :
      (rows : List (ℕ × Bytes)) (raw : Bytes) (ys : List ℕ) {more n : ℕ}
      (b b' : LogicalBackup T.Store)
      → (w : Open T L b0 begin lsn inj more rows b) → Committed T L b0 begin lsn inj raw ys n b b'
      → ((o : ℕ) → member o ys ≡ member o w.begun)
      → (o t : ℕ) → lookup o b0.backup_tables ≡ some t
      → L.log b'.store t ≡ L.log b0.store t ++ collect L.frame (whole begin (raws o rows) raw)
  commit-logs rows raw ys {more} {n} b b' w c m o t g =
      gained T L (L.log b0.store t) (body begin (raws o rows)) _ (w.logs o t g) (c.logs o t g)
      ∙ ap (λ l. L.log b0.store t ++ collect L.frame l)
          (rw (m o, w.members o t g) (whole-body (raws o rows)))
    where
      whole-body :
          (rs : List Bytes)
          → body begin rs ++ (if not (is_nil rs) then raw ∷ [] else []) ≡ whole begin rs raw
      whole-body [] = refl
      whole-body (r ∷ rs) = refl
