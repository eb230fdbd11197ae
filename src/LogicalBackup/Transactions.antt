-- ===== src/LogicalBackup/Transactions.antt =====
-- Whole transactions, one behind the other.
use mathlib.Core.Path.{subst}
use logical_backup.Common.{
  ℕ, ◌+◌, ◌*◌, ◌^◌, ◌≤◌, ◌<◌, length, collect, ◌≡◌, refl, sym, ap, ◌∙◌, ◌≢◌, List, [], ◌∷◌, ◌++◌,
  map, append-nil, append_assoc, none, some, All, arith,
}
use logical_backup.Common.Assoc.{lookup}
use logical_backup.Common.Bytes.{Bytes}
use logical_backup.Common.Exec.{ok}
use logical_backup.Message.{Message, Begin, Commit}
use logical_backup.LogicalBackup.{Relations, TableBackuper, LogicalBackup, Io}
use logical_backup.LogicalBackup.Laws.{Lawful}
use logical_backup.LogicalBackup.Reports.{CanReport}
use logical_backup.LogicalBackup.Rows.{IsRow, IsRow-SameOids, row, Ranges, handle_all}
use logical_backup.LogicalBackup.Stream.Names.{SameOids, SameOids-refl}
use logical_backup.LogicalBackup.Stream.{raws, whole, Injective}
use logical_backup.LogicalBackup.Transaction.{Gained, Gained-then, run_transaction}

-- A transaction on the wire.
pub record Transaction : Type 0 where
  pub start : Begin
  pub rows : List Message
  pub finish : Commit

abbrev pub on_wire : Transaction → List Message
on_wire x = Message.begin x.start ∷ x.rows ++ Message.commit x.finish ∷ []

abbrev pub row_count : List Transaction → ℕ
row_count [] = 0
row_count (x ∷ xs) = length x.rows + row_count xs

-- Positions do not fall and fit 64 bits, and between begin and commit there are rows and known
-- relations only.
abbrev pub InOrder : Relations → ℕ → List Transaction → Type 0
InOrder known lsn [] = Unit {0}
InOrder known lsn (x ∷ xs) =
    (lsn ≤ x.start.final_lsn)
    × (x.start.final_lsn < 2 ^ 64)
    × All (IsRow known) x.rows
    × InOrder known x.start.final_lsn xs

pub InOrder-SameOids :
    (m m' : Relations) (lsn : ℕ) (xs : List Transaction)
    → SameOids m m'
    → InOrder m lsn xs
    → InOrder m' lsn xs
InOrder-SameOids m m' lsn [] k h = tt
InOrder-SameOids m m' lsn (x ∷ xs) k (le, wide, rows, h) =
    (le, wide, IsRow-SameOids m m' x.rows k rows, InOrder-SameOids m m' x.start.final_lsn xs k h)

-- The position of the last of the transactions, or `lsn` if there is none.
abbrev pub last_lsn : ℕ → List Transaction → ℕ
last_lsn lsn [] = lsn
last_lsn lsn (x ∷ xs) = last_lsn x.start.final_lsn xs

-- What a table under the oid `o` gains by a transaction.
abbrev pub gain : ℕ → Transaction → List Bytes
gain o x = whole x.start.raw (raws o (map row x.rows)) x.finish.raw

module _ (T : TableBackuper) (L : Lawful T) (io : Io) (range : Ranges io.range) where
  -- Transactions in front of other messages.
  pub run_transactions :
      (lsn : ℕ) (xs : List Transaction) (more : ℕ) (b : LogicalBackup T.Store)
      → Injective b.backup_tables
      → L.IsReady (3 * (row_count xs + more)) lsn b.store
      → b.type_msg ≡ none
      → CanReport io b.cfg
      → InOrder b.relations lsn xs
      → (rest : List Message)
      → (b' : LogicalBackup T.Store) × (handle_all T io (collect on_wire xs ++ rest) b
          ≡ handle_all T io rest b')
        × Gained T L (λ o. collect (gain o) xs) (3 * more) (last_lsn lsn xs) b b'
  run_transactions lsn [] more b inj ready no_type quiet h rest = (
    b,
    refl,
    record {
      tables = refl;
      cfg_kept = refl;
      known = SameOids-refl b.relations;
      no_type = no_type;
      ready = subst (λ n. L.IsReady n lsn b.store) (omega arith) ready;
      logs = λ o t g. sym (append-nil _);
      untouched = λ t n. refl;
    },
  )
  run_transactions lsn (x ∷ xs) more b inj ready no_type quiet (le, wide, rows, h) rest =
      let (b1, e1, g1) =
        run_transaction T L io x.start x.rows x.finish (row_count xs + more) b range inj
          (L.later le wide (subst (λ n. L.IsReady n lsn b.store) (omega arith) ready)) no_type quiet
          rows (collect on_wire xs ++ rest) in
      let (b2, e2, g2) =
        run_transactions x.start.final_lsn xs more b1
          (λ o p t q r.
            inj o p t (ap (lookup o) (sym g1.tables) ∙ q) (ap (lookup p) (sym g1.tables) ∙ r))
          g1.ready g1.no_type (subst (CanReport io) (sym g1.cfg_kept) quiet)
          (InOrder-SameOids b.relations b1.relations x.start.final_lsn xs g1.known h) rest in
      (
        b2,
        ap (λ ms. handle_all T io ms b) (on_wire-append x (collect on_wire xs) rest) ∙ e1 ∙ e2,
        Gained-then T L g1 g2,
      )
    where
      on_wire-append :
          (x : Transaction) (ms rest : List Message)
          → (on_wire x ++ ms) ++ rest
            ≡ Message.begin x.start ∷ (x.rows ++ Message.commit x.finish ∷ (ms ++ rest))
      on_wire-append x ms rest =
          append_assoc (on_wire x) ms rest
          ∙ ap (◌∷◌ (Message.begin x.start))
              (append_assoc x.rows (Message.commit x.finish ∷ []) (ms ++ rest))

  -- Any sequence of whole transactions, as above, whose positions do not fall: the handler returns
  -- without an error, and the log of each tracked table has gained, transaction by transaction, the
  -- frames of the begin message, the table's messages in their order, and the commit message, or
  -- nothing if there is no message of it; any other table's log is as before. Condition: the tables
  -- keep what they save (`Lawful`) and are ready for three times as many messages as stand between
  -- begin and commit, different oids have different tables, no type message is pending, `range`
  -- meets each key of the map once, and a report on commit, if one is sent, is accepted.
  pub transactions :
      (lsn : ℕ) (xs : List Transaction) (b : LogicalBackup T.Store)
      → Injective b.backup_tables
      → L.IsReady (3 * row_count xs) lsn b.store
      → b.type_msg ≡ none
      → CanReport io b.cfg
      → InOrder b.relations lsn xs
      → (b' : LogicalBackup T.Store) × (handle_all T io (collect on_wire xs) b ≡ ok tt b')
        × ((o t : ℕ)
            → lookup o b.backup_tables ≡ some t
            → L.log b'.store t ≡ L.log b.store t ++ collect L.frame (collect (gain o) xs))
        × ((t : ℕ)
            → ((o : ℕ) → lookup o b.backup_tables ≢ some t)
            → L.log b'.store t ≡ L.log b.store t)
  transactions lsn xs b inj ready no_type quiet h =
      let (b', e, g) =
        run_transactions lsn xs 0 b inj (subst (λ n. L.IsReady n lsn b.store) (omega arith) ready)
          no_type quiet h [] in
      (
        b',
        ap (λ ms. handle_all T io ms b) (sym (append-nil (collect on_wire xs)))
            ∙ e
            ∙ (unfold handle_all in refl),
        g.logs,
        g.untouched,
      )
