-- ===== src/LogicalBackup/Confirmed.antt =====
-- What has been saved when a position is reported to the server.
use mathlib.Core.Path.{subst}
use logical_backup.Common.{
  append-nil, ℕ, ◌+◌, ◌*◌, ◌^◌, ◌≤◌, ◌<◌, ◌≡◌, sym, ap, ◌∙◌, List, [], ◌∷◌, ◌++◌, map, none, some,
  All, length, collect, arith,
}
use logical_backup.Common.Assoc.{lookup}
use logical_backup.Common.Exec.{ok}
use logical_backup.LogicalBackup.{
  TableBackuper, LogicalBackup, Io, send_status, handle_begin, handler,
}
use logical_backup.LogicalBackup.Laws.{Lawful, gained}
use logical_backup.LogicalBackup.Reports.{Accepts, CanReport, send_status_ok}
use logical_backup.LogicalBackup.Rows.{IsRow, IsRow-SameOids, row, Ranges, handle_all, rows-Open}
use logical_backup.LogicalBackup.Stream.{raws, body, Injective, Open}
use logical_backup.LogicalBackup.Transaction.{after_begin, begin-Open}
use logical_backup.LogicalBackup.Transactions.{
  Transaction, on_wire, row_count, InOrder, last_lsn, gain, run_transactions,
}
use logical_backup.Message.{Message, Begin}

module _ (T : TableBackuper) (L : Lawful T) where
  -- A report between any two messages of a transaction, behind any sequence of whole transactions
  -- whose positions do not fall: it sends the position of the transaction that has begun, and at
  -- that time the log of each tracked table has gained its part of every transaction before, whole
  -- and in order, and then, of the one that has begun, the begin message and the table's messages
  -- that have come, or nothing if none has. Condition: between begin and commit there are rows and
  -- known relations only, the report is accepted and both state files can be written, the tables
  -- keep what they save (`Lawful`) and are ready for three times as many messages as stand behind
  -- begin messages, different oids have different tables, no type message is pending, `range` meets
  -- each key of the map once, and a report on commit, if one is sent, is accepted.
  pub reported_saved :
      (io report : Io) (lsn : ℕ) (xs : List Transaction) (v : Begin) (ms : List Message)
      (b : LogicalBackup T.Store)
      → Ranges io.range
      → Accepts report
      → Injective b.backup_tables
      → L.IsReady (3 * (row_count xs + length ms)) lsn b.store
      → b.type_msg ≡ none
      → CanReport io b.cfg
      → InOrder b.relations lsn xs
      → last_lsn lsn xs ≤ v.final_lsn
      → v.final_lsn < 2 ^ 64
      → All (IsRow b.relations) ms
      → (b1 : LogicalBackup T.Store) × (b2 : LogicalBackup T.Store) × (handle_all T io
            (collect on_wire xs ++ Message.begin v ∷ ms)
            b
          ≡ ok tt b1)
        × (send_status T report b1 ≡ ok tt b2)
        × (b2.statuses ≡ v.final_lsn ∷ b1.statuses)
        × ((o t : ℕ)
            → lookup o b.backup_tables ≡ some t
            → L.log b2.store t
              ≡ L.log b.store t
                ++ collect L.frame (collect (gain o) xs ++ body v.raw (raws o (map row ms))))
  unfolding handle_all handle_begin handler
  reported_saved io report lsn xs v ms b range a inj ready no_type quiet order le wide rows =
      let (b1, e1, g) =
        run_transactions T L io range lsn xs (length ms) b inj ready no_type quiet order
          (Message.begin v ∷ ms) in
      let inj1 : Injective b1.backup_tables = λ o p t h k.
        inj o p t (ap (lookup o) (sym g.tables) ∙ h) (ap (lookup p) (sym g.tables) ∙ k) in
      let (b2, e2, w) =
        rows-Open T L b1 v.raw v.final_lsn inj1 io ms [] 0 (after_begin T v b1)
          (IsRow-SameOids b.relations b1.relations ms g.known rows)
          (subst (λ n. Open T L b1 v.raw v.final_lsn inj1 n [] (after_begin T v b1)) (omega arith)
            (begin-Open T L v (length ms) b1 inj1 (L.later le wide g.ready) g.no_type))
          [] in
      let (b3, e3, same, st) = send_status_ok T report b2 a in
      (
        b2,
        b3,
        e1 ∙ ap (λ l. handle_all T io l (after_begin T v b1)) (sym (append-nil ms)) ∙ e2,
        e3,
        st ∙ ap (λ p. p ∷ b2.statuses) w.at_lsn,
        λ o t h.
            ap (λ q. L.log q t) same.store_kept
            ∙ gained T L (L.log b.store t) (collect (gain o) xs) (body v.raw (raws o (map row ms)))
                (g.logs o t h) (w.logs o t (ap (lookup o) g.tables ∙ h)),
      )
