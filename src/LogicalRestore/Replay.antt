-- ===== src/LogicalRestore/Replay.antt =====
-- The statements of a restore that meets no error.
use logical_backup.Common.{
  ℕ, ◌≡◌, refl, ap, ◌∙◌, true, false, List, [], ◌∷◌, ◌++◌, map, append-nil, Option, none, some, All,
  collect, leb, if◌then◌else◌, arith,
}
use logical_backup.Common.Bytes.{Bytes}
use logical_backup.Common.Exec.{ok, continue-eq}
use logical_backup.Common.Int.{ℤ}
use logical_backup.Common.Outcome
use logical_backup.LogicalRestore.{
  Io, Scan, executes, commits, execute, LogicalRestore, with_info, new, connect, load_info,
  decoded_info, set_info, begin, same_struct, check_table_struct, load_dump, apply_line,
  apply_lines, apply_scan, apply_delta, apply_files, apply_listed, apply_deltas, commit, restore,
}
use logical_backup.Message.{Relation}
use logical_backup.LogicalRestore.Calls.{more, more-nil, more-more, prepared}

-- The statement of a delta behind the position of the base backup.
abbrev pub new_statement : ℕ → Option (ℕ × ℤ × Bytes) → List Bytes
new_statement start none = []
new_statement start (some (lsn, tx_id, sql)) = if leb lsn start then [] else sql ∷ []

abbrev pub scanned : Option Scan → List Bytes
scanned none = []
scanned (some scan) = scan.lines

-- The statements of a file that a restore has to repeat.
abbrev pub statements : Io → ℕ → Bytes → List Bytes
statements io start file =
    collect (λ line. new_statement start (io.scan_delta line)) (scanned (io.open_delta file))

-- A file that opens, is read to its end, and has only lines that parse.
pub record IsReadable (io : Io) (file : Bytes) : Type 0 where
  pub scan : Scan
  pub opens : io.open_delta file ≡ some scan
  pub complete : scan.complete ≡ true
  pub parses : All (λ line. (d : ℕ × ℤ × Bytes) × (io.scan_delta line ≡ some d)) scan.lines

module _ (io : Io) (execs : (sql : Bytes) → io.exec_ok sql ≡ true) where
  apply_line_ok :
      (d : ℕ × ℤ × Bytes) (r : LogicalRestore)
      → r.tx ≡ true
      → apply_line io (some d) r ≡ ok tt (more (new_statement r.start_lsn (some d)) r)
  unfolding apply_line execute
  apply_line_ok (lsn, tx_id, sql) r t = ground (arith, execs sql, append-nil r.calls)

  apply_lines_ok :
      (lines : List Bytes) (r : LogicalRestore)
      → r.tx ≡ true
      → All (λ line. (d : ℕ × ℤ × Bytes) × (io.scan_delta line ≡ some d)) lines
      → apply_lines io lines r
        ≡ ok tt (more (collect (λ line. new_statement r.start_lsn (io.scan_delta line)) lines) r)
  unfolding apply_lines
  apply_lines_ok [] r t a = ap (ok tt) (more-nil r)
  apply_lines_ok (line ∷ lines) r t ((d, e), a) =
      let new = new_statement r.start_lsn (io.scan_delta line) in
      continue-eq _ (λ _. apply_lines io lines) (rw e (apply_line_ok d r t))
      ∙ apply_lines_ok lines (more new r) t a
      ∙ ap (ok tt) (more-more new _ r)

  apply_delta_ok :
      (file : Bytes) (r : LogicalRestore)
      → r.tx ≡ true
      → IsReadable io file
      → apply_delta io file r ≡ ok tt (more (statements io r.start_lsn file) r)
  unfolding apply_delta apply_scan
  apply_delta_ok file r t w =
      rw w.opens
        (continue-eq _ _ (apply_lines_ok w.scan.lines r t w.parses) ∙ ground (arith, w.complete))

  apply_files_ok :
      (files : List Bytes) (r : LogicalRestore)
      → r.tx ≡ true
      → All (IsReadable io) files
      → apply_files io files r ≡ ok tt (more (collect (statements io r.start_lsn) files) r)
  unfolding apply_files
  apply_files_ok [] r t a = ap (ok tt) (more-nil r)
  apply_files_ok (file ∷ files) r t (w, a) =
      continue-eq _ (λ _. apply_files io files) (apply_delta_ok file r t w)
      ∙ apply_files_ok files (more (statements io r.start_lsn file) r) t a
      ∙ ap (ok tt) (more-more (statements io r.start_lsn file) _ r)

-- The answers of a restore without an error, with the position of the base backup and the files in
-- the order of `sort.Sort`.
pub record IsCalm (io : Io) (start : ℕ) (sorted : List Bytes) : Type 0 where
  pub text : Bytes
  pub rel : Relation
  pub current : Relation
  pub files : List Bytes
  pub connects : io.connect_ok ≡ true
  pub opens : io.info_open_ok ≡ true
  pub decodes : io.info ≡ some (text, rel)
  pub parses : io.parse_lsn text ≡ some start
  pub begins : io.begin_ok ≡ true
  pub fetches : io.fetch ≡ some current
  pub agrees : io.columns_eq current.columns rel.columns ≡ true
  pub dump_opens : io.dump_open_ok ≡ true
  pub copies : io.copy_ok ≡ true
  pub lists : io.list ≡ some files
  pub sorts : io.sort files ≡ Outcome.ok sorted
  pub reads : All (IsReadable io) sorted
  pub execs : (sql : Bytes) → io.exec_ok sql ≡ true
  pub commits : io.commit_ok ≡ true

-- The restore in front of the deltas.
abbrev ready : ℕ → Relation → LogicalRestore → LogicalRestore
ready start rel r = record (with_info start rel r) { conn = true; tx = true; calls = prepared }

restore-run :
    (io : Io) (start : ℕ) (sorted : List Bytes) (schema_name table_name : Bytes)
    (c : IsCalm io start sorted) (s : LogicalRestore)
    → apply_files io sorted (ready start c.rel (new schema_name table_name)) ≡ ok tt s
    → s.tx ≡ true
    → restore io (new schema_name table_name)
      ≡ ok tt (record s { tx = false; calls = s.calls ++ commits ∷ [] })
unfolding restore new connect load_info decoded_info set_info begin same_struct check_table_struct
    load_dump apply_deltas apply_listed commit
restore-run io start sorted schema_name table_name c s e t = ground (
  arith, c.connects, c.opens, c.decodes, c.parses, c.begins, c.fetches, c.agrees, c.dump_opens,
  c.copies, c.lists, c.sorts, c.commits, e, t,
)

-- A restore without an error sends, between the dump and the commit, the statements of the delta
-- files in the order of `sort.Sort`: those of a file in the order of its lines, and only those
-- behind the position of the base backup. Condition: every call succeeds, and each file can be read
-- and parsed.
pub restore_replays :
    (io : Io) (start : ℕ) (sorted : List Bytes) (schema_name table_name : Bytes)
    → IsCalm io start sorted
    → (r : LogicalRestore) × (restore io (new schema_name table_name) ≡ ok tt r)
      × (r.calls ≡ prepared ++ map executes (collect (statements io start) sorted) ++ commits ∷ [])
restore_replays io start sorted schema_name table_name c =
    let r = ready start c.rel (new schema_name table_name) in
    let s = more (collect (statements io start) sorted) r in
    (
      record s { tx = false; calls = s.calls ++ commits ∷ [] },
      restore-run io start sorted schema_name table_name c s
          (apply_files_ok io c.execs sorted r refl c.reads) refl,
      refl,
    )
