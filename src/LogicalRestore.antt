-- ===== src/LogicalRestore.antt =====
-- pkg/logicalrestore/logicalrestore.go and cmd/restore/main.go: the restore of one table. `Io` holds
-- what pgx, yaml, bufio and the file system answer, and the library functions that are called:
-- `pgx.ParseLSN`, `fmt.Sscanf` with the format of a delta line, and `sort.Sort` with `deltas.Less`,
-- which panics where Less does. `calls` are those that reached the server, in order. The texts around
-- errors and the log are not modelled, and neither is the connection's configuration.
pub mod Calls
pub mod Atomic
pub mod Order
pub mod Layout
pub mod Replay
use logical_backup.Common.{
  ℕ, Bool, true, false, not, ◌&&◌, List, [], ◌∷◌, ◌++◌, map, Option, none, some, leb, ◌==◌,
  if◌then◌else◌,
}
use logical_backup.Common.Bytes.{Bytes}
use logical_backup.Common.Exec.{
  Step, ok, err, panic, blocked, Exec, ◌>>=◌, ◌>>◌, get, modify, done, fail, guard, when,
}
use logical_backup.Common.Hex.{bytes_eq}
use logical_backup.Common.Int.{ℤ}
use logical_backup.Common.Outcome
use logical_backup.Common.Outcome.{Outcome}
use logical_backup.DeltaFiles.{contains_dot, before_dot}
use logical_backup.Message.{Identifier, Column, Relation}

-- A delta file as bufio.Scanner reads it: its lines, and whether it ends without an error.
pub record Scan : Type 0 where
  pub lines : List Bytes
  pub complete : Bool

-- `columns_eq` is `reflect.DeepEqual`; `info` is what yaml decodes, the position still as a text;
-- `fetch` is `tablebackup.FetchRelationInfo`.
pub record Io : Type 0 where
  pub connect_ok : Bool
  pub begin_ok : Bool
  pub commit_ok : Bool
  pub rollback_ok : Bool
  pub info_open_ok : Bool
  pub info : Option (Bytes × Relation)
  pub parse_lsn : Bytes → Option ℕ
  pub fetch : Option Relation
  pub columns_eq : List Column → List Column → Bool
  pub dump_open_ok : Bool
  pub copy_ok : Bool
  pub list : Option (List Bytes)
  pub sort : List Bytes → Outcome Bool (List Bytes)
  pub open_delta : Bytes → Option Scan
  pub scan_delta : Bytes → Option (ℕ × ℤ × Bytes)
  pub exec_ok : Bytes → Bool

-- `commits` is that COMMIT has been sent: if its reply is an error, then it may still have taken
-- effect.
pub data Call : Type 0 where
  connects begins fetches copies commits rolls_back : Call
  executes : Bytes → Call

pub data Error : Type 0 where
  connect_failed tx_in_progress no_connection begin_failed no_tx commit_failed rollback_failed
        open_failed decode_failed lsn_failed fetch_failed structs_differ copy_failed list_failed
        line_failed exec_failed scan_failed :
      Error

pub record LogicalRestore : Type 0 where
  pub identifier : Identifier
  pub start_lsn : ℕ
  pub column_names : List Bytes
  pub rel_info : Relation
  pub conn : Bool
  pub tx : Bool
  pub calls : List Call

abbrev pub M : Type 0
M = Exec LogicalRestore Error (Unit {0})

abbrev pub no_relation : Relation
no_relation = record {
  identifier = record { namespace = []; name = [] };
  raw = [];
  oid = 0;
  replica_identity = 0;
  columns = [];
}

-- `New`
unfoldable pub new : Bytes → Bytes → LogicalRestore
new schema_name table_name = record {
  identifier = record { namespace = schema_name; name = table_name };
  start_lsn = 0;
  column_names = [];
  rel_info = no_relation;
  conn = false;
  tx = false;
  calls = [];
}

abbrev pub call : Call → M
call c r = ok tt (record r { calls = r.calls ++ c ∷ [] })

unfoldable pub connect : Io → M
connect io = do
  guard io.connect_ok connect_failed
  modify (λ r. record r { conn = true })
  call connects

unfoldable pub begin : Io → M
begin io = do
  r ← get
  guard (not r.tx) tx_in_progress
  guard r.conn no_connection
  guard io.begin_ok begin_failed
  modify (λ s. record s { tx = true })
  call begins

unfoldable pub commit : Io → M
commit io = do
  r ← get
  guard r.tx no_tx
  call commits
  guard io.commit_ok commit_failed
  modify (λ s. record s { tx = false })

unfoldable pub rollback : Io → M
rollback io = do
  r ← get
  guard r.tx no_tx
  guard io.rollback_ok rollback_failed
  modify (λ s. record s { tx = false })
  call rolls_back

abbrev pub with_info : ℕ → Relation → LogicalRestore → LogicalRestore
with_info lsn rel r = record r {
  start_lsn = lsn;
  column_names = map (λ c. c.name) rel.columns;
  rel_info = rel;
}

-- `info.Relation` once `pgx.ParseLSN` has read the position.
unfoldable pub set_info : Option ℕ → Relation → M
set_info none rel = fail lsn_failed
set_info (some lsn) rel = modify (with_info lsn rel)

unfoldable pub decoded_info : Io → Option (Bytes × Relation) → M
decoded_info io none = fail decode_failed
decoded_info io (some (text, rel)) = set_info (io.parse_lsn text) rel

unfoldable pub load_info : Io → M
load_info io = do guard io.info_open_ok open_failed; decoded_info io io.info

unfoldable pub same_struct : Io → Option Relation → M
same_struct io none r = err fetch_failed r
same_struct io (some rel) r =
    (do call fetches; guard (io.columns_eq rel.columns r.rel_info.columns) structs_differ) r

unfoldable pub check_table_struct : Io → M
check_table_struct io = same_struct io io.fetch

unfoldable pub load_dump : Io → M
load_dump io = do guard io.dump_open_ok open_failed; guard io.copy_ok copy_failed; call copies

-- `r.tx.Exec(sql)`
unfoldable pub execute : Io → Bytes → M
execute io sql = do guard (io.exec_ok sql) exec_failed; call (executes sql)

-- A delta up to the position of the base backup is skipped. `tx` is a nil pointer outside a
-- transaction.
unfoldable pub apply_line : Io → Option (ℕ × ℤ × Bytes) → M
apply_line io none r = err line_failed r
apply_line io (some (lsn, tx_id, sql)) r =
    if leb lsn r.start_lsn then ok tt r else if r.tx then execute io sql r else panic

unfoldable pub apply_lines : Io → List Bytes → M
apply_lines io [] = done
apply_lines io (line ∷ lines) = apply_line io (io.scan_delta line) >> apply_lines io lines

unfoldable pub apply_scan : Io → Option Scan → M
apply_scan io none = fail open_failed
apply_scan io (some scan) = do apply_lines io scan.lines; guard scan.complete scan_failed

unfoldable pub apply_delta : Io → Bytes → M
apply_delta io file = apply_scan io (io.open_delta file)

unfoldable pub apply_files : Io → List Bytes → M
apply_files io [] = done
apply_files io (file ∷ files) = apply_delta io file >> apply_files io files

abbrev pub apply_sorted : Io → Outcome Bool (List Bytes) → M
apply_sorted io (Outcome.ok files) r = apply_files io files r
apply_sorted io (Outcome.err e) r = panic
apply_sorted io Outcome.panic r = panic

unfoldable pub apply_listed : Io → Option (List Bytes) → M
apply_listed io none = fail list_failed
apply_listed io (some files) = apply_sorted io (io.sort files)

unfoldable pub apply_deltas : Io → M
apply_deltas io = apply_listed io io.list

-- `Restore`
unfoldable pub restore : Io → M
restore io = do
  connect io
  load_info io
  begin io
  check_table_struct io
  load_dump io
  apply_deltas io
  commit io

-- The text behind the first dot of a text with one dot, and whether there are more dots: what
-- `strings.Split(*pgTable, ".")` gives the switch on the number of parts.
unfoldable pub behind_dot : Bytes → Bytes
behind_dot [] = []
behind_dot (c ∷ s) = if c == b'.' then s else behind_dot s

abbrev pub public_schema : Bytes
public_schema = b'p' ∷ b'u' ∷ b'b' ∷ b'l' ∷ b'i' ∷ b'c' ∷ []

-- The schema and the table of the flag `-table`, none for an invalid name.
unfoldable pub table_parts : Bytes → Option (Bytes × Bytes)
table_parts name =
    if contains_dot name
    then if contains_dot (behind_dot name) then none else some (before_dot name, behind_dot name)
    else some (public_schema, name)
