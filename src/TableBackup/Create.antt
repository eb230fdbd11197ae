-- ===== src/TableBackup/Create.antt =====
-- pkg/tablebackup/tablebackup.go: `New`, `createDirs`, `FetchRelationInfo` and `copyFile`, and
-- `TableDir` of pkg/utils/utils.go. The state is the set of directories that exist. `Paths` holds
-- `md5.Sum` printed in hexadecimal and `path.Join`. The texts of the queries are left out, and
-- `New` does not start its two goroutines here: they are the steps of TableBackup.
pub mod Dirs
pub mod Fetch
use logical_backup.Common.{
  ℕ, ◌*◌, ◌^◌, Bool, true, false, not, ◌&&◌, ◌||◌, List, [], ◌∷◌, ◌++◌, Option, none, some, length,
  take, drop, if◌then◌else◌,
}
use logical_backup.Common.Bytes.{Bytes}
use logical_backup.Common.Exec.{
  Step, ok, err, panic, blocked, Exec, ◌>>=◌, ◌>>◌, get, modify, done, fail, pure, when, guard,
}
use logical_backup.Common.Files.{Files, find, write_file, remove_file}
use logical_backup.Common.Hex.{bytes_eq}
use logical_backup.Config.{Config}
use logical_backup.Message.{Identifier}
use logical_backup.Message.Sql.{codes}
use logical_backup.TableBackup.{TableBackup}
use logical_backup.TableBackup.Basebackup.{Session}

pub record Paths : Type 0 where
  pub sanitize : Identifier → Bytes
  pub md5_hex : Bytes → Bytes
  pub path_join : Bytes → Bytes → Bytes

-- `tblHash[i:i+2]` of a text with as many bytes.
abbrev pub two_at : ℕ → Bytes → Bytes
two_at i s = take 2 (drop i s)

-- `utils.TableDir`
unfoldable pub table_dir : Paths → Identifier → Bytes
table_dir P tbl =
    let hash = P.md5_hex (P.sanitize tbl) in
    let named = b'/' ∷ (tbl.namespace ++ (b'.' ∷ tbl.name)) in
    two_at 0 hash
    ++ (b'/' ∷ (two_at 2 hash ++ (b'/' ∷ (two_at 4 hash ++ (b'/' ∷ (hash ++ named))))))

-- The answers of the system: Stat may fail although the directory is there.
pub record DirIo : Type 0 where
  pub stat_ok : Bytes → Bool
  pub mkdir_ok : Bytes → Bool

pub data DirError : Type 0 where
  delta_dir_failed archive_dir_failed : DirError

abbrev pub D : Type 0 → Type 0
D A = Exec (List Bytes) DirError A

unfoldable pub exists : Bytes → List Bytes → Bool
exists p [] = false
exists p (q ∷ dirs) = bytes_eq q p || exists p dirs

-- `os.IsNotExist(err)` for the error of Stat.
abbrev pub is_missing : DirIo → Bytes → List Bytes → Bool
is_missing io p dirs = io.stat_ok p && not (exists p dirs)

-- `MkdirAll`; the directories above are not in the state.
unfoldable pub create_dir : DirIo → Bytes → DirError → D (Unit {0})
create_dir io p e dirs =
    if is_missing io p dirs
    then if io.mkdir_ok p then ok tt (p ∷ dirs) else err e dirs
    else ok tt dirs

unfoldable pub create_dirs : Paths → DirIo → Bytes → Bytes → D (Unit {0})
create_dirs P io dir archive_dir = do
  create_dir io (P.path_join dir (codes "deltas")) delta_dir_failed
  create_dir io (P.path_join archive_dir (codes "deltas")) archive_dir_failed

abbrev pub three_seconds : ℕ
three_seconds = 3 * 10 ^ 9

-- The files that an earlier run has left in the table's two directories.
pub record Left : Type 0 where
  pub disk : Files
  pub archive : Files
  pub info : Option ℕ
  pub dumped : Bool

-- The struct, whose fields start with the zero values of Go.
unfoldable pub new_session : ℕ → Config → Identifier → Left → Session
new_session self cfg tbl left = record {
  table = record {
    self = self;
    identifier = tbl;
    cfg = cfg;
    disk = left.disk;
    archive = left.archive;
    delta_cnt = 0;
    delta_files_cnt = 0;
    deltas_since_backup_cnt = 0;
    filename_postfix = 0;
    last_lsn = 0;
    current_delta_fp = none;
    current_delta_filename = [];
    basebackup_lsn = 0;
    last_written_message = none;
    archive_files = [];
  };
  locked = false;
  conn = false;
  tx = false;
  last_basebackup_time = none;
  sleep_between_backups = three_seconds;
  info = left.info;
  dumped = left.dumped;
}

-- `New`
unfoldable pub new : Paths → DirIo → ℕ → Config → Identifier → Left → D Session
new P io self cfg tbl left = do
  create_dirs P io (P.path_join cfg.temp_dir (table_dir P tbl))
      (P.path_join cfg.archive_dir (table_dir P tbl))
  pure (new_session self cfg tbl left)

-- The answers to `copyFile`, and what `io.Copy` has written if it fails.
pub record CopyIo : Type 0 where
  pub stat_ok : Bool
  pub is_regular : Bool
  pub open_ok : Bool
  pub create_ok : Bool
  pub copy_fault : Option Bytes

-- `copyFile` from one tree of files to another: the number of bytes, or `none` for an error, and what
-- the other tree is then.
unfoldable pub copy_file : CopyIo → Bytes → Bytes → Files → Files → Option ℕ × Files
copy_file io src dst from to = elim (find src from) [
  | none ↦ (none, to)
  | some content ↦
      if io.stat_ok && (io.is_regular && (io.open_ok && io.create_ok))
      then elim io.copy_fault [
        | none ↦ (some (length content), write_file dst content to)
        | some part ↦ (none, write_file dst part to)
      ]
      else (none, to)
]
