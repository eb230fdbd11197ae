-- ===== src/TableBackup/Archive.antt =====
-- The archiver and the files of a table.
use logical_backup.Common.{◌≡◌, refl, ◌⊎◌, List, [], ◌∷◌, some, arith}
use logical_backup.Common.Bytes.{Bytes}
use logical_backup.Common.Files.{find, find-write_file, find-remove_file, bytes_eq_iff}
use logical_backup.TableBackup.{Io, TableBackup, archive_one, archiver_step}

archive_one-find :
    (io : Io) (file path c : Bytes) (t : TableBackup)
    → find path t.disk ≡ some c
    → (find path (archive_one io file t).disk ≡ some c)
      ⊎ (find path (archive_one io file t).archive ≡ some c)
unfolding archive_one
archive_one-find io file path c t h = ground (
  arith,
  h,
  find-remove_file file path t.disk,
  find-write_file file path c t.archive,
  bytes_eq_iff file path,
)

-- A round of the archiver loses no file, whatever the system answers: each file of the table keeps
-- its contents, or has a copy of them in the archive.
pub archiver_step_keeps :
    (io : Io) (path c : Bytes) (t : TableBackup)
    → find path t.disk ≡ some c
    → (find path (archiver_step io t).disk ≡ some c)
      ⊎ (find path (archiver_step io t).archive ≡ some c)
archiver_step_keeps io path c t h = next t.archive_files refl
  where
    next :
        (files : List Bytes)
        → t.archive_files ≡ files
        → (find path (archiver_step io t).disk ≡ some c)
          ⊎ (find path (archiver_step io t).archive ≡ some c)
    next [] e = unfold archiver_step in ground (arith, h)
    next (file ∷ rest) e =
        unfold archiver_step in
        ground (arith, archive_one-find io file path c (record t { archive_files = rest }) h)
