-- ===== src/TableBackup/Log/Steps.antt =====
-- What the steps of a table do to its log.
use logical_backup.Common.{
  ℕ, ◌+◌, ◌^◌, ◌≤◌, ◌<◌, ◌≡◌, refl, sym, ap, ◌∙◌, ◌⊎◌, inl, inr, true, false, List, [], ◌∷◌, ◌++◌,
  append-nil, append_assoc, collect-append, Option, none, some, All, arith,
}
use logical_backup.Common.Bytes.{Bytes}
use logical_backup.Common.Files.{find, write_file, append_file}
use logical_backup.DeltaFiles.{delta_name}
use logical_backup.TableBackup.{
  File, Io, TableBackup, delta_path, next_postfix, set_postfix, opened, frame,
}
use logical_backup.TableBackup.Calls.{closed, rotated, rotated_current, new_file, stored}
use logical_backup.TableBackup.Naming.{IsPast, Named, rotate_keeps, new_missing, All-IsPast}
use logical_backup.TableBackup.Log.Unarchived.{
  unarchived, names, contents, Distinct, write_file-fresh, find-unarchived, unarchived-snoc,
  unarchived-append_file, unarchived-missing, names-append, names-append_file, Distinct-append_file,
  Distinct-snoc, contents-append_file, All-last, All-append_file,
}

-- What the delta files of a table hold, those in the archive first.
abbrev pub log : TableBackup → Bytes
log t = contents t.archive ++ contents (unarchived t.archive t.disk)

abbrev pub paths : Option File → List Bytes
paths none = []
paths (some fp) = fp.path ∷ []

-- There is a current file, which is open; or there is none yet, and nothing was sent.
abbrev pub HasFile : TableBackup → Type 0
HasFile t =
    ((t.current_delta_fp ≡ none) × (t.delta_cnt ≡ 0) × (t.archive_files ≡ []))
    ⊎ ((fp : File) × (t.current_delta_fp ≡ some fp)
        × (fp.is_open ≡ true)
        × (t.current_delta_filename ≡ fp.path))

-- The files without a copy are those on their way to the archiver and then the current one, each
-- once; every file is a delta file no later than the last that was opened.
pub record Tidy (t : TableBackup) : Type 0 where
  pub in_order : names (unarchived t.archive t.disk) ≡ t.archive_files ++ paths t.current_delta_fp
  pub distinct : Distinct (unarchived t.archive t.disk)
  pub disk_named : Named t
  pub archive_named : All (λ f. IsPast t.last_lsn t.filename_postfix f.0) t.archive
  pub has_file : HasFile t

-- A delta in the current file joins the log.
pub stored-Tidy :
    (now : ℕ) (msg : Bytes) (fp : File) (t : TableBackup)
    → Tidy t
    → t.current_delta_fp ≡ some fp
    → fp.is_open ≡ true
    → Tidy (stored now msg fp t) × (log (stored now msg fp t) ≡ log t ++ frame msg)
stored-Tidy now msg fp t w e o = (
  record {
    in_order = rw same (names-append_file fp.path (frame msg) _ ∙ w.in_order);
    distinct = rw same (Distinct-append_file fp.path (frame msg) _ w.distinct);
    disk_named =
        All-append_file (IsPast t.last_lsn t.filename_postfix) fp.path (frame msg) t.disk
          w.disk_named;
    archive_named = w.archive_named;
    has_file = ground (arith, w.has_file, e);
  },
  rw same (
      ap (λ c. contents t.archive ++ c)
        (contents-append_file fp.path (frame msg) t.archive_files _ ordered w.distinct)
      ∙ sym
          (append_assoc (contents t.archive) (contents (unarchived t.archive t.disk)) (frame msg))),
)
  where
    ordered : names (unarchived t.archive t.disk) ≡ t.archive_files ++ fp.path ∷ []
    ordered = w.in_order ∙ ap (λ f. t.archive_files ++ paths f) e

    missing : find fp.path t.archive ≡ none
    missing =
        All-last (λ p. find p t.archive ≡ none) fp.path t.archive_files _ ordered
          (unarchived-missing t.archive t.disk)

    same :
        unarchived t.archive (append_file fp.path (frame msg) t.disk)
        ≡ append_file fp.path (frame msg) (unarchived t.archive t.disk)
    same = unarchived-append_file t.archive fp.path (frame msg) t.disk missing

closed_disk : (t : TableBackup) → (closed t).disk ≡ t.disk
closed_disk t = ground arith

closed_archive : (t : TableBackup) → (closed t).archive ≡ t.archive
closed_archive t = ground arith

pub closed_archive_files :
    (t : TableBackup)
    → HasFile t
    → (closed t).archive_files ≡ t.archive_files ++ paths t.current_delta_fp
closed_archive_files t (inl (e, z, k)) = rw e (sym (append-nil t.archive_files))
closed_archive_files t (inr (fp, e, o, n)) = rw e (ap (λ p. t.archive_files ++ p ∷ []) n)

module _ (io : Io) (lsn : ℕ) (t : TableBackup) (stat : io.stat_is_exist ≡ false)
    (rises : t.last_lsn ≤ lsn) (wide : lsn < 2 ^ 64) (room : t.filename_postfix + 1 < 2 ^ 31) where
  abbrev new_path : Bytes
  new_path = delta_path (delta_name lsn (next_postfix io lsn t))

  -- A new file leaves the log as it is.
  pub rotated-Tidy : Tidy t → Tidy (rotated io lsn t) × (log (rotated io lsn t) ≡ log t)
  rotated-Tidy w = (
    record {
      in_order =
          rw (archives, disks, same, sends)
            (names-append (unarchived t.archive t.disk) ((new_path, []) ∷ [])
              ∙ ap (λ l. l ++ new_path ∷ []) w.in_order);
      distinct =
          rw (archives, disks, same)
            (Distinct-snoc new_path [] (unarchived t.archive t.disk)
              (find-unarchived t.archive new_path t.disk missing ∙ fresh) w.distinct);
      disk_named = rw (closed_disk t) kept.2;
      archive_named =
          rw archives (All-IsPast io lsn t stat rises wide room t.archive w.archive_named);
      has_file = inr (new_file io lsn t, rotated_current io lsn t, refl, refl);
    },
    rw (archives, disks, same)
        (ap (λ c. contents t.archive ++ c)
          (collect-append (λ f. f.1) (unarchived t.archive t.disk) ((new_path, []) ∷ [])
            ∙ append-nil _)),
  )
    where
      kept :
          (find new_path t.disk ≡ none)
          × ((path c : Bytes)
              → find path t.disk ≡ some c
              → find path (opened lsn (set_postfix (next_postfix io lsn t) t)).disk ≡ some c)
          × Named (opened lsn (set_postfix (next_postfix io lsn t) t))
      kept = rotate_keeps io lsn t stat rises wide room w.disk_named

      fresh : find new_path t.disk ≡ none
      fresh = kept.0

      missing : find new_path t.archive ≡ none
      missing = new_missing io lsn t stat rises wide room t.archive w.archive_named

      archives : (closed t).archive ≡ t.archive
      archives = closed_archive t

      disks : write_file new_path [] (closed t).disk ≡ t.disk ++ (new_path, []) ∷ []
      disks = rw (closed_disk t) (write_file-fresh new_path [] t.disk fresh)

      sends : (closed t).archive_files ≡ t.archive_files ++ paths t.current_delta_fp
      sends = closed_archive_files t w.has_file

      same :
          unarchived t.archive (t.disk ++ (new_path, []) ∷ [])
          ≡ unarchived t.archive t.disk ++ (new_path, []) ∷ []
      same = unarchived-snoc t.archive new_path [] t.disk missing
