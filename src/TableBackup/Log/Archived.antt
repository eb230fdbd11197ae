-- ===== src/TableBackup/Log/Archived.antt =====
-- What a round of the archiver does to a table's log.
use mathlib.Core.Path.{subst}
use logical_backup.Common.{
  ◌≡◌, refl, Bool, sym, ap, ◌∙◌, true, false, List, [], ◌∷◌, ◌++◌, append-nil, append_assoc,
  collect-append, none, some, All, arith, if◌then◌else◌,
}
use logical_backup.Common.Bytes.{Bytes}
use logical_backup.Common.Files.{
  Files, find, write_file, remove_file, bytes_eq_refl, find-write_file,
}
use logical_backup.TableBackup.{Io, TableBackup, archive_one, archiver_step}
use logical_backup.TableBackup.Naming.{IsPast, All-write_file}
use logical_backup.TableBackup.Log.Steps.{log, paths, Tidy}
use logical_backup.TableBackup.Log.Unarchived.{
  unarchived, names, contents, Distinct, write_file-fresh, find-unarchived, unarchived-write_file,
  unarchived-remove_file, unarchived-missing, remove_file-missing, All-find, All-remove_file,
}

-- The files that remain after the oldest one has been copied, whether or not it could be removed.
still_unarchived :
    (remove_ok : Bool) (file c : Bytes) (archive disk us : Files)
    → unarchived archive disk ≡ (file, c) ∷ us
    → find file us ≡ none
    → unarchived (write_file file c archive) (if remove_ok then remove_file file disk else disk)
      ≡ us
still_unarchived remove_ok file c archive disk us e n = next remove_ok
  where
    remove_head : remove_file file ((file, c) ∷ us) ≡ us
    remove_head = unfold remove_file in rw (bytes_eq_refl file) (remove_file-missing file us n)

    kept : unarchived (write_file file c archive) disk ≡ us
    kept = unarchived-write_file archive file c disk ∙ ap (remove_file file) e ∙ remove_head

    next :
        (ok : Bool)
        → unarchived (write_file file c archive) (if ok then remove_file file disk else disk) ≡ us
    next true =
        unarchived-remove_file (write_file file c archive) file c disk
          (rw (find-write_file, bytes_eq_refl) refl)
        ∙ kept
    next false = kept

module _ (io : Io) (copies : io.copy_ok ≡ true) where
  archive_first :
      (t : TableBackup) (file c : Bytes) (rest : List Bytes) (us : Files)
      → Tidy t
      → t.archive_files ≡ file ∷ rest
      → unarchived t.archive t.disk ≡ (file, c) ∷ us
      → Tidy (archiver_step io t) × (log (archiver_step io t) ≡ log t)
  archive_first t file c rest us w e u =
      subst (λ t'. Tidy t' × (log t' ≡ log t)) (sym run)
        (
          record {
            in_order = rw same ordered;
            distinct = rw same heads.1;
            disk_named = left io.remove_ok;
            archive_named =
                All-write_file Past file c t.archive
                  (All-find Past file c t.disk found w.disk_named) w.archive_named;
            has_file = ground (arith, w.has_file, e);
          },
          rw (same, u, write_file-fresh file c t.archive missing)
              (rw (collect-append (λ f. f.1) t.archive ((file, c) ∷ []), append-nil c)
                (append_assoc (contents t.archive) c (contents us))),
        )
    where
      Past : Bytes → Type 0
      Past = IsPast t.last_lsn t.filename_postfix

      heads : (find file us ≡ none) × Distinct us
      heads = subst Distinct u w.distinct

      missing : find file t.archive ≡ none
      missing =
          (subst (All (λ f. find f.0 t.archive ≡ none)) u (unarchived-missing t.archive t.disk)).0

      found : find file t.disk ≡ some c
      found =
          sym (find-unarchived t.archive file t.disk missing)
          ∙ rw u (unfold find in rw (bytes_eq_refl file) refl)

      same :
          unarchived
            (write_file file c t.archive)
            (if io.remove_ok then remove_file file t.disk else t.disk)
          ≡ us
      same = still_unarchived io.remove_ok file c t.archive t.disk us u heads.0

      ordered : names us ≡ rest ++ paths t.current_delta_fp
      ordered =
          let all = ap names (sym u) ∙ w.in_order ∙ ap (λ l. l ++ paths t.current_delta_fp) e in cc

      left : (ok : Bool) → All (λ f. Past f.0) (if ok then remove_file file t.disk else t.disk)
      left true = All-remove_file Past file t.disk w.disk_named
      left false = w.disk_named

      after : TableBackup
      after = record t {
        archive_files = rest;
        archive = write_file file c t.archive;
        disk = if io.remove_ok then remove_file file t.disk else t.disk;
      }

      run : archiver_step io t ≡ after
      run = unfold archiver_step archive_one in ground (arith, e, found, copies)

  -- A round of the archiver whose copy succeeds keeps the log of a tidy table, and the table tidy,
  -- whether or not the file that it has copied could be removed.
  pub archiver_step-Tidy :
      (t : TableBackup) → Tidy t → Tidy (archiver_step io t) × (log (archiver_step io t) ≡ log t)
  archiver_step-Tidy t w = next t.archive_files refl (unarchived t.archive t.disk) refl
    where
      next :
          (files : List Bytes)
          → t.archive_files ≡ files
          → (us : Files) → unarchived t.archive t.disk ≡ us
          → Tidy (archiver_step io t) × (log (archiver_step io t) ≡ log t)
      next [] e us u =
          let idle : archiver_step io t ≡ t = unfold archiver_step in ground (arith, e) in
          subst (λ t'. Tidy t' × (log t' ≡ log t)) (sym idle) (w, refl)
      next (file ∷ rest) e [] u =
          let all = ap names (sym u) ∙ w.in_order ∙ ap (λ l. l ++ paths t.current_delta_fp) e in
          absurd cc
      next (file ∷ rest) e ((p, c) ∷ us) u =
          let all = ap names (sym u) ∙ w.in_order ∙ ap (λ l. l ++ paths t.current_delta_fp) e in
          let first : p ≡ file = cc in
          archive_first t file c rest us w e (u ∙ ap (λ q. (q, c) ∷ us) first)
