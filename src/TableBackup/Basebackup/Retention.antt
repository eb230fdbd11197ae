-- ===== src/TableBackup/Basebackup/Retention.antt =====
-- Which delta files a base backup removes.
use logical_backup.Common.{
  ℕ, ◌^◌, ◌<◌, ◌≡◌, refl, ◌∙◌, Bool, true, false, not, ◌&&◌, ◌||◌, List, [], ◌∷◌, map, none, some,
  All, ltb, ◌==◌, if◌then◌else◌, arith, Bool-cases, inl, inr,
}
use logical_backup.Common.Bytes.{Bytes}
use logical_backup.Common.Exec.{ok}
use logical_backup.Common.Files.{find, remove_file, find-remove_file}
use logical_backup.Common.Hex.{bytes_eq}
use logical_backup.Common.Hex.Reading.{parse_uint-hex_fixed}
use logical_backup.DeltaFiles.{delta_name}
use logical_backup.DeltaFiles.Order.{parts-delta_name}
use logical_backup.TableBackup.{delta_path}
use logical_backup.TableBackup.Basebackup.{
  Session, Backups, set_table, file_lsn, is_obsolete, remove_old, rotate_old_deltas,
}

file_lsn-delta_name : (lsn p : ℕ) → lsn < 2 ^ 64 → file_lsn (delta_name lsn p) ≡ some lsn
unfolding file_lsn
file_lsn-delta_name lsn p h =
    rw (parts-delta_name lsn p) (parse_uint-hex_fixed (2 ^ 64) 15 lsn (omega arith) h)

-- The name of a position and a postfix.
abbrev pub name_of : ℕ × ℕ → Bytes
name_of f = delta_name f.0 f.1

-- Whether a path is that of an obsolete file among those listed.
abbrev pub is_removed : ℕ → ℕ → List (ℕ × ℕ) → Bytes → Bool
is_removed last point [] path = false
is_removed last point (f ∷ fs) path =
    (not (last == f.0) && ltb f.0 point && bytes_eq (delta_path (name_of f)) path)
    || is_removed last point fs path

-- The session after other files are on disk.
abbrev pub with_disk : List (Bytes × Bytes) → Session → Session
with_disk d s = set_table (λ t. record t { disk = d }) s

remove_old-kept :
    (io : Backups) (last lsn : ℕ) (name : Bytes) (names : List Bytes) (s : Session)
    → file_lsn name ≡ some lsn
    → is_obsolete last s.table.basebackup_lsn lsn ≡ false
    → remove_old io last (name ∷ names) s ≡ remove_old io last names s
unfolding remove_old
remove_old-kept io last lsn name names s h e = ground (arith, h, e)

remove_old-removed :
    (io : Backups) (last lsn : ℕ) (name : Bytes) (names : List Bytes) (s : Session)
    → file_lsn name ≡ some lsn
    → is_obsolete last s.table.basebackup_lsn lsn ≡ true
    → io.remove_ok name ≡ true
    → remove_old io last (name ∷ names) s
      ≡ remove_old io last names (with_disk (remove_file (delta_path name) s.table.disk) s)
unfolding remove_old
remove_old-removed io last lsn name names s h e r = ground (arith, h, e, r)

remove_old_ok :
    (io : Backups) (last : ℕ) (fs : List (ℕ × ℕ)) (s : Session)
    → ((name : Bytes) → io.remove_ok name ≡ true)
    → All (λ f. f.0 < 2 ^ 64) fs
    → (d : List (Bytes × Bytes)) × (remove_old io last (map name_of fs) s ≡ ok tt (with_disk d s))
      × ((path : Bytes)
          → find path d ≡ (
              if is_removed last s.table.basebackup_lsn fs path
              then none
              else find path s.table.disk))
remove_old_ok io last [] s h a = (s.table.disk, unfold remove_old in refl, λ path. refl)
remove_old_ok io last (f ∷ fs) s h (b, a) =
    elim (Bool-cases (is_obsolete last s.table.basebackup_lsn f.0)) [
      | inr e ↦
          let (d, r, k) = remove_old_ok io last fs s h a in
          (
            d,
            remove_old-kept io last f.0 (name_of f) _ s (file_lsn-delta_name f.0 f.1 b) e ∙ r,
            λ path. rw e (k path),
          )
      | inl e ↦
          let d1 = remove_file (delta_path (name_of f)) s.table.disk in
          let (d, r, k) = remove_old_ok io last fs (with_disk d1 s) h a in
          (
            d,
            remove_old-removed io last f.0 (name_of f) _ s (file_lsn-delta_name f.0 f.1 b) e
                  (h (name_of f))
                ∙ r,
            λ path. rw e (
                ground
                  (arith, k path, find-remove_file (delta_path (name_of f)) path s.table.disk)),
          )
    ]

-- On a directory of delta files with 64-bit positions, all of whose removals succeed, the base
-- backup removes exactly the listed files whose position is before its own, without the current
-- one; every other path keeps its contents.
pub rotate_old_deltas_ok :
    (io : Backups) (fs : List (ℕ × ℕ)) (s : Session)
    → io.list ≡ some (map name_of fs)
    → ((name : Bytes) → io.remove_ok name ≡ true)
    → All (λ f. f.0 < 2 ^ 64) fs
    → (d : List (Bytes × Bytes)) × (rotate_old_deltas io s ≡ ok tt (with_disk d s))
      × ((path : Bytes)
          → find path d ≡ (
              if is_removed s.table.last_lsn s.table.basebackup_lsn fs path
              then none
              else find path s.table.disk))
unfolding rotate_old_deltas
rotate_old_deltas_ok io fs s l h a =
    let (d, r, k) = remove_old_ok io s.table.last_lsn fs s h a in (d, ground (arith, l, r), k)
