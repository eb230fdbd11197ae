-- ===== src/TableBackup/Create/Dirs.antt =====
-- The directories of tables, and the files of an earlier run.
use logical_backup.Common.{
  inl, ℕ, zero, suc, ◌+◌, inl, inr, Bool-cases, ◌≤◌, ◌≡◌, refl, sym, ap, ◌∙◌, ◌≢◌, Bool, not, ◌&&◌,
  ◌==◌, if◌then◌else◌, true, false, List, [], ◌∷◌, ◌++◌, some, length, take, drop,
  take-append_exact, arith,
}
use logical_backup.Common.Bytes.{Bytes}
use logical_backup.Common.Exec.{ok}
use logical_backup.Common.Files.{find, find-write_file, bytes_eq_refl}
use logical_backup.Config.{Config}
use logical_backup.DeltaFiles.{delta_name}
use logical_backup.Message.{Identifier}
use logical_backup.Message.Sql.{codes}
use logical_backup.Queue.{Queue}
use logical_backup.TableBackup.{Io, World, delta_path, rotate_file, set_table}
use logical_backup.TableBackup.Create.{
  Paths, DirIo, DirError, delta_dir_failed, archive_dir_failed, Left, two_at, table_dir, exists,
  create_dir, create_dirs, new_session, new,
}
use logical_backup.TableBackup.Calls.{IsCalm, rotate_file_ok, rotated}

length-two_at : (i : ℕ) (s : Bytes) → i + 2 ≤ length s → length (two_at i s) ≡ 2
length-two_at i [] h = absurd (omega arith)
length-two_at zero (c ∷ []) h = absurd (omega arith)
length-two_at zero (c ∷ d ∷ s) h = refl
length-two_at (suc i) (c ∷ s) h = length-two_at i s (omega arith)

drop_two :
    (k c : ℕ) (xs ys : Bytes) → length xs ≡ 2 → drop (suc (suc (suc k))) (xs ++ c ∷ ys) ≡ drop k ys
drop_two k c [] ys h = absurd (omega arith)
drop_two k c (x ∷ []) ys h = absurd (omega arith)
drop_two k c (x ∷ y ∷ []) ys h = refl
drop_two k c (x ∷ y ∷ z ∷ xs) ys h = absurd (omega arith)

hash_at :
    (x y z h rest : Bytes)
    → length x ≡ 2
    → length y ≡ 2
    → length z ≡ 2
    → length h ≡ 32
    → take 32 (drop 9 (x ++ (b'/' ∷ (y ++ (b'/' ∷ (z ++ (b'/' ∷ (h ++ rest)))))))) ≡ h
hash_at x y z h rest a b c d =
    let behind_z = h ++ rest in
    let behind_y = z ++ (b'/' ∷ behind_z) in
    let behind_x = y ++ (b'/' ∷ behind_y) in
    ap (take 32)
      (drop_two 6 b'/' x behind_x a ∙ drop_two 3 b'/' y behind_y b ∙ drop_two 0 b'/' z behind_z c)
    ∙ take-append_exact h rest d

hash_of :
    (P : Paths) (tbl : Identifier)
    → ((name : Bytes) → length (P.md5_hex name) ≡ 32)
    → take 32 (drop 9 (table_dir P tbl)) ≡ P.md5_hex (P.sanitize tbl)
unfolding table_dir
hash_of P tbl l =
    let h = P.md5_hex (P.sanitize tbl) in
    let n = l (P.sanitize tbl) in
    hash_at (two_at 0 h) (two_at 2 h) (two_at 4 h) h (b'/' ∷ (tbl.namespace ++ (b'.' ∷ tbl.name)))
      (length-two_at 0 h (omega arith)) (length-two_at 2 h (omega arith))
      (length-two_at 4 h (omega arith)) n

-- The elements of a path between its slashes.
abbrev pub add_char : ℕ → List Bytes → List Bytes
add_char c [] = (c ∷ []) ∷ []
add_char c (e ∷ es) = (c ∷ e) ∷ es

unfoldable pub elements : Bytes → List Bytes
elements [] = [] ∷ []
elements (c ∷ s) = let rest = elements s in if c == b'/' then [] ∷ rest else add_char c rest

abbrev pub is_plain_element : Bytes → Bool
is_plain_element [] = false
is_plain_element (c ∷ []) = not (c == b'.')
is_plain_element (c ∷ d ∷ []) = not (c == b'.' && d == b'.')
is_plain_element (c ∷ d ∷ e ∷ s) = true

unfoldable pub all_plain : List Bytes → Bool
all_plain [] = true
all_plain (e ∷ es) = is_plain_element e && all_plain es

-- No element of the path is empty, `.` or `..`, so that `path.Clean` leaves it as it is.
unfoldable pub is_clean : Bytes → Bool
is_clean s = all_plain (elements s)

abbrev behind_first : Bytes → Bytes
behind_first [] = []
behind_first (c ∷ s) = s

append-cancel : (base s t : Bytes) → base ++ s ≡ base ++ t → s ≡ t
append-cancel [] s t e = e
append-cancel (c ∷ base) s t e = append-cancel base s t (ap behind_first e)

-- Different tables have different directories below a base directory, also where the dot between
-- schema and name is not the only one. Condition: neither table's directory, as `TableDir` prints
-- it, has an empty element, `.` or `..`, as a name with slashes may bring about; `path.Join` adds a
-- path without such elements to the base as it is; `md5.Sum` has 16 bytes and does not collide on
-- the two names, and different tables are quoted differently.
pub table_dir_distinct :
    (P : Paths) (base : Bytes) (s t : Identifier)
    → ((dir : Bytes) → is_clean dir ≡ true → P.path_join base dir ≡ base ++ b'/' ∷ dir)
    → is_clean (table_dir P s) ≡ true
    → is_clean (table_dir P t) ≡ true
    → ((name : Bytes) → length (P.md5_hex name) ≡ 32)
    → (P.md5_hex (P.sanitize s) ≡ P.md5_hex (P.sanitize t) → P.sanitize s ≡ P.sanitize t)
    → (P.sanitize s ≡ P.sanitize t → s ≡ t)
    → s ≢ t
    → P.path_join base (table_dir P s) ≢ P.path_join base (table_dir P t)
table_dir_distinct P base s t j c d l m q n e =
    let joined = sym (j (table_dir P s) c) ∙ e ∙ j (table_dir P t) d in
    let dirs =
      ap behind_first (append-cancel base (b'/' ∷ table_dir P s) (b'/' ∷ table_dir P t) joined) in
    n (q (m (sym (hash_of P s l) ∙ ap (λ d. take 32 (drop 9 d)) dirs ∙ hash_of P t l)))

exists-own : (p : Bytes) (dirs : List Bytes) → exists p (p ∷ dirs) ≡ true
unfolding exists
exists-own p dirs = rw (bytes_eq_refl p) refl

-- A directory that exists stays.
Stays : List Bytes → List Bytes → Type 0
Stays before after = (q : Bytes) → exists q before ≡ true → exists q after ≡ true

create_dir_ok :
    (io : DirIo) (p : Bytes) (e : DirError) (dirs : List Bytes)
    → io.stat_ok p ≡ true
    → io.mkdir_ok p ≡ true
    → (after : List Bytes) × (create_dir io p e dirs ≡ ok tt after)
      × (exists p after ≡ true)
      × Stays dirs after
unfolding create_dir exists Stays
create_dir_ok io p e dirs s m = elim (Bool-cases (exists p dirs)) [
  | inl h ↦ (dirs, ground (arith, s, h), h, λ q k. k)
  | inr h ↦ (p ∷ dirs, ground (arith, s, h, m), exists-own p dirs, λ q k. ground arith)
]

-- A new table has both directories for its deltas, whether they were there or not, and no directory
-- is lost. It has no delta file open, and no transaction or lock. Condition: Stat fails on no
-- directory that is there, and those that are missing can be made.
pub new_ok :
    (P : Paths) (io : DirIo) (self : ℕ) (cfg : Config) (tbl : Identifier) (left : Left)
    → (dirs : List Bytes) → ((p : Bytes) → io.stat_ok p ≡ true)
    → ((p : Bytes) → io.mkdir_ok p ≡ true)
    → (after : List Bytes) × (new P io self cfg tbl left dirs
        ≡ ok (new_session self cfg tbl left) after)
      × (exists (P.path_join (P.path_join cfg.temp_dir (table_dir P tbl)) (codes "deltas")) after
          ≡ true)
      × (exists (P.path_join (P.path_join cfg.archive_dir (table_dir P tbl)) (codes "deltas")) after
          ≡ true)
      × ((q : Bytes) → exists q dirs ≡ true → exists q after ≡ true)
unfolding new create_dirs Stays
new_ok P io self cfg tbl left dirs s m =
    let d = P.path_join (P.path_join cfg.temp_dir (table_dir P tbl)) (codes "deltas") in
    let a = P.path_join (P.path_join cfg.archive_dir (table_dir P tbl)) (codes "deltas") in
    let (d1, e1, h1, k1) = create_dir_ok io d delta_dir_failed dirs (s d) (m d) in
    let (d2, e2, h2, k2) = create_dir_ok io a archive_dir_failed d1 (s a) (m a) in
    (d2, ground (arith, e1, e2), k2 d h1, h2, λ q h. k2 q (k1 q h))

-- The first delta file of a new process that begins at a position other than 0 is opened under the
-- name without a postfix, also if an earlier run has left a file of that name, whose contents are
-- lost then. Condition: the file can be opened.
pub rotate_file_truncates :
    (self : ℕ) (cfg : Config) (tbl : Identifier) (left : Left) (io : Io) (queue : Queue ℕ)
    → (lsn : ℕ) (old : Bytes) → IsCalm io
    → io.stat_is_exist ≡ false
    → lsn ≢ 0
    → find (delta_path (delta_name lsn 0)) left.disk ≡ some old
    → (w : World) × (rotate_file io lsn
          (record { table = (new_session self cfg tbl left).table; queue = queue })
        ≡ ok tt w)
      × (find (delta_path (delta_name lsn 0)) w.table.disk ≡ some [])
unfolding new_session
rotate_file_truncates self cfg tbl left io queue lsn old c x n f =
    let path = delta_path (delta_name lsn 0) in
    let w0 : World = record { table = (new_session self cfg tbl left).table; queue = queue } in
    (
      set_table (rotated io lsn) w0,
      rotate_file_ok io c lsn w0 (inl refl) (omega arith),
      ground (arith, x, n, find-write_file path path [] left.disk, bytes_eq_refl path),
    )
