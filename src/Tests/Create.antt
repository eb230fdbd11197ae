-- ===== src/Tests/Create.antt =====
-- Examples for the start of a table's backup in pkg/tablebackup.
use logical_backup.Common.{ℕ, ◌≡◌, refl, ap, ◌≢◌, true, false, [], ◌∷◌, none, some, length, arith}
use logical_backup.Common.Bytes.{Bytes}
use logical_backup.Common.Exec.{ok}
use logical_backup.Common.Files.{find, bytes_eq_refl}
use logical_backup.Common.Hex.{bytes_eq}
use logical_backup.DeltaFiles.{delta_name}
use logical_backup.Message.{Identifier}
use logical_backup.Message.Sql.{codes}
use logical_backup.Queue.{empty}
use logical_backup.TableBackup.{World, delta_path, rotate_file}
use logical_backup.TableBackup.Create.{Left, table_dir, new_session}
use logical_backup.TableBackup.Create.Dirs.{
  is_clean, all_plain, elements, table_dir_distinct, rotate_file_truncates,
}
use logical_backup.Tests.Samples.{
  hash, paths, calm-IsCalm, config, calm, orders, old_delta, old_path,
}

length-hash : (name : Bytes) → length (hash name) ≡ 32
length-hash [] = refl
length-hash (c ∷ s) = refl

-- Another table.
abbrev items : Identifier
items = record { namespace = b'i' ∷ []; name = b'o' ∷ [] }

first : Bytes → ℕ
first [] = 0
first (c ∷ s) = c

hash_distinct : hash (paths.sanitize orders) ≢ hash (paths.sanitize items)
unfolding first
hash_distinct e = absurd (ground (arith, ap first e))

sanitize_distinct : paths.sanitize orders ≢ paths.sanitize items
unfolding first
sanitize_distinct e = absurd (ground (arith, ap first e))

orders_items : orders ≢ items
orders_items e = sanitize_distinct (ap paths.sanitize e)

orders_dir : is_clean (table_dir paths orders) ≡ true
unfolding is_clean all_plain elements table_dir
orders_dir = refl

items_dir : is_clean (table_dir paths items) ≡ true
unfolding is_clean all_plain elements table_dir
items_dir = refl

table_dir_distinct_example :
    paths.path_join (codes "/b") (table_dir paths orders)
    ≢ paths.path_join (codes "/b") (table_dir paths items)
table_dir_distinct_example =
    table_dir_distinct paths (codes "/b") orders items (λ dir c. refl) orders_dir items_dir
      length-hash (λ e. absurd (hash_distinct e)) (λ e. absurd (sanitize_distinct e)) orders_items

abbrev left : Left
left = record { disk = (old_path, old_delta) ∷ []; archive = []; info = none; dumped = false }

old_path_found : find (delta_path (delta_name 16 0)) left.disk ≡ some old_delta
unfolding find bytes_eq
old_path_found = rw (bytes_eq_refl (delta_name 16 0)) refl

rotate_file_truncates_example :
    (w : World) × (rotate_file calm 16
        (record { table = (new_session 7 config orders left).table; queue = empty })
      ≡ ok tt w)
    × (find (delta_path (delta_name 16 0)) w.table.disk ≡ some [])
rotate_file_truncates_example =
    rotate_file_truncates 7 config orders left calm empty 16 old_delta calm-IsCalm refl
      (omega arith) old_path_found
