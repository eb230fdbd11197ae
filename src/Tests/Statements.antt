-- ===== src/Tests/Statements.antt =====
-- Examples for the statements of updates and deletes, with a server that reads them.
use logical_backup.Common.{
  ℕ, zero, suc, ◌≤◌, ◌≡◌, ◌≢◌, refl, false, ◌||◌, List, [], ◌∷◌, Option, none, some, length, arith,
}
use logical_backup.Common.Bytes.{Bytes}
use logical_backup.Common.Hex.{bytes_eq}
use logical_backup.DbUtils.{quote_runes, quote_literal}
use logical_backup.DbUtils.Literals.{read_literal, read_plain}
use logical_backup.Message.{Identifier}
use logical_backup.Message.Sql.{codes, Condition, Assignment}
use logical_backup.Message.Sql.Print.{Texts, update_sql, delete_sql}
use logical_backup.Message.Sql.Reader.{
  Server, strip, read_update, read_delete, ReadsTable, ReadsNull, ReadsValue,
}
use logical_backup.Message.Sql.Replay.{
  Row, selects, assigned, is_meant, updated_row, has_values, ReadsNames, ReadsRow,
}
use logical_backup.Message.Sql.Statements.{update_sql_lem, delete_sql_lem}
use logical_backup.Tests.LogicalBackup.{put_text}
use logical_backup.Tests.Message.{table_rel, upd, upd_complete, table_rel_distinct, del}
use logical_backup.Tests.Samples.{orders}

abbrev put_texts : List Bytes → Bytes
put_texts [] = []
put_texts (t ∷ ts) = put_text t (put_texts ts)

-- Names and literals that end in 0, with characters that are one higher.
abbrev texts : Texts
texts = record { sanitize = put_texts; runes = λ s. s; utf8 = λ s. put_text s [] }

abbrev cons_text : ℕ → Option (Bytes × Bytes) → Option (Bytes × Bytes)
cons_text c none = none
cons_text c (some (t, rest)) = some (c ∷ t, rest)

abbrev get_text : Bytes → Option (Bytes × Bytes)
get_text [] = none
get_text (zero ∷ s) = some ([], s)
get_text (suc c ∷ s) = cons_text c (get_text s)

abbrev table_of : Bytes → Option (Bytes × Bytes) → Option (Identifier × Bytes)
table_of namespace none = none
table_of namespace (some (name, rest)) = some (record { namespace = namespace; name = name }, rest)

abbrev get_table : Option (Bytes × Bytes) → Option (Identifier × Bytes)
get_table none = none
get_table (some (namespace, rest)) = table_of namespace (get_text rest)

abbrev constant : Bytes → Option (List ℕ) → Option (Option Bytes × Bytes)
constant rest none = none
constant rest (some v) = some (some v, rest)

abbrev get_constant : Option (Bytes × Bytes) → Option (Option Bytes × Bytes)
get_constant none = none
get_constant (some (t, rest)) = constant rest (read_literal t)

abbrev get_value : Bytes → Option Bytes → Option (Option Bytes × Bytes)
get_value s none = get_constant (get_text s)
get_value s (some rest) = some (none, rest)

abbrev server : Server
server = record {
  table = λ s. get_table (get_text s);
  name = get_text;
  value = λ s. get_value s (strip (codes "null") s);
}

reads_orders : ReadsTable texts server orders
reads_orders rest f = refl

reads_null : ReadsNull texts server
unfolding strip
reads_null rest f = refl

reads_names : ReadsNames texts server table_rel.columns
reads_names = (λ rest f. refl, (λ rest f. refl, (λ rest f. refl, tt)))

reads_one : ReadsValue texts server (b'1' ∷ [])
unfolding strip quote_literal quote_runes read_literal read_plain
reads_one rest f = refl

reads_x : ReadsValue texts server (b'x' ∷ [])
unfolding strip quote_literal quote_runes read_literal read_plain
reads_x rest f = refl

reads_empty : ReadsValue texts server []
unfolding strip quote_literal quote_runes read_literal read_plain
reads_empty rest f = refl

reads_upd : ReadsRow texts server upd.new_row
reads_upd = (λ e. reads_one, (λ e. reads_empty, (λ e. reads_empty, tt)))

reads_del : ReadsRow texts server del.old_row
reads_del = (λ e. reads_one, (λ e. reads_empty, (λ e. reads_x, tt)))

-- A row of nulls.
abbrev nulls : Row
nulls name = none

nulls_not_deleted : has_values table_rel.columns del.old_row nulls ≡ false
unfolding has_values
nulls_not_deleted = refl

nulls_not_meant :
    is_meant (upd.is_key || upd.is_old) table_rel.columns upd.new_row upd.old_row nulls ≡ false
unfolding is_meant
nulls_not_meant = refl

key_written : updated_row table_rel.columns upd.new_row nulls (b'k' ∷ []) ≡ some (b'1' ∷ [])
unfolding updated_row bytes_eq
key_written = refl

key_changed : updated_row table_rel.columns upd.new_row nulls (b'k' ∷ []) ≢ none
key_changed = rw key_written (λ e. cc)

delete_sql_lem_example :
    (text : Bytes) × (conds : List Condition) × (delete_sql texts del table_rel ≡ some text)
    × ((n : ℕ) → length conds ≤ n → read_delete server n text ≡ some (orders, conds))
    × ((r : Row) → selects conds r ≡ has_values table_rel.columns del.old_row r)
delete_sql_lem_example =
    delete_sql_lem texts server del table_rel nulls (omega arith) nulls_not_deleted reads_orders
      reads_names reads_del

update_sql_lem_example :
    (text : Bytes) × (values : List Assignment) × (conds : List Condition) × (update_sql texts upd
        table_rel
      ≡ some text)
    × ((n : ℕ)
        → length values ≤ n
        → length conds ≤ n
        → read_update server n text ≡ some (orders, (values, conds)))
    × ((r : Row)
        → selects conds r
          ≡ is_meant (upd.is_key || upd.is_old) table_rel.columns upd.new_row upd.old_row r)
    × ((r : Row) (name : Bytes)
        → assigned values r name ≡ updated_row table_rel.columns upd.new_row r name)
update_sql_lem_example =
    update_sql_lem texts server upd table_rel nulls nulls (b'k' ∷ []) upd_complete
      table_rel_distinct nulls_not_meant key_changed reads_orders reads_null reads_names reads_upd
      tt
