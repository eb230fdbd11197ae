-- ===== src/Message/Sql/Statements.antt =====
-- What the server does at the printed statements of updates and deletes.
use logical_backup.Common.{
  ℕ, ◌≤◌, ◌≡◌, refl, sym, ◌∙◌, ◌≢◌, true, false, ◌||◌, List, [], ◌∷◌, some, length, All, arith,
}
use logical_backup.Common.Bytes.{Bytes}
use logical_backup.Message.{Relation, Update, Delete}
use logical_backup.Message.Sql.{Condition, Assignment}
use logical_backup.Message.Sql.Print.{Texts, print_update, print_delete, update_sql, delete_sql}
use logical_backup.Message.Sql.Reader.{
  Server, ReadsTable, ReadsNull, IsReadable, IsWritable, read_update, read_delete,
  read_update-print, read_delete-print,
}
use logical_backup.Message.Sql.Replay.{
  Row, selects, assigned, is_meant, updated_row, is_complete, is_distinct, has_values, ReadsNames,
  ReadsRow, update_parts_lem, delete_parts_lem,
}

-- The server reads the text of a delete as a delete in the relation's table whose where clause selects
-- every row that has the values of the old row, also if it has a value where the old row has null.
-- Condition: the message has a value for each column, some row does not have these values, so that
-- the clause is not empty, and the server reads the quoted names of the table and the columns, and
-- the literals of the old row's values, as what they quote.
pub delete_sql_lem :
    (T : Texts) (S : Server) (del : Delete) (rel : Relation) (other : Row)
    → length rel.columns ≤ length del.old_row
    → has_values rel.columns del.old_row other ≡ false
    → ReadsTable T S rel.identifier
    → ReadsNames T S rel.columns
    → ReadsRow T S del.old_row
    → (text : Bytes) × (conds : List Condition) × (delete_sql T del rel ≡ some text)
      × ((n : ℕ) → length conds ≤ n → read_delete S n text ≡ some (rel.identifier, conds))
      × ((r : Row) → selects conds r ≡ has_values rel.columns del.old_row r)
unfolding delete_sql selects
delete_sql_lem T S del rel other l o t ns vs =
    let (conds, made, meant, reads) = delete_parts_lem T S rel.columns del.old_row l ns vs in
    (
      print_delete T rel.identifier conds,
      conds,
      rw (delete_sql, made) refl,
      read_back conds (meant other ∙ o) reads,
      meant,
    )
  where
    read_back :
        (conds : List Condition)
        → selects conds other ≡ false
        → All (IsReadable T S) conds
        → (n : ℕ) → length conds ≤ n
        → read_delete S n (print_delete T rel.identifier conds) ≡ some (rel.identifier, conds)
    read_back [] h k n b = absurd (ground arith)
    read_back (c ∷ cs) h k n b = read_delete-print T S rel.identifier c cs n t k b

-- The server reads the text of an update as an update of the relation's table. Its where clause
-- selects exactly the rows that agree with the old tuple, key or row, in each column, null as null,
-- or, without an old tuple, with the key columns of the new row; and it leaves in each of them the new
-- values, with the old value where the message says that it is unchanged. Condition: the message has
-- a value for each column, the columns have different names, there are a row that is not selected and
-- one that is changed, so that neither clause is empty, and the server reads null, the quoted names
-- of the table and the columns, and the literals of the values, as what they stand for.
pub update_sql_lem :
    (T : Texts) (S : Server) (upd : Update) (rel : Relation) (other changed : Row) (m : Bytes)
    → is_complete (upd.is_key || upd.is_old) rel.columns upd.new_row upd.old_row ≡ true
    → is_distinct rel.columns ≡ true
    → is_meant (upd.is_key || upd.is_old) rel.columns upd.new_row upd.old_row other ≡ false
    → updated_row rel.columns upd.new_row changed m ≢ changed m
    → ReadsTable T S rel.identifier
    → ReadsNull T S
    → ReadsNames T S rel.columns
    → ReadsRow T S upd.new_row
    → ReadsRow T S upd.old_row
    → (text : Bytes) × (values : List Assignment) × (conds : List Condition) × (update_sql T upd rel
        ≡ some text)
      × ((n : ℕ)
          → length values ≤ n
          → length conds ≤ n
          → read_update S n text ≡ some (rel.identifier, (values, conds)))
      × ((r : Row)
          → selects conds r
            ≡ is_meant (upd.is_key || upd.is_old) rel.columns upd.new_row upd.old_row r)
      × ((r : Row) (name : Bytes)
          → assigned values r name ≡ updated_row rel.columns upd.new_row r name)
unfolding update_sql selects assigned
update_sql_lem T S upd rel other changed m h d o u t z ns nr vs =
    let p =
      update_parts_lem T S (upd.is_key || upd.is_old) rel.columns upd.new_row upd.old_row h d ns nr
        vs in
    (
      print_update T rel.identifier p.values p.conds,
      p.values,
      p.conds,
      rw (update_sql, p.made) refl,
      read_back p.values p.conds (λ e. u (sym (p.written changed m) ∙ e)) (p.meant other ∙ o)
          p.writable p.readable,
      p.meant,
      p.written,
    )
  where
    read_back :
        (values : List Assignment) (conds : List Condition)
        → assigned values changed m ≢ changed m
        → selects conds other ≡ false
        → All (IsWritable T S) values
        → All (IsReadable T S) conds
        → (n : ℕ) → length values ≤ n
        → length conds ≤ n
        → read_update S n (print_update T rel.identifier values conds)
          ≡ some (rel.identifier, (values, conds))
    read_back [] conds w s v k n a b = absurd (w refl)
    read_back (x ∷ xs) [] w s v k n a b = absurd (ground arith)
    read_back (x ∷ xs) (c ∷ cs) w s v k n a b =
        read_update-print T S rel.identifier x xs c cs n t z v k a b
