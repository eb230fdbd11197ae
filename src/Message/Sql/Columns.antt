-- ===== src/Message/Sql/Columns.antt =====
-- The changes of columns that `Relation.SQL` finds between two relation messages.
use logical_backup.Common.{
  ◌≡◌, refl, sym, ◌∙◌, true, false, List, [], ◌∷◌, ◌++◌, append-nil, append_assoc, none, some,
  arith, Bool-cases, inl, inr,
}
use logical_backup.Common.Bytes.{Bytes}
use logical_backup.Common.Hex.{bytes_eq}
use logical_backup.Message.{Column, Relation}
use logical_backup.Message.Sql.{Changes, find_column, alter_column, compare_columns, column_changes}
use logical_backup.Message.Sql.Replay.{has_name, is_distinct}
use logical_backup.Message.Sql.Alterations.{alterations, altered_columns-alterations}
use logical_backup.Message.Sql.Names.{
  all_known, all_known-remove, altered_column, altered_columns, altered_columns-remove,
  insert_columns_new, is_apart-nil, others, others-nil, others-remove_column,
}

find_column-has_name :
    (n : Bytes) (m : List Column)
    → has_name n m ≡ true
    → (old : Column) × (find_column n m ≡ some old)
unfolding has_name find_column
find_column-has_name n [] h = absurd (ground arith)
find_column-has_name n (d ∷ m) h = elim (Bool-cases (bytes_eq d.name n)) [
  | inl e ↦ (d, rw e refl)
  | inr e ↦ let (old, k) = find_column-has_name n m (ground arith) in (old, ground arith)
]

-- The loop over columns that are all in the map.
compare_known :
    (cols rest : List Column) (ch : Changes)
    → is_distinct cols ≡ true
    → all_known cols ch.deleted ≡ true
    → compare_columns (cols ++ rest) ch
      ≡ compare_columns rest (record {
        added = ch.added;
        deleted = others cols ch.deleted;
        altered = ch.altered ++ altered_columns cols ch.deleted;
      })
unfolding compare_columns is_distinct all_known altered_columns
compare_known [] rest ch d k = ground (arith, others-nil ch.deleted, append-nil ch.altered)
compare_known (col ∷ cols) rest ch d k =
    let (old, f) = find_column-has_name col.name ch.deleted (ground arith) in
    let ch' = alter_column old col ch in
    ground (
      arith,
      f,
      compare_known cols rest ch',
      all_known-remove col cols ch.deleted,
      altered_columns-remove col cols ch.deleted,
      others-remove_column col cols ch.deleted,
      append_assoc ch.altered (altered_column (some old) col) (altered_columns cols ch.deleted),
    )

compare_from :
    (rel old_rel : Relation) (cols rest : List Column)
    → is_distinct old_rel.columns ≡ true
    → is_distinct cols ≡ true
    → all_known cols old_rel.columns ≡ true
    → rel.columns ≡ cols ++ rest
    → column_changes rel old_rel
      ≡ compare_columns rest (record {
        added = [];
        deleted = others cols old_rel.columns;
        altered = altered_columns cols old_rel.columns;
      })
unfolding column_changes
compare_from rel old_rel cols rest o d k e =
    rw (column_changes, e, insert_columns_new old_rel.columns [] o (is_apart-nil old_rel.columns))
      (compare_known cols rest (record { added = []; deleted = old_rel.columns; altered = [] }) d k)

-- If the new relation has no new column, then the changes are: the old columns that it does not have
-- are dropped, and those of a name whose new column has another type or modifier are altered.
-- Condition: the names of the columns
-- of each relation differ.
pub column_changes_known :
    (rel old_rel : Relation)
    → is_distinct old_rel.columns ≡ true
    → is_distinct rel.columns ≡ true
    → all_known rel.columns old_rel.columns ≡ true
    → column_changes rel old_rel ≡ record {
      added = [];
      deleted = others rel.columns old_rel.columns;
      altered = alterations rel.columns old_rel.columns;
    }
unfolding compare_columns
column_changes_known rel old_rel o d k =
    rw (← altered_columns-alterations rel.columns old_rel.columns o)
      (compare_from rel old_rel rel.columns [] o d k (sym (append-nil rel.columns)))

find_column_missing : (n : Bytes) (m : List Column) → has_name n m ≡ false → find_column n m ≡ none
unfolding has_name find_column
find_column_missing n [] h = refl
find_column_missing n (d ∷ m) h = ground (arith, find_column_missing n m)

has_name-others :
    (n : Bytes) (cols olds : List Column)
    → has_name n olds ≡ false
    → has_name n (others cols olds) ≡ false
unfolding has_name others
has_name-others n cols [] h = refl
has_name-others n cols (d ∷ olds) h = ground (arith, has_name-others n cols olds)

-- At the first new column the comparison ends: only that one is added, and each old column that is
-- not before it is dropped, also one that the new relation has behind it. Condition: the names of
-- the columns before it differ and are old, and so do the names of the old columns.
pub column_changes_new :
    (rel old_rel : Relation) (cols rest : List Column) (col : Column)
    → is_distinct old_rel.columns ≡ true
    → is_distinct cols ≡ true
    → all_known cols old_rel.columns ≡ true
    → has_name col.name old_rel.columns ≡ false
    → rel.columns ≡ cols ++ col ∷ rest
    → column_changes rel old_rel ≡ record {
      added = col ∷ [];
      deleted = others cols old_rel.columns;
      altered = alterations cols old_rel.columns;
    }
unfolding compare_columns
column_changes_new rel old_rel cols rest col o d k n e =
    rw (← altered_columns-alterations cols old_rel.columns o) (
      compare_from rel old_rel cols (col ∷ rest) o d k e
      ∙ rw
          (
            compare_columns,
            find_column_missing col.name (others cols old_rel.columns)
                (has_name-others col.name cols old_rel.columns n),
          )
          refl)
