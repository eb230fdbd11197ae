-- ===== src/Tests/Message.antt =====
-- Examples for the SQL of pkg/message/message.go.
use logical_backup.Common.{ℕ, ◌≡◌, refl, Bool, true, false, ◌||◌, List, [], ◌∷◌, some, All}
use logical_backup.Common.Hex.{bytes_eq}
use logical_backup.Common.Int.{pos}
use logical_backup.Message.{
  Column, Tuple, Relation, Update, Delete, null_value, text_value, toasted_value,
}
use logical_backup.Message.Sql.{column_changes, replica_identity_name}
use logical_backup.Message.Sql.Columns.{column_changes_known, column_changes_new}
use logical_backup.Message.Sql.Names.{others, all_known}
use logical_backup.Message.Sql.Alterations.{alterations}
use logical_backup.Message.Sql.Kinds.{
  marshal_json, unmarshal_json, is_some, ranges_over, unmarshal_json-marshal_json,
}
use logical_backup.Message.Sql.Replay.{is_complete, is_distinct, has_name}
use logical_backup.Tests.Samples.{orders}

abbrev column_of : ℕ → Bool → ℕ → Column
column_of c key oid = record {
  is_key = key;
  name = c ∷ [];
  type_oid = oid;
  mode = pos 0;
  formatted_type = [];
}

abbrev relation_of : List Column → Relation
relation_of cols = record {
  identifier = orders;
  raw = [];
  oid = 10;
  replica_identity = b'd';
  columns = cols;
}

abbrev pub text : ℕ → Tuple
text n = record { kind = text_value; value = n ∷ [] }

abbrev pub null : Tuple
null = record { kind = null_value; value = [] }

abbrev pub unchanged : Tuple
unchanged = record { kind = toasted_value; value = [] }

-- A table of a key, a text and a long text.
abbrev pub table_rel : Relation
table_rel =
    relation_of (column_of b'k' true 23 ∷ column_of b't' false 25 ∷ column_of b'l' false 25 ∷ [])

-- An update by the key, which leaves the long text as it is.
abbrev pub upd : Update
upd = record {
  raw = [];
  relation_oid = 10;
  is_key = false;
  is_old = false;
  is_new = true;
  old_row = [];
  new_row = text b'1' ∷ null ∷ unchanged ∷ [];
}

pub upd_complete :
    is_complete (upd.is_key || upd.is_old) table_rel.columns upd.new_row upd.old_row ≡ true
unfolding is_complete
upd_complete = refl

pub table_rel_distinct : is_distinct table_rel.columns ≡ true
unfolding is_distinct has_name bytes_eq
table_rel_distinct = refl

abbrev pub del : Delete
del = record {
  raw = [];
  relation_oid = 10;
  is_key = false;
  is_old = true;
  old_row = text b'1' ∷ null ∷ text b'x' ∷ [];
}

-- The long text is gone, and the key has another type.
abbrev narrowed : Relation
narrowed = relation_of (column_of b'k' true 20 ∷ column_of b't' false 25 ∷ [])

narrowed_distinct : is_distinct narrowed.columns ≡ true
unfolding is_distinct has_name bytes_eq
narrowed_distinct = refl

narrowed_known : all_known narrowed.columns table_rel.columns ≡ true
unfolding all_known has_name bytes_eq
narrowed_known = refl

column_changes_known_example : column_changes narrowed table_rel ≡ record {
  added = [];
  deleted = others narrowed.columns table_rel.columns;
  altered = alterations narrowed.columns table_rel.columns;
}
column_changes_known_example =
    column_changes_known narrowed table_rel table_rel_distinct narrowed_distinct narrowed_known

-- A new column in front of the others.
abbrev widened : Relation
widened = relation_of (column_of b'n' false 23 ∷ table_rel.columns)

none_distinct : is_distinct [] ≡ true
unfolding is_distinct
none_distinct = refl

none_known : all_known [] table_rel.columns ≡ true
unfolding all_known
none_known = refl

new_missing : has_name (b'n' ∷ []) table_rel.columns ≡ false
unfolding has_name bytes_eq
new_missing = refl

column_changes_new_example : column_changes widened table_rel ≡ record {
  added = column_of b'n' false 23 ∷ [];
  deleted = others [] table_rel.columns;
  altered = alterations [] table_rel.columns;
}
column_changes_new_example =
    column_changes_new widened table_rel [] table_rel.columns (column_of b'n' false 23)
      table_rel_distinct none_distinct none_known new_missing refl

-- One order of the map's range.
abbrev letters : List ℕ
letters = b'f' ∷ b'd' ∷ b'n' ∷ b'i' ∷ []

index_named : is_some (replica_identity_name b'i') ≡ true
unfolding replica_identity_name
index_named = refl

index_ranged : ranges_over letters b'i' ≡ true
unfolding ranges_over
index_ranged = refl

letters_named : All (λ k. is_some (replica_identity_name k) ≡ true) letters
unfolding replica_identity_name
letters_named = (refl, (refl, (refl, (refl, tt))))

unmarshal_json-marshal_json_example : unmarshal_json letters (marshal_json b'i') ≡ some b'i'
unmarshal_json-marshal_json_example =
    unmarshal_json-marshal_json letters b'i' index_named index_ranged letters_named
