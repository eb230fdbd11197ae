-- ===== src/Message/Sql.antt =====
-- pkg/message/message.go: the SQL that messages print, as data: the lists of columns, values and
-- conditions that it is printed from, in Sql/Print. An index out of range is `none`: it panics.
pub mod Names
pub mod Print
pub mod Kinds
pub mod Reader
pub mod Replay
pub mod Statements
pub mod Alterations
pub mod Columns
use Prim.Native.Char.{code}
use Prim.Native.String.{String}
use logical_backup.Common.{
  ℕ, zero, suc, ◌+◌, ◌/◌, ◌%◌, ◌≡◌, Bool, true, false, not, ◌||◌, ◌&&◌, List, [], ◌∷◌, ◌++◌, map,
  Option, none, some, collect, ◌==◌, if◌then◌else◌,
}
use logical_backup.Common.Bytes.{Bytes}
use logical_backup.Common.Hex.{bytes_eq, trim}
use logical_backup.Common.Int.{ℤ, pos, negsuc, pos_part, neg_part}
use logical_backup.DbUtils.{quote_literal}
use logical_backup.Message.{
  Identifier, Column, Tuple, Relation, Insert, Update, Delete, Truncate, null_value, toasted_value,
  text_value,
}

-- The bytes of a text in ASCII.
abbrev pub codes : String → Bytes
codes String.[] = []
codes (String.◌∷◌ c s) = code c ∷ codes s

-- An element of `cond`, and of an update's `values`.
pub data Condition : Type 0 where
  equals : Bytes → Bytes → Condition
  is_null : Bytes → Condition

pub data Assignment : Type 0 where
  sets : Bytes → Bytes → Assignment
  sets_null : Bytes → Assignment

-- What a column adds to an insert's `values`: `none` stands for `null`.
abbrev pub tuple_value : Tuple → List (Option Bytes)
tuple_value v =
    if v.kind == text_value
    then some v.value ∷ []
    else if v.kind == null_value
    then none ∷ []
    else []

-- `names` and `values`
unfoldable pub insert_parts : List Column → List Tuple → Option (List Bytes × List (Option Bytes))
insert_parts [] row = some ([], [])
insert_parts (c ∷ cs) [] = none
insert_parts (c ∷ cs) (v ∷ row) = elim (insert_parts cs row) [
  | none ↦ none
  | some (names, values) ↦ some (c.name ∷ names, tuple_value v ++ values)
]

abbrev pub tuple_assignment : Column → Tuple → List Assignment
tuple_assignment c v =
    if v.kind == null_value
    then sets_null c.name ∷ []
    else if v.kind == text_value
    then sets c.name v.value ∷ []
    else []

abbrev pub tuple_condition : Column → Tuple → List Condition
tuple_condition c v =
    if v.kind == text_value
    then equals c.name v.value ∷ []
    else if v.kind == null_value
    then is_null c.name ∷ []
    else []

abbrev pub key_condition : Column → Tuple → List Condition
key_condition c v = if c.is_key then tuple_condition c v else []

-- The second `if` of the loop of `Update.SQL`, with what is left of `upd.OldRow`.
abbrev pub row_condition : Bool → Column → Tuple → List Tuple → Option (List Condition)
row_condition true c new [] = none
row_condition true c new (old ∷ olds) = some (tuple_condition c old)
row_condition false c new olds = some (key_condition c new)

abbrev pub tail : List Tuple → List Tuple
tail [] = []
tail (v ∷ vs) = vs

abbrev pub update_column :
    Column
    → Tuple
    → Option (List Condition)
    → Option (List Assignment × List Condition)
    → Option (List Assignment × List Condition)
update_column c new none parts = none
update_column c new (some conds) none = none
update_column c new (some conds) (some (sets', conds')) =
    some (tuple_assignment c new ++ sets', conds ++ conds')

-- `values` and `cond`; the first argument is `upd.IsKey || upd.IsOld`.
unfoldable pub update_parts :
    Bool → List Column → List Tuple → List Tuple → Option (List Assignment × List Condition)
update_parts has_old [] news olds = some ([], [])
update_parts has_old (c ∷ cs) [] olds = none
update_parts has_old (c ∷ cs) (new ∷ news) olds =
    update_column c new (row_condition has_old c new olds)
      (update_parts has_old cs news (tail olds))

abbrev pub delete_condition : Column → Tuple → List Condition
delete_condition c v = if v.kind == text_value then equals c.name v.value ∷ [] else []

-- `cond` of a delete
unfoldable pub delete_parts : List Column → List Tuple → Option (List Condition)
delete_parts [] row = some []
delete_parts (c ∷ cs) [] = none
delete_parts (c ∷ cs) (v ∷ row) = elim (delete_parts cs row) [
  | none ↦ none
  | some conds ↦ some (delete_condition c v ++ conds)
]

-- A map from names to columns: `m[c.Name] = c`, `m[name]` and `delete(m, name)`.
unfoldable pub insert_column : Column → List Column → List Column
insert_column c [] = c ∷ []
insert_column c (d ∷ ds) = if bytes_eq d.name c.name then c ∷ ds else d ∷ insert_column c ds

unfoldable pub find_column : Bytes → List Column → Option Column
find_column name [] = none
find_column name (d ∷ ds) = if bytes_eq d.name name then some d else find_column name ds

unfoldable pub remove_column : Bytes → List Column → List Column
remove_column name [] = []
remove_column name (d ∷ ds) =
    if bytes_eq d.name name then remove_column name ds else d ∷ remove_column name ds

-- The loop over `oldRel.Columns`.
unfoldable pub insert_columns : List Column → List Column → List Column
insert_columns [] m = m
insert_columns (c ∷ cs) m = insert_columns cs (insert_column c m)

-- `newColumns`, `deletedColumns` and `alteredColumns`. The altered columns have different names, as
-- each is deleted from the map behind it, so none replaces another.
pub record Changes : Type 0 where
  pub added : List Column
  pub deleted : List Column
  pub altered : List (Column × Column)

abbrev pub eq_ℤ : ℤ → ℤ → Bool
eq_ℤ a b = pos_part a + neg_part b == pos_part b + neg_part a

abbrev pub type_differs : Column → Column → Bool
type_differs old col = not (old.type_oid == col.type_oid) || not (eq_ℤ old.mode col.mode)

abbrev pub alter_column : Column → Column → Changes → Changes
alter_column old col ch = record ch {
  deleted = remove_column col.name ch.deleted;
  altered = if type_differs old col then ch.altered ++ (old, col) ∷ [] else ch.altered;
}

-- The loop over `rel.Columns`, which ends at the first column that is not in the map.
unfoldable pub compare_columns : List Column → Changes → Changes
compare_columns [] ch = ch
compare_columns (col ∷ cols) ch = elim (find_column col.name ch.deleted) [
  | none ↦ record ch { added = ch.added ++ col ∷ [] }
  | some old ↦ compare_columns cols (alter_column old col ch)
]

unfoldable pub column_changes : Relation → Relation → Changes
column_changes rel old_rel =
    compare_columns rel.columns
      (record { added = []; deleted = insert_columns old_rel.columns []; altered = [] })

-- `replicaIdentities[r]`
unfoldable pub replica_identity_name : ℕ → Option Bytes
replica_identity_name r =
    if r == b'd'
    then some (codes "default")
    else if r == b'i'
    then some (codes "index")
    else if r == b'n'
    then some (codes "nothing")
    else if r == b'f'
    then some (codes "full")
    else none
