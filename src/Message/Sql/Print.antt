-- ===== src/Message/Sql/Print.antt =====
-- pkg/message/message.go: printing the SQL of messages. `Texts` holds `pgx.Identifier.Sanitize` and
-- Go's conversions between strings and runes, and `Ranges` the order in which Go ranges over a map.
-- The functions `print_` follow the formats of Sprintf.
use logical_backup.Common.{
  ℕ, zero, suc, ◌+◌, ◌/◌, ◌%◌, ◌||◌, List, [], ◌∷◌, ◌++◌, map, Option, none, some, ◌==◌,
  if◌then◌else◌,
}
use logical_backup.Common.Bytes.{Bytes}
use logical_backup.Common.Hex.{bytes_eq, trim}
use logical_backup.Common.Int.{ℤ, pos, negsuc}
use logical_backup.DbUtils.{quote_literal}
use logical_backup.Message.{Identifier, Column, Relation, Insert, Update, Delete, Truncate}
use logical_backup.Message.Sql.{
  codes, Condition, equals, is_null, Assignment, sets, sets_null, insert_parts, update_parts,
  delete_parts, Changes, column_changes, replica_identity_name,
}

pub record Texts : Type 0 where
  pub sanitize : List Bytes → Bytes
  pub runes : Bytes → List ℕ
  pub utf8 : List ℕ → Bytes

pub record Ranges : Type 0 where
  pub deleted : List Column → List Column
  pub altered : List (Column × Column) → List (Column × Column)

-- `strings.Join`
unfoldable pub join : Bytes → List Bytes → Bytes
join sep [] = []
join sep (s ∷ []) = s
join sep (s ∷ t ∷ ts) = s ++ sep ++ join sep (t ∷ ts)

-- `%d` of a number of at most ten digits.
unfoldable pub decimal_fixed : ℕ → ℕ → Bytes
decimal_fixed zero v = []
decimal_fixed (suc k) v = decimal_fixed k (v / 10) ++ (b'0' + v % 10) ∷ []

unfoldable pub decimal_u32 : ℕ → Bytes
unfolding trim decimal_fixed
decimal_u32 v = trim (decimal_fixed 10 v)

-- A missing key gives the empty text.
abbrev pub or_empty : Option Bytes → Bytes
or_empty none = []
or_empty (some name) = name

-- `%d` of a type modifier that is positive, or NULL.
abbrev pub typ_mod : ℤ → Bytes
typ_mod (pos zero) = codes "NULL"
typ_mod (pos (suc n)) = decimal_u32 (suc n)
typ_mod (negsuc n) = codes "NULL"

module _ (T : Texts) where
  open T use {sanitize, runes, utf8}

  -- `dbutils.QuoteLiteral` of a Go string
  abbrev pub literal : Bytes → Bytes
  literal s = utf8 (quote_literal (runes s))

  abbrev pub ident : Bytes → Bytes
  ident name = sanitize (name ∷ [])

  abbrev pub table_name : Identifier → Bytes
  table_name t = sanitize (t.namespace ∷ t.name ∷ [])

  abbrev pub print_value : Option Bytes → Bytes
  print_value none = codes "null"
  print_value (some s) = literal s

  abbrev pub print_condition : Condition → Bytes
  print_condition (equals name s) = ident name ++ codes " = " ++ literal s
  print_condition (is_null name) = ident name ++ codes " is null"

  abbrev pub print_assignment : Assignment → Bytes
  print_assignment (sets name s) = ident name ++ codes " = " ++ literal s
  print_assignment (sets_null name) = ident name ++ codes " = null"

  unfoldable pub print_insert : Identifier → List Bytes → List (Option Bytes) → Bytes
  print_insert t names values =
      codes "insert into "
      ++ table_name t
      ++ codes " ("
      ++ join (codes ", ") (map ident names)
      ++ codes ") values ("
      ++ join (codes ", ") (map print_value values)
      ++ codes ");"

  unfoldable pub print_update : Identifier → List Assignment → List Condition → Bytes
  print_update t values conds =
      codes "update "
      ++ table_name t
      ++ codes " set "
      ++ join (codes ", ") (map print_assignment values)
      ++ codes " where "
      ++ join (codes " and ") (map print_condition conds)
      ++ codes ";"

  unfoldable pub print_delete : Identifier → List Condition → Bytes
  print_delete t conds =
      codes "delete from "
      ++ table_name t
      ++ codes " where "
      ++ join (codes " and ") (map print_condition conds)
      ++ codes ";"

  unfoldable pub insert_sql : Insert → Relation → Option Bytes
  insert_sql ins rel = elim (insert_parts rel.columns ins.new_row) [
    | none ↦ none
    | some (names, values) ↦ some (print_insert rel.identifier names values)
  ]

  unfoldable pub update_sql : Update → Relation → Option Bytes
  update_sql upd rel =
      elim (update_parts (upd.is_key || upd.is_old) rel.columns upd.new_row upd.old_row) [
        | none ↦ none
        | some (values, conds) ↦ some (print_update rel.identifier values conds)
      ]

  unfoldable pub delete_sql : Delete → Relation → Option Bytes
  delete_sql del rel = elim (delete_parts rel.columns del.old_row) [
    | none ↦ none
    | some conds ↦ some (print_delete rel.identifier conds)
  ]

  -- `Truncate.SQL`
  unfoldable pub truncate_sql : Truncate → Bytes
  truncate_sql tr = []

  abbrev pub print_rename : Bytes → Bytes → List Bytes
  print_rename old new =
      if bytes_eq old new
      then []
      else (codes "alter table " ++ old ++ codes " rename to " ++ new) ∷ []

  abbrev pub print_drop : Bytes → Column → Bytes
  print_drop t col =
      codes "alter table " ++ t ++ codes " drop column " ++ ident col.name ++ codes ";"

  abbrev pub print_add : Bytes → Column → Bytes
  print_add t col =
      codes "do $_$begin execute 'alter table "
      ++ t
      ++ codes " add column "
      ++ ident col.name
      ++ codes " ' || format_type("
      ++ decimal_u32 col.type_oid
      ++ codes ", "
      ++ typ_mod col.mode
      ++ codes "); end$_$;"

  abbrev pub print_alter : Bytes → Column × Column → Bytes
  print_alter t (old, col) =
      codes "do $_$begin execute 'alter table "
      ++ t
      ++ codes " alter column "
      ++ ident old.name
      ++ codes " type ' || format_type("
      ++ decimal_u32 col.type_oid
      ++ codes ", "
      ++ typ_mod col.mode
      ++ codes "); end$_$;"

  abbrev pub print_identity : Bytes → ℕ → ℕ → List Bytes
  print_identity t old new =
      if old == new
      then []
      else (codes "alter table "
          ++ t
          ++ codes " replica identity "
          ++ or_empty (replica_identity_name new)
          ++ codes ";")
        ∷ []

  abbrev pub print_changes : Ranges → Bytes → Changes → List Bytes
  print_changes R t ch =
      map (print_drop t) (R.deleted ch.deleted)
      ++ map (print_add t) ch.added
      ++ map (print_alter t) (R.altered ch.altered)

  -- `Relation.SQL`. Both names of the table come from the new relation.
  unfoldable pub relation_sql : Ranges → Relation → Relation → Bytes
  relation_sql R rel old_rel =
      let t = table_name rel.identifier in
      join (codes " ") (
        print_rename t t
        ++ print_changes R t (column_changes rel old_rel)
        ++ print_identity t old_rel.replica_identity rel.replica_identity)
