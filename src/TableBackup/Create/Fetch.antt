-- ===== src/TableBackup/Create/Fetch.antt =====
-- What a table asks the server for: `FetchRelationInfo` and `hasRows` of
-- pkg/tablebackup/tablebackup.go, the types of pkg/tablebackup/relinfo.go, and `connect` and
-- `disconnect` of pkg/tablebackup/basebackup.go. A query's answer is `none` if it fails, and so is a
-- row that cannot be scanned; `end_ok` is that `rows.Err()` is nil. pgtype's ConnInfo and its two
-- functions are the section's parameters.
use logical_backup.Common.{
  ℕ, ◌≡◌, refl, ap, ◌∙◌, Bool, true, false, List, [], ◌∷◌, Option, none, some, map, if◌then◌else◌,
  arith,
}
use logical_backup.Common.Bytes.{Bytes}
use logical_backup.Common.Files.{bytes_eq_iff}
use logical_backup.Common.Hex.{bytes_eq}
use logical_backup.Common.Int.{ℤ}
use logical_backup.Common.Outcome.{Outcome, ok, err, panic, ◌>>=◌}
use logical_backup.Message.{Identifier, Column, Relation}
use logical_backup.TableBackup.Basebackup.{Session}

pub data FetchError : Type 0 where
  table_failed query_failed scan_failed rows_failed connect_failed no_connection close_failed :
      FetchError

-- A row of the second query: the name, the type's oid, the modifier and the formatted type.
pub record Attribute : Type 0 where
  pub name : Bytes
  pub att_type : ℕ
  pub att_typ_mod : ℤ
  pub format_type : Bytes

-- `info` is the oid and the replica identity.
pub record RelationRows : Type 0 where
  pub info : Option (ℕ × Bytes)
  pub attributes : Option (List (Option Attribute))

abbrev pub fetched_column : Attribute → Column
fetched_column a = record {
  is_key = false;
  name = a.name;
  type_oid = a.att_type;
  mode = a.att_typ_mod;
  formatted_type = a.format_type;
}

abbrev pub add_column :
    Attribute → Outcome FetchError (List Column) → Outcome FetchError (List Column)
add_column a (ok cols) = ok (fetched_column a ∷ cols)
add_column a (err e) = err e
add_column a panic = panic

-- The loop over the rows.
unfoldable pub fetch_columns : List (Option Attribute) → Outcome FetchError (List Column)
fetch_columns [] = ok []
fetch_columns (none ∷ rows) = err scan_failed
fetch_columns (some a ∷ rows) = add_column a (fetch_columns rows)

-- The first byte of the replica identity; an empty one is an index out of range.
abbrev pub fetched_relation : Identifier → ℕ → Bytes → List Column → Outcome FetchError Relation
fetched_relation tbl oid [] cols = panic
fetched_relation tbl oid (c ∷ s) cols =
    ok (record { identifier = tbl; raw = []; oid = oid; replica_identity = c; columns = cols })

abbrev pub queried : {A : Type 0} → Option A → Outcome FetchError A
queried none = err query_failed
queried (some a) = ok a

abbrev pub table_info : {A : Type 0} → Option A → Outcome FetchError A
table_info none = err table_failed
table_info (some a) = ok a

-- `FetchRelationInfo`
unfoldable pub fetch_relation_info : RelationRows → Identifier → Outcome FetchError Relation
fetch_relation_info rows tbl = table_info rows.info >>= λ info.
    queried rows.attributes >>= λ attributes.
    fetch_columns attributes >>= λ cols. fetched_relation tbl info.0 info.1 cols

-- The answer to a query of names and oids.
pub record NameRows : Type 0 where
  pub rows : Option (List (Option (Bytes × ℕ)))
  pub end_ok : Bool

-- `nameOIDs[name] = oid`
unfoldable pub insert_name : Bytes → ℕ → List (Bytes × ℕ) → List (Bytes × ℕ)
insert_name name oid [] = (name, oid) ∷ []
insert_name name oid ((other, old) ∷ m) =
    let rest = insert_name name oid m in
    if bytes_eq other name then (name, oid) ∷ m else (other, old) ∷ rest

unfoldable pub scan_names :
    List (Option (Bytes × ℕ)) → List (Bytes × ℕ) → Outcome FetchError (List (Bytes × ℕ))
scan_names [] m = ok m
scan_names (none ∷ rows) m = err scan_failed
scan_names (some (name, oid) ∷ rows) m = scan_names rows (insert_name name oid m)

abbrev pub ended : {A : Type 0} → Bool → A → Outcome FetchError A
ended true a = ok a
ended false a = err rows_failed

-- `connInfoFromRows`
unfoldable pub conn_info_from_rows : NameRows → Outcome FetchError (List (Bytes × ℕ))
conn_info_from_rows answer =
    queried answer.rows >>= λ rows. scan_names rows [] >>= λ m. ended answer.end_ok m

module _ {C : Type 0} (initialize : List (Bytes × ℕ) → C) (register : Bytes → ℕ → C → C)
    (range : List (Bytes × ℕ) → List (Bytes × ℕ)) where
  unfoldable pub register_all : List (Bytes × ℕ) → C → C
  register_all [] c = c
  register_all ((name, oid) ∷ m) c = register_all m (register name oid c)

  -- `initConnInfoEnumArray`
  unfoldable pub init_conn_info_enum_array : NameRows → C → Outcome FetchError C
  init_conn_info_enum_array answer c = queried answer.rows >>= λ rows.
      scan_names rows [] >>= λ m. ended answer.end_ok (register_all (range m) c)

  -- `initPostgresql`
  unfoldable pub init_postgresql : NameRows → NameRows → Outcome FetchError C
  init_postgresql names enums =
      conn_info_from_rows names >>= λ m. init_conn_info_enum_array enums (initialize m)

  abbrev pub connected : Session → C → Outcome FetchError (Session × C)
  connected s c = ok (record s { conn = true }, c)

  -- `connect`: the connection is kept only if the types have been read.
  unfoldable pub connect : Bool → NameRows → NameRows → Session → Outcome FetchError (Session × C)
  connect connect_ok names enums s =
      if connect_ok then init_postgresql names enums >>= connected s else err connect_failed

-- `disconnect`: the field keeps the closed connection.
unfoldable pub disconnect : Bool → Session → Outcome FetchError (Unit {0})
disconnect close_ok s =
    if s.conn then if close_ok then ok tt else err close_failed else err no_connection

-- `hasRows`
unfoldable pub has_rows : Option Bool → Outcome FetchError Bool
has_rows none = err scan_failed
has_rows (some b) = ok b

unfoldable pub lookup_name : Bytes → List (Bytes × ℕ) → Option ℕ
lookup_name name [] = none
lookup_name name ((other, oid) ∷ m) = if bytes_eq other name then some oid else lookup_name name m

-- The oid of the last row with a name.
unfoldable pub last_oid : Bytes → List (Bytes × ℕ) → Option ℕ → Option ℕ
last_oid name [] found = found
last_oid name ((other, oid) ∷ rows) found =
    last_oid name rows (if bytes_eq other name then some oid else found)

lookup-insert_name :
    (name wanted : Bytes) (oid : ℕ) (m : List (Bytes × ℕ))
    → lookup_name wanted (insert_name name oid m)
      ≡ (if bytes_eq name wanted then some oid else lookup_name wanted m)
unfolding lookup_name insert_name
lookup-insert_name name wanted oid [] = refl
lookup-insert_name name wanted oid ((other, old) ∷ m) = ground (
  arith,
  lookup-insert_name name wanted oid m,
  bytes_eq_iff other name,
  bytes_eq_iff other wanted,
  bytes_eq_iff name wanted,
)

scan_names_lem :
    (rows m : List (Bytes × ℕ))
    → (m' : List (Bytes × ℕ)) × (scan_names (map some rows) m ≡ ok m')
      × ((name : Bytes) → lookup_name name m' ≡ last_oid name rows (lookup_name name m))
unfolding scan_names last_oid
scan_names_lem [] m = (m, refl, λ name. refl)
scan_names_lem ((other, oid) ∷ rows) m =
    let (m', e, k) = scan_names_lem rows (insert_name other oid m) in
    (m', e, λ name. k name ∙ ap (last_oid name rows) (lookup-insert_name other name oid m))

-- The map of types has for each name the oid of the last row with it, and no other name. Condition:
-- the query succeeds, its rows can be scanned and end without an error.
pub conn_info_from_rows_lem :
    (rows : List (Bytes × ℕ))
    → (m : List (Bytes × ℕ)) × (conn_info_from_rows
          (record { rows = some (map some rows); end_ok = true })
        ≡ ok m)
      × ((name : Bytes) → lookup_name name m ≡ last_oid name rows none)
unfolding conn_info_from_rows lookup_name
conn_info_from_rows_lem rows = let (m, e, k) = scan_names_lem rows [] in (m, rw e refl, k)
