-- ===== src/Message/Sql/Replay.antt =====
-- What the statements of rows do when they are run again: a row of the table is the value of each
-- column by its name, `none` for null.
use logical_backup.Common.{
  All, All-append, Bool-cases, ==_iff, inl, inr, ◌≤◌, ◌≡◌, refl, ◌∙◌, Bool, true, false, not, ◌&&◌,
  ◌||◌, List, [], ◌∷◌, ◌++◌, map, Option, none, some, length, take, ◌==◌, if◌then◌else◌, arith,
}
use logical_backup.Common.Bytes.{Bytes}
use logical_backup.Common.Files.{bytes_eq_iff}
use logical_backup.Common.Hex.{bytes_eq}
use logical_backup.Message.{Column, Tuple, Relation, Insert, null_value, text_value}
use logical_backup.Message.Sql.{
  Condition, equals, is_null, Assignment, sets, sets_null, insert_parts, tuple_assignment,
  tuple_condition, key_condition, tail, update_parts, delete_condition, delete_parts,
}
use logical_backup.Message.Sql.Print.{Texts, print_insert, insert_sql}
use logical_backup.Message.Sql.Reader.{Server, ReadsName, ReadsValue, IsReadable, IsWritable}

abbrev pub Row : Type 0
Row = Bytes → Option Bytes

abbrev pub is_value : Bytes → Option Bytes → Bool
is_value s none = false
is_value s (some t) = bytes_eq t s

abbrev pub is_none : Option Bytes → Bool
is_none none = true
is_none (some t) = false

-- A condition in SQL's sense, where `= 'x'` is not true of null.
abbrev pub holds : Row → Condition → Bool
holds r (equals name s) = is_value s (r name)
holds r (is_null name) = is_none (r name)

-- `where c1 and c2 and ...`
unfoldable pub selects : List Condition → Row → Bool
selects [] r = true
selects (c ∷ cs) r = holds r c && selects cs r

-- `set a1, a2, ...`
unfoldable pub assigned : List Assignment → Row → Row
assigned [] r m = r m
assigned (sets name s ∷ rest) r m = if bytes_eq name m then some s else assigned rest r m
assigned (sets_null name ∷ rest) r m = if bytes_eq name m then none else assigned rest r m

-- Whether a row has in a column what a tuple says of it. An unchanged value says nothing.
abbrev pub agrees : Column → Tuple → Row → Bool
agrees c v r =
    if v.kind == text_value
    then is_value v.value (r c.name)
    else if v.kind == null_value
    then is_none (r c.name)
    else true

-- The rows that an update means: those with the old row or the old key, or else with the new key.
unfoldable pub is_meant : Bool → List Column → List Tuple → List Tuple → Row → Bool
is_meant has_old [] news olds r = true
is_meant has_old (c ∷ cs) [] olds r = false
is_meant true (c ∷ cs) (new ∷ news) [] r = false
is_meant true (c ∷ cs) (new ∷ news) (old ∷ olds) r = agrees c old r && is_meant true cs news olds r
is_meant false (c ∷ cs) (new ∷ news) olds r =
    (not c.is_key || agrees c new r) && is_meant false cs news (tail olds) r

-- The value of a column behind an update: an unchanged value stays.
abbrev pub updated : Tuple → Option Bytes → Option Bytes
updated v old =
    if v.kind == text_value then some v.value else if v.kind == null_value then none else old

unfoldable pub updated_row : List Column → List Tuple → Row → Row
updated_row [] news r m = r m
updated_row (c ∷ cs) [] r m = r m
updated_row (c ∷ cs) (new ∷ news) r m =
    if bytes_eq c.name m then updated new (r m) else updated_row cs news r m

-- The message has a value for each column.
unfoldable pub is_complete : Bool → List Column → List Tuple → List Tuple → Bool
is_complete has_old [] news olds = true
is_complete has_old (c ∷ cs) [] olds = false
is_complete true (c ∷ cs) (new ∷ news) [] = false
is_complete true (c ∷ cs) (new ∷ news) (old ∷ olds) = is_complete true cs news olds
is_complete false (c ∷ cs) (new ∷ news) olds = is_complete false cs news (tail olds)

unfoldable pub has_name : Bytes → List Column → Bool
has_name m [] = false
has_name m (c ∷ cs) = bytes_eq c.name m || has_name m cs

unfoldable pub is_distinct : List Column → Bool
is_distinct [] = true
is_distinct (c ∷ cs) = not (has_name c.name cs) && is_distinct cs

selects-tuple_condition :
    (c : Column) (v : Tuple) (conds : List Condition) (r : Row)
    → selects (tuple_condition c v ++ conds) r ≡ (agrees c v r && selects conds r)
unfolding selects
selects-tuple_condition c v conds r = ground arith

selects-key_condition :
    (c : Column) (v : Tuple) (conds : List Condition) (r : Row)
    → selects (key_condition c v ++ conds) r ≡ ((not c.is_key || agrees c v r) && selects conds r)
unfolding selects
selects-key_condition c v conds r = ground arith

updated_row_other :
    (m : Bytes) (cs : List Column) (news : List Tuple) (r : Row)
    → has_name m cs ≡ false
    → updated_row cs news r m ≡ r m
unfolding updated_row has_name
updated_row_other m [] news r h = refl
updated_row_other m (c ∷ cs) [] r h = refl
updated_row_other m (c ∷ cs) (new ∷ news) r h = ground (arith, updated_row_other m cs news r)

assigned-tuple_assignment :
    (c : Column) (new : Tuple) (cs : List Column) (news : List Tuple) (values : List Assignment)
    → (r : Row) (m : Bytes) → has_name c.name cs ≡ false
    → assigned values r m ≡ updated_row cs news r m
    → assigned (tuple_assignment c new ++ values) r m ≡ updated_row (c ∷ cs) (new ∷ news) r m
unfolding assigned updated_row
assigned-tuple_assignment c new cs news values r m h k =
    ground (arith, updated_row_other m cs news r, bytes_eq_iff c.name m)

module _ (T : Texts) (S : Server) where
  -- The server reads the names of the columns, and the values of a row.
  abbrev pub ReadsNames : List Column → Type 0
  ReadsNames = All (λ c. ReadsName T S c.name)

  abbrev pub ReadsRow : List Tuple → Type 0
  ReadsRow = All (λ v. v.kind ≡ text_value → ReadsValue T S v.value)

  ReadsRow-tail : (olds : List Tuple) → ReadsRow olds → ReadsRow (tail olds)
  ReadsRow-tail [] h = tt
  ReadsRow-tail (v ∷ olds) h = h.1

  tuple_condition-IsReadable :
      (c : Column) (v : Tuple)
      → ReadsName T S c.name
      → (v.kind ≡ text_value → ReadsValue T S v.value)
      → All (IsReadable T S) (tuple_condition c v)
  tuple_condition-IsReadable c v h k = elim (Bool-cases (v.kind == text_value)) [
    | inl e ↦ rw e ((h, k ((==_iff v.kind text_value).0 e)), tt)
    | inr e ↦ elim (Bool-cases (v.kind == null_value)) [
      | inl f ↦ rw (e, f) (h, tt)
      | inr f ↦ rw (e, f) tt
    ]
  ]

  key_condition-IsReadable :
      (c : Column) (v : Tuple)
      → ReadsName T S c.name
      → (v.kind ≡ text_value → ReadsValue T S v.value)
      → All (IsReadable T S) (key_condition c v)
  key_condition-IsReadable c v h k = elim (Bool-cases c.is_key) [
    | inl e ↦ rw e (tuple_condition-IsReadable c v h k)
    | inr e ↦ rw e tt
  ]

  tuple_assignment-IsWritable :
      (c : Column) (v : Tuple)
      → ReadsName T S c.name
      → (v.kind ≡ text_value → ReadsValue T S v.value)
      → All (IsWritable T S) (tuple_assignment c v)
  tuple_assignment-IsWritable c v h k = elim (Bool-cases (v.kind == null_value)) [
    | inl e ↦ rw e (h, tt)
    | inr e ↦ elim (Bool-cases (v.kind == text_value)) [
      | inl f ↦ rw (e, f) ((h, k ((==_iff v.kind text_value).0 f)), tt)
      | inr f ↦ rw (e, f) tt
    ]
  ]

-- What the two lists of an update do, and that the server reads them.
pub record Parts (T : Texts) (S : Server) (has_old : Bool) (cs : List Column)
    (news olds : List Tuple) : Type 0 where
  pub values : List Assignment
  pub conds : List Condition
  pub made : update_parts has_old cs news olds ≡ some (values, conds)
  pub meant : (r : Row) → selects conds r ≡ is_meant has_old cs news olds r
  pub written : (r : Row) (m : Bytes) → assigned values r m ≡ updated_row cs news r m
  pub writable : All (IsWritable T S) values
  pub readable : All (IsReadable T S) conds

pub update_parts_lem :
    (T : Texts) (S : Server) (has_old : Bool) (cs : List Column) (news olds : List Tuple)
    → is_complete has_old cs news olds ≡ true
    → is_distinct cs ≡ true
    → ReadsNames T S cs
    → ReadsRow T S news
    → ReadsRow T S olds
    → Parts T S has_old cs news olds
unfolding update_parts is_complete is_distinct is_meant selects assigned updated_row
update_parts_lem T S has_old [] news olds h d ns nr or' = record {
  values = [];
  conds = [];
  made = refl;
  meant = λ r. refl;
  written = λ r m. refl;
  writable = tt;
  readable = tt;
}
update_parts_lem T S has_old (c ∷ cs) [] olds h d ns nr or' = absurd (ground arith)
update_parts_lem T S true (c ∷ cs) (new ∷ news) [] h d ns nr or' = absurd (ground arith)
update_parts_lem T S true (c ∷ cs) (new ∷ news) (old ∷ olds) h d ns nr or' =
    let p = update_parts_lem T S true cs news olds h (ground arith) ns.1 nr.1 or'.1 in
    record {
      values = tuple_assignment c new ++ p.values;
      conds = tuple_condition c old ++ p.conds;
      made = rw p.made refl;
      meant = λ r. selects-tuple_condition c old p.conds r ∙ rw (p.meant r) refl;
      written = λ r m.
          assigned-tuple_assignment c new cs news p.values r m (ground arith) (p.written r m);
      writable =
          All-append (IsWritable T S) (tuple_assignment c new) p.values
            (tuple_assignment-IsWritable T S c new ns.0 nr.0) p.writable;
      readable =
          All-append (IsReadable T S) (tuple_condition c old) p.conds
            (tuple_condition-IsReadable T S c old ns.0 or'.0) p.readable;
    }
update_parts_lem T S false (c ∷ cs) (new ∷ news) olds h d ns nr or' =
    let p =
      update_parts_lem T S false cs news (tail olds) h (ground arith) ns.1 nr.1
        (ReadsRow-tail T S olds or') in
    record {
      values = tuple_assignment c new ++ p.values;
      conds = key_condition c new ++ p.conds;
      made = rw p.made refl;
      meant = λ r. selects-key_condition c new p.conds r ∙ rw (p.meant r) refl;
      written = λ r m.
          assigned-tuple_assignment c new cs news p.values r m (ground arith) (p.written r m);
      writable =
          All-append (IsWritable T S) (tuple_assignment c new) p.values
            (tuple_assignment-IsWritable T S c new ns.0 nr.0) p.writable;
      readable =
          All-append (IsReadable T S) (key_condition c new) p.conds
            (key_condition-IsReadable T S c new ns.0 nr.0) p.readable;
    }

-- The rows that have the values of a deleted row, whatever they have where it has null.
unfoldable pub has_values : List Column → List Tuple → Row → Bool
has_values [] olds r = true
has_values (c ∷ cs) [] r = true
has_values (c ∷ cs) (old ∷ olds) r =
    (not (old.kind == text_value) || is_value old.value (r c.name)) && has_values cs olds r

delete_condition-IsReadable :
    (T : Texts) (S : Server) (c : Column) (v : Tuple)
    → ReadsName T S c.name
    → (v.kind ≡ text_value → ReadsValue T S v.value)
    → All (IsReadable T S) (delete_condition c v)
delete_condition-IsReadable T S c v h k = elim (Bool-cases (v.kind == text_value)) [
  | inl e ↦ rw e ((h, k ((==_iff v.kind text_value).0 e)), tt)
  | inr e ↦ rw e tt
]

pub delete_parts_lem :
    (T : Texts) (S : Server) (cs : List Column) (olds : List Tuple)
    → length cs ≤ length olds
    → ReadsNames T S cs
    → ReadsRow T S olds
    → (conds : List Condition) × (delete_parts cs olds ≡ some conds)
      × ((r : Row) → selects conds r ≡ has_values cs olds r)
      × All (IsReadable T S) conds
unfolding delete_parts selects has_values
delete_parts_lem T S [] olds h ns vs = ([], refl, λ r. refl, tt)
delete_parts_lem T S (c ∷ cs) [] h ns vs = absurd (omega arith)
delete_parts_lem T S (c ∷ cs) (old ∷ olds) h ns vs =
    let (conds, made, meant, reads) = delete_parts_lem T S cs olds (omega arith) ns.1 vs.1 in
    (
      delete_condition c old ++ conds,
      rw made refl,
      λ r. ground (arith, meant r),
      All-append (IsReadable T S) (delete_condition c old) conds
          (delete_condition-IsReadable T S c old ns.0 vs.0) reads,
    )

-- The message has a value or null for each column.
unfoldable pub is_sent : List Column → List Tuple → Bool
is_sent [] row = true
is_sent (c ∷ cs) [] = false
is_sent (c ∷ cs) (v ∷ row) = (v.kind == text_value || v.kind == null_value) && is_sent cs row

abbrev pub sent : Tuple → Option Bytes
sent v = if v.kind == text_value then some v.value else none

insert_parts_lem :
    (cs : List Column) (row : List Tuple)
    → is_sent cs row ≡ true
    → insert_parts cs row ≡ some (map (λ c. c.name) cs, map sent (take (length cs) row))
unfolding insert_parts is_sent
insert_parts_lem [] row h = refl
insert_parts_lem (c ∷ cs) [] h = absurd (ground arith)
insert_parts_lem (c ∷ cs) (v ∷ row) h = ground (arith, insert_parts_lem cs row)

-- The statement of an insert names the columns in order, and has the value or the null of each
-- column at the same place. Condition: the message has a value or null for each column.
pub insert_sql_lem :
    (T : Texts) (ins : Insert) (rel : Relation)
    → is_sent rel.columns ins.new_row ≡ true
    → insert_sql T ins rel
      ≡ some (
          print_insert T rel.identifier
            (map (λ c. c.name) rel.columns)
            (map sent (take (length rel.columns) ins.new_row)))
unfolding insert_sql
insert_sql_lem T ins rel h = rw (insert_sql, insert_parts_lem rel.columns ins.new_row h) refl
