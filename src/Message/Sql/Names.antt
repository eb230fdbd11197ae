-- ===== src/Message/Sql/Names.antt =====
-- Lists of columns as maps by their names.
use logical_backup.Common.{
  ◌≡◌, refl, sym, ap, Bool, true, false, not, ◌&&◌, ◌||◌, List, [], ◌∷◌, ◌++◌, append-nil,
  append_assoc, Option, none, some, if◌then◌else◌, arith,
}
use logical_backup.Common.Bytes.{Bytes}
use logical_backup.Common.Files.{bytes_eq_iff}
use logical_backup.Common.Hex.{bytes_eq}
use logical_backup.Message.{Column}
use logical_backup.Message.Sql.{
  insert_column, find_column, remove_column, insert_columns, type_differs,
}
use logical_backup.Message.Sql.Replay.{has_name, is_distinct}

-- The old columns without those of the names in `cols`.
unfoldable pub others : List Column → List Column → List Column
others cols [] = []
others cols (old ∷ olds) =
    let rest = others cols olds in if has_name old.name cols then rest else old ∷ rest

-- Each column whose type or modifier is not the one that its name had.
abbrev pub altered_column : Option Column → Column → List (Column × Column)
altered_column none col = []
altered_column (some old) col = if type_differs old col then (old, col) ∷ [] else []

unfoldable pub altered_columns : List Column → List Column → List (Column × Column)
altered_columns [] olds = []
altered_columns (col ∷ cols) olds =
    altered_column (find_column col.name olds) col ++ altered_columns cols olds

unfoldable pub all_known : List Column → List Column → Bool
all_known [] olds = true
all_known (col ∷ cols) olds = has_name col.name olds && all_known cols olds

insert_column_new :
    (c : Column) (m : List Column) → has_name c.name m ≡ false → insert_column c m ≡ m ++ c ∷ []
unfolding insert_column has_name
insert_column_new c [] h = refl
insert_column_new c (d ∷ ds) h = ground (arith, insert_column_new c ds)

has_name-append :
    (n : Bytes) (xs ys : List Column) → has_name n (xs ++ ys) ≡ (has_name n xs || has_name n ys)
unfolding has_name
has_name-append n [] ys = refl
has_name-append n (x ∷ xs) ys = ground (arith, has_name-append n xs ys)

-- No name of `cs` is in `m`.
unfoldable pub is_apart : List Column → List Column → Bool
is_apart [] m = true
is_apart (c ∷ cs) m = not (has_name c.name m) && is_apart cs m

is_apart-snoc :
    (cs m : List Column) (c : Column)
    → is_apart cs m ≡ true
    → has_name c.name cs ≡ false
    → is_apart cs (m ++ c ∷ []) ≡ true
unfolding is_apart has_name
is_apart-snoc [] m c h k = refl
is_apart-snoc (d ∷ cs) m c h k = ground (
  arith,
  is_apart-snoc cs m c,
  has_name-append d.name m (c ∷ []),
  bytes_eq_iff c.name d.name,
  bytes_eq_iff d.name c.name,
)

pub insert_columns_new :
    (cs m : List Column)
    → is_distinct cs ≡ true
    → is_apart cs m ≡ true
    → insert_columns cs m ≡ m ++ cs
unfolding insert_columns is_distinct is_apart
insert_columns_new [] m d h = sym (append-nil m)
insert_columns_new (c ∷ cs) m d h = ground (
  arith,
  insert_column_new c m,
  is_apart-snoc cs m c,
  insert_columns_new cs (m ++ c ∷ []),
  append_assoc m (c ∷ []) cs,
)

pub is_apart-nil : (cs : List Column) → is_apart cs [] ≡ true
unfolding is_apart has_name
is_apart-nil [] = refl
is_apart-nil (c ∷ cs) = is_apart-nil cs

find-remove_column :
    (n m : Bytes) (ds : List Column)
    → find_column n (remove_column m ds) ≡ (if bytes_eq m n then none else find_column n ds)
unfolding find_column remove_column
find-remove_column n m [] = ground arith
find-remove_column n m (d ∷ ds) = ground (
  arith,
  find-remove_column n m ds,
  bytes_eq_iff d.name m,
  bytes_eq_iff d.name n,
  bytes_eq_iff m n,
)

pub others-remove_column :
    (c : Column) (cs ds : List Column) → others (c ∷ cs) ds ≡ others cs (remove_column c.name ds)
unfolding others remove_column has_name
others-remove_column c cs [] = refl
others-remove_column c cs (d ∷ ds) =
    ground
      (arith, others-remove_column c cs ds, bytes_eq_iff d.name c.name, bytes_eq_iff c.name d.name)

has_name-remove_column :
    (n m : Bytes) (ds : List Column)
    → has_name n (remove_column m ds) ≡ (not (bytes_eq m n) && has_name n ds)
unfolding has_name remove_column
has_name-remove_column n m [] = ground arith
has_name-remove_column n m (d ∷ ds) = ground (
  arith,
  has_name-remove_column n m ds,
  bytes_eq_iff d.name m,
  bytes_eq_iff d.name n,
  bytes_eq_iff m n,
)

pub altered_columns-remove :
    (c : Column) (cs olds : List Column)
    → has_name c.name cs ≡ false
    → altered_columns cs (remove_column c.name olds) ≡ altered_columns cs olds
unfolding altered_columns has_name
altered_columns-remove c [] olds h = refl
altered_columns-remove c (d ∷ cs) olds h = ground (
  arith,
  altered_columns-remove c cs olds,
  find-remove_column d.name c.name olds,
  bytes_eq_iff d.name c.name,
  bytes_eq_iff c.name d.name,
)

pub all_known-remove :
    (c : Column) (cs olds : List Column)
    → has_name c.name cs ≡ false
    → all_known cs olds ≡ true
    → all_known cs (remove_column c.name olds) ≡ true
unfolding all_known has_name
all_known-remove c [] olds h k = refl
all_known-remove c (d ∷ cs) olds h k = ground (
  arith,
  all_known-remove c cs olds,
  has_name-remove_column d.name c.name olds,
  bytes_eq_iff d.name c.name,
  bytes_eq_iff c.name d.name,
)

pub others-nil : (olds : List Column) → others [] olds ≡ olds
unfolding others has_name
others-nil [] = refl
others-nil (d ∷ olds) = ap (◌∷◌ d) (others-nil olds)
