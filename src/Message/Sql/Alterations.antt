-- ===== src/Message/Sql/Alterations.antt =====
-- The columns whose type changes between two relations, by comparing each column with each.
use logical_backup.Common.{
  ◌≡◌, refl, sym, ap, ◌∙◌, Bool, true, false, not, ◌&&◌, List, [], ◌∷◌, ◌++◌, ◌==◌, if◌then◌else◌,
  arith, Bool-cases, inl, inr,
}
use logical_backup.Common.Files.{bytes_eq_iff}
use logical_backup.Common.Hex.{bytes_eq}
use logical_backup.Common.Int.{ℤ, pos, negsuc}
use logical_backup.Message.{Column}
use logical_backup.Message.Sql.{eq_ℤ, find_column}
use logical_backup.Message.Sql.Replay.{has_name, is_distinct}
use logical_backup.Message.Sql.Names.{altered_column, altered_columns}

abbrev pub same_mode : ℤ → ℤ → Bool
same_mode (pos m) (pos n) = m == n
same_mode (pos m) (negsuc n) = false
same_mode (negsuc m) (pos n) = false
same_mode (negsuc m) (negsuc n) = m == n

-- One name, but not one type and one modifier.
abbrev pub is_retyped : Column → Column → Bool
is_retyped old col =
    bytes_eq old.name col.name && not (old.type_oid == col.type_oid && same_mode old.mode col.mode)

unfoldable pub retyped : Column → List Column → List (Column × Column)
retyped col [] = []
retyped col (old ∷ olds) =
    let rest = retyped col olds in if is_retyped old col then (old, col) ∷ rest else rest

-- For each new column, the old ones of its name with another type or modifier.
unfoldable pub alterations : List Column → List Column → List (Column × Column)
alterations [] olds = []
alterations (col ∷ cols) olds = retyped col olds ++ alterations cols olds

eq_ℤ-same_mode : (a b : ℤ) → eq_ℤ a b ≡ same_mode a b
eq_ℤ-same_mode (pos m) (pos n) = ground arith
eq_ℤ-same_mode (pos m) (negsuc n) = ground arith
eq_ℤ-same_mode (negsuc m) (pos n) = ground arith
eq_ℤ-same_mode (negsuc m) (negsuc n) = ground arith

retyped-missing :
    (col : Column) (olds : List Column) → has_name col.name olds ≡ false → retyped col olds ≡ []
unfolding retyped has_name
retyped-missing col [] h = refl
retyped-missing col (old ∷ olds) h = ground (arith, retyped-missing col olds)

retyped-find_column :
    (col : Column) (olds : List Column)
    → is_distinct olds ≡ true
    → retyped col olds ≡ altered_column (find_column col.name olds) col
unfolding retyped find_column is_distinct
retyped-find_column col [] d = refl
retyped-find_column col (old ∷ olds) d = elim (Bool-cases (bytes_eq old.name col.name)) [
  | inl e ↦
      let same : old.name ≡ col.name = (bytes_eq_iff old.name col.name).0 e in
      let missing : has_name col.name olds ≡ false =
        ap (λ n. has_name n olds) (sym same) ∙ ground arith in
      ground (arith, e, retyped-missing col olds missing, eq_ℤ-same_mode old.mode col.mode)
  | inr e ↦ ground (arith, e, retyped-find_column col olds)
]

pub altered_columns-alterations :
    (cols olds : List Column)
    → is_distinct olds ≡ true
    → altered_columns cols olds ≡ alterations cols olds
unfolding altered_columns alterations
altered_columns-alterations [] olds d = refl
altered_columns-alterations (col ∷ cols) olds d =
    rw (retyped-find_column col olds d, altered_columns-alterations cols olds d) refl
