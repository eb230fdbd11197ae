-- ===== src/LogicalRestore/Order.antt =====
-- The order in which a restore applies the delta files of a directory.
use mathlib.Core.List.{Permᴰ}
use mathlib.Core.Path.{subst}
use logical_backup.Common.{
  ℕ, ◌^◌, ◌≤◌, ◌<◌, ◌≡◌, ◌⊎◌, Bool, false, List, [], ◌∷◌, ◌++◌, map, All, collect, arith,
}
use logical_backup.Common.Bytes.{Bytes}
use logical_backup.Common.Exec.{ok}
use logical_backup.Common.Outcome.{Outcome}
use logical_backup.DeltaFiles.{delta_name, less}
use logical_backup.DeltaFiles.Order.{less-delta_name}
use logical_backup.LogicalRestore.{Io, executes, commits, LogicalRestore, new, restore}
use logical_backup.LogicalRestore.Calls.{prepared}
use logical_backup.LogicalRestore.Replay.{statements, IsCalm, restore_replays}

-- A name that the backup prints, with its position and its postfix.
pub record IsDeltaName (name : Bytes) : Type 0 where
  pub lsn : ℕ
  pub postfix : ℕ
  pub named : name ≡ delta_name lsn postfix
  pub lsn_fits : lsn < 2 ^ 64
  pub postfix_fits : postfix < 2 ^ 31

-- No name is less than the one in front of it.
abbrev pub Sorted : List Bytes → Type 0
Sorted [] = Unit {0}
Sorted (x ∷ []) = Unit {0}
Sorted (x ∷ y ∷ zs) = (less y x ≡ Outcome.ok false) × Sorted (y ∷ zs)

-- What `sort.Sort` documents, on names that Less compares: it rearranges them, and sorts them.
abbrev pub Sorts : (List Bytes → Outcome Bool (List Bytes)) → Type 0
Sorts sort =
    (names : List Bytes)
    → All IsDeltaName names
    → (sorted : List Bytes) × (sort names ≡ Outcome.ok sorted) × Permᴰ names sorted × Sorted sorted

IsDeltaName-perm : (xs ys : List Bytes) → Permᴰ xs ys → All IsDeltaName xs → All IsDeltaName ys
IsDeltaName-perm xs ys Permᴰ.nil a = tt
IsDeltaName-perm (x ∷ xs) (y ∷ ys) (Permᴰ.cons e p) (h, a) =
    (subst IsDeltaName e h, IsDeltaName-perm xs ys p a)
IsDeltaName-perm (x ∷ y ∷ l) (x' ∷ y' ∷ m) (Permᴰ.swap e f) (h, (k, a)) =
    (subst IsDeltaName f k, (subst IsDeltaName e h, a))
IsDeltaName-perm xs ys (Permᴰ.trans {l₂ = zs} p q) a =
    IsDeltaName-perm zs ys q (IsDeltaName-perm xs zs p a)

-- The positions and postfixes of names, in order.
abbrev pub positions : (names : List Bytes) → All IsDeltaName names → List (ℕ × ℕ)
positions [] a = []
positions (x ∷ xs) (h, a) = (h.lsn, h.postfix) ∷ positions xs a

-- Positions that do not fall, and postfixes that do not fall at one position.
abbrev pub Ascending : List (ℕ × ℕ) → Type 0
Ascending [] = Unit {0}
Ascending (f ∷ []) = Unit {0}
Ascending (f ∷ g ∷ fs) = ((f.0 < g.0) ⊎ ((f.0 ≡ g.0) × (f.1 ≤ g.1))) × Ascending (g ∷ fs)

not_less :
    (x y : Bytes) (h : IsDeltaName x) (k : IsDeltaName y)
    → less y x ≡ Outcome.ok false
    → (h.lsn < k.lsn) ⊎ ((h.lsn ≡ k.lsn) × (h.postfix ≤ k.postfix))
not_less x y h k e =
    let l =
      less-delta_name k.lsn k.postfix h.lsn h.postfix k.lsn_fits h.lsn_fits k.postfix_fits
        h.postfix_fits in
    ground (arith, l, h.named, k.named)

Ascending-positions :
    (names : List Bytes) (a : All IsDeltaName names) → Sorted names → Ascending (positions names a)
Ascending-positions [] a s = tt
Ascending-positions (x ∷ []) a s = tt
Ascending-positions (x ∷ y ∷ zs) (h, (k, a)) (e, s) =
    (not_less x y h k e, Ascending-positions (y ∷ zs) (k, a) s)

-- Of a directory with the delta files of a backup, a restore applies each file once, in the order of
-- their positions and postfixes, and so it repeats the statements behind the position of the base
-- backup in that order. Condition: every call succeeds, each file can be read and parsed, and
-- `sort.Sort` sorts.
pub restore_in_order :
    (io : Io) (start : ℕ) (sorted : List Bytes) (schema_name table_name : Bytes)
    (c : IsCalm io start sorted)
    → Sorts io.sort
    → All IsDeltaName c.files
    → Permᴰ c.files sorted
      × ((named : All IsDeltaName sorted) × Ascending (positions sorted named))
      × ((r : LogicalRestore) × (restore io (new schema_name table_name) ≡ ok tt r)
          × (r.calls
              ≡ prepared ++ map executes (collect (statements io start) sorted) ++ commits ∷ []))
restore_in_order io start sorted schema_name table_name c sorts names =
    let (ys, e, p, s) = sorts c.files names in
    let same : ys ≡ sorted = cc (e, c.sorts) in
    let p' = subst (Permᴰ c.files) same p in
    let named = IsDeltaName-perm c.files sorted p' names in
    (
      p',
      (named, Ascending-positions sorted named (subst Sorted same s)),
      restore_replays io start sorted schema_name table_name c,
    )
