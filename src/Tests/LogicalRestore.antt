-- ===== src/Tests/LogicalRestore.antt =====
-- Examples for the restore of pkg/logicalrestore/logicalrestore.go, with a sort that sorts.
use mathlib.Core.List.{Permᴰ}
use mathlib.Core.List.Permᴰ
use logical_backup.Common.{
  ℕ, ◌^◌, ◌<◌, ◌≡◌, refl, ap, ◌∙◌, Bool, true, false, List, [], ◌∷◌, ◌++◌, map, Option, none, some,
  All, collect, if◌then◌else◌, arith, Bool-cases, inl, inr,
}
use logical_backup.Common.Bytes.{Bytes}
use logical_backup.Common.Exec.{ok}
use logical_backup.Common.Int.{ℤ, pos}
use logical_backup.Common.Outcome.{Outcome}
use logical_backup.DeltaFiles.{delta_name, less}
use logical_backup.DeltaFiles.Order.{less-delta_name}
use logical_backup.LogicalRestore.{Io, executes, commits, LogicalRestore, no_relation, new, restore}
use logical_backup.LogicalRestore.Calls.{Atomic, prepared}
use logical_backup.LogicalRestore.Order.{
  IsDeltaName, Sorted, Ascending, positions, restore_in_order,
}
use logical_backup.LogicalRestore.Replay.{statements, IsReadable, IsCalm, restore_replays}

-- Insertion sort.
abbrev holds : Outcome Bool Bool → Bool
holds (Outcome.ok b) = b
holds (Outcome.err e) = false
holds Outcome.panic = false

insert : Bytes → List Bytes → List Bytes
insert x [] = x ∷ []
insert x (y ∷ ys) = let rest = insert x ys in if holds (less y x) then y ∷ rest else x ∷ y ∷ ys

pub sort : List Bytes → List Bytes
sort [] = []
sort (x ∷ xs) = insert x (sort xs)

less_returns :
    (x y : Bytes) → IsDeltaName x → IsDeltaName y → less x y ≡ Outcome.ok (holds (less x y))
less_returns x y h k = ground (
  arith,
  less-delta_name h.lsn h.postfix k.lsn k.postfix h.lsn_fits k.lsn_fits h.postfix_fits
      k.postfix_fits,
  h.named,
  k.named,
)

less_asym :
    (x y : Bytes)
    → IsDeltaName x
    → IsDeltaName y
    → holds (less x y) ≡ true
    → less y x ≡ Outcome.ok false
less_asym x y h k e = ground (
  arith,
  less-delta_name h.lsn h.postfix k.lsn k.postfix h.lsn_fits k.lsn_fits h.postfix_fits
      k.postfix_fits,
  less-delta_name k.lsn k.postfix h.lsn h.postfix k.lsn_fits h.lsn_fits k.postfix_fits
      h.postfix_fits,
  h.named,
  k.named,
)

insert-Perm : (x : Bytes) (ys : List Bytes) → Permᴰ (x ∷ ys) (insert x ys)
unfolding insert
insert-Perm x [] = Permᴰ.refl (x ∷ [])
insert-Perm x (y ∷ ys) = elim (Bool-cases (holds (less y x))) [
  | inl e ↦ rw e (Permᴰ.trans (Permᴰ.swap refl refl) (Permᴰ.cons refl (insert-Perm x ys)))
  | inr e ↦ rw e (Permᴰ.refl (x ∷ y ∷ ys))
]

sort-Perm : (xs : List Bytes) → Permᴰ xs (sort xs)
unfolding sort
sort-Perm [] = Permᴰ.nil
sort-Perm (x ∷ xs) = Permᴰ.trans (Permᴰ.cons refl (sort-Perm xs)) (insert-Perm x (sort xs))

insert-IsDeltaName :
    (x : Bytes) (ys : List Bytes)
    → IsDeltaName x
    → All IsDeltaName ys
    → All IsDeltaName (insert x ys)
unfolding insert
insert-IsDeltaName x [] h a = (h, tt)
insert-IsDeltaName x (y ∷ ys) h (k, a) = elim (Bool-cases (holds (less y x))) [
  | inl e ↦ rw e (k, insert-IsDeltaName x ys h a)
  | inr e ↦ rw e (h, (k, a))
]

sort-IsDeltaName : (xs : List Bytes) → All IsDeltaName xs → All IsDeltaName (sort xs)
unfolding sort
sort-IsDeltaName [] a = tt
sort-IsDeltaName (x ∷ xs) (h, a) = insert-IsDeltaName x (sort xs) h (sort-IsDeltaName xs a)

insert-Sorted :
    (x : Bytes) (ys : List Bytes)
    → IsDeltaName x
    → All IsDeltaName ys
    → Sorted ys
    → Sorted (insert x ys)
unfolding insert
insert-Sorted x [] h a s = tt
insert-Sorted x (y ∷ []) h (k, a) s = elim (Bool-cases (holds (less y x))) [
  | inl e ↦ rw e (less_asym y x k h e, tt)
  | inr e ↦ rw e ((less_returns y x k h ∙ ap Outcome.ok e), tt)
]
insert-Sorted x (y ∷ z ∷ zs) h (k, (l, a)) (o, s) = elim (Bool-cases (holds (less y x))) [
  | inl e ↦ elim (Bool-cases (holds (less z x))) [
    | inl f ↦ rw (e, f) (o, rw f at (insert-Sorted x (z ∷ zs) h (l, a) s))
    | inr f ↦ rw (e, f) (less_asym y x k h e, ((less_returns z x l h ∙ ap Outcome.ok f), s))
  ]
  | inr e ↦ rw e ((less_returns y x k h ∙ ap Outcome.ok e), (o, s))
]

sort-Sorted : (xs : List Bytes) → All IsDeltaName xs → Sorted (sort xs)
unfolding sort
sort-Sorted [] a = tt
sort-Sorted (x ∷ xs) (h, a) = insert-Sorted x (sort xs) h (sort-IsDeltaName xs a) (sort-Sorted xs a)

-- Two files out of order, the later of which has a delta in front of the base backup's position.
abbrev first_file : Bytes
first_file = delta_name 16 0

abbrev second_file : Bytes
second_file = delta_name 32 1

-- A line is a number, which stands for the delta's position and for its statement.
abbrev one_digit : Bytes → Option (ℕ × ℤ × Bytes)
one_digit [] = none
one_digit (n ∷ line) = some (n, pos 1, n ∷ line)

abbrev pub io : Io
io = record {
  connect_ok = true;
  begin_ok = true;
  commit_ok = true;
  rollback_ok = true;
  info_open_ok = true;
  info = some ([], no_relation);
  parse_lsn = λ text. some 20;
  fetch = some no_relation;
  columns_eq = λ a b. true;
  dump_open_ok = true;
  copy_ok = true;
  list = some (second_file ∷ first_file ∷ []);
  sort = λ files. Outcome.ok (sort files);
  open_delta = λ file. some (record { lines = (19 ∷ []) ∷ (40 ∷ []) ∷ []; complete = true });
  scan_delta = one_digit;
  exec_ok = λ sql. true;
}

file_named :
    (lsn postfix : ℕ) → lsn < 2 ^ 64 → postfix < 2 ^ 31 → IsDeltaName (delta_name lsn postfix)
file_named lsn postfix h k = record {
  lsn = lsn;
  postfix = postfix;
  named = refl;
  lsn_fits = h;
  postfix_fits = k;
}

files_named : All IsDeltaName (second_file ∷ first_file ∷ [])
files_named =
    (file_named 32 1 (omega arith) (omega arith), (file_named 16 0 (omega arith) (omega arith), tt))

readable : (file : Bytes) → IsReadable io file
readable file = record {
  scan = record { lines = (19 ∷ []) ∷ (40 ∷ []) ∷ []; complete = true };
  opens = refl;
  complete = refl;
  parses = (((19, pos 1, 19 ∷ []), refl), (((40, pos 1, 40 ∷ []), refl), tt));
}

All-IsReadable : (files : List Bytes) → All (IsReadable io) files
All-IsReadable [] = tt
All-IsReadable (f ∷ files) = (readable f, All-IsReadable files)

abbrev sorted_files : List Bytes
sorted_files = sort (second_file ∷ first_file ∷ [])

abbrev io-IsCalm : IsCalm io 20 sorted_files
io-IsCalm = record {
  text = [];
  rel = no_relation;
  current = no_relation;
  files = second_file ∷ first_file ∷ [];
  connects = refl;
  opens = refl;
  decodes = refl;
  parses = refl;
  begins = refl;
  fetches = refl;
  agrees = refl;
  dump_opens = refl;
  copies = refl;
  lists = refl;
  sorts = refl;
  reads = All-IsReadable sorted_files;
  execs = λ sql. refl;
  commits = refl;
}

restore_replays_example :
    (r : LogicalRestore) × (restore io (new [] []) ≡ ok tt r)
    × (r.calls ≡ prepared ++ map executes (collect (statements io 20) sorted_files) ++ commits ∷ [])
restore_replays_example = restore_replays io 20 sorted_files [] [] io-IsCalm

restore_in_order_example :
    Permᴰ (second_file ∷ first_file ∷ []) sorted_files
    × ((named : All IsDeltaName sorted_files) × Ascending (positions sorted_files named))
    × ((r : LogicalRestore) × (restore io (new [] []) ≡ ok tt r)
        × (r.calls
            ≡ prepared ++ map executes (collect (statements io 20) sorted_files) ++ commits ∷ []))
restore_in_order_example =
    restore_in_order io 20 sorted_files [] [] io-IsCalm
      (λ names a. (sort names, refl, sort-Perm names, sort-Sorted names a)) files_named
