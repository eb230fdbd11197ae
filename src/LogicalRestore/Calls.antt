-- ===== src/LogicalRestore/Calls.antt =====
-- The statements that the steps of a restore add to its calls, and the commits among them.
use mathlib.Core.Path.{subst}
use mathlib.Core.List.{map-append}
use logical_backup.Common.{
  ℕ, suc, ◌+◌, ◌≡◌, refl, sym, ap, ◌∙◌, ◌≢◌, ◌⊎◌, Bool, true, false, List, [], ◌∷◌, ◌++◌, map,
  append-nil, append_assoc, Option, none, some, leb, if◌then◌else◌, arith,
}
use logical_backup.Common.Bytes.{Bytes}
use logical_backup.Common.Exec.{Step, ok, err, panic, blocked, continue, guard}
use logical_backup.Common.Int.{ℤ}
use logical_backup.Common.Outcome.{Outcome}
use logical_backup.LogicalRestore.{
  Io, Scan, Call, execute, connects, begins, fetches, copies, executes, commits, rolls_back, Error,
  commit_failed, LogicalRestore, M, apply_line, apply_lines, apply_scan, apply_delta, apply_files,
}

-- The restore after more statements.
abbrev pub more : List Bytes → LogicalRestore → LogicalRestore
more sqls r = record r { calls = r.calls ++ map executes sqls }

pub more-nil : (r : LogicalRestore) → r ≡ more [] r
more-nil r = ap (λ c. record r { calls = c }) (sym (append-nil r.calls))

pub more-more : (xs ys : List Bytes) (r : LogicalRestore) → more ys (more xs r) ≡ more (xs ++ ys) r
more-more xs ys r =
    ap (λ c. record r { calls = c })
      (append_assoc r.calls (map executes xs) (map executes ys)
        ∙ ap (λ l. r.calls ++ l) (sym (map-append executes xs ys)))

-- A step that does nothing but send statements.
abbrev pub Applied : LogicalRestore → Step LogicalRestore Error (Unit {0}) → Type 0
Applied r (ok a s) = (sqls : List Bytes) × (s ≡ more sqls r)
Applied r (err e s) = (sqls : List Bytes) × (s ≡ more sqls r)
Applied r panic = ⊥
Applied r blocked = ⊥

Applied-more :
    (xs : List Bytes) (r : LogicalRestore) (m : Step LogicalRestore Error (Unit {0}))
    → Applied (more xs r) m
    → Applied r m
Applied-more xs r (ok a s) (ys, e) = (xs ++ ys, e ∙ more-more xs ys r)
Applied-more xs r (err x s) (ys, e) = (xs ++ ys, e ∙ more-more xs ys r)
Applied-more xs r panic h = h
Applied-more xs r blocked h = h

Applied-continue :
    (r : LogicalRestore) (m : Step LogicalRestore Error (Unit {0})) (k : M)
    → Applied r m
    → ((xs : List Bytes) → Applied (more xs r) (k (more xs r)))
    → Applied r (continue m (λ _. k))
Applied-continue r (ok a s) k (xs, e) h =
    Applied-more xs r (k s) (subst (λ t. Applied (more xs r) (k t)) (sym e) (h xs))
Applied-continue r (err x s) k (xs, e) h = (xs, e)
Applied-continue r panic k a h = a
Applied-continue r blocked k a h = a

Applied-guard : (b : Bool) (e : Error) (r : LogicalRestore) → Applied r (guard b e r)
Applied-guard true e r = ([], more-nil r)
Applied-guard false e r = ([], more-nil r)

Applied-if :
    (b : Bool) (r : LogicalRestore) (m n : Step LogicalRestore Error (Unit {0}))
    → (b ≡ true → Applied r m)
    → (b ≡ false → Applied r n)
    → Applied r (if b then m else n)
Applied-if true r m n h k = h refl
Applied-if false r m n h k = k refl

execute-Applied : (io : Io) (sql : Bytes) (r : LogicalRestore) → Applied r (execute io sql r)
unfolding execute
execute-Applied io sql r =
    Applied-continue r _ _ (Applied-guard (io.exec_ok sql) _ r) (λ xs. (sql ∷ [], refl))

apply_line-Applied :
    (io : Io) (d : Option (ℕ × ℤ × Bytes)) (r : LogicalRestore)
    → r.tx ≡ true
    → Applied r (apply_line io d r)
unfolding apply_line
apply_line-Applied io none r t = ([], more-nil r)
apply_line-Applied io (some (lsn, tx_id, sql)) r t =
    Applied-if (leb lsn r.start_lsn) r _ _ (λ e. ([], more-nil r))
      (λ e. Applied-if r.tx r _ _ (λ f. execute-Applied io sql r) (λ f. cc))

apply_lines-Applied :
    (io : Io) (lines : List Bytes) (r : LogicalRestore)
    → r.tx ≡ true
    → Applied r (apply_lines io lines r)
unfolding apply_lines
apply_lines-Applied io [] r t = ([], more-nil r)
apply_lines-Applied io (line ∷ lines) r t =
    Applied-continue r _ (apply_lines io lines) (apply_line-Applied io (io.scan_delta line) r t)
      (λ xs. apply_lines-Applied io lines (more xs r) t)

apply_scan-Applied :
    (io : Io) (scan : Option Scan) (r : LogicalRestore)
    → r.tx ≡ true
    → Applied r (apply_scan io scan r)
unfolding apply_scan
apply_scan-Applied io none r t = ([], more-nil r)
apply_scan-Applied io (some scan) r t =
    Applied-continue r _ (guard scan.complete _) (apply_lines-Applied io scan.lines r t)
      (λ xs. Applied-guard scan.complete _ (more xs r))

pub apply_files-Applied :
    (io : Io) (files : List Bytes) (r : LogicalRestore)
    → r.tx ≡ true
    → Applied r (apply_files io files r)
unfolding apply_files apply_delta
apply_files-Applied io [] r t = ([], more-nil r)
apply_files-Applied io (file ∷ files) r t =
    Applied-continue r _ (apply_files io files) (apply_scan-Applied io (io.open_delta file) r t)
      (λ xs. apply_files-Applied io files (more xs r) t)

unfoldable pub count_commits : List Call → ℕ
count_commits [] = 0
count_commits (commits ∷ cs) = suc (count_commits cs)
count_commits (connects ∷ cs) = count_commits cs
count_commits (begins ∷ cs) = count_commits cs
count_commits (fetches ∷ cs) = count_commits cs
count_commits (copies ∷ cs) = count_commits cs
count_commits (rolls_back ∷ cs) = count_commits cs
count_commits (executes sql ∷ cs) = count_commits cs

pub count_commits-executes : (sqls : List Bytes) → count_commits (map executes sqls) ≡ 0
unfolding count_commits
count_commits-executes [] = refl
count_commits-executes (s ∷ sqls) = count_commits-executes sqls

-- The calls up to the deltas.
abbrev pub prepared : List Call
prepared = connects ∷ begins ∷ fetches ∷ copies ∷ []

-- The calls of a restore that has come to its commit, the last of them.
abbrev pub Commits : LogicalRestore → Type 0
Commits r = (sqls : List Bytes) × (r.calls ≡ prepared ++ map executes sqls ++ commits ∷ [])

-- The calls at an error: no commit has been sent, unless the error is the commit's own.
abbrev pub Failed : Error → LogicalRestore → Type 0
Failed e r = (count_commits r.calls ≡ 0) ⊎ ((e ≡ commit_failed) × Commits r × (r.tx ≡ true))

-- How a restore may end.
abbrev pub Atomic : Io → Step LogicalRestore Error (Unit {0}) → Type 0
Atomic io (ok a r) = (io.commit_ok ≡ true) × Commits r × (r.tx ≡ false)
Atomic io (err e r) = Failed e r
Atomic io panic =
    (files : List Bytes) × (io.list ≡ some files)
    × ((sorted : List Bytes) → io.sort files ≢ Outcome.ok sorted)
Atomic io blocked = ⊥

pub count_commits-append :
    (xs ys : List Call) → count_commits (xs ++ ys) ≡ count_commits xs + count_commits ys
unfolding count_commits
count_commits-append [] ys = omega arith
count_commits-append (commits ∷ cs) ys = omega (arith, count_commits-append cs ys)
count_commits-append (connects ∷ cs) ys = count_commits-append cs ys
count_commits-append (begins ∷ cs) ys = count_commits-append cs ys
count_commits-append (fetches ∷ cs) ys = count_commits-append cs ys
count_commits-append (copies ∷ cs) ys = count_commits-append cs ys
count_commits-append (rolls_back ∷ cs) ys = count_commits-append cs ys
count_commits-append (executes sql ∷ cs) ys = count_commits-append cs ys
