-- ===== src/LogicalRestore/Atomic.antt =====
-- What a restore sends to the server, on every path.
use mathlib.Core.Path.{subst}
use logical_backup.Common.{
  ◌≡◌, refl, sym, ap, ◌∙◌, Bool, true, false, List, [], ◌∷◌, ◌++◌, map, Option, none, some, arith,
  Bool-cases, inl, inr,
}
use logical_backup.Common.Bytes.{Bytes}
use logical_backup.Common.Exec.{Step, ok, err, panic, blocked, continue, ◌>>◌}
use logical_backup.Common.Outcome.{Outcome}
use logical_backup.LogicalRestore.{
  Io, Call, connects, begins, fetches, executes, commits, Error, commit_failed, LogicalRestore, M,
  new, connect, load_info, decoded_info, set_info, begin, same_struct, check_table_struct,
  load_dump, apply_sorted, apply_listed, apply_deltas, commit, restore,
}
use logical_backup.LogicalRestore.Calls.{
  Applied, Atomic, apply_files-Applied, count_commits, count_commits-executes, more, prepared,
}

-- The calls of a restore that has not come to its commit.
record Running (r : LogicalRestore) : Type 0 where
  calls_kept : r.calls ≡ prepared
  in_tx : r.tx ≡ true

more-uncommitted :
    (sqls : List Bytes) (r : LogicalRestore) → Running r → count_commits (more sqls r).calls ≡ 0
more-uncommitted sqls r w = rw w.calls_kept (unfold count_commits in count_commits-executes sqls)

abbrev committed : LogicalRestore → LogicalRestore
committed r = record r { tx = false; calls = r.calls ++ commits ∷ [] }

commit_done :
    (io : Io) (r : LogicalRestore)
    → r.tx ≡ true
    → io.commit_ok ≡ true
    → commit io r ≡ ok tt (committed r)
unfolding commit
commit_done io r t e = ground arith

commit_refused :
    (io : Io) (r : LogicalRestore)
    → r.tx ≡ true
    → io.commit_ok ≡ false
    → commit io r ≡ err commit_failed (record r { calls = r.calls ++ commits ∷ [] })
unfolding commit
commit_refused io r t e = ground arith

commit-Atomic :
    (io : Io) (sqls : List Bytes) (r : LogicalRestore)
    → Running r
    → Atomic io (commit io (more sqls r))
commit-Atomic io sqls r w = elim (Bool-cases io.commit_ok) [
  | inl e ↦
      subst (Atomic io) (sym (commit_done io (more sqls r) w.in_tx e))
        (e, (sqls, ap (λ c. (c ++ map executes sqls) ++ commits ∷ []) w.calls_kept), refl)
  | inr e ↦
      subst (Atomic io) (sym (commit_refused io (more sqls r) w.in_tx e)) (
        inr
          (refl, (sqls, ap (λ c. (c ++ map executes sqls) ++ commits ∷ []) w.calls_kept), w.in_tx))
]

-- The deltas and the commit, once the files are sorted.
finish-Atomic :
    (io : Io) (r : LogicalRestore) (m : Step LogicalRestore Error (Unit {0}))
    → Running r
    → Applied r m
    → Atomic io (continue m (λ _. commit io))
finish-Atomic io r (ok a s) w (xs, e) =
    subst (λ t. Atomic io (commit io t)) (sym e) (commit-Atomic io xs r w)
finish-Atomic io r (err x s) w (xs, e) =
    inl (ap (λ t. count_commits t.calls) e ∙ more-uncommitted xs r w)
finish-Atomic io r panic w h = absurd h
finish-Atomic io r blocked w h = absurd h

apply_sorted-Atomic :
    (io : Io) (files : List Bytes) (o : Outcome Bool (List Bytes)) (r : LogicalRestore)
    → Running r
    → io.list ≡ some files
    → io.sort files ≡ o
    → Atomic io (continue (apply_sorted io o r) (λ _. commit io))
apply_sorted-Atomic io files (Outcome.ok sorted) r w l e =
    finish-Atomic io r _ w (apply_files-Applied io sorted r w.in_tx)
apply_sorted-Atomic io files (Outcome.err x) r w l e = (files, l, λ sorted h. cc)
apply_sorted-Atomic io files Outcome.panic r w l e = (files, l, λ sorted h. cc)

apply_listed-Atomic :
    (io : Io) (list : Option (List Bytes)) (r : LogicalRestore)
    → Running r
    → io.list ≡ list
    → Atomic io (continue (apply_listed io list r) (λ _. commit io))
unfolding apply_listed
apply_listed-Atomic io none r w e =
    inl (ap count_commits w.calls_kept ∙ unfold count_commits in refl)
apply_listed-Atomic io (some files) r w e = apply_sorted-Atomic io files (io.sort files) r w e refl

-- A step that ends where `P` holds, or fails before any commit.
abbrev Gets : (LogicalRestore → Type 0) → Step LogicalRestore Error (Unit {0}) → Type 0
Gets P (ok a r) = P r
Gets P (err e r) = count_commits r.calls ≡ 0
Gets P panic = ⊥
Gets P blocked = ⊥

Gets-continue :
    (io : Io) (P : LogicalRestore → Type 0) (m : Step LogicalRestore Error (Unit {0})) (k : M)
    → Gets P m
    → ((r : LogicalRestore) → P r → Atomic io (k r))
    → Atomic io (continue m (λ _. k))
Gets-continue io P (ok a r) k g h = h r g
Gets-continue io P (err e r) k g h = inl g
Gets-continue io P panic k g h = absurd g
Gets-continue io P blocked k g h = absurd g

-- The calls so far, and whether there is a connection and a transaction.
abbrev At : List Call → Bool → Bool → LogicalRestore → Type 0
At calls conn tx r = (r.calls ≡ calls) × (r.conn ≡ conn) × (r.tx ≡ tx)

connect-Gets :
    (io : Io) (r : LogicalRestore)
    → At [] false false r
    → Gets (At (connects ∷ []) true false) (connect io r)
unfolding connect count_commits
connect-Gets io r (c, n, t) = ground arith

load_info-Gets :
    (io : Io) (r : LogicalRestore)
    → At (connects ∷ []) true false r
    → Gets (At (connects ∷ []) true false) (load_info io r)
unfolding load_info decoded_info set_info count_commits
load_info-Gets io r (c, n, t) = ground arith

begin-Gets :
    (io : Io) (r : LogicalRestore)
    → At (connects ∷ []) true false r
    → Gets (At (connects ∷ begins ∷ []) true true) (begin io r)
unfolding begin count_commits
begin-Gets io r (c, n, t) = ground arith

check_table_struct-Gets :
    (io : Io) (r : LogicalRestore)
    → At (connects ∷ begins ∷ []) true true r
    → Gets (At (connects ∷ begins ∷ fetches ∷ []) true true) (check_table_struct io r)
unfolding check_table_struct same_struct count_commits
check_table_struct-Gets io r (c, n, t) = ground arith

load_dump-Gets :
    (io : Io) (r : LogicalRestore)
    → At (connects ∷ begins ∷ fetches ∷ []) true true r
    → Gets (At prepared true true) (load_dump io r)
unfolding load_dump count_commits
load_dump-Gets io r (c, n, t) = ground arith

pub restore-Atomic :
    (io : Io) (schema_name table_name : Bytes) → Atomic io (restore io (new schema_name table_name))
unfolding restore new apply_deltas
restore-Atomic io schema_name table_name =
    let deltas : M = apply_deltas io >> commit io in
    let dump : M = load_dump io >> deltas in
    let check : M = check_table_struct io >> dump in
    let start : M = begin io >> check in
    let info : M = load_info io >> start in
    let at_connect = At (connects ∷ []) true false in
    let at_begin = At (connects ∷ begins ∷ []) true true in
    let at_fetch = At (connects ∷ begins ∷ fetches ∷ []) true true in
    let r = new schema_name table_name in
    Gets-continue io at_connect (connect io r) info (connect-Gets io r (refl, refl, refl)) λ r1 h1.
      Gets-continue io at_connect (load_info io r1) start (load_info-Gets io r1 h1) λ r2 h2.
        Gets-continue io at_begin (begin io r2) check (begin-Gets io r2 h2) λ r3 h3.
          Gets-continue io at_fetch (check_table_struct io r3) dump
            (check_table_struct-Gets io r3 h3)
            λ r4 h4.
              Gets-continue io (At prepared true true) (load_dump io r4) deltas
                (load_dump-Gets io r4 h4)
                λ r5 h5.
                  apply_listed-Atomic io io.list r5 (record { calls_kept = h5.0; in_tx = h5.2 })
                    refl
