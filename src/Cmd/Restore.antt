-- ===== src/Cmd/Restore.antt =====
-- cmd/restore/main.go: `main`, from the flags to the end of the process. What the server and the
-- system answer to a connection and a directory is an argument.
use logical_backup.Common.{
  ℕ, ◌%◌, ◌^◌, ◌≡◌, refl, ap, ◌∙◌, ◌≢◌, Bool, true, false, ◌||◌, List, [], ◌∷◌, ◌++◌, map, Option,
  none, some, if◌then◌else◌, arith, Bool-cases, inl, inr,
}
use logical_backup.Common.Bytes.{Bytes}
use logical_backup.Common.Exec.{Step, ok, err, panic, blocked}
use logical_backup.LogicalRestore.{
  Io, Error, LogicalRestore, executes, commits, new, restore, table_parts,
}
use logical_backup.LogicalRestore.Calls.{
  Atomic, Commits, Failed, count_commits, count_commits-append, count_commits-executes, prepared,
}
use logical_backup.LogicalRestore.Atomic.{restore-Atomic}

-- The flags after `flag.Parse`.
pub record Flags : Type 0 where
  pub db : Bytes
  pub user : Bytes
  pub password : Bytes
  pub host : Bytes
  pub port : ℕ
  pub table : Bytes
  pub dir : Bytes

-- `pgx.ConnConfig`
pub record ConnConfig : Type 0 where
  pub database : Bytes
  pub user : Bytes
  pub password : Bytes
  pub host : Bytes
  pub port : ℕ

-- The port is cut to 16 bits.
unfoldable pub conn_config : Flags → ConnConfig
conn_config f = record {
  database = f.db;
  user = f.user;
  password = f.password;
  host = f.host;
  port = f.port % 2 ^ 16;
}

-- How the process ends: with the usage, by `log.Fatalf`, by a panic, or by the end of `main`.
pub data End : Type 0 where
  usage : End
  invalid_name : End
  not_restored : Error → LogicalRestore → End
  panicked : End
  hangs : End
  restored : LogicalRestore → End

abbrev pub ended : Step LogicalRestore Error (Unit {0}) → End
ended (ok a r) = restored r
ended (err e r) = not_restored e r
ended panic = panicked
ended blocked = hangs

abbrev pub is_empty : Bytes → Bool
is_empty [] = true
is_empty (c ∷ s) = false

abbrev pub named : (Bytes → Bytes → End) → Option (Bytes × Bytes) → End
named f none = invalid_name
named f (some parts) = f parts.0 parts.1

unfoldable pub main : (ConnConfig → Bytes → Io) → Flags → End
main answers f =
    if is_empty f.table || is_empty f.dir
    then usage
    else named
        (λ schema_name table_name.
          ended (restore (answers (conn_config f) f.dir) (new schema_name table_name)))
        (table_parts f.table)

-- The exit status, if the process ends.
abbrev pub status : End → Option ℕ
status usage = some 1
status invalid_name = some 1
status (not_restored e r) = some 1
status panicked = some 2
status hangs = none
status (restored r) = some 0

-- What has been sent to the server at the end.
abbrev pub Sent : End → Type 0
Sent usage = Unit {0}
Sent invalid_name = Unit {0}
Sent (not_restored e r) = Failed e r
Sent panicked = Unit {0}
Sent hangs = ⊥
Sent (restored r) = Commits r × (r.tx ≡ false)

ended-Sent : (io : Io) (m : Step LogicalRestore Error (Unit {0})) → Atomic io m → Sent (ended m)
ended-Sent io (ok a r) (c, h, t) = (h, t)
ended-Sent io (err e r) h = h
ended-Sent io panic h = tt
ended-Sent io blocked h = h

main-Sent : (answers : ConnConfig → Bytes → Io) (f : Flags) → Sent (main answers f)
unfolding main
main-Sent answers f = elim (Bool-cases (is_empty f.table || is_empty f.dir)) [
  | inl e ↦ rw e tt
  | inr e ↦ rw e (of_parts (table_parts f.table))
]
  where
    io : Io
    io = answers (conn_config f) f.dir

    of_parts :
        (parts : Option (Bytes × Bytes))
        → Sent (
            named (λ schema_name table_name. ended (restore io (new schema_name table_name))) parts)
    of_parts none = tt
    of_parts (some (schema_name, table_name)) =
        ended-Sent io (restore io (new schema_name table_name))
          (restore-Atomic io schema_name table_name)

count_commits-last :
    (sqls : List Bytes) → count_commits (prepared ++ map executes sqls ++ commits ∷ []) ≡ 1
unfolding count_commits
count_commits-last sqls = omega (
  arith,
  count_commits-append (prepared ++ map executes sqls) (commits ∷ []),
  count_commits-append prepared (map executes sqls),
  count_commits-executes sqls,
)

-- A command that ends with the status 0 has committed once.
committed :
    (e : End)
    → Sent e
    → status e ≡ some 0
    → (r : LogicalRestore) × (e ≡ restored r) × (count_commits r.calls ≡ 1)
committed usage s h = absurd (ground arith)
committed invalid_name s h = absurd (ground arith)
committed (not_restored e r) s h = absurd (ground arith)
committed panicked s h = absurd (ground arith)
committed hangs s h = absurd s
committed (restored r) ((sqls, calls), tx) h =
    (r, refl, ap count_commits calls ∙ count_commits-last sqls)

-- Whatever the flags, the server and the system: the command ends. If it ends with the status 0, then
-- it has restored a table with exactly one COMMIT, the last of its calls, and leaves no transaction
-- open. If it ends with the error of a restore, then no COMMIT was sent or the error is its own.
pub main_commits :
    (answers : ConnConfig → Bytes → Io) (f : Flags)
    → (status (main answers f) ≢ none)
      × Sent (main answers f)
      × (status (main answers f) ≡ some 0
          → (r : LogicalRestore) × (main answers f ≡ restored r) × (count_commits r.calls ≡ 1))
main_commits answers f = (
  ends (main answers f) (main-Sent answers f),
  main-Sent answers f,
  committed (main answers f) (main-Sent answers f),
)
  where
    ends : (e : End) → Sent e → status e ≢ none
    ends usage s h = cc
    ends invalid_name s h = cc
    ends (not_restored e r) s h = cc
    ends panicked s h = cc
    ends hangs s h = s
    ends (restored r) s h = cc
