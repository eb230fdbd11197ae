-- ===== src/Cmd/Backup.antt =====
-- cmd/backup/main.go: `main`, from its argument to the signal that ends it. What the replication
-- and the workers do meanwhile is in LogicalBackup.
use logical_backup.Common.{
  ℕ, ◌≤◌, ◌≡◌, refl, Bool, true, false, List, [], ◌∷◌, Option, none, some, map, ltb, if◌then◌else◌,
  arith, Bool-cases, inl, inr,
}
use logical_backup.Common.Bytes.{Bytes}
use logical_backup.Common.Exec.{Step, ok, err, panic, blocked}
use logical_backup.Common.Outcome.{Outcome}
use logical_backup.Config
use logical_backup.Config.{Config}
use logical_backup.LogicalBackup.{TableBackuper, LogicalBackup, Io}
use logical_backup.LogicalBackup.Startup
use logical_backup.LogicalBackup.Startup.{StartError, fresh, queue_basebackup_tables}
use logical_backup.LogicalBackup.Startup.Tables.{queue_basebackup_tables_lem}
use logical_backup.Queue.{Queue, empty}
use logical_backup.Queue.Invariant.{empty-Inv}

pub data Signal : Type 0 where
  sigint sigterm sighup other : Signal

-- What the command takes from outside: the number of arguments, the config file, the answers to
-- `logicalbackup.New`, the files of an earlier run, and the order in which Go ranges over the tables.
pub record Answers : Type 0 where
  pub args : ℕ
  pub config_opens : Bool
  pub config : Option Config
  pub start : Startup.Answers
  pub io : Io
  pub state_file : Option Bytes
  pub archive_state_file : Option Bytes
  pub range : List ℕ → List ℕ

-- The loop over the signals: whether it is left.
unfoldable pub is_stopped : List Signal → Bool
is_stopped [] = false
is_stopped (sigint ∷ ss) = true
is_stopped (sigterm ∷ ss) = true
is_stopped (sighup ∷ ss) = is_stopped ss
is_stopped (other ∷ ss) = is_stopped ss

module _ (T : TableBackuper) where
  -- How far the process is, with its backup and the queue of base backups as `main` leaves them.
  pub data Process : Type 0 where
    usage : Process
    no_config : Config.Error → Process
    not_started : StartError T.Err → Process
    panicked : Process
    hangs : Process
    running : LogicalBackup T.Store → Queue ℕ → Process
    stopped : LogicalBackup T.Store → Queue ℕ → Process

  -- Behind `QueueBasebackupTables`: the loop, `done` and `Wait`.
  abbrev pub after_queueing : List Signal → LogicalBackup T.Store → Option (Queue ℕ) → Process
  after_queueing signals b none = hangs
  after_queueing signals b (some q) = if is_stopped signals then stopped b q else running b q

  -- Behind `logicalbackup.New`.
  abbrev pub after_new :
      Answers
      → Config
      → List Signal
      → Step (LogicalBackup T.Store) (StartError T.Err) (Unit {0})
      → Process
  after_new a cfg signals (ok x b) = after_queueing signals b (
      if cfg.initial_basebackup
      then queue_basebackup_tables (a.range (map (λ e. e.1) b.backup_tables)) empty
      else some empty)
  after_new a cfg signals (err e b) = not_started e
  after_new a cfg signals panic = panicked
  after_new a cfg signals blocked = hangs

  abbrev pub after_config : Answers → T.Store → List Signal → Outcome Config.Error Config → Process
  after_config a s signals (Outcome.ok cfg) =
      after_new a cfg signals
        (Startup.new T a.start a.io (fresh T cfg s a.state_file a.archive_state_file))
  after_config a s signals (Outcome.err e) = no_config e
  after_config a s signals Outcome.panic = panicked

  unfoldable pub main : Answers → T.Store → List Signal → Process
  main a s signals =
      if ltb a.args 2 then usage else after_config a s signals (Config.new a.config_opens a.config)

  -- The tables that are queued at the start.
  abbrev pub initial : Answers → Config → LogicalBackup T.Store → List ℕ
  initial a cfg b = if cfg.initial_basebackup then a.range (map (λ e. e.1) b.backup_tables) else []

  -- With a readable config and a backup that `New` has made, the command queues each of its tables
  -- for a base backup if the setting says so, and none otherwise, and runs until the first SIGINT or
  -- SIGTERM; SIGHUP and other signals do not end it.
  pub main_runs :
      (a : Answers) (cfg : Config) (s : T.Store) (b : LogicalBackup T.Store) (signals : List Signal)
      → 2 ≤ a.args
      → a.config_opens ≡ true
      → a.config ≡ some cfg
      → Startup.new T a.start a.io (fresh T cfg s a.state_file a.archive_state_file) ≡ ok tt b
      → main a s signals ≡ (
          if is_stopped signals
          then stopped b (record empty { items = initial a cfg b })
          else running b (record empty { items = initial a cfg b }))
  unfolding main Config.new empty
  main_runs a cfg s b signals args opens config e = elim (Bool-cases cfg.initial_basebackup) [
    | inl i ↦
        let queued =
          queue_basebackup_tables_lem (a.range (map (λ e. e.1) b.backup_tables)) empty empty-Inv
            refl in
        ground (arith, opens, config, e, i, queued)
    | inr i ↦ ground (arith, opens, config, e, i)
  ]
