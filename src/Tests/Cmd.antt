-- ===== src/Tests/Cmd.antt =====
-- Examples for the commands of cmd/backup/main.go and cmd/restore/main.go.
use logical_backup.Common.{◌≡◌, refl, true, [], ◌∷◌}
use logical_backup.Cmd.Backup.{is_stopped, sighup, other, sigterm, sigint}
use logical_backup.Cmd.Restore.{Flags}
use logical_backup.Message.Sql.{codes}

abbrev flags : Flags
flags = record {
  db = codes "postgres";
  user = codes "postgres";
  password = [];
  host = codes "localhost";
  port = 5432;
  table = codes "a.o";
  dir = codes "/backup";
}

-- SIGHUP does not end the process.
stopped_by_sigterm : is_stopped (sighup ∷ other ∷ sigterm ∷ sigint ∷ []) ≡ true
unfolding is_stopped
stopped_by_sigterm = refl
