-- ===== src/Cmd.antt =====
-- The two commands: cmd/backup/main.go and cmd/restore/main.go.
pub mod Backup
pub mod Restore
