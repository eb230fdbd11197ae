-- ===== src/Tests.antt =====
-- Examples that run the modelled code on concrete data.
pub mod Samples
pub mod Basebackup
pub mod DbUtils
pub mod Cmd
pub mod Create
pub mod Decoder
pub mod DeltaFiles
pub mod Disk
pub mod LogicalBackup
pub mod LogicalRestore
pub mod Message
pub mod Queue
pub mod Startup
pub mod Statements
pub mod TableBackup
