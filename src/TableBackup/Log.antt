-- ===== src/TableBackup/Log.antt =====
-- The log of a table: what its delta files hold, one behind the other, those in the archive first
-- and then those that have no copy there yet.

pub mod Archived
pub mod Fresh
pub mod Saves
pub mod Schedule
pub mod Steps
pub mod Unarchived
