-- ===== src/Lib.antt =====
-- Verification of the logical backup tool: a daemon that receives the logical replication stream of
-- PostgreSQL, and writes the changes of each table to delta files, next to base backups of the
-- table.
--
-- The parts of the program and the files that model them:
-- * pkg/message/message.go, the replication messages: Message. Message/Sql and Message/Sql/Print are
--   the SQL that they print. Sql/Replay is about what conditions and assignments do to the rows of a
--   table, Sql/Reader reads the printed statements as a server does, over readers of names and
--   values that are arguments, and Sql/Statements joins the two. Sql/Names, Sql/Alterations and
--   Sql/Columns are about the changes of columns between two relation messages, and Sql/Kinds has
--   the texts of replica identities.
-- * pkg/decoder/decoder.go, which parses one pgoutput message: Decoder. `parse` is `Parse`, and each
--   method of `decoder` is a function of the same name over the bytes that are left. Decoder/Wire is
--   an encoder written from the protocol's documentation, Decoder/Fields and Decoder/RoundTrip are
--   about decoding what it encodes, Decoder/Ensures and Decoder/Errors are about errors and panics,
--   and Decoder/Within and Decoder/Bounds about the widths of what is read.
-- * pkg/queue/queue.go, the queue of base backups: Queue. Each step is what runs between Lock and
--   Unlock; a schedule of the goroutines is a list of steps. Queue/Invariant and Queue/Order are
--   about all schedules, and Queue/Delivery about what a waiter receives.
-- * pkg/config/config.go, the settings: Config.
-- * pkg/tablebackup/tablebackup.go, the deltas of one table: TableBackup. `save_raw_message`,
--   `rotate_file`, `truncate`, `close_old_files`, `heartbeat` and `archiver_step` are the methods of
--   those names, over the struct's fields, the files of the table's two directories and the shared
--   queue, which are in TableBackup/State. TableBackup/Create is `New` with the directories of
--   pkg/utils/utils.go; Create/Dirs is about these, and Create/Fetch has the queries of
--   pkg/tablebackup/relinfo.go. TableBackup/Calls has what the calls of `save_raw_message` do when
--   the system calls succeed. TableBackup/Deltas, Naming, Idle and Archive are about what these
--   leave on disk, and TableBackup/Log about the log of a table, which is what its files hold in
--   order: Unarchived has the files without a copy in the archive, Steps and Saves the saves,
--   Archived the archiver, Schedule both in any order, and Fresh a new table.
-- * pkg/tablebackup/basebackup.go, the base backup of a table: TableBackup/Basebackup, with what it
--   leaves of its transaction in Sessions, the files that it removes in Retention, and a run without
--   an error in Completion.
-- * The names of delta files, which tablebackup.go prints and pkg/logicalrestore/logicalrestore.go
--   sorts: DeltaFiles and DeltaFiles/Order.
-- * pkg/logicalbackup/logicalbackup.go, which ties the parts together: LogicalBackup. `replicate` is
--   the loop of `startReplication`: it parses each message, hands it to `handler`, and reports the
--   position by `send_status`. The handler saves raw messages in the tables, which it knows by the
--   interface `TableBackuper` only. LogicalBackup/Laws says what it relies on there, Stream (with
--   Stream/Names for the names of relations and their oids, and Stream/Parts for a table's part),
--   Commits, Rows, Transaction and Transactions follow transactions through it, and Status is about
--   its reports. LogicalBackup/Tables puts TableBackup behind the interface: Tables/Lawful shows
--   that it keeps what the handler relies on, and Tables/Disk follows transactions into the delta
--   files. Wire puts the decoder in front of the handler, Confirmed is about what is saved when a
--   position is reported, and Reports about a report that is accepted. LogicalBackup/State has the
--   struct. LogicalBackup/Startup is `New` and what it calls: Startup/Positions is about the state
--   in which it leaves the backup, Restart about the state files from one run to the next, and
--   Tables about the tables that it tracks and queues. LogicalBackup/Workers has the loops of its
--   other goroutines.
-- * cmd/backup/main.go and cmd/restore/main.go, the two commands: Cmd/Backup and Cmd/Restore.
-- * pkg/logicalrestore/logicalrestore.go and the table's name in cmd/restore/main.go:
--   LogicalRestore, `restore` over the answers of the server, of the files and of the library
--   functions that it calls. LogicalRestore/Calls and LogicalRestore/Atomic are about its
--   transaction, Replay about the statements that it repeats, and Order about the order of the
--   files. LogicalRestore/Layout has the paths of the files.
-- * pkg/dbutils/dbutils.go, quoting and repeated statements: DbUtils. DbUtils/Literals has a reader
--   of SQL's string constants, and DbUtils/Retries is about the transactions of `RepeatedlyTry`.
-- * Tests holds the sample data and the examples.
-- Common has what these share: numbers and their Boolean tests, bytes and words in big-endian order,
-- hexadecimal text, maps, files, and the monad `Exec` of code with a state, whose outcome is a
-- result, an error with the state that it leaves, a panic, or blocking for ever.
--
-- Bounds. Numbers are natural numbers, and words wrap at their width where the code computes with
-- them: 32 bits for the postfix of a file, 64 bits for the byte count and for a time in nanoseconds.
-- Every loop of the code runs over a list or a count that the code knows. The two loops of
-- `clearPending` take a putter or an item in each round, so the length of that list, their fuel, is
-- enough. The rounds of a base backup worker are counted too: one for each table in the queue and
-- one that waits are enough.
--
-- A table has room for the messages of a run if the channel of the archiver, of 100 files, and the
-- postfix of a file, which an int32 must hold, take all of them even if the archiver stands still.
--
-- Not modelled: deltas that arrive during a base backup, the HTTP server, the interleaving of the
-- daemon's goroutines beyond the queue, connections, the log and the texts around errors. pgx, the
-- operating system and the clock are arguments: `Io` and `Backups` hold their answers, and the order
-- in which Go ranges over a map.
pub mod Cmd
pub mod Common
pub mod Message
pub mod Decoder
pub mod Queue
pub mod DeltaFiles
pub mod Config
pub mod DbUtils
pub mod TableBackup
pub mod LogicalBackup
pub mod LogicalRestore
pub mod Tests
