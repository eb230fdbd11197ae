-- ===== src/LogicalRestore/Layout.antt =====
-- pkg/logicalrestore/logicalrestore.go: where a restore looks for the files of a table, and where the
-- backup has left them. `path.Join` of three parts is the join of the join of two with the third.
use logical_backup.Common.{◌≡◌, refl}
use logical_backup.Common.Bytes.{Bytes}
use logical_backup.Message.{Identifier}
use logical_backup.Message.Sql.{codes}
use logical_backup.TableBackup.Basebackup.{info_name, dump_name}
use logical_backup.TableBackup.Create.{Paths, table_dir}

unfoldable pub info_filepath : Paths → Bytes → Identifier → Bytes
info_filepath P base_dir tbl =
    P.path_join (P.path_join base_dir (table_dir P tbl)) (codes "info.yaml")

unfoldable pub dump_filepath : Paths → Bytes → Identifier → Bytes
dump_filepath P base_dir tbl =
    P.path_join (P.path_join base_dir (table_dir P tbl)) (codes "basebackup.copy")

unfoldable pub delta_dir : Paths → Bytes → Identifier → Bytes
delta_dir P base_dir tbl = P.path_join (P.path_join base_dir (table_dir P tbl)) (codes "deltas")

-- A restore from the archive looks for the base backup under the names of the backup.
pub same_names :
    (P : Paths) (archive_dir : Bytes) (tbl : Identifier)
    → (info_filepath P archive_dir tbl
        ≡ P.path_join (P.path_join archive_dir (table_dir P tbl)) info_name)
      × (dump_filepath P archive_dir tbl
          ≡ P.path_join (P.path_join archive_dir (table_dir P tbl)) dump_name)
unfolding info_filepath dump_filepath
same_names P archive_dir tbl = (refl, refl)
