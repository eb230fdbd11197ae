-- ===== src/Tests/DeltaFiles.antt =====
-- Examples for the names of delta files.
use logical_backup.Common.{◌≡◌, ◌&&◌, ◌||◌, ◌==◌, ltb, arith}
use logical_backup.Common.Outcome.{ok}
use logical_backup.DeltaFiles.{delta_name, less}
use logical_backup.DeltaFiles.Order.{less-delta_name}

-- The tenth file of a position comes before its seventeenth, whose postfix is `10` in hexadecimal.
less-delta_name_example :
    less (delta_name 255 9) (delta_name 255 16) ≡ ok (ltb 255 255 || (255 == 255 && ltb 9 16))
less-delta_name_example =
    less-delta_name 255 9 255 16 (omega arith) (omega arith) (omega arith) (omega arith)
