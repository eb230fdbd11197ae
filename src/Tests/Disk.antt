-- ===== src/Tests/Disk.antt =====
-- Examples for the delta files that the handler writes.
use logical_backup.Common.{
  inr, true, ℕ, All, ◌<◌, ◌^◌, map, ◌≡◌, ◌≢◌, refl, false, List, [], ◌∷◌, ◌++◌, some, none, collect,
  arith,
}
use logical_backup.Common.Assoc.{lookup}
use logical_backup.Common.Exec.{ok}
use logical_backup.LogicalBackup.{LogicalBackup, Event, arrives, nothing, replicate}
use logical_backup.LogicalBackup.Wire.{sent}
use logical_backup.Decoder.Wire.{IsWire, encode}
use logical_backup.Message.{Message}
use logical_backup.LogicalBackup.Tables.{Tables, Setup, tables}
use logical_backup.LogicalBackup.Tables.Disk.{replicated_to_disk}
use logical_backup.LogicalBackup.Transactions.{Transaction, on_wire}
use logical_backup.Queue.{empty}
use logical_backup.Queue.Invariant.{empty-Inv}
use logical_backup.TableBackup.{World, TableBackup, frame}
use logical_backup.TableBackup.Create.{Left, new_session}
use logical_backup.TableBackup.Log.Fresh.{new_session-Ready}
use logical_backup.TableBackup.Log.Schedule.{Action, saves, archives, run, run_logs}
use logical_backup.TableBackup.Log.Steps.{log, Tidy}
use logical_backup.Tests.LogicalBackup.{
  io-Accepts, io, state_with, state-Injective, start, finish, rows, insert_into, orders_relation,
  orders_relation-IsKnown,
}
use logical_backup.Tests.Samples.{config, calm, calm-IsCalm, orders, paths, dir_io}

abbrev nothing_left : Left
nothing_left = record { disk = []; archive = []; info = none; dumped = false }

abbrev setup : Setup
setup = record {
  io = calm;
  now = 8;
  cfg = config;
  paths = paths;
  dir_io = dir_io;
  left = λ i. nothing_left;
}

abbrev fresh : ℕ → TableBackup
fresh t = (new_session t config orders nothing_left).table

abbrev on_disk : LogicalBackup Tables
on_disk = record (state_with (record { table = fresh; queue = empty; dirs = []; count = 3 })) {
  cfg = record config { send_status_on_commit = true };
}

-- The same rows twice, at one position.
abbrev twice : List Transaction
twice =
    record { start = start; rows = rows; finish = finish }
    ∷ record { start = start; rows = rows; finish = finish }
    ∷ []

start-IsWire : IsWire (Message.begin start)
start-IsWire = (omega arith, (refl, omega arith), omega arith)

finish-IsWire : IsWire (Message.commit finish)
finish-IsWire = (omega arith, omega arith, omega arith, (refl, omega arith))

insert_into-IsWire : (oid n : ℕ) → oid < 2 ^ 32 → IsWire (insert_into oid n)
insert_into-IsWire oid n h = (h, refl, (omega arith, tt))

orders_relation-IsWire : IsWire (Message.relation orders_relation)
orders_relation-IsWire = (
  omega arith,
  ((λ e. absurd (ground arith)), tt),
  ((λ e. absurd (ground arith)), tt),
  omega arith,
  omega arith,
  tt,
)

twice-IsWire : All IsWire (collect on_wire twice)
twice-IsWire = (
  start-IsWire,
  (
    orders_relation-IsWire,
    (
      insert_into-IsWire 10 1 (omega arith),
      (
        insert_into-IsWire 20 2 (omega arith),
        (
          insert_into-IsWire 30 3 (omega arith),
          (
            insert_into-IsWire 10 4 (omega arith),
            (
              finish-IsWire,
              (
                start-IsWire,
                (
                  orders_relation-IsWire,
                  (
                    insert_into-IsWire 10 1 (omega arith),
                    (
                      insert_into-IsWire 20 2 (omega arith),
                      (
                        insert_into-IsWire 30 3 (omega arith),
                        (insert_into-IsWire 10 4 (omega arith), (finish-IsWire, tt)),
                      ),
                    ),
                  ),
                ),
              ),
            ),
          ),
        ),
      ),
    ),
  ),
)

abbrev delivered : Message → Event
delivered m = arrives (some (encode m)) none

-- A timeout, the messages, and a heartbeat in the middle of the second transaction.
abbrev events : List Event
events =
    nothing
      ∷ map delivered
          (Message.begin start ∷ rows ++ Message.commit finish ∷ Message.begin start ∷ [])
    ++ arrives none (some 0) ∷ map delivered (rows ++ Message.commit finish ∷ [])

replicated_to_disk_example :
    (b' : LogicalBackup Tables) × (replicate (tables setup) (map (λ e. (io, e)) events) on_disk
      ≡ ok tt b')
    × ((o t : ℕ)
        → lookup o on_disk.backup_tables ≡ some t
        → log (b'.store.table t) ≡ log (fresh t) ++ collect frame (collect (sent o) twice))
    × ((t : ℕ)
        → ((o : ℕ) → lookup o on_disk.backup_tables ≢ some t)
        → log (b'.store.table t) ≡ log (fresh t))
replicated_to_disk_example =
    replicated_to_disk setup io 64 twice events on_disk calm-IsCalm refl
      (λ xs d. (d, refl, λ o. refl)) state-Injective
      (
        empty-Inv,
        λ t.
            new_session-Ready t config orders nothing_left 30 64 (refl, refl) (omega arith)
              (omega arith) (omega arith) (omega arith),
      )
      refl (inr io-Accepts)
      (
        omega arith,
        omega arith,
        (orders_relation-IsKnown, (tt, (tt, (tt, (tt, tt))))),
        (omega arith, omega arith, (orders_relation-IsKnown, (tt, (tt, (tt, (tt, tt))))), tt),
      )
      twice-IsWire
      (
        tt,
        (
          tt,
          (
            tt,
            (
              tt,
              (
                tt,
                (
                  tt,
                  (
                    tt,
                    (
                      tt,
                      (tt, ((λ e. absurd (ground arith)), (tt, (tt, (tt, (tt, (tt, (tt, tt)))))))),
                    ),
                  ),
                ),
              ),
            ),
          ),
        ),
      )
      refl

-- A table and an archiver that takes its first file between the saves.
abbrev schedule : List Action
schedule =
    saves calm 8 (1 ∷ []) 64
    ∷ saves calm 9 (2 ∷ []) 64
    ∷ saves calm 10 (3 ∷ []) 80
    ∷ archives calm
    ∷ saves calm 11 (4 ∷ []) 80
    ∷ archives calm
    ∷ []

run_logs_example :
    (w' : World) × (run schedule (record { table = fresh 1; queue = empty }) ≡ ok tt w')
    × Tidy w'.table
    × (log w'.table
        ≡ log (fresh 1) ++ collect frame ((1 ∷ []) ∷ (2 ∷ []) ∷ (3 ∷ []) ∷ (4 ∷ []) ∷ []))
run_logs_example =
    run_logs schedule 64 (record { table = fresh 1; queue = empty })
      (new_session-Ready 1 config orders nothing_left 4 64 (refl, refl) (omega arith) (omega arith)
        (omega arith) (omega arith))
      empty-Inv
      (
        calm-IsCalm,
        refl,
        omega arith,
        omega arith,
        (
          calm-IsCalm,
          refl,
          omega arith,
          omega arith,
          (
            calm-IsCalm,
            refl,
            omega arith,
            omega arith,
            (refl, (calm-IsCalm, refl, omega arith, omega arith, (refl, tt))),
          ),
        ),
      )
