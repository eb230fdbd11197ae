-- ===== src/TableBackup/Deltas.antt =====
-- What `SaveRawMessage` leaves on disk: whole frames, in order, in files of bounded size.
use mathlib.Core.Path.{subst}
use Prim.Native.Nat.{max}
use logical_backup.Common.{
  ℕ, ◌+◌, ◌≤◌, ◌<◌, ◌≡◌, refl, sym, ◌≢◌, inl, inr, true, List, [], ◌∷◌, ◌++◌, append-nil, none,
  some, length, length-append, collect, collect-append, leb, if◌then◌else◌, arith, Bool-cases,
}
use logical_backup.Common.Bytes.{Bytes}
use logical_backup.Common.Exec.{ok}
use logical_backup.Common.Files.{find, find-write_file, find-append_file, bytes_eq_refl}
use logical_backup.DeltaFiles.{delta_name}
use logical_backup.Queue.Invariant.{Inv}
use logical_backup.TableBackup.{
  File, Io, TableBackup, World, archiver_buffer, delta_path, next_postfix, frame, save_raw_message,
}
use logical_backup.TableBackup.Calls.{
  IsCalm, IsUsable, closed, rotated, rotated_current, new_file, stored, is_full, save_in_new,
  save_in_old,
}

-- The current file is open and holds the frames of `msgs`, as many as are counted.
pub record OpenLog (t : TableBackup) (msgs : List Bytes) : Type 0 where
  pub fp : File
  pub current : t.current_delta_fp ≡ some fp
  pub is_open : fp.is_open ≡ true
  pub content : find fp.path t.disk ≡ some (collect frame msgs)
  pub counted : t.delta_cnt ≡ length msgs

-- There is no file yet, or the current one holds `msgs`.
pub data Log (t : TableBackup) (msgs : List Bytes) : Type 0 where
  absent : t.current_delta_fp ≡ none → msgs ≡ [] → Log t msgs
  present : OpenLog t msgs → Log t msgs

Log-IsUsable : {t : TableBackup} {msgs : List Bytes} → Log t msgs → IsUsable t
Log-IsUsable (absent e n) = inl e
Log-IsUsable (present l) = inr (l.fp, l.current, l.is_open)

rotated-OpenLog :
    (io : Io) (lsn : ℕ) (t : TableBackup)
    → (l : OpenLog (rotated io lsn t) []) × (l.fp ≡ new_file io lsn t)
rotated-OpenLog io lsn t = (
  record {
    fp = new_file io lsn t;
    current = rotated_current io lsn t;
    is_open = refl;
    content = ground (arith, find-write_file path path [] (closed t).disk, bytes_eq_refl path);
    counted = refl;
  },
  refl,
)
  where
    path : Bytes
    path = delta_path (delta_name lsn (next_postfix io lsn t))

stored-OpenLog :
    (t : TableBackup) (msgs : List Bytes) (msg : Bytes) (now : ℕ) (l : OpenLog t msgs)
    → OpenLog (stored now msg l.fp t) (msgs ++ msg ∷ [])
stored-OpenLog t msgs msg now l = record {
  fp = l.fp;
  current = l.current;
  is_open = l.is_open;
  content =
      rw (collect-append frame msgs (msg ∷ []), append-nil (frame msg))
        (find-append_file l.fp.path (frame msg) _ t.disk l.content);
  counted = omega (arith, length-append msgs (msg ∷ []), l.counted);
}

-- The messages of the current file after one more: a full file is left for a new one.
abbrev pub next_msgs : ℕ → List Bytes → Bytes → List Bytes
next_msgs limit msgs msg = if leb limit (length msgs) then msg ∷ [] else msgs ++ msg ∷ []

length-snoc : (msgs : List Bytes) (msg : Bytes) → length (msgs ++ msg ∷ []) ≡ length msgs + 1
length-snoc msgs msg = length-append msgs (msg ∷ [])

next_msgs_full :
    (limit : ℕ) (msgs : List Bytes) (msg : Bytes)
    → limit ≤ length msgs
    → next_msgs limit msgs msg ≡ msg ∷ []
next_msgs_full limit msgs msg h = ground arith

next_msgs_room :
    (limit : ℕ) (msgs : List Bytes) (msg : Bytes)
    → length msgs < limit
    → next_msgs limit msgs msg ≡ msgs ++ msg ∷ []
next_msgs_room limit msgs msg h = ground arith

next_msgs_bound :
    (limit : ℕ) (msgs : List Bytes) (msg : Bytes) → length (next_msgs limit msgs msg) ≤ max 1 limit
next_msgs_bound limit msgs msg = ground (arith, length-snoc msgs msg)

module _ (io : Io) (c : IsCalm io) (now : ℕ) (msg : Bytes) where
  -- If the system calls succeed, the archiver has room and the threshold is not 0, then
  -- `SaveRawMessage` returns the length of the frame, and the current file is open and holds
  -- exactly the frames of its messages in order: those that it held and the new one behind them,
  -- or the new one alone if there was no file or the file was full. That makes at most
  -- `deltasPerFile` messages, or one if that is 0. The shared queue stays well formed.
  pub save_raw_message_ok :
      (lsn : ℕ) (w : World) (msgs : List Bytes)
      → Log w.table msgs
      → w.table.cfg.backup_threshold ≢ 0
      → length w.table.archive_files < archiver_buffer
      → Inv w.queue
      → (w' : World) × (save_raw_message io now msg lsn w ≡ ok (length msg + 8) w')
        × OpenLog w'.table (next_msgs w.table.cfg.deltas_per_file msgs msg)
        × (length (next_msgs w.table.cfg.deltas_per_file msgs msg)
            ≤ max 1 w.table.cfg.deltas_per_file)
        × Inv w'.queue
  save_raw_message_ok lsn w msgs l h room i = next l
    where
      limit : ℕ
      limit = w.table.cfg.deltas_per_file

      Result : Type 0
      Result =
          (w' : World) × (save_raw_message io now msg lsn w ≡ ok (length msg + 8) w')
          × OpenLog w'.table (next_msgs limit msgs msg)
          × (length (next_msgs limit msgs msg) ≤ max 1 limit)
          × Inv w'.queue

      in_new : is_full w.table ≡ true → next_msgs limit msgs msg ≡ msg ∷ [] → Result
      in_new f e =
          let (q, r, j) = save_in_new io c now msg lsn w f (Log-IsUsable l) h room i in
          let (k, same) = rotated-OpenLog io lsn w.table in
          let new =
            subst (λ fp. OpenLog (stored now msg fp (rotated io lsn w.table)) (msg ∷ [])) same
              (stored-OpenLog _ [] msg now k) in
          (_, r, subst (OpenLog _) (sym e) new, next_msgs_bound limit msgs msg, j)

      in_old : OpenLog w.table msgs → length msgs < limit → Result
      in_old l k =
          let (q, r, j) =
            save_in_old io c now msg lsn w l.fp (ground (arith, l.counted, l.current)) l.current
              l.is_open h i in
          (
            _,
            r,
            subst (OpenLog _) (sym (next_msgs_room limit msgs msg k))
                (stored-OpenLog w.table msgs msg now l),
            next_msgs_bound limit msgs msg,
            j,
          )

      next : Log w.table msgs → Result
      next (absent e n) = in_new (ground arith) (ground (arith, n))
      next (present l) = elim (Bool-cases (leb limit (length msgs))) [
        | inl f ↦ in_new (ground (arith, l.counted)) (next_msgs_full limit msgs msg (ground arith))
        | inr f ↦ in_old l (ground arith)
      ]
