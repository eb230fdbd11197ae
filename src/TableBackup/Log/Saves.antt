-- ===== src/TableBackup/Log/Saves.antt =====
-- `SaveRawMessage` as an append to the table's log.
use logical_backup.Common.{
  ℕ, suc, ◌+◌, ◌*◌, ◌^◌, ◌≤◌, ◌<◌, ◌≡◌, refl, ap, ◌∙◌, ◌≢◌, inl, inr, true, false, [], ◌∷◌, ◌++◌,
  length, length-append, append-nil, zero, some, arith, Bool-cases,
}
use logical_backup.Common.Bytes.{Bytes}
use logical_backup.Common.Exec.{ok}
use logical_backup.Queue.Invariant.{Inv}
use logical_backup.TableBackup.{
  File, Io, TableBackup, World, archiver_buffer, frame, save_raw_message,
}
use logical_backup.TableBackup.Calls.{
  IsCalm, IsUsable, rotated, new_file, stored, is_full, save_in_new, save_in_old, rotated_cfg,
  rotated_current,
}
use logical_backup.TableBackup.Log.Steps.{
  closed_archive_files, log, HasFile, Tidy, stored-Tidy, rotated-Tidy,
}

-- A tidy table with room for `n` more messages at the position `lsn`, even if the archiver does
-- nothing meanwhile: the postfix of a file stays within an int32, and the channel of the archiver
-- takes the files that fill up.
pub record Ready (n lsn : ℕ) (t : TableBackup) : Type 0 where
  pub tidy : Tidy t
  pub backs_up : t.cfg.backup_threshold ≢ 0
  pub rises : t.last_lsn ≤ lsn
  pub wide : lsn < 2 ^ 64
  pub postfixes : t.filename_postfix + n < 2 ^ 31
  pub room : ℕ
  pub channel : length t.archive_files + room ≡ archiver_buffer
  pub fits : t.delta_cnt + n ≤ t.cfg.deltas_per_file * room + t.cfg.deltas_per_file

pub Ready-less : {n lsn : ℕ} {t : TableBackup} → Ready (suc n) lsn t → Ready n lsn t
Ready-less r = record {
  tidy = r.tidy;
  backs_up = r.backs_up;
  rises = r.rises;
  wide = r.wide;
  postfixes = omega (arith, r.postfixes);
  room = r.room;
  channel = r.channel;
  fits = omega (arith, r.fits);
}

pub Ready-later :
    {n lsn lsn' : ℕ} {t : TableBackup} → lsn ≤ lsn' → lsn' < 2 ^ 64 → Ready n lsn t → Ready n lsn' t
Ready-later h w r = record {
  tidy = r.tidy;
  backs_up = r.backs_up;
  rises = omega (arith, h, r.rises);
  wide = w;
  postfixes = r.postfixes;
  room = r.room;
  channel = r.channel;
  fits = r.fits;
}

-- What is left of a table and its queue by a message.
abbrev pub Appended : ℕ → ℕ → Bytes → TableBackup → World → Type 0
Appended n lsn msg t w' = Ready n lsn w'.table × Inv w'.queue × (log w'.table ≡ log t ++ frame msg)

module _ (io : Io) (c : IsCalm io) (stat : io.stat_is_exist ≡ false) (now : ℕ) (msg : Bytes)
    (n lsn : ℕ) where
  append_to_old :
      (w : World) (fp : File)
      → Ready (suc n) lsn w.table
      → Inv w.queue
      → w.table.current_delta_fp ≡ some fp
      → fp.is_open ≡ true
      → is_full w.table ≡ false
      → (w' : World) × (save_raw_message io now msg lsn w ≡ ok (length msg + 8) w')
        × Appended n lsn msg w.table w'
  append_to_old w fp r i e o f =
      let (q, s, i') = save_in_old io c now msg lsn w fp f e o r.backs_up i in
      let (tidy, l) = stored-Tidy now msg fp w.table r.tidy e o in
      (
        record { table = stored now msg fp w.table; queue = q },
        s,
        (
          record {
            tidy = tidy;
            backs_up = r.backs_up;
            rises = r.rises;
            wide = r.wide;
            postfixes = omega (arith, r.postfixes);
            room = r.room;
            channel = r.channel;
            fits = omega (arith, r.fits);
          },
          i',
          l,
        ),
      )

  append_to_new :
      (w : World)
      → Ready (suc n) lsn w.table
      → Inv w.queue
      → is_full w.table ≡ true
      → (w' : World) × (save_raw_message io now msg lsn w ≡ ok (length msg + 8) w')
        × Appended n lsn msg w.table w'
  append_to_new w r i f =
      let (q, s, i') =
        save_in_new io c now msg lsn w f (usable r.tidy.has_file) r.backs_up send i in
      let (tidy, l) =
        rotated-Tidy io lsn w.table stat r.rises r.wide (omega (arith, r.postfixes)) r.tidy in
      let (tidy', l') =
        stored-Tidy now msg (new_file io lsn w.table) (rotated io lsn w.table) tidy
          (rotated_current io lsn w.table) refl in
      (
        record {
          table = stored now msg (new_file io lsn w.table) (rotated io lsn w.table);
          queue = q;
        },
        s,
        (
          record {
            tidy = tidy';
            backs_up = rw (rotated_cfg io lsn w.table) r.backs_up;
            rises = omega arith;
            wide = r.wide;
            postfixes = ground (arith, r.postfixes);
            room = left.0;
            channel = left.1;
            fits = rw (rotated_cfg io lsn w.table) left.2;
          },
          i',
          l' ∙ ap (λ b. b ++ frame msg) l,
        ),
      )
    where
      usable : HasFile w.table → IsUsable w.table
      usable (inl (e, z, k)) = inl e
      usable (inr (fp, e, o, p)) = inr (fp, e, o)

      send : length w.table.archive_files < archiver_buffer
      send = ground (arith, r.tidy.has_file, f, r.fits, r.channel)

      left :
          (room : ℕ) × (length (rotated io lsn w.table).archive_files + room ≡ archiver_buffer)
          × (1 + n ≤ w.table.cfg.deltas_per_file * room + w.table.cfg.deltas_per_file)
      left = next r.tidy.has_file r.room r.channel r.fits
        where
          next :
              HasFile w.table
              → (room : ℕ) → length w.table.archive_files + room ≡ archiver_buffer
              → w.table.delta_cnt + suc n
                ≤ w.table.cfg.deltas_per_file * room + w.table.cfg.deltas_per_file
              → (room : ℕ) × (length (rotated io lsn w.table).archive_files + room
                  ≡ archiver_buffer)
                × (1 + n ≤ w.table.cfg.deltas_per_file * room + w.table.cfg.deltas_per_file)
          next (inl (e, z, k)) room q h = (
            room,
            rw (closed_archive_files w.table r.tidy.has_file, e, append-nil w.table.archive_files)
                q,
            omega arith,
          )
          next (inr (fp, e, o, p)) zero q h = absurd (ground (arith, e, f))
          next (inr (fp, e, o, p)) (suc room) q h = (
            room,
            rw (closed_archive_files w.table r.tidy.has_file, e)
                (omega (arith, length-append w.table.archive_files (fp.path ∷ []))),
            ground (arith, e, f),
          )

  -- A calm system, a table with room for one more message than `n`: `SaveRawMessage` returns the
  -- length of the frame, the log gains exactly the frame, and there is room for `n` more.
  pub save_appends :
      (w : World)
      → Ready (suc n) lsn w.table
      → Inv w.queue
      → (w' : World) × (save_raw_message io now msg lsn w ≡ ok (length msg + 8) w')
        × Appended n lsn msg w.table w'
  save_appends w r i = elim (Bool-cases (is_full w.table)) [
    | inl f ↦ append_to_new w r i f
    | inr f ↦ in_old r.tidy.has_file f
  ]
    where
      in_old :
          HasFile w.table
          → is_full w.table ≡ false
          → (w' : World) × (save_raw_message io now msg lsn w ≡ ok (length msg + 8) w')
            × Appended n lsn msg w.table w'
      in_old (inl (e, z, k)) f = absurd (ground (arith, e))
      in_old (inr (fp, e, o, p)) f = append_to_old w fp r i e o f
