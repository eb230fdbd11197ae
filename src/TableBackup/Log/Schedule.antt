-- ===== src/TableBackup/Log/Schedule.antt =====
-- The handler's saves and the archiver's rounds in any order. Both work on one table: the handler
-- writes to the current file, and the archiver takes the oldest that was sent to it.
use mathlib.Core.Path.{subst}
use logical_backup.Common.{
  ℕ, suc, ◌^◌, ◌≤◌, ◌<◌, ◌≡◌, refl, sym, ap, ◌∙◌, true, false, List, [], ◌∷◌, ◌++◌, append-nil,
  append_assoc, collect, length, arith,
}
use logical_backup.Common.Bytes.{Bytes}
use logical_backup.Common.Exec.{ok, ◌>>◌, done, modify, continue-eq}
use logical_backup.Queue.Invariant.{Inv}
use logical_backup.TableBackup.{
  Io, TableBackup, World, M, set_table, archive_one, archiver_step, frame, save_raw_message,
}
use logical_backup.TableBackup.Calls.{IsCalm}
use logical_backup.TableBackup.Log.Archived.{archiver_step-Tidy}
use logical_backup.TableBackup.Log.Saves.{Ready, Ready-later, save_appends}
use logical_backup.TableBackup.Log.Steps.{log, Tidy}

-- One step of the handler or of the archiver.
pub data Action : Type 0 where
  saves : Io → ℕ → Bytes → ℕ → Action
  archives : Io → Action

unfoldable pub act : Action → M (Unit {0})
act (saves io now msg lsn) = save_raw_message io now msg lsn >> done
act (archives io) = modify (set_table (archiver_step io))

unfoldable pub run : List Action → M (Unit {0})
run [] = done
run (a ∷ rest) = act a >> run rest

-- The messages that are saved.
abbrev pub saved : List Action → List Bytes
saved [] = []
saved (saves io now msg lsn ∷ rest) = msg ∷ saved rest
saved (archives io ∷ rest) = saved rest

-- The system calls succeed, except that the archiver may fail to remove a file that it has copied.
-- Positions do not fall and fit 64 bits.
abbrev pub Calm : ℕ → List Action → Type 0
Calm lsn [] = Unit {0}
Calm lsn (saves io now msg l ∷ rest) =
    IsCalm io × (io.stat_is_exist ≡ false) × (lsn ≤ l) × (l < 2 ^ 64) × Calm l rest
Calm lsn (archives io ∷ rest) = (io.copy_ok ≡ true) × Calm lsn rest

-- The fields that a round of the archiver keeps.
record Kept (rest : List Bytes) (t t' : TableBackup) : Type 0 where
  same_cfg : t'.cfg ≡ t.cfg
  same_lsn : t'.last_lsn ≡ t.last_lsn
  same_postfix : t'.filename_postfix ≡ t.filename_postfix
  same_cnt : t'.delta_cnt ≡ t.delta_cnt
  remain : t'.archive_files ≡ rest

archiver_step-Kept :
    (io : Io) (t : TableBackup) (file : Bytes) (rest : List Bytes)
    → t.archive_files ≡ file ∷ rest
    → Kept rest t (archiver_step io t)
unfolding archiver_step archive_one
archiver_step-Kept io t file rest e = record {
  same_cfg = ground (arith, e);
  same_lsn = ground (arith, e);
  same_postfix = ground (arith, e);
  same_cnt = ground (arith, e);
  remain = ground (arith, e);
}

-- A round of the archiver only makes room.
archiver_step-Ready :
    (io : Io) (n lsn : ℕ) (t : TableBackup)
    → io.copy_ok ≡ true
    → Ready n lsn t
    → Ready n lsn (archiver_step io t)
archiver_step-Ready io n lsn t copies r = next t.archive_files refl
  where
    next : (files : List Bytes) → t.archive_files ≡ files → Ready n lsn (archiver_step io t)
    next [] e =
        let idle : archiver_step io t ≡ t = unfold archiver_step in ground (arith, e) in
        subst (Ready n lsn) (sym idle) r
    next (file ∷ rest) e =
        let k = archiver_step-Kept io t file rest e in
        record {
          tidy = (archiver_step-Tidy io copies t r.tidy).0;
          backs_up = rw k.same_cfg r.backs_up;
          rises = rw k.same_lsn r.rises;
          wide = r.wide;
          postfixes = rw k.same_postfix r.postfixes;
          room = suc r.room;
          channel = rw k.remain (omega (arith, r.channel, ap length e));
          fits = rw (k.same_cnt, k.same_cfg) (omega (arith, r.fits));
        }

module _ (n : ℕ) where
  act_saves :
      (io : Io) (now : ℕ) (msg : Bytes) (lsn : ℕ) (w : World)
      → IsCalm io
      → io.stat_is_exist ≡ false
      → Ready (suc n) lsn w.table
      → Inv w.queue
      → (w' : World) × (act (saves io now msg lsn) w ≡ ok tt w')
        × Ready n lsn w'.table
        × Inv w'.queue
        × (log w'.table ≡ log w.table ++ frame msg)
  unfolding act
  act_saves io now msg lsn w c stat r i =
      let (w', e, (r', i', l)) = save_appends io c stat now msg n lsn w r i in
      (w', ground (arith, e), r', i', l)

-- Whatever the order of the saves and of the archiver's rounds: all the saves return, and the log
-- gains exactly the frames of the messages that were saved, in their order; the files are in order
-- again. Condition: the files are in order before, there is room for as many messages, the queue is
-- well formed, and the system calls succeed, except that the archiver may fail to remove a file that
-- it has copied.
pub run_logs :
    (actions : List Action) (lsn : ℕ) (w : World)
    → Ready (length (saved actions)) lsn w.table
    → Inv w.queue
    → Calm lsn actions
    → (w' : World) × (run actions w ≡ ok tt w')
      × Tidy w'.table
      × (log w'.table ≡ log w.table ++ collect frame (saved actions))
unfolding run act
run_logs [] lsn w r i h = (w, refl, r.tidy, sym (append-nil (log w.table)))
run_logs (saves io now msg l ∷ rest) lsn w r i (c, stat, le, wide, h) =
    let (w1, e1, r1, i1, l1) =
      act_saves (length (saved rest)) io now msg l w c stat (Ready-later le wide r) i in
    let (w2, e2, tidy, l2) = run_logs rest l w1 r1 i1 h in
    (
      w2,
      continue-eq _ (λ _. run rest) e1 ∙ e2,
      tidy,
      l2
          ∙ ap (λ b. b ++ collect frame (saved rest)) l1
          ∙ append_assoc (log w.table) (frame msg) (collect frame (saved rest)),
    )
run_logs (archives io ∷ rest) lsn w r i (copies, h) =
    let w1 = set_table (archiver_step io) w in
    let (w2, e2, tidy, l2) =
      run_logs rest lsn w1 (archiver_step-Ready io _ lsn w.table copies r) i h in
    (
      w2,
      e2,
      tidy,
      l2
          ∙ ap (λ b. b ++ collect frame (saved rest))
              (archiver_step-Tidy io copies w.table r.tidy).1,
    )
