-- ===== src/LogicalBackup/Workers.antt =====
-- pkg/logicalbackup/logicalbackup.go: the loops of `BackgroundBasebackuper` and `closeOldFiles`, over
-- a table's operation as a parameter. What the worker's waits in `Get` bring, and the queue that the
-- other goroutines have left by then, is an argument; `Run`, which starts the goroutines, is not modelled.
use logical_backup.Common.{
  ℕ, zero, suc, ◌≡◌, refl, List, [], ◌∷◌, ◌++◌, Option, none, some, length, Option-cases, inl, inr,
  arith,
}
use logical_backup.Common.Exec.{Step, ok, err, panic, blocked, Exec}
use logical_backup.LogicalBackup.Startup.{queue_basebackup_tables}
use logical_backup.LogicalBackup.Startup.Tables.{queue_basebackup_tables_lem}
use logical_backup.Queue
use logical_backup.Queue.{
  Queue, Effect, stored, handed, returned, parked, received, idle, empty, wake, get_item,
  notify_putter, new_getter,
}
use logical_backup.Queue.Order.{Move-Inv}
use logical_backup.Queue.Invariant.{Inv, take, clear_pending_idle, empty-Inv}

-- The end of a wait: `context.Canceled`, or an item with the queue as `Get` leaves it.
pub data Wake : Type 0 where
  canceled : Wake
  hands : ℕ → Queue ℕ → Wake

-- Where a worker is: it waits, it has returned, or it has made its number of rounds.
pub data Worker : Type 0 where
  waits : ℕ → Worker
  gone : Worker
  goes_on : Worker

module _ {S E : Type 0} (op : ℕ → Exec S E (Unit {0})) where
  -- An error is only logged. A panic ends the process, and blocking never ends: `none`.
  abbrev pub only_logged : Step S E (Unit {0}) → Option S
  only_logged (ok a s) = some s
  only_logged (err e s) = some s
  only_logged panic = none
  only_logged blocked = none

  -- One tick of `closeOldFiles`, over the tables in the order of the map's range.
  unfoldable pub for_tables : List ℕ → S → Option S
  for_tables [] s = some s
  for_tables (t ∷ ts) s = elim (only_logged (op t s)) [ none ↦ none | some s' ↦ for_tables ts s' ]

  abbrev pub Ends : Type 0
  Ends = Option (Worker × Queue ℕ × S)

  abbrev pub backed_up : Option S → (S → Ends) → Ends
  backed_up none rest = none
  backed_up (some s) rest = rest s

  -- The rest of a `Get` that waits. While nothing comes, the worker stays there.
  abbrev pub after_wait : (List Wake → Queue ℕ → S → Ends) → ℕ → List Wake → Queue ℕ → S → Ends
  after_wait rest w [] q s = some (waits w, q, s)
  after_wait rest w (canceled ∷ wakes) q s = some (gone, q, s)
  after_wait rest w (hands t q1 ∷ wakes) q s = backed_up (only_logged (op t s)) (rest wakes q1)

  -- What follows `Get`, which returns an item or waits.
  abbrev pub after_get :
      (List Wake → Queue ℕ → S → Ends) → List Wake → Effect ℕ → Queue ℕ → S → Ends
  after_get rest wakes (returned t) q s = backed_up (only_logged (op t s)) (rest wakes q)
  after_get rest wakes (parked w) q s = after_wait rest w wakes q s
  after_get rest wakes (stored t) q s = none
  after_get rest wakes (handed w t) q s = none
  after_get rest wakes (received w p) q s = none
  after_get rest wakes idle q s = none

  -- `BackgroundBasebackuper`, for as many rounds.
  unfoldable pub background_basebackuper : ℕ → List Wake → Queue ℕ → S → Ends
  background_basebackuper zero wakes q s = some (goes_on, q, s)
  background_basebackuper (suc n) wakes q s = elim (Queue.get q) [
    | none ↦ none
    | some (e, q') ↦ after_get (background_basebackuper n) wakes e q' s
  ]

get_first :
    (t : ℕ) (ts : List ℕ) (q : Queue ℕ)
    → Inv q
    → q.items ≡ t ∷ ts
    → Queue.get q ≡ some (returned t, record q { items = ts })
unfolding Queue.get wake get_item notify_putter
get_first t ts q i e = ground (arith, clear_pending_idle q i)

-- The queue when its first waiter has come.
abbrev pub awaited : Queue ℕ → Queue ℕ
awaited q = record q { getters = q.getters ++ q.fresh ∷ []; fresh = suc q.fresh }

get_waits : (q : Queue ℕ) → Inv q → q.items ≡ [] → Queue.get q ≡ some (parked q.fresh, awaited q)
unfolding Queue.get new_getter
get_waits q i e = ground (arith, clear_pending_idle q i)

-- The queue with items and nobody waiting.
filled-Inv : (ts : List ℕ) → Inv (record (empty {V = ℕ}) { items = ts })
unfolding empty
filled-Inv ts = record {
  no_putters = refl;
  no_lost_wakeup = inr refl;
  rising = tt;
  empty_chans = tt;
  unused = empty-Inv.unused;
}

module _ {S E : Type 0} (op : ℕ → Exec S E (Unit {0})) where
  worker_drains :
      (ts : List ℕ) (wakes : List Wake) (q : Queue ℕ) (s s' : S)
      → Inv q
      → q.items ≡ ts
      → for_tables op ts s ≡ some s'
      → background_basebackuper op (suc (length ts)) wakes q s
        ≡ after_wait op
            (background_basebackuper op 0)
            q.fresh
            wakes
            (awaited (record q { items = [] }))
            s'
  unfolding background_basebackuper for_tables
  worker_drains [] wakes q s s' i e r = ground (arith, get_waits q i)
  worker_drains (t ∷ ts) wakes q s s' i e r = elim (Option-cases (only_logged op (op t s))) [
    | inl n ↦ absurd (ground arith)
    | inr (s1, f) ↦
        let rest =
          worker_drains ts wakes (record q { items = ts }) s1 s' (Move-Inv (take t ts e) i) refl
            (ground arith) in
        ground (arith, get_first t ts q i e, rest)
  ]

  -- A worker that starts behind `QueueBasebackupTables` makes a base backup of each table once, in the
  -- order of the range, whatever errors they return, and then waits at the empty queue; if that wait
  -- is cancelled, then it returns. As many rounds as tables and one more are enough. Condition: no
  -- base backup panics or blocks.
  pub initial_backups :
      (ts : List ℕ) (s s' : S)
      → for_tables op ts s ≡ some s'
      → (q : Queue ℕ) × (queue_basebackup_tables ts empty ≡ some q)
        × (background_basebackuper op (suc (length ts)) [] q s ≡ some (waits 0, awaited empty, s'))
        × ((wakes : List Wake)
            → background_basebackuper op (suc (length ts)) (canceled ∷ wakes) q s
              ≡ some (gone, awaited empty, s'))
  unfolding empty
  initial_backups ts s s' r =
      let q = record (empty {V = ℕ}) { items = ts } in
      (
        q,
        queue_basebackup_tables_lem ts empty empty-Inv refl,
        worker_drains ts [] q s s' (filled-Inv ts) refl r,
        λ wakes. worker_drains ts (canceled ∷ wakes) q s s' (filled-Inv ts) refl r,
      )
