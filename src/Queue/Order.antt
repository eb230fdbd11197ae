-- ===== src/Queue/Order.antt =====
-- The order in which values and waiters leave the queue, over every schedule from a new queue.
use mathlib.Core.Path.{subst}
use logical_backup.Common.{
  ℕ, suc, ◌≤◌, ◌<◌, ◌≡◌, refl, sym, ◌⊎◌, inl, inr, List, [], ◌∷◌, ◌++◌, append-nil, append_assoc,
  none, some, All, All-append, collect, arith,
}
use logical_backup.Common.Assoc.{Map, lookup, insert, delete, lookup-insert, lookup-delete}
use logical_backup.Queue.{
  Payload, value, Queue, empty, Effect, stored, handed, returned, parked, received, idle, Op, puts,
  gets, resumes, cancels, run,
}
use logical_backup.Queue.Invariant.{
  Rising, Inv, empty-Inv, Move, take, park, store, hand, receive, wait, leave, step-Move,
}

Rising-mono : (xs : List ℕ) (n m : ℕ) → n ≤ m → Rising xs n → Rising xs m
Rising-mono [] n m h r = tt
Rising-mono (x ∷ xs) n m h (l, a, r) = (omega arith, a, Rising-mono xs n m h r)

All-below : (xs : List ℕ) (n : ℕ) → Rising xs n → All (λ x. x < n) xs
All-below [] n r = tt
All-below (x ∷ xs) n (l, a, r) = (l, All-below xs n r)

-- A number at the bound may join the end of a rising list.
Rising-concat : (xs : List ℕ) (n : ℕ) → Rising xs n → Rising (xs ++ n ∷ []) (suc n)
Rising-concat [] n r = (omega arith, tt, tt)
Rising-concat (x ∷ xs) n (l, a, r) =
    (omega arith, All-append (λ y. x < y) xs (n ∷ []) a (l, tt), Rising-concat xs n r)

module _ {ℓ} {V : Type ℓ} where
  -- The channels of other waiters stay empty.
  insert-others :
      (w : ℕ) (p : Payload V) (m : Map (Payload V)) (xs : List ℕ)
      → All (λ x. w < x) xs
      → All (λ x. lookup x m ≡ none) xs
      → All (λ x. lookup x (insert w p m) ≡ none) xs
  insert-others w p m [] a h = tt
  insert-others w p m (x ∷ xs) a h =
      (ground (arith, lookup-insert w x p m, a.0, h.0), insert-others w p m xs a.1 h.1)

  delete-others :
      (w : ℕ) (m : Map (Payload V)) (xs : List ℕ)
      → All (λ x. lookup x m ≡ none) xs
      → All (λ x. lookup x (delete w m) ≡ none) xs
  delete-others w m [] h = tt
  delete-others w m (x ∷ xs) h =
      (ground (arith, lookup-delete w x m, h.0), delete-others w m xs h.1)

  -- Every move keeps the invariant.
  pub Move-Inv : {q q' : Queue V} {o : Op V} {e : Effect V} → Move q o e q' → Inv q → Inv q'
  Move-Inv (take v vs e) i = record {
    no_putters = i.no_putters;
    no_lost_wakeup = ground arith;
    rising = i.rising;
    empty_chans = i.empty_chans;
    unused = i.unused;
  }
  Move-Inv {q} (park e) i = record {
    no_putters = i.no_putters;
    no_lost_wakeup = inl e;
    rising = Rising-concat q.getters q.fresh i.rising;
    empty_chans =
        All-append _ q.getters (q.fresh ∷ []) i.empty_chans (i.unused q.fresh (omega arith), tt);
    unused = λ w h. i.unused w (omega arith);
  }
  Move-Inv (store v e) i = record {
    no_putters = i.no_putters;
    no_lost_wakeup = inr e;
    rising = i.rising;
    empty_chans = i.empty_chans;
    unused = i.unused;
  }
  Move-Inv {q} (hand v w ws e) i = record {
    no_putters = i.no_putters;
    no_lost_wakeup = ground arith;
    rising = front.2;
    empty_chans =
        insert-others w (value v) q.chans ws front.1
          (subst (All λ x. lookup x q.chans ≡ none) e i.empty_chans).1;
    unused = λ x h. ground (arith, lookup-insert w x (value v) q.chans, i.unused x h);
  }
    where
      front : Rising (w ∷ ws) q.fresh
      front = subst (λ xs. Rising xs q.fresh) e i.rising
  Move-Inv {q} (receive w p e) i = record {
    no_putters = i.no_putters;
    no_lost_wakeup = i.no_lost_wakeup;
    rising = i.rising;
    empty_chans = delete-others w q.chans q.getters i.empty_chans;
    unused = λ x h. ground (arith, lookup-delete w x q.chans, i.unused x h);
  }
  Move-Inv (wait w e) i = i
  Move-Inv (leave w) i = i

  -- The values that an effect takes from the queue, and those that an operation brings.
  abbrev pub taken : Effect V → List V
  taken (stored v) = []
  taken (handed w v) = v ∷ []
  taken (returned v) = v ∷ []
  taken (parked w) = []
  taken (received w p) = []
  taken idle = []

  abbrev pub supplied : Op V → List V
  supplied (puts v) = v ∷ []
  supplied gets = []
  supplied (resumes w) = []
  supplied (cancels w) = []

  -- The waiters that an effect serves, and those that it adds.
  abbrev pub served : Effect V → List ℕ
  served (handed w v) = w ∷ []
  served _ = []

  abbrev pub queued : Effect V → List ℕ
  queued (parked w) = w ∷ []
  queued _ = []

  Move-items :
      {q q' : Queue V} {o : Op V} {e : Effect V}
      → Move q o e q'
      → Inv q
      → taken e ++ q'.items ≡ q.items ++ supplied o
  Move-items {q} (take v vs e) i = rw (append-nil, e)
  Move-items {q} (park e) i = rw append-nil
  Move-items (store v e) i = refl
  Move-items {q} (hand v w ws e) i = ground arith
  Move-items {q} (receive w p e) i = rw append-nil
  Move-items {q} (wait w e) i = rw append-nil
  Move-items {q} (leave w) i = rw append-nil

  Move-getters :
      {q q' : Queue V} {o : Op V} {e : Effect V}
      → Move q o e q'
      → served e ++ q'.getters ≡ q.getters ++ queued e
  Move-getters {q} (take v vs e) = rw append-nil
  Move-getters {q} (park e) = refl
  Move-getters {q} (store v e) = rw append-nil
  Move-getters {q} (hand v w ws e) = rw (append-nil, e)
  Move-getters {q} (receive w p e) = rw append-nil
  Move-getters {q} (wait w e) = rw append-nil
  Move-getters {q} (leave w) = rw append-nil

-- Two steps' accounts of a first-in first-out list are one.
join_accounts {ℓ} :
    {A : Type ℓ} (t1 t2 i0 i1 i2 s1 s2 : List A)
    → t1 ++ i1 ≡ i0 ++ s1
    → t2 ++ i2 ≡ i1 ++ s2
    → (t1 ++ t2) ++ i2 ≡ i0 ++ (s1 ++ s2)
join_accounts t1 t2 i0 i1 i2 s1 s2 h k =
    rw (append_assoc t1 t2 i2, k, ← append_assoc t1 i1 s2, h) (append_assoc i0 s1 s2)

-- What a schedule amounts to.
pub record Account {ℓ} {V : Type ℓ} (q : Queue V) (os : List (Op V)) : Type ℓ where
  pub effects : List (Effect V)
  pub last : Queue V
  pub runs : run os q ≡ some (effects, last)
  pub inv : Inv last
  pub values : collect taken effects ++ last.items ≡ q.items ++ collect supplied os
  pub waiters : collect served effects ++ last.getters ≡ q.getters ++ collect queued effects

run-Account {ℓ} : {V : Type ℓ} (os : List (Op V)) (q : Queue V) → Inv q → Account q os
unfolding run
run-Account [] q i = record {
  effects = [];
  last = q;
  runs = refl;
  inv = i;
  values = sym (append-nil q.items);
  waiters = sym (append-nil q.getters);
}
run-Account (o ∷ os) q i =
    let (e, q1, s, m) = step-Move o q i in
    let r = run-Account os q1 (Move-Inv m i) in
    record {
      effects = e ∷ r.effects;
      last = r.last;
      runs = rw (s, r.runs);
      inv = r.inv;
      values =
          join_accounts (taken e) (collect taken r.effects) q.items q1.items r.last.items
            (supplied o) (collect supplied os) (Move-items m i) r.values;
      waiters =
          join_accounts (served e) (collect served r.effects) q.getters q1.getters r.last.getters
            (queued e) (collect queued r.effects) (Move-getters m) r.waiters;
    }

-- Any schedule of puts, gets, wake-ups and cancellations from a new queue runs to its end: no send
-- ever blocks with the mutex held. The values that left the queue, in the order in which they were
-- returned or handed to a waiter, followed by the items that remain, are the values that were put,
-- in order; the waiters that were served, followed by those still listed, are the waiters in the
-- order of their arrival; and no waiter is listed while an item remains.
pub run_fifo {ℓ} :
    {V : Type ℓ} (os : List (Op V))
    → (es : List (Effect V)) × (q : Queue V) × (run os empty ≡ some (es, q))
      × (collect taken es ++ q.items ≡ collect supplied os)
      × (collect served es ++ q.getters ≡ collect queued es)
      × ((q.items ≡ []) ⊎ (q.getters ≡ []))
unfolding empty
run_fifo os =
    let a = run-Account os empty empty-Inv in
    (a.effects, a.last, a.runs, a.values, a.waiters, a.inv.no_lost_wakeup)
