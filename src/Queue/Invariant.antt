-- ===== src/Queue/Invariant.antt =====
-- The invariant of the queue, and that no step blocks on a channel.
use logical_backup.Common.{
  ℕ, zero, suc, ◌≤◌, ◌<◌, ◌≡◌, refl, ◌≢◌, ◌⊎◌, inl, inr, List, [], ◌∷◌, ◌++◌, none, some, length,
  All, arith, Option-cases,
}
use logical_backup.Common.Assoc.{Map, lookup, insert, delete}
use logical_backup.Queue.{
  Payload, value, Queue, remove, empty, send, new_getter, wake, notify_putter, notify_getter,
  get_item, put_item, clear_putters, clear_getters, clear_pending, Effect, stored, handed, returned,
  parked, received, idle, get, resume, cancel, put, Op, puts, gets, resumes, cancels, step,
}

-- The waiters of a list are numbered upwards, below a bound.
abbrev pub Rising : List ℕ → ℕ → Type 0
Rising [] n = Unit {0}
Rising (w ∷ ws) n = (w < n) × All (λ x. w < x) ws × Rising ws n

-- Nobody puts through a waiter; a getter waits only while there is no item; the waiting getters
-- are distinct, and no channel holds a payload for one of them or for a waiter still to come.
pub record Inv {ℓ} {V : Type ℓ} (q : Queue V) : Type ℓ where
  pub no_putters : q.putters ≡ []
  pub no_lost_wakeup : (q.items ≡ []) ⊎ (q.getters ≡ [])
  pub rising : Rising q.getters q.fresh
  pub empty_chans : All (λ w. lookup w q.chans ≡ none) q.getters
  pub unused : (w : ℕ) → q.fresh ≤ w → lookup w q.chans ≡ none

module _ {ℓ} {V : Type ℓ} where
  pub empty-Inv : Inv {V = V} empty
  unfolding empty lookup
  empty-Inv = record {
    no_putters = refl;
    no_lost_wakeup = inl refl;
    rising = tt;
    empty_chans = tt;
    unused = λ w h. refl;
  }

  clear_putters_idle : (n : ℕ) (q : Queue V) → q.putters ≡ [] → clear_putters n q ≡ some q
  unfolding clear_putters
  clear_putters_idle zero q e = refl
  clear_putters_idle (suc n) q e = ground arith

  clear_getters_idle :
      (n : ℕ) (q : Queue V) → (q.items ≡ []) ⊎ (q.getters ≡ []) → clear_getters n q ≡ some q
  unfolding clear_getters
  clear_getters_idle zero q e = refl
  clear_getters_idle (suc n) q e = ground arith

  -- Under the invariant there is nothing pending.
  pub clear_pending_idle : (q : Queue V) → Inv q → clear_pending q ≡ some q
  unfolding clear_pending
  clear_pending_idle q v =
      rw (clear_putters_idle (length q.putters) q v.no_putters)
        (clear_getters_idle (length q.items) q v.no_lost_wakeup)

-- What a step does under the invariant: the queue as two lists, of which one is empty.
pub data Move {ℓ} {V : Type ℓ} (q : Queue V) : Op V → Effect V → Queue V → Type ℓ where
  take :
      (v : V) (vs : List V) → q.items ≡ v ∷ vs → Move q gets (returned v) (record q { items = vs })
  park :
      q.items ≡ []
      → Move q gets
          (parked q.fresh)
          (record q { getters = q.getters ++ q.fresh ∷ []; fresh = suc q.fresh })
  store :
      (v : V) → q.getters ≡ [] → Move q (puts v) (stored v) (record q { items = q.items ++ v ∷ [] })
  hand :
      (v : V) (w : ℕ) (ws : List ℕ)
      → q.getters ≡ w ∷ ws
      → Move q (puts v) (handed w v) (record q { getters = ws; chans = insert w (value v) q.chans })
  receive :
      (w : ℕ) (p : Payload V)
      → lookup w q.chans ≡ some p
      → Move q (resumes w) (received w p) (record q { chans = delete w q.chans })
  wait : (w : ℕ) → lookup w q.chans ≡ none → Move q (resumes w) idle q
  leave : (w : ℕ) → Move q (cancels w) idle q

-- A waiter that is not listed.
pub remove_absent : (w : ℕ) (xs : List ℕ) → All (λ x. x ≢ w) xs → remove w xs ≡ xs
unfolding remove
remove_absent w [] h = refl
remove_absent w (x ∷ xs) h = ground (arith, remove_absent w xs h.1)

module _ {ℓ} {V : Type ℓ} where
  absent :
      (w : ℕ) (p : Payload V) (m : Map (Payload V)) (xs : List ℕ)
      → lookup w m ≡ some p
      → All (λ x. lookup x m ≡ none) xs
      → All (λ x. x ≢ w) xs
  absent w p m [] e h = tt
  absent w p m (x ∷ xs) e h = ((λ xw. ne x xw h.0), absent w p m xs e h.1)
    where
      ne : (x : ℕ) → x ≡ w → lookup x m ≡ none → ⊥
      ne x xw l = cc

  abbrev Steps : Op V → Queue V → Type ℓ
  Steps o q = (e : Effect V) × (q' : Queue V) × (step o q ≡ some (e, q')) × Move q o e q'

  gets-Steps : (q : Queue V) → Inv q → (is : List V) → q.items ≡ is → Steps gets q
  unfolding step get wake get_item notify_putter new_getter
  gets-Steps q v [] e = (parked q.fresh, _, ground (arith, clear_pending_idle q v), park e)
  gets-Steps q v (i ∷ is) e = (returned i, _, ground (arith, clear_pending_idle q v), take i is e)

  puts-Steps : (x : V) (q : Queue V) → Inv q → (ws : List ℕ) → q.getters ≡ ws → Steps (puts x) q
  unfolding step put wake notify_getter put_item send
  puts-Steps x q v [] e = (stored x, _, ground (arith, clear_pending_idle q v), store x e)
  puts-Steps x q v (w ∷ ws) e =
      (handed w x, _, ground (arith, clear_pending_idle q v, v.empty_chans), hand x w ws e)

  resumes-Steps : (w : ℕ) (q : Queue V) → Inv q → Steps (resumes w) q
  unfolding step resume wake notify_putter
  resumes-Steps w q v = elim (Option-cases (lookup w q.chans)) [
    | inl e ↦ (idle, q, ground arith, wait w e)
    | inr (p, e) ↦ (
      received w p,
      _,
      ground (
        arith,
        remove_absent w q.getters (absent w p q.chans q.getters e v.empty_chans),
        v.no_putters,
      ),
      receive w p e,
    )
  ]

  -- In a queue that meets the invariant no step blocks, whatever it is, and it makes the move of
  -- the two lists that belongs to it.
  pub step-Move : (o : Op V) (q : Queue V) → Inv q → Steps o q
  step-Move (puts x) q v = puts-Steps x q v q.getters refl
  step-Move gets q v = gets-Steps q v q.items refl
  step-Move (resumes w) q v = resumes-Steps w q v
  step-Move (cancels w) q v = (idle, q, (unfold step cancel in refl), leave w)
