-- ===== src/Queue.antt =====
-- pkg/queue/queue.go: the unbounded queue with blocking Get. What runs between Lock and Unlock is
-- one step here. A waiter is a channel of capacity 1, known by its number, which also stands for
-- the list element that holds it. A send to a full channel would block for ever with the mutex
-- held: that is `none`.
pub mod Delivery
pub mod Invariant
pub mod Order
use logical_backup.Common.{
  ℕ, zero, suc, List, [], ◌∷◌, ◌++◌, Option, none, some, Bool, true, false, length, ◌==◌,
  if◌then◌else◌,
}
use logical_backup.Common.Assoc.{Map, lookup, insert, delete}

-- What goes over a waiter's channel: `true` to a putter, a value to a getter.
pub data Payload {ℓ} (V : Type ℓ) : Type ℓ where
  notice : Payload V
  value : V → Payload V

-- `chans` holds what has been sent and not received; `fresh` numbers the next waiter.
pub record Queue {ℓ} (V : Type ℓ) : Type ℓ where
  pub items : List V
  pub putters : List ℕ
  pub getters : List ℕ
  pub chans : Map (Payload V)
  pub fresh : ℕ

infixl 5 ◌>>=◌
abbrev pub ◌>>=◌ {ℓ κ} : {A : Type ℓ} {B : Type κ} → Option A → (A → Option B) → Option B
none >>= f = none
some a >>= f = f a

-- `list.Remove`, which does nothing on an element that has been removed before.
unfoldable pub remove : ℕ → List ℕ → List ℕ
remove w [] = []
remove w (x ∷ xs) = if x == w then xs else x ∷ remove w xs

abbrev pub remove? : Option ℕ → List ℕ → List ℕ
remove? none xs = xs
remove? (some w) xs = remove w xs

module _ {ℓ} {V : Type ℓ} where
  -- `New`
  unfoldable pub empty : Queue V
  empty = record { items = []; putters = []; getters = []; chans = []; fresh = 0 }

  -- `w <- p`
  unfoldable pub send : ℕ → Payload V → Queue V → Option (Queue V)
  send w p q = elim (lookup w q.chans) [
    | none ↦ some (record q { chans = insert w p q.chans })
    | some old ↦ none
  ]

  unfoldable pub new_putter : Queue V → ℕ × Queue V
  new_putter q = (q.fresh, record q { putters = q.putters ++ q.fresh ∷ []; fresh = suc q.fresh })

  unfoldable pub new_getter : Queue V → ℕ × Queue V
  new_getter q = (q.fresh, record q { getters = q.getters ++ q.fresh ∷ []; fresh = suc q.fresh })

  -- The first waiter of a list gets the payload. The result is `some` waiter for Go's `true`.
  unfoldable pub wake :
      List ℕ → (List ℕ → Queue V) → Payload V → Queue V → Option (Option ℕ × Queue V)
  wake [] rest p q = some (none, q)
  wake (w ∷ ws) rest p q = do q' ← send w p (rest ws); some (some w, q')

  unfoldable pub notify_putter : Option ℕ → Queue V → Option (Option ℕ × Queue V)
  unfolding wake
  notify_putter getter q =
      let q1 = record q { getters = remove? getter q.getters } in
      wake q1.putters (λ ws. record q1 { putters = ws }) notice q1

  unfoldable pub notify_getter : Option ℕ → V → Queue V → Option (Option ℕ × Queue V)
  unfolding wake
  notify_getter putter v q =
      let q1 = record q { putters = remove? putter q.putters } in
      wake q1.getters (λ ws. record q1 { getters = ws }) (value v) q1

  abbrev pub size : Queue V → ℕ
  size q = length q.items

  abbrev pub is_empty : Queue V → Bool
  is_empty q = size q == 0

  -- `get`: nil is dereferenced on an empty list, and no caller does that.
  unfoldable pub get_item : Queue V → Option (V × Queue V)
  get_item q = elim q.items [ [] ↦ none | v ∷ vs ↦ some (v, record q { items = vs }) ]

  unfoldable pub put_item : V → Queue V → Queue V
  put_item v q = record q { items = q.items ++ v ∷ [] }

  -- The first loop of `clearPending`. Each round takes a putter, so as many rounds are enough.
  unfoldable pub clear_putters : ℕ → Queue V → Option (Queue V)
  clear_putters zero q = some q
  clear_putters (suc n) q = elim q.putters [
    | [] ↦ some q
    | w ∷ ws ↦ notify_putter none q >>= λ r. clear_putters n r.1
  ]

  -- The second loop: each round takes an item.
  unfoldable pub clear_getters : ℕ → Queue V → Option (Queue V)
  clear_getters zero q = some q
  clear_getters (suc n) q = elim q.items [
    | [] ↦ some q
    | i ∷ is ↦ elim q.getters [
      | [] ↦ some q
      | w ∷ ws ↦ do (v, q1) ← get_item q; (r, q2) ← notify_getter none v q1; clear_getters n q2
    ]
  ]

  unfoldable pub clear_pending : Queue V → Option (Queue V)
  unfolding clear_putters clear_getters
  clear_pending q = do q1 ← clear_putters (length q.putters) q; clear_getters (length q1.items) q1

-- What an operation did: what it returned, or whom it served.
pub data Effect {ℓ} (V : Type ℓ) : Type ℓ where
  stored : V → Effect V
  handed : ℕ → V → Effect V
  returned : V → Effect V
  parked : ℕ → Effect V
  received : ℕ → Payload V → Effect V
  idle : Effect V

module _ {ℓ} {V : Type ℓ} where
  -- `Get` up to its return, or up to the select on the waiter's channel.
  unfoldable pub get : Queue V → Option (Effect V × Queue V)
  get q = do
    q1 ← clear_pending q
    elim q1.items [
      | [] ↦ let (w, q2) = new_getter q1 in some (parked w, q2)
      | i ∷ is ↦ do (v, q2) ← get_item q1; (r, q3) ← notify_putter none q2; some (returned v, q3)
    ]

  -- The rest of `Get` for the waiter `w`: the select's first case, and what follows it. While
  -- nothing has been sent the goroutine stays blocked.
  unfoldable pub resume : ℕ → Queue V → Option (Effect V × Queue V)
  resume w q = elim (lookup w q.chans) [
    | none ↦ some (idle, q)
    | some p ↦ do
      (r, q1) ← notify_putter (some w) (record q { chans = delete w q.chans })
      some (received w p, q1)
  ]

  -- The select's second case, `ctx.Done()`: `Get` returns an error, and its waiter stays listed.
  unfoldable pub cancel : ℕ → Queue V → Option (Effect V × Queue V)
  cancel w q = some (idle, q)

  abbrev pub put_effect : V → Option ℕ → Effect V
  put_effect v none = stored v
  put_effect v (some w) = handed w v

  unfoldable pub put : V → Queue V → Option (Effect V × Queue V)
  put v q = do
    q1 ← clear_pending q
    (r, q2) ← notify_getter none v q1
    some (put_effect v r, elim r [ none ↦ put_item v q2 | some w ↦ q2 ])

-- The steps of the goroutines that share a queue, in any interleaving.
pub data Op {ℓ} (V : Type ℓ) : Type ℓ where
  puts : V → Op V
  gets : Op V
  resumes : ℕ → Op V
  cancels : ℕ → Op V

module _ {ℓ} {V : Type ℓ} where
  unfoldable pub step : Op V → Queue V → Option (Effect V × Queue V)
  step (puts v) = put v
  step gets = get
  step (resumes w) = resume w
  step (cancels w) = cancel w

  -- A schedule, with the effects in order.
  unfoldable pub run : List (Op V) → Queue V → Option (List (Effect V) × Queue V)
  run [] q = some ([], q)
  run (o ∷ os) q = do (e, q1) ← step o q; (es, q2) ← run os q1; some (e ∷ es, q2)
