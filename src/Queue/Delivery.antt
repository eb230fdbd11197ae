-- ===== src/Queue/Delivery.antt =====
-- What has been handed to a waiter reaches it, under any interleaving of the others.
use logical_backup.Common.{ℕ, ◌≡◌, refl, ap, ◌∙◌, ◌≢◌, List, [], ◌∷◌, some, All, arith}
use logical_backup.Common.Assoc.{lookup, lookup-insert, lookup-delete}
use logical_backup.Queue.{Payload, value, Queue, Effect, received, Op, resumes, cancels, step, run}
use logical_backup.Queue.Invariant.{
  Inv, Move, take, park, store, hand, receive, wait, leave, step-Move,
}
use logical_backup.Queue.Order.{Move-Inv}

module _ {ℓ} {V : Type ℓ} where
  Move-lookup :
      {q q' : Queue V} {o : Op V} {e : Effect V} (w : ℕ) (p : Payload V)
      → Move q o e q'
      → Inv q
      → o ≢ resumes w
      → lookup w q.chans ≡ some p
      → lookup w q'.chans ≡ some p
  Move-lookup w p (take v vs e) i h l = l
  Move-lookup w p (park e) i h l = l
  Move-lookup w p (store v e) i h l = l
  Move-lookup {q} w p (hand v x ws e) i h l =
      ground (arith, lookup-insert x w (value v) q.chans, i.empty_chans)
  Move-lookup {q} w p (receive x r e) i h l =
      ground (arith, lookup-delete x w q.chans, λ (xw : x ≡ w). h (ap resumes xw))
  Move-lookup w p (wait x e) i h l = l
  Move-lookup w p (leave x) i h l = l

  Move-received :
      {q q' : Queue V} {o : Op V} {e : Effect V} (w : ℕ) (p : Payload V)
      → Move q o e q'
      → o ≡ resumes w
      → lookup w q.chans ≡ some p
      → e ≡ received w p
  Move-received w p (take v vs e) h l = cc
  Move-received w p (park e) h l = cc
  Move-received w p (store v e) h l = cc
  Move-received w p (hand v x ws e) h l = cc
  Move-received w p (receive x r e) h l = ground arith
  Move-received w p (wait x e) h l = ground arith
  Move-received w p (leave x) h l = cc

  -- A waiter to which something has been sent receives exactly that by its own step, after any
  -- schedule of other steps, which runs to its end. Condition: in the schedule the waiter neither
  -- resumes nor is cancelled, as a waiter that is cancelled returns without it.
  pub sent_received :
      (os : List (Op V)) (q : Queue V) (w : ℕ) (p : Payload V)
      → Inv q
      → lookup w q.chans ≡ some p
      → All (λ o. (o ≢ resumes w) × (o ≢ cancels w)) os
      → (es : List (Effect V)) × (q1 : Queue V) × (q2 : Queue V) × (run os q ≡ some (es, q1))
        × (step (resumes w) q1 ≡ some (received w p, q2))
  unfolding run
  sent_received [] q w p i l h =
      let (e, q2, s, m) = step-Move (resumes w) q i in
      let r : e ≡ received w p = Move-received w p m refl l in
      ([], q, q2, refl, s ∙ ap (λ x. some (x, q2)) r)
  sent_received (o ∷ os) q w p i l (h, hs) =
      let (e, q', s, m) = step-Move o q i in
      let (es, q1, q2, r, f) =
        sent_received os q' w p (Move-Inv m i) (Move-lookup w p m i h.0 l) hs in
      (e ∷ es, q1, q2, rw (s, r) refl, f)
