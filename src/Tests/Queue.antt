-- ===== src/Tests/Queue.antt =====
-- Examples for the queue of pkg/queue/queue.go.
use logical_backup.Common.{
  ap, ℕ, ◌≡◌, refl, ◌≢◌, ◌⊎◌, inl, List, [], ◌∷◌, ◌++◌, some, collect, arith,
}
use logical_backup.Common.Assoc.{lookup}
use logical_backup.Queue.{
  Queue, Op, puts, gets, resumes, cancels, Effect, value, received, step, run, empty,
}
use logical_backup.Queue.Invariant.{Inv}
use logical_backup.Queue.Order.{taken, supplied, served, queued, run_fifo}
use logical_backup.Queue.Delivery.{sent_received}

-- A put with nobody waiting, a get that finds it, two gets that wait, and two puts that serve them.
abbrev schedule : List (Op ℕ)
schedule = puts 1 ∷ gets ∷ gets ∷ gets ∷ puts 2 ∷ cancels 1 ∷ puts 3 ∷ puts 4 ∷ resumes 0 ∷ []

run_fifo_example :
    (es : List (Effect ℕ)) × (q : Queue ℕ) × (run schedule empty ≡ some (es, q))
    × (collect taken es ++ q.items ≡ collect supplied schedule)
    × (collect served es ++ q.getters ≡ collect queued es)
    × ((q.items ≡ []) ⊎ (q.getters ≡ []))
run_fifo_example = run_fifo schedule

-- The queue in which a getter waits, and the one in which a value has been handed to it.
abbrev waiting : Queue ℕ
waiting = record { items = []; putters = []; getters = 0 ∷ []; chans = []; fresh = 1 }

abbrev served_getter : Queue ℕ
served_getter = record {
  items = [];
  putters = [];
  getters = [];
  chans = (0, value 9) ∷ [];
  fresh = 1;
}

served_getter-Inv : Inv served_getter
unfolding lookup
served_getter-Inv = record {
  no_putters = refl;
  no_lost_wakeup = inl refl;
  rising = tt;
  empty_chans = tt;
  unused = λ w h. ground arith;
}

abbrev waiter : Op ℕ → ℕ
waiter (puts v) = 0
waiter gets = 0
waiter (resumes w) = w
waiter (cancels w) = w

abbrev other_cancelled : Op ℕ
other_cancelled = cancels 1

other_waiter : other_cancelled ≢ cancels 0
other_waiter e = absurd (ground (arith, ap waiter e))

-- Another getter comes and is cancelled, and a value is put, before the first one resumes.
abbrev meanwhile : List (Op ℕ)
meanwhile = gets ∷ other_cancelled ∷ puts 8 ∷ []

sent_received_example :
    (es : List (Effect ℕ)) × (q1 : Queue ℕ) × (q2 : Queue ℕ) × (run meanwhile served_getter
      ≡ some (es, q1))
    × (step (resumes 0) q1 ≡ some (received 0 (value 9), q2))
sent_received_example =
    sent_received meanwhile served_getter 0 (value 9) served_getter-Inv (unfold lookup in refl)
      ((λ e. cc, λ e. cc), ((λ e. cc, other_waiter), ((λ e. cc, λ e. cc), tt)))
