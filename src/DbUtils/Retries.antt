-- ===== src/DbUtils/Retries.antt =====
-- What `RepeatedlyTry` does to the connection, and when it returns.
use logical_backup.Common.{
  ℕ, zero, suc, ◌+◌, ◌<◌, ◌≡◌, refl, sym, ap, ◌∙◌, inl, inr, ◌↔◌, ◌≢◌, ◌≤◌, Bool, true, false, ◌&&◌,
  not, List, [], ◌∷◌, ◌++◌, append_assoc, none, some, Option, arith, Bool-cases,
}
use logical_backup.Common.Exec.{Step, ok, err, panic, blocked}
use logical_backup.Common.Hex.{bytes_eq}
use logical_backup.DbUtils.{
  Reply, succeeds, fails, fails_with, Attempt, Call, begins, sets_timeout, executes, rolls_back,
  commits, Error, max_retries, M, lock_timeout_code, after_statement, try_once, repeatedly_try,
}

-- Whether a transaction is in progress after the calls: none if they are out of order, as a
-- transaction begun inside another one is, or a call outside any.
unfoldable pub in_progress : Bool → List Call → Option Bool
in_progress tx [] = some tx
in_progress false (begins ∷ calls) = in_progress true calls
in_progress true (sets_timeout ∷ calls) = in_progress true calls
in_progress true (executes ∷ calls) = in_progress true calls
in_progress true (rolls_back ∷ calls) = in_progress false calls
in_progress true (commits ∷ calls) = in_progress false calls
in_progress _ _ = none

unfoldable pub count_commits : List Call → ℕ
count_commits [] = 0
count_commits (commits ∷ calls) = suc (count_commits calls)
count_commits (begins ∷ calls) = count_commits calls
count_commits (sets_timeout ∷ calls) = count_commits calls
count_commits (executes ∷ calls) = count_commits calls
count_commits (rolls_back ∷ calls) = count_commits calls

-- Whether a try ends in the lock timeout that lets the loop go on.
abbrev pub is_late : Reply → Bool
is_late succeeds = false
is_late fails = false
is_late (fails_with code) = bytes_eq code lock_timeout_code

abbrev pub times_out : Attempt → Bool
times_out a = a.begin_ok && (a.timeout_ok && (not a.is_done && is_late a.reply))

in_progress-append :
    (tx u : Bool) (xs ys : List Call)
    → in_progress tx xs ≡ some u
    → in_progress tx (xs ++ ys) ≡ in_progress u ys
unfolding in_progress
in_progress-append tx u [] ys h = ground arith
in_progress-append false u (begins ∷ xs) ys h = in_progress-append true u xs ys h
in_progress-append false u (sets_timeout ∷ xs) ys h = cc
in_progress-append false u (executes ∷ xs) ys h = cc
in_progress-append false u (rolls_back ∷ xs) ys h = cc
in_progress-append false u (commits ∷ xs) ys h = cc
in_progress-append true u (begins ∷ xs) ys h = cc
in_progress-append true u (sets_timeout ∷ xs) ys h = in_progress-append true u xs ys h
in_progress-append true u (executes ∷ xs) ys h = in_progress-append true u xs ys h
in_progress-append true u (rolls_back ∷ xs) ys h = in_progress-append false u xs ys h
in_progress-append true u (commits ∷ xs) ys h = in_progress-append false u xs ys h

count_commits-append :
    (xs ys : List Call) → count_commits (xs ++ ys) ≡ count_commits xs + count_commits ys
unfolding count_commits
count_commits-append [] ys = ground arith
count_commits-append (commits ∷ xs) ys = ground (arith, count_commits-append xs ys)
count_commits-append (begins ∷ xs) ys = count_commits-append xs ys
count_commits-append (sets_timeout ∷ xs) ys = count_commits-append xs ys
count_commits-append (executes ∷ xs) ys = count_commits-append xs ys
count_commits-append (rolls_back ∷ xs) ys = count_commits-append xs ys

-- Calls that end outside a transaction, `n` of them commits.
record Balanced (n : ℕ) (calls : List Call) : Type 0 where
  closed : in_progress false calls ≡ some false
  committed : count_commits calls ≡ n

Balanced-append :
    (n m : ℕ) (xs ys : List Call) → Balanced n xs → Balanced m ys → Balanced (n + m) (xs ++ ys)
Balanced-append n m xs ys x y = record {
  closed = in_progress-append false false xs ys x.closed ∙ y.closed;
  committed = ground (arith, count_commits-append xs ys, x.committed, y.committed);
}

-- How the loop ends: with at most one commit on success, and with none on an error.
abbrev pub Settled : Step (List Call) Error (Unit {0}) → Type 0
Settled (ok a calls) = (in_progress false calls ≡ some false) × (count_commits calls ≤ 1)
Settled (err e calls) = (in_progress false calls ≡ some false) × (count_commits calls ≡ 0)
Settled panic = ⊥
Settled blocked = ⊥

module _ (again : M) (calls : List Call) (b : Balanced 0 calls)
    (next : (c : List Call) → Balanced 0 c → Settled (again c)) where
  started : List Call
  started = calls ++ begins ∷ sets_timeout ∷ executes ∷ []

  rolled_back : Balanced 0 (started ++ rolls_back ∷ [])
  unfolding started
  rolled_back = rw (append_assoc calls (begins ∷ sets_timeout ∷ executes ∷ []) (rolls_back ∷ [])) (
      Balanced-append 0 0 calls _ b
        (record { closed = unfold in_progress in refl; committed = unfold count_commits in refl }))

  after_statement-Settled : (r : Reply) → Settled (after_statement r again started)
  unfolding after_statement started
  after_statement-Settled succeeds =
      let c =
        Balanced-append 0 1 calls (begins ∷ sets_timeout ∷ executes ∷ commits ∷ []) b (record {
          closed = unfold in_progress in refl;
          committed = unfold count_commits in refl;
        }) in
      rw (append_assoc calls (begins ∷ sets_timeout ∷ executes ∷ []) (commits ∷ []))
        (c.closed, omega (arith, c.committed))
  after_statement-Settled fails = (rolled_back.closed, rolled_back.committed)
  after_statement-Settled (fails_with code) = elim (Bool-cases (bytes_eq code lock_timeout_code)) [
    | inl e ↦ rw e (next _ rolled_back)
    | inr e ↦ rw e (rolled_back.closed, rolled_back.committed)
  ]

  cut_short : Balanced 0 (calls ++ begins ∷ sets_timeout ∷ rolls_back ∷ [])
  cut_short =
      Balanced-append 0 0 calls _ b
        (record { closed = unfold in_progress in refl; committed = unfold count_commits in refl })

  try_once-Settled : (a : Attempt) → Settled (try_once a again calls)
  unfolding try_once started
  try_once-Settled a = elim (Bool-cases a.begin_ok) [
    | inr e ↦ rw e (b.closed, b.committed)
    | inl e ↦ elim (Bool-cases a.timeout_ok) [
      | inr f ↦ rw (e, f) (cut_short.closed, cut_short.committed)
      | inl f ↦ elim (Bool-cases a.is_done) [
        | inl g ↦ rw (e, f, g) (cut_short.closed, omega (arith, cut_short.committed))
        | inr g ↦ rw (e, f, g) (after_statement-Settled a.reply)
      ]
    ]
  ]

repeatedly_try-Settled :
    (answers : ℕ → Attempt) (retries i : ℕ) (calls : List Call)
    → Balanced 0 calls
    → Settled (repeatedly_try answers retries i calls)
unfolding repeatedly_try
repeatedly_try-Settled answers zero i calls b = (b.closed, b.committed)
repeatedly_try-Settled answers (suc retries) i calls b =
    try_once-Settled (repeatedly_try answers retries (suc i)) calls b
      (repeatedly_try-Settled answers retries (suc i)) (answers i)

-- Whatever the connection answers, the loop ends, its calls are in order, and no transaction is left
-- in progress: each one that began has been committed or rolled back. At most one commit is made,
-- and none if an error is returned.
pub repeatedly_try_closes :
    (answers : ℕ → Attempt) (retries : ℕ) → Settled (repeatedly_try answers retries 0 [])
repeatedly_try_closes answers retries =
    repeatedly_try-Settled answers retries 0 []
      (record { closed = unfold in_progress in refl; committed = unfold count_commits in refl })

-- A try that times out goes on with the loop.
try_once_late :
    (a : Attempt) (again : M) (calls : List Call)
    → times_out a ≡ true
    → try_once a again calls
      ≡ again ((calls ++ begins ∷ sets_timeout ∷ executes ∷ []) ++ rolls_back ∷ [])
unfolding try_once after_statement
try_once_late a again calls h = ground arith

-- Any other try ends it, without `max_retries`.
try_once_last :
    (a : Attempt) (again : M) (calls c : List Call)
    → times_out a ≡ false
    → try_once a again calls ≢ err max_retries c
unfolding try_once after_statement
try_once_last a again calls c h = ground arith

shift : (i j : ℕ) → suc i + j ≡ i + suc j
shift i j = omega arith

from_zero : (j : ℕ) → j ≡ 0 + j
from_zero j = omega arith

stay : (i : ℕ) → i ≡ i + 0
stay i = omega arith

repeatedly_try_late :
    (answers : ℕ → Attempt) (retries i : ℕ) (calls : List Call)
    → ((j : ℕ) → j < retries → times_out (answers (i + j)) ≡ true)
    → (c : List Call) × (repeatedly_try answers retries i calls ≡ err max_retries c)
unfolding repeatedly_try
repeatedly_try_late answers zero i calls h = (calls, refl)
repeatedly_try_late answers (suc retries) i calls h =
    let (c, e) =
      repeatedly_try_late answers retries (suc i) _
        (λ j l. ap (λ k. times_out (answers k)) (shift i j) ∙ h (suc j) (omega arith)) in
    (
      c,
      try_once_late (answers i) _ calls
            (ap (λ k. times_out (answers k)) (stay i) ∙ h 0 (omega arith))
          ∙ e,
    )

tries_late :
    (answers : ℕ → Attempt) (retries i : ℕ) (calls c : List Call)
    → repeatedly_try answers retries i calls ≡ err max_retries c
    → (j : ℕ) → j < retries
    → times_out (answers (i + j)) ≡ true
unfolding repeatedly_try
tries_late answers zero i calls c h j l = absurd (omega arith)
tries_late answers (suc retries) i calls c h j l = elim (Bool-cases (times_out (answers i))) [
  | inr e ↦ absurd (try_once_last (answers i) _ calls c e h)
  | inl e ↦
      at_each
        (tries_late answers retries (suc i) _ c (sym (try_once_late (answers i) _ calls e) ∙ h)) e j
        l
]
  where
    at_each :
        ((k : ℕ) → k < retries → times_out (answers (suc i + k)) ≡ true)
        → times_out (answers i) ≡ true
        → (k : ℕ) → k < suc retries
        → times_out (answers (i + k)) ≡ true
    at_each later e zero l = ap (λ k. times_out (answers k)) (sym (stay i)) ∙ e
    at_each later e (suc k) l =
        ap (λ n. times_out (answers n)) (sym (shift i k)) ∙ later k (omega arith)

-- `RepeatedlyTry` reports that it reached the number of retries exactly when each of its tries, as
-- many as that, began a transaction, set the timeout, was not cancelled, and failed with the code
-- of a lock timeout.
pub repeatedly_try_iff :
    (answers : ℕ → Attempt) (retries : ℕ)
    → ((c : List Call) × (repeatedly_try answers retries 0 [] ≡ err max_retries c))
      ↔ ((j : ℕ) → j < retries → times_out (answers j) ≡ true)
repeatedly_try_iff answers retries = (
  λ p j l.
      ap (λ k. times_out (answers k)) (from_zero j) ∙ tries_late answers retries 0 [] p.0 p.1 j l,
  λ h.
      repeatedly_try_late answers retries 0 []
        (λ j l. ap (λ k. times_out (answers k)) (sym (from_zero j)) ∙ h j l),
)
