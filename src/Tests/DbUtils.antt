-- ===== src/Tests/DbUtils.antt =====
-- Examples for pkg/dbutils/dbutils.go.
use logical_backup.Common.{
  ℕ, ◌<◌, ◌≡◌, refl, ◌↔◌, inl, true, false, List, [], ◌∷◌, some, arith, ltb, if◌then◌else◌,
}
use logical_backup.Common.Exec.{err}
use logical_backup.DbUtils.{
  quote_literal, backslash, Attempt, Call, succeeds, fails_with, lock_timeout_code, max_retries,
  repeatedly_try,
}
use logical_backup.DbUtils.Literals.{read_literal, read_literal-quote_literal}
use logical_backup.DbUtils.Retries.{Settled, times_out, repeatedly_try_closes, repeatedly_try_iff}

-- A backslash and a line feed.
abbrev text : List ℕ
text = b'a' ∷ backslash ∷ 10 ∷ []

read_literal-quote_literal_example : read_literal (quote_literal text) ≡ some text
read_literal-quote_literal_example =
    read_literal-quote_literal text (omega arith, (omega arith, (omega arith, tt))) (inl refl)

-- Two tries that do not get their lock in time, and then one that does.
abbrev answers : ℕ → Attempt
answers i = record {
  begin_ok = true;
  timeout_ok = true;
  is_done = false;
  reply = if ltb i 2 then fails_with lock_timeout_code else succeeds;
}

repeatedly_try_closes_example : Settled (repeatedly_try answers 3 0 [])
repeatedly_try_closes_example = repeatedly_try_closes answers 3

repeatedly_try_iff_example :
    ((c : List Call) × (repeatedly_try answers 3 0 [] ≡ err max_retries c))
    ↔ ((j : ℕ) → j < 3 → times_out (answers j) ≡ true)
repeatedly_try_iff_example = repeatedly_try_iff answers 3
