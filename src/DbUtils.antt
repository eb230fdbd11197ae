-- ===== src/DbUtils.antt =====
-- pkg/dbutils/dbutils.go: quoting a text for SQL, and repeating a statement that waits for a lock.
-- The loop of `QuoteLiteral` runs over runes, so its text is a list of code points. What the
-- connection answers to the calls of one try is an `Attempt`; the state is the calls made so far
-- that reached the server, in order. The texts around errors and the log are not modelled.
pub mod Literals
pub mod Retries
use logical_backup.Common.{
  ℕ, zero, suc, Bool, true, false, ◌||◌, List, [], ◌∷◌, ◌++◌, ◌==◌, if◌then◌else◌,
}
use logical_backup.Common.Bytes.{Bytes}
use logical_backup.Common.Exec.{Step, ok, err, Exec}
use logical_backup.Common.Hex.{bytes_eq}

abbrev pub tab : ℕ
tab = 9

abbrev pub line_feed : ℕ
line_feed = 10

abbrev pub carriage_return : ℕ
carriage_return = 13

abbrev pub single_quote : ℕ
single_quote = 39

abbrev pub backslash : ℕ
backslash = 92

-- What a rune adds to `res`.
abbrev pub escaped : ℕ → List ℕ
escaped r =
    if r == backslash
    then backslash ∷ backslash ∷ []
    else if r == tab
    then backslash ∷ b't' ∷ []
    else if r == carriage_return
    then backslash ∷ b'r' ∷ []
    else if r == line_feed
    then backslash ∷ b'n' ∷ []
    else r ∷ []

-- The runes that set `needsEscapeChar`.
abbrev pub needs_escape : ℕ → Bool
needs_escape r = r == tab || (r == carriage_return || r == line_feed)

-- The loop, with `needsEscapeChar` and `res`.
unfoldable pub quote_runes : List ℕ → Bool → List ℕ → Bool × List ℕ
quote_runes [] escape res = (escape, res)
quote_runes (r ∷ str) escape res = quote_runes str (escape || needs_escape r) (res ++ escaped r)

unfoldable pub quote_literal : List ℕ → List ℕ
quote_literal str =
    let (escape, res) = quote_runes str false [] in
    if escape
    then b'E' ∷ single_quote ∷ res ++ single_quote ∷ []
    else single_quote ∷ res ++ single_quote ∷ []

-- The answer to a statement: an error of the server has a code, any other error has none.
pub data Reply : Type 0 where
  succeeds : Reply
  fails : Reply
  fails_with : Bytes → Reply

pub record Attempt : Type 0 where
  pub begin_ok : Bool
  pub timeout_ok : Bool
  pub is_done : Bool
  pub reply : Reply

pub data Call : Type 0 where
  begins sets_timeout executes rolls_back commits : Call

pub data Error : Type 0 where
  begin_failed timeout_failed max_retries : Error
  statement_failed : Reply → Error

abbrev pub lock_timeout_code : Bytes
lock_timeout_code = b'5' ∷ b'5' ∷ b'P' ∷ b'0' ∷ b'3' ∷ []

abbrev pub M : Type 0
M = Exec (List Call) Error (Unit {0})

-- The end of a try whose statement has been sent. `again` is the rest of the loop, which follows
-- the rollback of a statement that has not got its lock in time.
unfoldable pub after_statement : Reply → M → M
after_statement succeeds again calls = ok tt (calls ++ commits ∷ [])
after_statement fails again calls = err (statement_failed fails) (calls ++ rolls_back ∷ [])
after_statement (fails_with code) again calls =
    if bytes_eq code lock_timeout_code
    then again (calls ++ rolls_back ∷ [])
    else err (statement_failed (fails_with code)) (calls ++ rolls_back ∷ [])

-- One round of the loop, up to the end of the try.
unfoldable pub try_once : Attempt → M → M
try_once a again calls =
    if a.begin_ok
    then if a.timeout_ok
      then if a.is_done
        then ok tt (calls ++ begins ∷ sets_timeout ∷ rolls_back ∷ [])
        else after_statement a.reply again (calls ++ begins ∷ sets_timeout ∷ executes ∷ [])
      else err timeout_failed (calls ++ begins ∷ sets_timeout ∷ rolls_back ∷ [])
    else err begin_failed calls

-- `RepeatedlyTry` with `retries` rounds left, the next of them the round `i`.
unfoldable pub repeatedly_try : (ℕ → Attempt) → ℕ → ℕ → M
repeatedly_try answers zero i calls = err max_retries calls
repeatedly_try answers (suc retries) i calls =
    let rest = repeatedly_try answers retries (suc i) in try_once (answers i) rest calls
