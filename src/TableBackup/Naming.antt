-- ===== src/TableBackup/Naming.antt =====
-- The names that `rotateFile` gives to delta files: each is new, and follows those before it in the
-- order in which a restore reads them.
use logical_backup.Common.{
  ℕ, ◌+◌, ◌^◌, ◌≤◌, ◌<◌, ◌≡◌, refl, sym, ap, ◌∙◌, ◌≢◌, ◌⊎◌, inl, inr, true, false, [], ◌∷◌, none,
  some, All, arith, Bool-cases, drop,
}
use logical_backup.Common.Bytes.{Bytes}
use logical_backup.Common.Hex.{bytes_eq}
use logical_backup.Common.Files.{Files, find, write_file, find-write_file, bytes_eq_iff}
use logical_backup.Common.Outcome.{ok}
use logical_backup.DeltaFiles.{delta_name, less}
use logical_backup.DeltaFiles.Order.{less-delta_name}
use logical_backup.TableBackup.{Io, TableBackup, delta_path, next_postfix, set_postfix, opened}

-- One position and postfix come before another.
abbrev pub Before : ℕ → ℕ → ℕ → ℕ → Type 0
Before l p m q = (l < m) ⊎ ((l ≡ m) × (p < q))

abbrev pub UpTo : ℕ → ℕ → ℕ → ℕ → Type 0
UpTo l p m q = (l < m) ⊎ ((l ≡ m) × (p ≤ q))

-- The path is that of a delta file no later than the position and postfix given.
pub record IsPast (lsn postfix : ℕ) (path : Bytes) : Type 0 where
  pub l : ℕ
  pub p : ℕ
  pub named : path ≡ delta_path (delta_name l p)
  pub small : (l < 2 ^ 64) × (p < 2 ^ 31)
  pub past : UpTo l p lsn postfix

-- Every file below the table's directory is a delta file no later than the last that was opened.
abbrev pub Named : TableBackup → Type 0
Named t = All (λ f. IsPast t.last_lsn t.filename_postfix f.0) t.disk

less-Before :
    (l p m q : ℕ)
    → Before l p m q
    → m < 2 ^ 64
    → p < 2 ^ 31
    → q < 2 ^ 31
    → less (delta_name l p) (delta_name m q) ≡ ok true
less-Before l p m q b hm hp hq = ground (arith, less-delta_name l p m q (ground arith) hm hp hq)

-- So two names of different files differ.
delta_path-ne :
    (l p m q : ℕ)
    → Before l p m q
    → m < 2 ^ 64
    → p < 2 ^ 31
    → q < 2 ^ 31
    → delta_path (delta_name l p) ≢ delta_path (delta_name m q)
delta_path-ne l p m q b hm hp hq e =
    let e' = ap (drop 7) e in
    ground (
      arith,
      less-Before l p m q b hm hp hq,
      less-delta_name m q m q hm hm hq hq,
      ap (λ n. less n (delta_name m q)) e',
    )

next-Before :
    (io : Io) (lsn : ℕ) (t : TableBackup) (l p : ℕ)
    → io.stat_is_exist ≡ false
    → t.last_lsn ≤ lsn
    → t.filename_postfix + 1 < 2 ^ 31
    → UpTo l p t.last_lsn t.filename_postfix
    → Before l p lsn (next_postfix io lsn t)
next-Before io lsn t l p s h k u = ground arith

next-small :
    (io : Io) (lsn : ℕ) (t : TableBackup)
    → t.filename_postfix + 1 < 2 ^ 31
    → next_postfix io lsn t < 2 ^ 31
next-small io lsn t h = ground arith

find_past :
    (lsn postfix : ℕ) (path : Bytes) (fs : Files)
    → ((l p : ℕ) → UpTo l p lsn postfix → p < 2 ^ 31 → delta_path (delta_name l p) ≢ path)
    → All (λ f. IsPast lsn postfix f.0) fs
    → find path fs ≡ none
unfolding find
find_past lsn postfix path [] h a = refl
find_past lsn postfix path ((q, c) ∷ fs) h (a, rest) = ground (
  arith,
  bytes_eq_iff q path,
  ne (h a.l a.p a.past a.small.1),
  find_past lsn postfix path fs h rest,
)
  where
    ne : delta_path (delta_name a.l a.p) ≢ path → q ≢ path
    ne k e = k (sym a.named ∙ e)

Before-UpTo : (l p m q : ℕ) → Before l p m q → UpTo l p m q
Before-UpTo l p m q (inl h) = inl h
Before-UpTo l p m q (inr (e, h)) = inr (e, omega arith)

pub All-write_file :
    (P : Bytes → Type 0) (path c : Bytes) (fs : Files)
    → P path
    → All (λ f. P f.0) fs
    → All (λ f. P f.0) (write_file path c fs)
unfolding write_file
All-write_file P path c [] h a = (h, tt)
All-write_file P path c ((q, d) ∷ fs) h (a, rest) = elim (Bool-cases (bytes_eq q path)) [
  | inl e ↦ rw e (h, rest)
  | inr e ↦ rw e (a, All-write_file P path c fs h rest)
]

All-IsPast-later :
    (a b c d : ℕ) (fs : Files)
    → ((l p : ℕ) → UpTo l p a b → UpTo l p c d)
    → All (λ f. IsPast a b f.0) fs
    → All (λ f. IsPast c d f.0) fs
All-IsPast-later a b c d [] h all = tt
All-IsPast-later a b c d (f ∷ fs) h (x, rest) = (
  record { l = x.l; p = x.p; named = x.named; small = x.small; past = h x.l x.p x.past },
  All-IsPast-later a b c d fs h rest,
)

-- `rotateFile` runs with positions that do not fall, and with a postfix that an int32 holds.
module _ (io : Io) (lsn : ℕ) (t : TableBackup) (stat : io.stat_is_exist ≡ false)
    (rises : t.last_lsn ≤ lsn) (wide : lsn < 2 ^ 64) (room : t.filename_postfix + 1 < 2 ^ 31) where
  -- If positions do not fall and fit 64 bits, the next postfix fits an int32, and `os.IsExist` is
  -- not true of Stat's error, then the name that `rotateFile` opens comes after that of the last
  -- file, in the order in which a restore sorts the files.
  pub rotate_less :
      less (delta_name t.last_lsn t.filename_postfix) (delta_name lsn (next_postfix io lsn t))
      ≡ ok true
  rotate_less =
      less-Before _ _ _ _ (next-Before io lsn t _ _ stat rises room (inr (refl, omega arith))) wide
        (omega arith) (next-small io lsn t room)

  pub new_missing :
      (fs : Files)
      → All (λ f. IsPast t.last_lsn t.filename_postfix f.0) fs
      → find (delta_path (delta_name lsn (next_postfix io lsn t))) fs ≡ none
  new_missing fs = find_past t.last_lsn t.filename_postfix _ fs (λ l p u h.
      delta_path-ne l p lsn (next_postfix io lsn t) (next-Before io lsn t l p stat rises room u)
        wide h (next-small io lsn t room))

  pub All-IsPast :
      (fs : Files)
      → All (λ f. IsPast t.last_lsn t.filename_postfix f.0) fs
      → All (λ f. IsPast lsn (next_postfix io lsn t) f.0) fs
  All-IsPast fs =
      All-IsPast-later t.last_lsn t.filename_postfix lsn (next_postfix io lsn t) fs
        (λ l p u. Before-UpTo l p lsn _ (next-Before io lsn t l p stat rises room u))

  -- If positions do not fall and fit 64 bits, the next postfix fits an int32, `os.IsExist` is not
  -- true of Stat's error, and all the files below the table's directory are delta files no later
  -- than the last that was opened, then the name that `rotateFile` opens is the name of no file,
  -- opening it with O_TRUNC leaves every file its contents, and all the files are again delta files
  -- no later than the last.
  pub rotate_keeps :
      Named t
      → (find (delta_path (delta_name lsn (next_postfix io lsn t))) t.disk ≡ none)
        × ((path c : Bytes)
            → find path t.disk ≡ some c
            → find path (opened lsn (set_postfix (next_postfix io lsn t) t)).disk ≡ some c)
        × Named (opened lsn (set_postfix (next_postfix io lsn t) t))
  rotate_keeps n = (
    fresh,
    λ path c h. ground (arith, find-write_file new path [] t.disk, bytes_eq_iff new path, fresh),
    named,
  )
    where
      new : Bytes
      new = delta_path (delta_name lsn (next_postfix io lsn t))

      fresh : find new t.disk ≡ none
      fresh = new_missing t.disk n

      named : Named (opened lsn (set_postfix (next_postfix io lsn t) t))
      named =
          All-write_file (IsPast lsn (next_postfix io lsn t)) new [] t.disk
            (record {
              l = lsn;
              p = next_postfix io lsn t;
              named = refl;
              small = (wide, next-small io lsn t room);
              past = inr (refl, omega arith);
            })
            (All-IsPast t.disk n)
