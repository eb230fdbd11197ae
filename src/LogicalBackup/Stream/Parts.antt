-- ===== src/LogicalBackup/Stream/Parts.antt =====
-- A table's part of a transaction, and the set of the tables that have begun.
use logical_backup.Common.{
  ℕ, ◌≡◌, refl, Bool, true, false, not, ◌&&◌, ◌||◌, List, [], ◌∷◌, ◌++◌, some, ◌==◌, if◌then◌else◌,
  arith,
}
use logical_backup.Common.Assoc.{Map, lookup}
use logical_backup.Common.Bytes.{Bytes}
use logical_backup.LogicalBackup.{member}

-- The raw messages of the rows of one table, in order.
abbrev pub raws : ℕ → List (ℕ × Bytes) → List Bytes
raws o [] = []
raws o ((p, r) ∷ rows) = if p == o then r ∷ raws o rows else raws o rows

-- What a table's log gains so far: the begin message in front of its rows, if there are any.
abbrev pub body : Bytes → List Bytes → List Bytes
body begin [] = []
body begin (r ∷ rs) = begin ∷ r ∷ rs

-- And with the commit message behind them.
abbrev pub whole : Bytes → List Bytes → Bytes → List Bytes
whole begin [] commit = []
whole begin (r ∷ rs) commit = (begin ∷ r ∷ rs) ++ commit ∷ []

abbrev pub is_nil : List Bytes → Bool
is_nil [] = true
is_nil (r ∷ rs) = false

pub raws-snoc :
    (o p : ℕ) (r : Bytes) (rows : List (ℕ × Bytes))
    → raws o (rows ++ (p, r) ∷ []) ≡ raws o rows ++ (if p == o then r ∷ [] else [])
raws-snoc o p r [] = ground arith
raws-snoc o p r ((q, s) ∷ rows) = ground (arith, raws-snoc o p r rows)

pub is_nil-after :
    (o p : ℕ) (r : Bytes) (rows : List (ℕ × Bytes))
    → is_nil (raws o (rows ++ (p, r) ∷ [])) ≡ (is_nil (raws o rows) && not (p == o))
is_nil-after o p r [] = ground arith
is_nil-after o p r ((q, s) ∷ rows) = ground (arith, is_nil-after o p r rows)

-- No oid stands twice in the set.
abbrev pub Distinct : List ℕ → Type 0
Distinct [] = Unit {0}
Distinct (x ∷ xs) = (member x xs ≡ false) × Distinct xs

pub member-snoc : (o p : ℕ) (xs : List ℕ) → member o (xs ++ p ∷ []) ≡ (member o xs || p == o)
unfolding member
member-snoc o p [] = ground arith
member-snoc o p (x ∷ xs) = ground (arith, member-snoc o p xs)

pub Distinct-snoc :
    (p : ℕ) (xs : List ℕ) → Distinct xs → member p xs ≡ false → Distinct (xs ++ p ∷ [])
Distinct-snoc p [] d h = (unfold member in refl, tt)
Distinct-snoc p (x ∷ xs) (m, d) h =
    (ground (arith, member-snoc x p xs, out x p xs h), Distinct-snoc p xs d (out_tail x p xs h))
  where
    out : (x p : ℕ) (xs : List ℕ) → member p (x ∷ xs) ≡ false → (p == x) ≡ false
    out x p xs k = unfold member in ground arith

    out_tail : (x p : ℕ) (xs : List ℕ) → member p (x ∷ xs) ≡ false → member p xs ≡ false
    out_tail x p xs k = unfold member in ground arith

-- Different oids have different tables.
abbrev pub Injective : Map ℕ → Type 0
Injective m = (o p t : ℕ) → lookup o m ≡ some t → lookup p m ≡ some t → o ≡ p
