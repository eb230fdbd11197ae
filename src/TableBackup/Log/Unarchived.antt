-- ===== src/TableBackup/Log/Unarchived.antt =====
-- The files of a table that the archiver has not copied yet, and what they hold.
use mathlib.Core.Path.{subst}
use logical_backup.Common.{
  ◌≡◌, ◌≢◌, refl, sym, ap, ◌∙◌, false, List, [], ◌∷◌, ◌++◌, map, append-nil, append_assoc, none,
  some, All, collect, arith, Bool-cases, Option-cases, inl, inr, if◌then◌else◌,
}
use logical_backup.Common.Bytes.{Bytes}
use logical_backup.Common.Hex.{bytes_eq}
use logical_backup.Common.Files.{
  Files, find, write_file, append_file, remove_file, bytes_eq_iff, find-write_file,
}
use logical_backup.TableBackup.{is_some}

-- The files below the table's directory without those that have a copy in the archive.
unfoldable pub unarchived : Files → Files → Files
unarchived archive [] = []
unarchived archive ((p, c) ∷ fs) =
    let rest = unarchived archive fs in if is_some (find p archive) then rest else (p, c) ∷ rest

abbrev pub names : Files → List Bytes
names fs = map (λ f. f.0) fs

-- What the files hold, one behind the other.
abbrev pub contents : Files → Bytes
contents fs = collect (λ f. f.1) fs

-- No two files have one name.
abbrev pub Distinct : Files → Type 0
Distinct [] = Unit {0}
Distinct ((p, c) ∷ fs) = (find p fs ≡ none) × Distinct fs

pub write_file-fresh :
    (p c : Bytes) (fs : Files) → find p fs ≡ none → write_file p c fs ≡ fs ++ (p, c) ∷ []
unfolding find write_file
write_file-fresh p c [] h = refl
write_file-fresh p c ((q, d) ∷ fs) h = ground (arith, write_file-fresh p c fs)

module _ (archive : Files) where
  pub find-unarchived :
      (p : Bytes) (fs : Files) → find p archive ≡ none → find p (unarchived archive fs) ≡ find p fs
  unfolding find unarchived
  find-unarchived p [] h = refl
  find-unarchived p ((q, c) ∷ fs) h = ground (arith, h, find-unarchived p fs h, bytes_eq_iff q p)

  pub unarchived-snoc :
      (p c : Bytes) (fs : Files)
      → find p archive ≡ none
      → unarchived archive (fs ++ (p, c) ∷ []) ≡ unarchived archive fs ++ (p, c) ∷ []
  unfolding unarchived
  unarchived-snoc p c [] h = ground (arith, h)
  unarchived-snoc p c ((q, d) ∷ fs) h = ground (arith, unarchived-snoc p c fs h)

  pub unarchived-append_file :
      (p c : Bytes) (fs : Files)
      → find p archive ≡ none
      → unarchived archive (append_file p c fs) ≡ append_file p c (unarchived archive fs)
  unfolding unarchived append_file
  unarchived-append_file p c [] h = refl
  unarchived-append_file p c ((q, d) ∷ fs) h =
      ground (arith, h, unarchived-append_file p c fs h, bytes_eq_iff q p)

  pub unarchived-remove_file :
      (p c : Bytes) (fs : Files)
      → find p archive ≡ some c
      → unarchived archive (remove_file p fs) ≡ unarchived archive fs
  unfolding unarchived remove_file
  unarchived-remove_file p c [] h = refl
  unarchived-remove_file p c ((q, d) ∷ fs) h =
      ground (arith, h, unarchived-remove_file p c fs h, bytes_eq_iff q p)

  pub unarchived-write_file :
      (p c : Bytes) (fs : Files)
      → unarchived (write_file p c archive) fs ≡ remove_file p (unarchived archive fs)
  unfolding unarchived remove_file
  unarchived-write_file p c [] = refl
  unarchived-write_file p c ((q, d) ∷ fs) = ground (
    arith,
    unarchived-write_file p c fs,
    find-write_file p q c archive,
    bytes_eq_iff q p,
    bytes_eq_iff p q,
  )

  pub unarchived-missing : (fs : Files) → All (λ f. find f.0 archive ≡ none) (unarchived archive fs)
  unfolding unarchived
  unarchived-missing [] = tt
  unarchived-missing ((p, c) ∷ fs) = elim (Option-cases (find p archive)) [
    | inl e ↦ rw e (e, unarchived-missing fs)
    | inr (d, e) ↦ rw e (unarchived-missing fs)
  ]

pub remove_file-missing : (p : Bytes) (fs : Files) → find p fs ≡ none → remove_file p fs ≡ fs
unfolding find remove_file
remove_file-missing p [] h = refl
remove_file-missing p ((q, c) ∷ fs) h = ground (arith, remove_file-missing p fs)

pub names-append : (fs gs : Files) → names (fs ++ gs) ≡ names fs ++ names gs
names-append [] gs = refl
names-append ((p, c) ∷ fs) gs = ap (◌∷◌ p) (names-append fs gs)

pub names-append_file : (p b : Bytes) (fs : Files) → names (append_file p b fs) ≡ names fs
unfolding append_file
names-append_file p b [] = refl
names-append_file p b ((q, d) ∷ fs) = ground (arith, names-append_file p b fs)

find-append_file-none :
    (p q b : Bytes) (fs : Files) → find q fs ≡ none → find q (append_file p b fs) ≡ none
unfolding find append_file
find-append_file-none p q b [] h = refl
find-append_file-none p q b ((r, d) ∷ fs) h = ground (arith, find-append_file-none p q b fs)

pub Distinct-append_file : (p b : Bytes) (fs : Files) → Distinct fs → Distinct (append_file p b fs)
unfolding append_file
Distinct-append_file p b [] h = tt
Distinct-append_file p b ((q, d) ∷ fs) (n, h) = elim (Bool-cases (bytes_eq q p)) [
  | inl e ↦ rw e (n, h)
  | inr e ↦ rw e (find-append_file-none p q b fs n, Distinct-append_file p b fs h)
]

find-snoc :
    (p q c : Bytes) (fs : Files)
    → find q (fs ++ (p, c) ∷ [])
      ≡ (elim (find q fs) [ none ↦ if bytes_eq p q then some c else none | some d ↦ some d ])
unfolding find
find-snoc p q c [] = ground arith
find-snoc p q c ((r, d) ∷ fs) = ground (arith, find-snoc p q c fs)

pub Distinct-snoc :
    (p c : Bytes) (fs : Files) → find p fs ≡ none → Distinct fs → Distinct (fs ++ (p, c) ∷ [])
Distinct-snoc p c [] n h = (unfold find in refl, tt)
Distinct-snoc p c ((q, d) ∷ fs) n (m, h) = (
  ground (arith, find-snoc p q c fs, bytes_eq_iff p q, bytes_eq_iff q p, first p c q d fs n),
  Distinct-snoc p c fs (later p c q d fs n) h,
)
  where
    first : (p c q d : Bytes) (fs : Files) → find p ((q, d) ∷ fs) ≡ none → bytes_eq q p ≡ false
    first p c q d fs n = unfold find in ground arith

    later : (p c q d : Bytes) (fs : Files) → find p ((q, d) ∷ fs) ≡ none → find p fs ≡ none
    later p c q d fs n = unfold find in ground arith

-- The last name is that of a file, and what is written behind its contents is written last.
find-last :
    (p : Bytes) (front : List Bytes) (fs : Files) → names fs ≡ front ++ p ∷ [] → find p fs ≢ none
unfolding find
find-last p [] [] h e = cc
find-last p (q ∷ front) [] h e = cc
find-last p [] ((q, c) ∷ fs) h e = let same : q ≡ p = cc in ground (arith, e, bytes_eq_iff q p)
find-last p (r ∷ front) ((q, c) ∷ fs) h e =
    let rest : names fs ≡ front ++ p ∷ [] = cc in ground (arith, e, find-last p front fs rest)

pub contents-append_file :
    (p b : Bytes) (front : List Bytes) (fs : Files)
    → names fs ≡ front ++ p ∷ []
    → Distinct fs
    → contents (append_file p b fs) ≡ contents fs ++ b
unfolding append_file
contents-append_file p b [] [] h d = cc
contents-append_file p b (r ∷ front) [] h d = cc
contents-append_file p b [] ((q, c) ∷ []) h d =
    let same : q ≡ p = cc in
    let eq = (bytes_eq_iff q p).1 same in rw eq (append-nil (c ++ b) ∙ rw (append-nil c) refl)
contents-append_file p b [] ((q, c) ∷ f ∷ fs) h d = cc
contents-append_file p b (r ∷ front) ((q, c) ∷ fs) h (n, d) =
    let rest : names fs ≡ front ++ p ∷ [] = cc in
    let differ : bytes_eq q p ≡ false =
      ground (arith, n, bytes_eq_iff q p, find-last p front fs rest) in
    rw (differ, contents-append_file p b front fs rest d) (sym (append_assoc c (contents fs) b))

pub All-last :
    (P : Bytes → Type 0) (p : Bytes) (front : List Bytes) (fs : Files)
    → names fs ≡ front ++ p ∷ []
    → All (λ f. P f.0) fs
    → P p
All-last P p [] [] h a = absurd cc
All-last P p (q ∷ front) [] h a = absurd cc
All-last P p [] ((q, c) ∷ fs) h (x, a) = let same : q ≡ p = cc in subst P same x
All-last P p (r ∷ front) ((q, c) ∷ fs) h (x, a) =
    let rest : names fs ≡ front ++ p ∷ [] = cc in All-last P p front fs rest a

module _ (P : Bytes → Type 0) where
  pub All-append_file :
      (p b : Bytes) (fs : Files) → All (λ f. P f.0) fs → All (λ f. P f.0) (append_file p b fs)
  unfolding append_file
  All-append_file p b [] a = tt
  All-append_file p b ((q, d) ∷ fs) (x, a) = elim (Bool-cases (bytes_eq q p)) [
    | inl e ↦ rw e (x, a)
    | inr e ↦ rw e (x, All-append_file p b fs a)
  ]

  pub All-remove_file :
      (p : Bytes) (fs : Files) → All (λ f. P f.0) fs → All (λ f. P f.0) (remove_file p fs)
  unfolding remove_file
  All-remove_file p [] a = tt
  All-remove_file p ((q, d) ∷ fs) (x, a) = elim (Bool-cases (bytes_eq q p)) [
    | inl e ↦ rw e (All-remove_file p fs a)
    | inr e ↦ rw e (x, All-remove_file p fs a)
  ]

  pub All-find : (p c : Bytes) (fs : Files) → find p fs ≡ some c → All (λ f. P f.0) fs → P p
  unfolding find
  All-find p c [] h a = absurd cc
  All-find p c ((q, d) ∷ fs) h (x, a) = elim (Bool-cases (bytes_eq q p)) [
    | inl e ↦ subst P ((bytes_eq_iff q p).0 e) x
    | inr e ↦ All-find p c fs (ground arith) a
  ]
