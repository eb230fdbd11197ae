-- ===== src/Common/Files.antt =====
-- A directory tree as an association list from relative paths to contents.
use mathlib.Core.Path.{◌≡◌, refl}
use mathlib.Core.Logic.{◌↔◌}
use mathlib.Core.Bool.{true, false}
use mathlib.Core.Option.{Option, none, some}
use mathlib.Core.List.{List, [], ◌∷◌, ◌++◌}
use native.Mathlib.Omega.{arith}
use logical_backup.Common.Tests.{if◌then◌else◌}
use logical_backup.Common.Bytes.{Bytes}
use logical_backup.Common.Hex.{bytes_eq}

abbrev pub Files : Type 0
Files = List (Bytes × Bytes)

unfoldable pub find : Bytes → Files → Option Bytes
find p [] = none
find p ((q, c) ∷ fs) = if bytes_eq q p then some c else find p fs

-- Create the file, or give it other contents.
unfoldable pub write_file : Bytes → Bytes → Files → Files
write_file p c [] = (p, c) ∷ []
write_file p c ((q, d) ∷ fs) = if bytes_eq q p then (p, c) ∷ fs else (q, d) ∷ write_file p c fs

-- Write behind what an open file holds. A file that is no longer linked changes nothing here.
unfoldable pub append_file : Bytes → Bytes → Files → Files
append_file p c [] = []
append_file p c ((q, d) ∷ fs) =
    if bytes_eq q p then (q, d ++ c) ∷ fs else (q, d) ∷ append_file p c fs

unfoldable pub remove_file : Bytes → Files → Files
remove_file p [] = []
remove_file p ((q, d) ∷ fs) = if bytes_eq q p then remove_file p fs else (q, d) ∷ remove_file p fs

pub bytes_eq_refl : (s : Bytes) → bytes_eq s s ≡ true
unfolding bytes_eq
bytes_eq_refl [] = refl
bytes_eq_refl (c ∷ s) = ground (arith, bytes_eq_refl s)

pub bytes_eq_sound : (s t : Bytes) → bytes_eq s t ≡ true → s ≡ t
unfolding bytes_eq
bytes_eq_sound [] [] h = refl
bytes_eq_sound [] (d ∷ t) h = cc
bytes_eq_sound (c ∷ s) [] h = cc
bytes_eq_sound (c ∷ s) (d ∷ t) h = ground (arith, bytes_eq_sound s t)

pub bytes_eq_iff : (s t : Bytes) → (bytes_eq s t ≡ true) ↔ (s ≡ t)
bytes_eq_iff s t = (bytes_eq_sound s t, λ e. rw e (bytes_eq_refl t))

pub find-write_file :
    (p q c : Bytes) (fs : Files)
    → find q (write_file p c fs) ≡ (if bytes_eq p q then some c else find q fs)
unfolding find write_file
find-write_file p q c [] = refl
find-write_file p q c ((r, d) ∷ fs) =
    ground (arith, bytes_eq_iff p q, bytes_eq_iff r p, bytes_eq_iff r q, find-write_file p q c fs)

pub find-append_file :
    (p c d : Bytes) (fs : Files) → find p fs ≡ some d → find p (append_file p c fs) ≡ some (d ++ c)
unfolding find append_file
find-append_file p c d [] h = cc
find-append_file p c d ((r, e) ∷ fs) h = ground (arith, find-append_file p c d fs)

pub find-append_file_ne :
    (p q c : Bytes) (fs : Files) → bytes_eq p q ≡ false → find q (append_file p c fs) ≡ find q fs
unfolding find append_file
find-append_file_ne p q c [] h = refl
find-append_file_ne p q c ((r, e) ∷ fs) h =
    ground
      (arith, bytes_eq_iff r p, bytes_eq_iff r q, bytes_eq_iff p q, find-append_file_ne p q c fs)

pub find-remove_file :
    (p q : Bytes) (fs : Files)
    → find q (remove_file p fs) ≡ (if bytes_eq p q then none else find q fs)
unfolding find remove_file
find-remove_file p q [] = ground arith
find-remove_file p q ((r, d) ∷ fs) =
    ground (arith, bytes_eq_iff p q, bytes_eq_iff r p, bytes_eq_iff r q, find-remove_file p q fs)
