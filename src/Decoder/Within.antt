-- ===== src/Decoder/Within.antt =====
-- What a method of `decoder` returns on bytes, and what it leaves of them.
use logical_backup.Common.{
  ℕ, zero, suc, ◌+◌, ◌*◌, ◌^◌, ◌<◌, ◌≤◌, ◌≡◌, sym, ap, ◌∙◌, false, List, [], ◌∷◌, length, take,
  drop, All, ltb, if◌then◌else◌, Bool-cases, inl, inr, arith,
}
use logical_backup.Common.Bytes.{Bytes, IsByte, big_endian}
use logical_backup.Common.Int.{signed, Fits}
use logical_backup.Common.Outcome.{Outcome, ok, err, panic}
use logical_backup.Decoder.{Error, Decode, ◌>>=◌, pure, next, uint8, uint}
use native.Mathlib.Nat.{mul_assoc, mul_comm, pow-suc}
use mathlib.Core.List.{foldl}

fold_bound :
    (bs : Bytes) (acc m : ℕ)
    → All IsByte bs
    → acc < m
    → foldl (λ a b. a * 256 + b) acc bs < m * 256 ^ length bs
fold_bound [] acc m a h = omega arith
fold_bound (b ∷ bs) acc m (here, later) h =
    let k = fold_bound bs (acc * 256 + b) (m * 256) later (omega arith) in
    let e : m * 256 * 256 ^ length bs ≡ m * 256 ^ suc (length bs) =
      mul_assoc m 256 (256 ^ length bs)
      ∙ ap (◌*◌ m) (mul_comm 256 (256 ^ length bs) ∙ sym (pow-suc 256 (length bs))) in
    rw (← e) k

big_endian_bound : (bs : Bytes) → All IsByte bs → big_endian bs < 256 ^ length bs
unfolding big_endian
big_endian_bound bs a = omega (arith, fold_bound bs 0 1 a (omega arith))

pub signed_32-Fits : (x : ℕ) → x < 2 ^ 32 → Fits 32 (signed 32 x)
signed_32-Fits x h = ground arith

pub signed_64-Fits : (x : ℕ) → x < 2 ^ 64 → Fits 64 (signed 64 x)
signed_64-Fits x h = ground arith

All-take : {A : Type 0} (P : A → Type 0) (n : ℕ) (xs : List A) → All P xs → All P (take n xs)
All-take P zero xs a = tt
All-take P (suc n) [] a = tt
All-take P (suc n) (x ∷ xs) (here, later) = (here, All-take P n xs later)

All-drop : {A : Type 0} (P : A → Type 0) (n : ℕ) (xs : List A) → All P xs → All P (drop n xs)
All-drop P zero xs a = a
All-drop P (suc n) [] a = tt
All-drop P (suc n) (x ∷ xs) (here, later) = All-drop P n xs later

length-take_le : {A : Type 0} (n : ℕ) (xs : List A) → length (take n xs) ≤ n
length-take_le zero xs = omega arith
length-take_le (suc n) [] = omega arith
length-take_le (suc n) (x ∷ xs) = omega (arith, length-take_le n xs)

-- On bytes, the value meets `P`, and bytes are left.
abbrev pub Within : {A : Type 0} → (A → Type 0) → Outcome Error (A × Bytes) → Type 0
Within P (ok (a, rest)) = P a × All IsByte rest
Within P (err e) = Unit
Within P panic = Unit

pub record Bounded {A : Type 0} (P : A → Type 0) (d : Decode A) : Type 0 where
  pub at : (buf : Bytes) → All IsByte buf → Within P (d buf)

module _ {A B : Type 0} where
  Within-bind :
      (Q : A → Type 0) (P : B → Type 0) (f : A → Decode B) (o : Outcome Error (A × Bytes))
      → Within Q o
      → ((a : A) → Q a → Bounded P (f a))
      → Within P (elim o [ ok (a, rest) ↦ f a rest | err e ↦ err e | panic ↦ panic ])
  Within-bind Q P f (ok (a, rest)) (h, bytes) k = (k a h).at rest bytes
  Within-bind Q P f (err e) h k = tt
  Within-bind Q P f panic h k = tt

  pub Bounded-bind :
      {Q : A → Type 0} {P : B → Type 0} {d : Decode A} {f : A → Decode B}
      → Bounded Q d
      → ((a : A) → Q a → Bounded P (f a))
      → Bounded P (d >>= f)
  unfolding ◌>>=◌
  Bounded-bind {Q} {P} {d} {f} h k = record {
    at = λ buf bytes. Within-bind Q P f (d buf) (h.at buf bytes) k;
  }

pub Bounded-pure : {A : Type 0} {P : A → Type 0} (a : A) → P a → Bounded P (pure a)
unfolding pure
Bounded-pure a h = record { at = λ buf bytes. (h, bytes) }

abbrev pub Free : {A : Type 0} → A → Type 0
Free a = Unit {0}

abbrev pub Below : ℕ → ℕ → Type 0
Below m x = x < m

-- A value of at most `n` bytes.
abbrev pub AtMost : ℕ → Bytes → Type 0
AtMost n v = (length v ≤ n) × All IsByte v

pub Bounded-next : (n : ℕ) → Bounded (AtMost n) (next n)
unfolding next
Bounded-next n = record {
  at = λ buf bytes.
      ((length-take_le n buf, All-take IsByte n buf bytes), All-drop IsByte n buf bytes);
}

pub Bounded-uint8 : Bounded (Below 256) uint8
unfolding uint8
Bounded-uint8 = record { at = Within-uint8 }
  where
    Within-uint8 : (buf : Bytes) → All IsByte buf → Within (Below 256) (uint8 buf)
    Within-uint8 [] a = tt
    Within-uint8 (b ∷ bs) (here, later) = (here, later)

read_bound : (k : ℕ) (b : Bytes) → AtMost k b → ltb (length b) k ≡ false → big_endian b < 256 ^ k
read_bound k b (short, bytes) e =
    let l : length b ≡ k = ground arith in rw (← l) (big_endian_bound b bytes)

pub Bounded-uint : (k : ℕ) → Bounded (Below (256 ^ k)) (uint k)
unfolding uint
Bounded-uint k = Bounded-bind (Bounded-next k) (λ b h. record { at = Within-read b h })
  where
    Within-read :
        (b : Bytes)
        → AtMost k b
        → (buf : Bytes) → All IsByte buf
        → Within (Below (256 ^ k)) (if ltb (length b) k then panic else ok (big_endian b, buf))
    Within-read b h buf bytes = elim (Bool-cases (ltb (length b) k)) [
      | inl e ↦ rw e tt
      | inr e ↦ rw e (read_bound k b h e, bytes)
    ]
