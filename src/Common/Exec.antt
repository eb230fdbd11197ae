-- ===== src/Common/Exec.antt =====
-- Methods that change an object and may fail. What was written before an error stays written, so
-- the state comes back beside the error too. A call may also panic, or block for ever.
use mathlib.Core.Bool.{Bool, true, false}
use mathlib.Core.Path.{◌≡◌, refl, ap}

pub data Step {ℓ κ μ} (S : Type ℓ) (E : Type κ) (A : Type μ) : Type (ℓ ⊔ κ ⊔ μ) where
  ok : A → S → Step S E A
  err : E → S → Step S E A
  panic : Step S E A
  blocked : Step S E A

abbrev pub Exec {ℓ κ μ} : Type ℓ → Type κ → Type μ → Type (ℓ ⊔ κ ⊔ μ)
Exec S E A = S → Step S E A

module _ {ℓ κ μ ν} {S : Type ℓ} {E : Type κ} {A : Type μ} {B : Type ν} where
  abbrev pub continue : Step S E A → (A → Exec S E B) → Step S E B
  continue (ok a s) f = f a s
  continue (err e s) f = err e s
  continue panic f = panic
  continue blocked f = blocked

  infixl 5 ◌>>=◌ ◌>>◌
  abbrev pub ◌>>=◌ : Exec S E A → (A → Exec S E B) → Exec S E B
  ◌>>=◌ m f s = continue (m s) f

  abbrev pub ◌>>◌ : Exec S E A → Exec S E B → Exec S E B
  ◌>>◌ m k s = continue (m s) (λ _. k)

  -- What follows a successful first part.
  pub continue-eq :
      (m : Step S E A) (f : A → Exec S E B) {a : A} {s : S} → m ≡ ok a s → continue m f ≡ f a s
  continue-eq m f e = ap (λ n. continue n f) e

  -- What follows may be exchanged for what does the same.
  pub continue-ap :
      (m : Step S E A) {f g : A → Exec S E B}
      → ((a : A) (s : S) → f a s ≡ g a s)
      → continue m f ≡ continue m g
  continue-ap (ok a s) h = h a s
  continue-ap (err e s) h = refl
  continue-ap panic h = refl
  continue-ap blocked h = refl

  -- A successful sequence has a successful first part.
  pub continue-ok :
      (m : Step S E A) (f : A → Exec S E B) {b : B} {s : S}
      → continue m f ≡ ok b s
      → (a : A) × (t : S) × (m ≡ ok a t) × (f a t ≡ ok b s)
  continue-ok (ok a t) f h = (a, t, refl, h)
  continue-ok (err e t) f h = cc
  continue-ok panic f h = cc
  continue-ok blocked f h = cc

module _ {ℓ κ} {S : Type ℓ} {E : Type κ} where
  abbrev pub get : Exec S E S
  get s = ok s s

  abbrev pub modify : (S → S) → Exec S E (Unit {0})
  modify f s = ok tt (f s)

  abbrev pub done : Exec S E (Unit {0})
  done s = ok tt s

  abbrev pub fail {μ} : {A : Type μ} → E → Exec S E A
  fail e s = err e s

  abbrev pub pure {μ} : {A : Type μ} → A → Exec S E A
  pure a s = ok a s

  -- `if b { m }`
  abbrev pub when : Bool → Exec S E (Unit {0}) → Exec S E (Unit {0})
  when true m s = m s
  when false m s = ok tt s

  -- `if !b { return e }`
  abbrev pub guard : Bool → E → Exec S E (Unit {0})
  guard true e s = ok tt s
  guard false e s = err e s
