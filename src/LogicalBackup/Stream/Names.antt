-- ===== src/LogicalBackup/Stream/Names.antt =====
-- The names of relations, and the oids under which they are known.
use logical_backup.Common.{
  ℕ, ◌≡◌, refl, sym, ap, ◌∙◌, true, [], ◌∷◌, Option, none, some, if◌then◌else◌, arith, Bool-cases,
  inl, inr,
}
use logical_backup.Common.Files.{bytes_eq_iff, bytes_eq_sound}
use logical_backup.LogicalBackup.{Relations, identifier_eq, lookup_relation, insert_relation}
use logical_backup.Message.{Identifier, Relation}

abbrev pub oid_of : Option Relation → Option ℕ
oid_of none = none
oid_of (some r) = some r.oid

-- Each name is known under the same oid, or unknown, as before.
abbrev pub SameOids : Relations → Relations → Type 0
SameOids m m' = (k : Identifier) → oid_of (lookup_relation k m') ≡ oid_of (lookup_relation k m)

pub SameOids-refl : (m : Relations) → SameOids m m
SameOids-refl m k = refl

pub SameOids-trans : (m m' m'' : Relations) → SameOids m m' → SameOids m' m'' → SameOids m m''
SameOids-trans m m' m'' x y k = y k ∙ x k

pub SameOids-eq : (m : Relations) {m' m'' : Relations} → m'' ≡ m' → SameOids m m' → SameOids m m''
SameOids-eq m e x k = ap (λ r. oid_of (lookup_relation k r)) e ∙ x k

identifier_eq_sound : (a b : Identifier) → identifier_eq a b ≡ true → a ≡ b
identifier_eq_sound a b h =
    let n = bytes_eq_sound a.namespace b.namespace (ground arith) in
    let m = bytes_eq_sound a.name b.name (ground arith) in
    λ i. record { namespace = n i; name = m i }

lookup_relation-insert_relation :
    (j k : Identifier) (v : Relation) (m : Relations)
    → lookup_relation k (insert_relation j v m)
      ≡ (if identifier_eq j k then some v else lookup_relation k m)
unfolding lookup_relation insert_relation
lookup_relation-insert_relation j k v [] = refl
lookup_relation-insert_relation j k v ((i, r) ∷ m) = ground (
  arith,
  lookup_relation-insert_relation j k v m,
  bytes_eq_iff i.namespace j.namespace,
  bytes_eq_iff j.namespace k.namespace,
  bytes_eq_iff i.namespace k.namespace,
  bytes_eq_iff i.name j.name,
  bytes_eq_iff j.name k.name,
  bytes_eq_iff i.name k.name,
)

-- The relation is known under its own oid.
abbrev pub IsKnown : Relations → Relation → Type 0
IsKnown m v = oid_of (lookup_relation v.identifier m) ≡ some v.oid

-- To know it again changes nothing.
pub SameOids-insert :
    (v : Relation) (m m' : Relations)
    → IsKnown m v
    → SameOids m m'
    → SameOids m (insert_relation v.identifier v m')
SameOids-insert v m m' h x k = elim (Bool-cases (identifier_eq v.identifier k)) [
  | inl e ↦
      rw (lookup_relation-insert_relation, e)
        (sym
          (ap (λ i. oid_of (lookup_relation i m)) (sym (identifier_eq_sound v.identifier k e)) ∙ h))
  | inr e ↦ rw (lookup_relation-insert_relation, e) (x k)
]
