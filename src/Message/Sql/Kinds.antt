-- ===== src/Message/Sql/Kinds.antt =====
-- pkg/message/message.go: the texts of replica identities and of kinds, and the JSON of a replica
-- identity. `UnmarshalJSON` ranges over the map `replicaIdentities` in an order that Go chooses: a
-- list of its keys.
use logical_backup.Common.{
  ℕ, ◌≡◌, sym, ap, ◌∙◌, Bool, true, false, List, [], ◌∷◌, ◌++◌, Option, none, some, All, ◌==◌,
  if◌then◌else◌, arith,
}
use logical_backup.Common.Bytes.{Bytes}
use logical_backup.Common.Files.{bytes_eq_iff, bytes_eq_refl}
use logical_backup.Common.Hex.{bytes_eq}
use logical_backup.Message.{Identifier, null_value, toasted_value, text_value}
use logical_backup.Message.Sql.{codes, replica_identity_name}
use logical_backup.Message.Sql.Print.{Texts, or_empty}

unfoldable pub replica_identity_string : ℕ → Bytes
replica_identity_string r = elim (replica_identity_name r) [
  | none ↦ or_empty (replica_identity_name b'd')
  | some name ↦ name
]

abbrev pub quoted : Bytes → Bytes
quoted s = b'"' ∷ s ++ b'"' ∷ []

-- `MarshalJSON`
unfoldable pub marshal_json : ℕ → Bytes
marshal_json r = quoted (replica_identity_string r)

-- `UnmarshalJSON`: `none` is the error `unknown replica identity`.
unfoldable pub unmarshal_json : List ℕ → Bytes → Option ℕ
unmarshal_json [] val = none
unmarshal_json (k ∷ ks) val =
    if bytes_eq val (quoted (or_empty (replica_identity_name k)))
    then some k
    else unmarshal_json ks val

-- `TupleKind.String`
unfoldable pub tuple_kind_string : ℕ → Bytes
tuple_kind_string t =
    if t == null_value
    then codes "null"
    else if t == toasted_value
    then codes "toasted"
    else if t == text_value
    then codes "text"
    else codes "unknown"

-- `Identifier.Sanitize`, and `Identifier.String`
unfoldable pub identifier_string : Texts → Identifier → Bytes
identifier_string T i = T.sanitize (i.namespace ∷ i.name ∷ [])

abbrev pub is_some : Option Bytes → Bool
is_some none = false
is_some (some name) = true

-- The range has a key of the map.
unfoldable pub ranges_over : List ℕ → ℕ → Bool
ranges_over [] r = false
ranges_over (k ∷ ks) r = if k == r then true else ranges_over ks r

-- The second byte of a text.
abbrev second : Bytes → ℕ
second [] = 0
second (c ∷ []) = 0
second (c ∷ d ∷ s) = d

abbrev name_of : ℕ → Bytes
name_of k = or_empty (replica_identity_name k)

-- A name begins with the letter that stands for it.
second-quoted : (k : ℕ) → is_some (replica_identity_name k) ≡ true → second (quoted (name_of k)) ≡ k
unfolding replica_identity_name
second-quoted k h = ground arith

same_key :
    (k r : ℕ)
    → is_some (replica_identity_name k) ≡ true
    → is_some (replica_identity_name r) ≡ true
    → bytes_eq (quoted (name_of r)) (quoted (name_of k)) ≡ true
    → k ≡ r
same_key k r h h' e =
    sym (second-quoted k h) ∙ ap second (sym ((bytes_eq_iff _ _).0 e)) ∙ second-quoted r h'

string-name_of :
    (r : ℕ) → is_some (replica_identity_name r) ≡ true → replica_identity_string r ≡ name_of r
unfolding replica_identity_string
string-name_of r h = ground arith

unmarshal-name_of :
    (ks : List ℕ) (r : ℕ)
    → is_some (replica_identity_name r) ≡ true
    → ranges_over ks r ≡ true
    → All (λ k. is_some (replica_identity_name k) ≡ true) ks
    → unmarshal_json ks (quoted (name_of r)) ≡ some r
unfolding unmarshal_json ranges_over
unmarshal-name_of [] r h m a = absurd (ground arith)
unmarshal-name_of (k ∷ ks) r h m (here, later) = ground (
  arith,
  same_key k r here h,
  bytes_eq_refl (quoted (name_of r)),
  unmarshal-name_of ks r h,
  later,
)

-- An identity that has been written as JSON is read back, whatever the order of the map's range.
-- Condition: it is one of the four that PostgreSQL has, the range meets it, and it meets keys of the
-- map only.
pub unmarshal_json-marshal_json :
    (ks : List ℕ) (r : ℕ)
    → is_some (replica_identity_name r) ≡ true
    → ranges_over ks r ≡ true
    → All (λ k. is_some (replica_identity_name k) ≡ true) ks
    → unmarshal_json ks (marshal_json r) ≡ some r
unfolding marshal_json
unmarshal_json-marshal_json ks r h m a =
    rw (marshal_json, string-name_of r h) (unmarshal-name_of ks r h m a)
