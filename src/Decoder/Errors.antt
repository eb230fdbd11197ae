-- ===== src/Decoder/Errors.antt =====
-- How `parse` ends on any input, well formed or not.
use logical_backup.Common.{
  ℕ, ◌^◌, ◌<◌, ◌≤◌, ◌≡◌, refl, ◌≢◌, ◌↔◌, inl, inr, List, [], ◌∷◌, ◌++◌, length, take_all, drop_all,
  All, ◌==◌, if◌then◌else◌, Bool-cases, arith,
}
use logical_backup.Common.Bytes.{Bytes, put_uint}
use logical_backup.Common.Outcome.{Outcome, ok, err, panic}
use logical_backup.Message.{Message, raw_of, text_value}
use logical_backup.Decoder.Fields.{Reads-uint32}
use logical_backup.Decoder.{
  Error, unknown_message_type, Decode, ◌>>=◌, pure, next, uint8, uint32, uint64, int32, tuple,
  parse_begin, parse_commit, parse_origin, parse_relation, parse_type, parse_insert, parse_update,
  parse_delete, parse_truncate, parse_body, result, parse,
}
use logical_backup.Decoder.Ensures.{Ensures, Post, parts}

-- The bytes that `Raw` keeps.
abbrev Keeps : Bytes → Message → Type 0
Keeps src m = raw_of m ≡ src

module _ (src : Bytes) where
  Ensures-begin : Ensures (Keeps src) (parse_begin src)
  unfolding parse_begin uint64 int32 uint32
  Ensures-begin = search parts depth 14

  Ensures-commit : Ensures (Keeps src) (parse_commit src)
  unfolding parse_commit uint64
  Ensures-commit = search parts depth 14

  Ensures-origin : Ensures (Keeps src) (parse_origin src)
  unfolding parse_origin uint64
  Ensures-origin = search parts depth 14

  Ensures-relation : Ensures (Keeps src) (parse_relation src)
  unfolding parse_relation uint32
  Ensures-relation = search parts depth 16

  Ensures-type : Ensures (Keeps src) (parse_type src)
  unfolding parse_type uint32
  Ensures-type = search parts depth 14

  Ensures-insert : Ensures (Keeps src) (parse_insert src)
  unfolding parse_insert uint32
  Ensures-insert = search parts depth 14

  Ensures-update : Ensures (Keeps src) (parse_update src)
  unfolding parse_update uint32
  Ensures-update = search parts depth 18

  Ensures-delete : Ensures (Keeps src) (parse_delete src)
  unfolding parse_delete uint32
  Ensures-delete = search parts depth 14

  Ensures-truncate : Ensures (Keeps src) (parse_truncate src)
  unfolding parse_truncate
  Ensures-truncate = search parts

-- The first bytes that the `switch` of `Parse` knows.
abbrev pub message_types : List ℕ
message_types = b'B' ∷ b'C' ∷ b'O' ∷ b'R' ∷ b'Y' ∷ b'I' ∷ b'U' ∷ b'D' ∷ b'T' ∷ []

abbrev pub IsUnknown : ℕ → Type 0
IsUnknown b = All (λ t. b ≢ t) message_types

-- Either the byte is unknown and reported, or the body is decoded without an error.
data Ends (b : ℕ) (src : Bytes) (o : Outcome Error (Message × Bytes)) : Type 0 where
  unknown : IsUnknown b → o ≡ err (unknown_message_type b) → Ends b src o
  known : ¬ IsUnknown b → Post (Keeps src) o → Ends b src o

module _ (b : ℕ) (src body : Bytes) where
  abbrev Case : Decode Message → Type 0
  Case d = Ends b src (d body)

  Case-if :
      (t : ℕ) (x y : Decode Message)
      → ((b ≡ t) → Case x)
      → ((b ≢ t) → Case y)
      → Case (if b == t then x else y)
  Case-if t x y h k = elim (Bool-cases (b == t)) [
    | inl e ↦ rw e (h (ground arith))
    | inr e ↦ rw e (k (ground arith))
  ]

  parse_body-Ends : Case (parse_body b src)
  unfolding parse_body
  parse_body-Ends =
      Case-if b'B' _ _ (λ e. known (λ u. u.0 e) ((Ensures-begin src).at body))
        λ n0.
          Case-if b'C' _ _ (λ e. known (λ u. u.1.0 e) ((Ensures-commit src).at body))
            λ n1.
              Case-if b'O' _ _ (λ e. known (λ u. u.1.1.0 e) ((Ensures-origin src).at body))
                λ n2.
                  Case-if b'R' _ _ (λ e. known (λ u. u.1.1.1.0 e) ((Ensures-relation src).at body))
                    λ n3.
                      Case-if b'Y' _ _
                        (λ e. known (λ u. u.1.1.1.1.0 e) ((Ensures-type src).at body))
                        λ n4.
                          Case-if b'I' _ _
                            (λ e. known (λ u. u.1.1.1.1.1.0 e) ((Ensures-insert src).at body))
                            λ n5.
                              Case-if b'U' _ _
                                (λ e. known (λ u. u.1.1.1.1.1.1.0 e) ((Ensures-update src).at body))
                                λ n6.
                                  Case-if b'D' _ _
                                    (λ e.
                                      known (λ u. u.1.1.1.1.1.1.1.0 e)
                                        ((Ensures-delete src).at body))
                                    λ n7.
                                      Case-if b'T' _ _
                                        (λ e.
                                          known (λ u. u.1.1.1.1.1.1.1.1.0 e)
                                            ((Ensures-truncate src).at body))
                                        λ n8.
                                          unknown
                                            (n0, (n1, (n2, (n3, (n4, (n5, (n6, (n7, (n8, tt)))))))))
                                            refl

  Ends-raw :
      (o : Outcome Error (Message × Bytes)) {m : Message}
      → Ends b src o
      → result o ≡ ok m
      → raw_of m ≡ src
  Ends-raw (ok (a, rest)) (unknown u e) h = cc
  Ends-raw (ok (a, rest)) (known k p) h = ground arith
  Ends-raw (err e) _ h = cc
  Ends-raw panic _ h = cc

  Ends-err :
      (o : Outcome Error (Message × Bytes)) (e : Error)
      → Ends b src o
      → (result o ≡ err e) ↔ ((e ≡ unknown_message_type b) × IsUnknown b)
  Ends-err (ok p) e (unknown u h) = cc
  Ends-err (ok p) e (known k h) = (λ q. cc, λ u. absurd (k u.1))
  Ends-err (err x) e (unknown u h) = (λ q. (cc, u), λ p. cc)
  Ends-err (err x) e (known k h) = absurd h
  Ends-err panic e (unknown u h) = cc
  Ends-err panic e (known k h) = (λ q. cc, λ u. absurd (k u.1))

-- Every message that `parse` returns keeps the whole input as its `Raw`, whichever type it has.
pub raw_of-parse : (src : Bytes) (m : Message) → parse src ≡ ok m → raw_of m ≡ src
unfolding parse
raw_of-parse [] m h = cc
raw_of-parse (b ∷ body) m h = Ends-raw b (b ∷ body) body _ (parse_body-Ends b (b ∷ body) body) h

-- `parse` returns an error exactly when the first byte is none of the nine message types, and the
-- error names that byte. On a known type malformed input can only panic.
pub parse_err_iff :
    (b : ℕ) (body : Bytes) (e : Error)
    → (parse (b ∷ body) ≡ err e) ↔ ((e ≡ unknown_message_type b) × IsUnknown b)
unfolding parse
parse_err_iff b body e = Ends-err b (b ∷ body) body _ e (parse_body-Ends b (b ∷ body) body)

-- A text value whose length field `n` promises more bytes than the message has is returned cut
-- short, with no error, as the last value of the row.
pub tuple_cut_short :
    (n : ℕ) (v : Bytes)
    → n < 2 ^ 32
    → length v < n
    → tuple (text_value ∷ put_uint 4 n ++ v) ≡ ok (record { kind = text_value; value = v }, [])
unfolding tuple uint8 next ◌>>=◌ pure
tuple_cut_short n v h short =
    let le : length v ≤ n = omega arith in
    ground (arith, (Reads-uint32 n h).at v, take_all n v le, drop_all n v le)
