-- ===== src/Message/Sql/Reader.antt =====
-- How the server reads the statements of rows. `Server` has its readers of names and values, each of
-- which gives the rest of the text; the shape of the statements is SQL's.
use logical_backup.Common.{
  ℕ, zero, suc, ◌≤◌, ◌≡◌, refl, ap, ◌∙◌, Bool, true, ◌||◌, List, [], ◌∷◌, ◌++◌, map, append_assoc,
  Option, none, some, length, All, ◌==◌, if◌then◌else◌, arith,
}
use logical_backup.Common.Bytes.{Bytes}
use logical_backup.Message.{Identifier}
use logical_backup.Message.Sql.{codes, Condition, equals, is_null, Assignment, sets, sets_null}
use logical_backup.Message.Sql.Print.{
  Texts, join, ident, literal, table_name, print_condition, print_assignment, print_update,
  print_delete,
}

-- A table's name, a column's name, and a constant or null, from the front of a text.
pub record Server : Type 0 where
  pub table : Bytes → Option (Identifier × Bytes)
  pub name : Bytes → Option (Bytes × Bytes)
  pub value : Bytes → Option (Option Bytes × Bytes)

infixl 5 ◌>>=◌
abbrev ◌>>=◌ {ℓ κ} : {A : Type ℓ} {B : Type κ} → Option A → (A → Option B) → Option B
none >>= f = none
some a >>= f = f a

unfoldable pub strip : Bytes → Bytes → Option Bytes
strip [] s = some s
strip (c ∷ p) [] = none
strip (c ∷ p) (d ∷ s) = let rest = strip p s in if c == d then rest else none

abbrev pub more_items {ℓ} :
    {A : Type ℓ}
    → (Bytes → Option (List A × Bytes))
    → A
    → Bytes
    → Option Bytes
    → Option (List A × Bytes)
more_items f a r none = some (a ∷ [], r)
more_items f a r (some s) = do (items, rest) ← f s; some (a ∷ items, rest)

-- Items with a separator between them, one at least.
unfoldable pub read_list {ℓ} :
    {A : Type ℓ} → (Bytes → Option (A × Bytes)) → Bytes → ℕ → Bytes → Option (List A × Bytes)
read_list item sep zero s = none
read_list item sep (suc n) s = elim (item s) [
  | none ↦ none
  | some (a, r) ↦ more_items (read_list item sep n) a r (strip sep r)
]

abbrev pub equals_value : Bytes → Option Bytes × Bytes → Option (Condition × Bytes)
equals_value n (none, r) = none
equals_value n (some v, r) = some (equals n v, r)

abbrev pub sets_value : Bytes → Option Bytes × Bytes → Assignment × Bytes
sets_value n (none, r) = (sets_null n, r)
sets_value n (some v, r) = (sets n v, r)

module _ (S : Server) where
  abbrev pub read_test : Bytes → Bytes → Option Bytes → Option (Condition × Bytes)
  read_test n r (some s) = S.value s >>= equals_value n
  read_test n r none = strip (codes " is null") r >>= λ s. some (is_null n, s)

  unfoldable pub read_condition : Bytes → Option (Condition × Bytes)
  read_condition s = do (n, r) ← S.name s; read_test n r (strip (codes " = ") r)

  unfoldable pub read_assignment : Bytes → Option (Assignment × Bytes)
  read_assignment s = do
    (n, r) ← S.name s
    r1 ← strip (codes " = ") r
    v ← S.value r1
    some (sets_value n v)

  unfoldable pub read_where : ℕ → Bytes → Option (List Condition)
  read_where n s = do
    r ← strip (codes " where ") s
    (conds, r1) ← read_list read_condition (codes " and ") n r
    r2 ← strip (codes ";") r1
    elim r2 [ [] ↦ some conds | c ∷ cs ↦ none ]

  -- `delete from t where c and ...;`, with at most `n` conditions.
  unfoldable pub read_delete : ℕ → Bytes → Option (Identifier × List Condition)
  read_delete n s = do
    r ← strip (codes "delete from ") s
    (t, r1) ← S.table r
    conds ← read_where n r1
    some (t, conds)

  -- `update t set a, ... where c and ...;`, with at most `n` assignments and `n` conditions.
  unfoldable pub read_update : ℕ → Bytes → Option (Identifier × (List Assignment × List Condition))
  read_update n s = do
    r ← strip (codes "update ") s
    (t, r1) ← S.table r
    r2 ← strip (codes " set ") r1
    (values, r3) ← read_list read_assignment (codes ", ") n r2
    conds ← read_where n r3
    some (t, (values, conds))

strip-append : (p s : Bytes) → strip p (p ++ s) ≡ some s
unfolding strip
strip-append [] s = refl
strip-append (c ∷ p) s = ground (arith, strip-append p s)

-- What may follow a value in these statements.
abbrev pub is_stop : ℕ → Bool
is_stop c = c == b' ' || c == b',' || c == b';'

abbrev pub Follows : Bytes → Type 0
Follows [] = ⊥
Follows (c ∷ s) = is_stop c ≡ true

-- An item is read back in front of what may follow it.
abbrev pub ReadsBack {ℓ} : {A : Type ℓ} → (Bytes → Option (A × Bytes)) → (A → Bytes) → A → Type ℓ
ReadsBack item print a = (rest : Bytes) → Follows rest → item (print a ++ rest) ≡ some (a, rest)

flat_three : (a b c : Bytes) → a ++ b ++ c ≡ a ++ (b ++ c)
flat_three a b c = append_assoc a b c

flat_four : (a b c d : Bytes) → a ++ b ++ c ++ d ≡ a ++ (b ++ (c ++ d))
flat_four a b c d = append_assoc (a ++ b) c d ∙ flat_three a b (c ++ d)

flat_five : (a b c d e : Bytes) → a ++ b ++ c ++ d ++ e ≡ a ++ (b ++ (c ++ (d ++ e)))
flat_five a b c d e = append_assoc (a ++ b ++ c) d e ∙ flat_four a b c (d ++ e)

flat_seven :
    (a b c d e f g : Bytes)
    → a ++ b ++ c ++ d ++ e ++ f ++ g ≡ a ++ (b ++ (c ++ (d ++ (e ++ (f ++ g)))))
flat_seven a b c d e f g =
    append_assoc (a ++ b ++ c ++ d ++ e) f g
    ∙ append_assoc (a ++ b ++ c ++ d) e (f ++ g)
    ∙ flat_five a b c d (e ++ (f ++ g))

read_list-join {ℓ} :
    {A : Type ℓ} (item : Bytes → Option (A × Bytes)) (print : A → Bytes) (sep end : Bytes) (x : A)
    → (xs : List A) (n : ℕ) → ((s : Bytes) → Follows (sep ++ s))
    → Follows end
    → strip sep end ≡ none
    → All (ReadsBack item print) (x ∷ xs)
    → length (x ∷ xs) ≤ n
    → read_list item sep n (join sep (map print (x ∷ xs)) ++ end) ≡ some (x ∷ xs, end)
unfolding read_list join
read_list-join item print sep end x xs zero f g e h l = absurd (omega arith)
read_list-join item print sep end x [] (suc n) f g e h l = rw (read_list, h.0 end g, e) refl
read_list-join item print sep end x (y ∷ ys) (suc n) f g e h l =
    let text = join sep (map print (y ∷ ys)) in
    ap (read_list item sep (suc n)) (flat_four (print x) sep text end)
    ∙ rw
        (
          read_list,
          h.0 (sep ++ (text ++ end)) (f (text ++ end)),
          strip-append sep (text ++ end),
          read_list-join item print sep end y ys n f g e h.1 (omega arith),
        )
        refl

-- The documented reading of what `Sanitize` and `QuoteLiteral` are meant to write.
module _ (T : Texts) (S : Server) where
  abbrev pub ReadsTable : Identifier → Type 0
  ReadsTable t = (rest : Bytes) → Follows rest → S.table (table_name T t ++ rest) ≡ some (t, rest)

  abbrev pub ReadsName : Bytes → Type 0
  ReadsName n = (rest : Bytes) → Follows rest → S.name (ident T n ++ rest) ≡ some (n, rest)

  abbrev pub ReadsNull : Type 0
  ReadsNull = (rest : Bytes) → Follows rest → S.value (codes "null" ++ rest) ≡ some (none, rest)

  abbrev pub ReadsValue : Bytes → Type 0
  ReadsValue v = (rest : Bytes) → Follows rest → S.value (literal T v ++ rest) ≡ some (some v, rest)

  abbrev pub IsReadable : Condition → Type 0
  IsReadable (equals n v) = ReadsName n × ReadsValue v
  IsReadable (is_null n) = ReadsName n

  abbrev pub IsWritable : Assignment → Type 0
  IsWritable (sets n v) = ReadsName n × ReadsValue v
  IsWritable (sets_null n) = ReadsName n

  condition-ReadsBack :
      (c : Condition) → IsReadable c → ReadsBack (read_condition S) (print_condition T) c
  unfolding read_condition strip
  condition-ReadsBack (equals n v) (h, k) rest f =
      let text = codes " = " ++ (literal T v ++ rest) in
      let named : S.name (print_condition T (equals n v) ++ rest) ≡ some (n, text) =
        ap S.name (flat_four (ident T n) (codes " = ") (literal T v) rest) ∙ h text refl in
      rw (read_condition, named, k rest f) refl
  condition-ReadsBack (is_null n) h rest f =
      let text = codes " is null" ++ rest in
      let named : S.name (print_condition T (is_null n) ++ rest) ≡ some (n, text) =
        ap S.name (append_assoc (ident T n) (codes " is null") rest) ∙ h text refl in
      rw (read_condition, named) refl

  assignment-ReadsBack :
      (a : Assignment)
      → ReadsNull
      → IsWritable a
      → ReadsBack (read_assignment S) (print_assignment T) a
  unfolding read_assignment strip
  assignment-ReadsBack (sets n v) z (h, k) rest f =
      let text = codes " = " ++ (literal T v ++ rest) in
      let named : S.name (print_assignment T (sets n v) ++ rest) ≡ some (n, text) =
        ap S.name (flat_four (ident T n) (codes " = ") (literal T v) rest) ∙ h text refl in
      rw (read_assignment, named, k rest f) refl
  assignment-ReadsBack (sets_null n) z h rest f =
      let text = codes " = null" ++ rest in
      let named : S.name (print_assignment T (sets_null n) ++ rest) ≡ some (n, text) =
        ap S.name (append_assoc (ident T n) (codes " = null") rest) ∙ h text refl in
      rw (read_assignment, named, z rest f) refl

  All-map {ℓ} :
      {A : Type ℓ} {P Q : A → Type 0} (xs : List A) → ((x : A) → P x → Q x) → All P xs → All Q xs
  All-map [] f h = tt
  All-map (x ∷ xs) f (h, hs) = (f x h, All-map xs f hs)

  -- The where clause, up to the end of the statement.
  read_where-print :
      (c : Condition) (cs : List Condition) (n : ℕ)
      → All IsReadable (c ∷ cs)
      → length (c ∷ cs) ≤ n
      → read_where S n (
          codes " where " ++ (join (codes " and ") (map (print_condition T) (c ∷ cs)) ++ codes ";"))
        ≡ some (c ∷ cs)
  unfolding read_where strip
  read_where-print c cs n h l =
      rw
        (
          read_where,
          read_list-join (read_condition S) (print_condition T) (codes " and ") (codes ";") c cs n
              (λ s. refl) refl refl (All-map (c ∷ cs) condition-ReadsBack h) l,
        )
        refl

  -- A delete is read as it is meant to be printed.
  pub read_delete-print :
      (t : Identifier) (c : Condition) (cs : List Condition) (n : ℕ)
      → ReadsTable t
      → All IsReadable (c ∷ cs)
      → length (c ∷ cs) ≤ n
      → read_delete S n (print_delete T t (c ∷ cs)) ≡ some (t, c ∷ cs)
  unfolding read_delete print_delete strip
  read_delete-print t c cs n r h l =
      let conds = join (codes " and ") (map (print_condition T) (c ∷ cs)) in
      let text = codes " where " ++ (conds ++ codes ";") in
      ap (read_delete S n)
        (flat_five (codes "delete from ") (table_name T t) (codes " where ") conds (codes ";"))
      ∙ rw (read_delete, r text refl, read_where-print c cs n h l) refl

  pub read_update-print :
      (t : Identifier) (a : Assignment) (as' : List Assignment) (c : Condition)
      → (cs : List Condition) (n : ℕ) → ReadsTable t
      → ReadsNull
      → All IsWritable (a ∷ as')
      → All IsReadable (c ∷ cs)
      → length (a ∷ as') ≤ n
      → length (c ∷ cs) ≤ n
      → read_update S n (print_update T t (a ∷ as') (c ∷ cs)) ≡ some (t, (a ∷ as', c ∷ cs))
  unfolding read_update print_update strip
  read_update-print t a as' c cs n r z w h l k =
      let conds = join (codes " and ") (map (print_condition T) (c ∷ cs)) in
      let tail = codes " where " ++ (conds ++ codes ";") in
      let sets' = join (codes ", ") (map (print_assignment T) (a ∷ as')) in
      ap (read_update S n) (
        flat_seven (codes "update ") (table_name T t) (codes " set ") sets' (codes " where ") conds
          (codes ";"))
      ∙ rw
          (
            read_update,
            r (codes " set " ++ (sets' ++ tail)) refl,
            read_list-join (read_assignment S) (print_assignment T) (codes ", ") tail a as' n
                (λ s. refl) refl refl (All-map (a ∷ as') (λ x. assignment-ReadsBack x z) w) l,
            read_where-print c cs n h k,
          )
          refl
