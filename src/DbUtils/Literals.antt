-- ===== src/DbUtils/Literals.antt =====
-- What the server reads in the literals that `QuoteLiteral` writes.
use logical_backup.Common.{
  ℕ, ◌≡◌, refl, ◌∙◌, Bool-cases, ==_iff, ◌≢◌, ◌⊎◌, inl, inr, Bool, true, false, ◌||◌, List, [], ◌∷◌,
  ◌++◌, append-nil, append_assoc, Option, none, some, All, collect, ◌==◌, if◌then◌else◌, arith,
}
use logical_backup.DbUtils.{
  tab, line_feed, carriage_return, single_quote, backslash, escaped, needs_escape, quote_runes,
  quote_literal,
}

-- PostgreSQL's string constants: between quotes a quote stands doubled, and behind an `E` a
-- backslash escapes the next character. Only the escapes that are written here are read.
abbrev push : ℕ → Option (List ℕ) → Option (List ℕ)
push c none = none
push c (some s) = some (c ∷ s)

abbrev push? : Option ℕ → Option (List ℕ) → Option (List ℕ)
push? none s = none
push? (some c) s = push c s

abbrev unescape : ℕ → Option ℕ
unescape c =
    if c == backslash
    then some backslash
    else if c == b't'
    then some tab
    else if c == b'r'
    then some carriage_return
    else if c == b'n'
    then some line_feed
    else none

unfoldable pub read_plain : List ℕ → Option (List ℕ)
read_plain [] = none
read_plain (c ∷ []) = if c == single_quote then some [] else none
read_plain (c ∷ d ∷ s) =
    let next = read_plain (d ∷ s) in
    let after = read_plain s in
    if c == single_quote
    then if d == single_quote then push single_quote after else none
    else push c next

unfoldable pub read_escaped : List ℕ → Option (List ℕ)
read_escaped [] = none
read_escaped (c ∷ []) = if c == single_quote then some [] else none
read_escaped (c ∷ d ∷ s) =
    let next = read_escaped (d ∷ s) in
    let after = read_escaped s in
    if c == single_quote
    then if d == single_quote then push single_quote after else none
    else if c == backslash
    then push? (unescape d) after
    else push c next

unfoldable pub read_literal : List ℕ → Option (List ℕ)
read_literal [] = none
read_literal (c ∷ []) = none
read_literal (c ∷ d ∷ s) =
    if c == single_quote
    then read_plain (d ∷ s)
    else if c == b'E'
    then if d == single_quote then read_escaped s else none
    else none

abbrev pub any_escape : List ℕ → Bool
any_escape [] = false
any_escape (r ∷ s) = needs_escape r || any_escape s

quote_runes_lem :
    (s : List ℕ) (escape : Bool) (res : List ℕ)
    → quote_runes s escape res ≡ (escape || any_escape s, res ++ collect escaped s)
unfolding quote_runes
quote_runes_lem [] escape res = ground (arith, append-nil res)
quote_runes_lem (r ∷ s) escape res =
    quote_runes_lem s (escape || needs_escape r) (res ++ escaped r)
    ∙ ground (arith, append_assoc res (escaped r) (collect escaped s))

read_escaped-pair :
    (d r : ℕ) (s t : List ℕ)
    → unescape d ≡ some r
    → read_escaped s ≡ some t
    → read_escaped (backslash ∷ d ∷ s) ≡ some (r ∷ t)
unfolding read_escaped
read_escaped-pair d r s t h k = cc (h, k)

read_escaped-plain :
    (r : ℕ) (s t : List ℕ)
    → (r == single_quote) ≡ false
    → (r == backslash) ≡ false
    → read_escaped s ≡ some t
    → read_escaped (r ∷ s) ≡ some (r ∷ t)
unfolding read_escaped
read_escaped-plain r [] t h b k = cc
read_escaped-plain r (c ∷ s) t h b k = rw (h, b, k) refl

read_escaped-push :
    (r : ℕ) (s t : List ℕ)
    → r ≢ single_quote
    → read_escaped s ≡ some t
    → read_escaped (escaped r ++ s) ≡ some (r ∷ t)
read_escaped-push r s t h k = elim (Bool-cases (r == backslash)) [
  | inl e ↦ rw ((==_iff r backslash).0 e) (read_escaped-pair backslash backslash s t refl k)
  | inr b ↦ elim (Bool-cases (r == tab)) [
    | inl e ↦ rw ((==_iff r tab).0 e) (read_escaped-pair b't' tab s t refl k)
    | inr n1 ↦ elim (Bool-cases (r == carriage_return)) [
      | inl e ↦
          rw ((==_iff r carriage_return).0 e) (read_escaped-pair b'r' carriage_return s t refl k)
      | inr n2 ↦ elim (Bool-cases (r == line_feed)) [
        | inl e ↦ rw ((==_iff r line_feed).0 e) (read_escaped-pair b'n' line_feed s t refl k)
        | inr n3 ↦ rw (b, n1, n2, n3) (read_escaped-plain r s t (ground arith) b k)
      ]
    ]
  ]
]

read_escaped_every :
    (s : List ℕ)
    → All (λ c. c ≢ single_quote) s
    → read_escaped (collect escaped s ++ single_quote ∷ []) ≡ some s
read_escaped_every [] h = unfold read_escaped in refl
read_escaped_every (r ∷ s) (h, hs) =
    rw (append_assoc (escaped r) (collect escaped s) (single_quote ∷ []))
      (read_escaped-push r _ s h (read_escaped_every s hs))

read_plain_every :
    (s : List ℕ) → All (λ c. c ≢ single_quote) s → read_plain (s ++ single_quote ∷ []) ≡ some s
unfolding read_plain
read_plain_every [] h = refl
read_plain_every (r ∷ []) h = ground (arith, h)
read_plain_every (r ∷ c ∷ s) h = ground (arith, h, read_plain_every (c ∷ s) h.1)

escaped-same :
    (s : List ℕ) → any_escape s ≡ false → All (λ c. c ≢ backslash) s → collect escaped s ≡ s
escaped-same [] h k = refl
escaped-same (r ∷ s) h k = ground (arith, h, k, escaped-same s)

quote_literal-any_escape :
    (s : List ℕ)
    → any_escape s ≡ true
    → quote_literal s ≡ b'E' ∷ single_quote ∷ collect escaped s ++ single_quote ∷ []
unfolding quote_literal
quote_literal-any_escape s h = rw (quote_runes_lem s false [], h) refl

quote_literal-no_escape :
    (s : List ℕ)
    → any_escape s ≡ false
    → quote_literal s ≡ single_quote ∷ collect escaped s ++ single_quote ∷ []
unfolding quote_literal
quote_literal-no_escape s h = rw (quote_runes_lem s false [], h) refl

read_literal-plain :
    (s t : List ℕ)
    → read_plain (s ++ single_quote ∷ []) ≡ some t
    → read_literal (single_quote ∷ s ++ single_quote ∷ []) ≡ some t
unfolding read_literal
read_literal-plain [] t h = h
read_literal-plain (c ∷ s) t h = h

-- The server reads a quoted text back if it has no single quote, and either a tab, a carriage
-- return or a line feed, which bring the `E` in front of the literal, or no backslash.
pub read_literal-quote_literal :
    (s : List ℕ)
    → All (λ c. c ≢ single_quote) s
    → (any_escape s ≡ true) ⊎ All (λ c. c ≢ backslash) s
    → read_literal (quote_literal s) ≡ some s
read_literal-quote_literal s h k = elim (Bool-cases (any_escape s)) [
  | inl e ↦ rw (quote_literal-any_escape s e) (unfold read_literal in read_escaped_every s h)
  | inr e ↦
      let no_backslash : All (λ c. c ≢ backslash) s = ground arith in
      rw (quote_literal-no_escape s e, escaped-same s e no_backslash)
        (read_literal-plain s s (read_plain_every s h))
]
