-- ===== src/Store/Literals.antt =====
-- The string literals that `quoteSQLString` of internal/store/store.go writes into a statement.
use mathlib.Core.List.{append_assoc}
use quicksurvey.Base.{
  ℕ, ◌==◌, ◌≡◌, refl, Bool, true, false, Bool-cases, inl, inr, Option, none, some, [], ◌∷◌, ◌++◌,
  Text, arith,
}
use quicksurvey.Store.{double_quotes, quote_sql_string}

-- How SQL reads a literal, from behind its first quote mark: up to a mark that is not doubled. The
-- flag says that the byte before was a mark.
abbrev with_byte : ℕ → Option (Text × Text) → Option (Text × Text)
with_byte c none = none
with_byte c (some (t, rest)) = some (c ∷ t, rest)

unfoldable pub read_marked : Bool → Text → Option (Text × Text)
read_marked false [] = none
read_marked true [] = some ([], [])
read_marked false (c ∷ cs) = elim (c == b'\'') [
  | true ↦ read_marked true cs
  | false ↦ with_byte c (read_marked false cs)
]
read_marked true (c ∷ cs) = elim (c == b'\'') [
  | true ↦ with_byte c (read_marked false cs)
  | false ↦ some ([], c ∷ cs)
]

unfoldable pub read_literal : Text → Option (Text × Text)
unfolding read_marked
read_literal [] = none
read_literal (c ∷ cs) = elim (c == b'\'') [ true ↦ read_marked false cs | false ↦ none ]

abbrev pub starts_marked : Text → Bool
starts_marked [] = false
starts_marked (c ∷ cs) = c == b'\''

read-double_quotes :
    (s rest : Text)
    → starts_marked rest ≡ false
    → read_marked false (double_quotes s ++ (b'\'' ∷ rest)) ≡ some (s, rest)
unfolding read_marked double_quotes
read-double_quotes [] [] h = refl
read-double_quotes [] (c ∷ rest) h = ground arith
read-double_quotes (c ∷ s) rest h = elim (Bool-cases (c == b'\'')) [
  | inl mark ↦ ground (arith, read-double_quotes s rest h)
  | inr other ↦ ground (arith, read-double_quotes s rest h)
]

-- SQL reads a quoted text back as that text, whatever it holds, and ends the literal where the rest
-- of the statement begins, unless that begins with a quote mark.
pub read_literal-quote_sql_string :
    (s rest : Text)
    → starts_marked rest ≡ false
    → read_literal (quote_sql_string s ++ rest) ≡ some (s, rest)
unfolding read_literal quote_sql_string
read_literal-quote_sql_string s rest h =
    ground (arith, append_assoc (double_quotes s) (b'\'' ∷ []) rest, read-double_quotes s rest h)
