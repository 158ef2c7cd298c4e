-- ===== src/Store.antt =====
-- internal/store/store.go: the texts that the store makes.
--
-- HMAC-SHA256 with the instance's key, the base64 encoding and the decimal digits of a number are
-- parameters, and the bytes that crypto/rand draws are arguments.
pub mod Framing
pub mod Ids
pub mod Literals
pub mod Schema
pub mod Opening
pub mod Files
pub mod Passwords
use quicksurvey.Base.{
  ℕ, zero, suc, ◌%◌, ◌==◌, if◌then◌else◌, List, [], ◌∷◌, ◌++◌, map, length, Text, codes,
}

-- What `MAC` writes to the hash: each part behind its length.
unfoldable pub frame : (print_nat : ℕ → Text) → List Text → Text
frame print_nat [] = []
frame print_nat (p ∷ ps) = print_nat (length p) ++ (b':' ∷ (p ++ frame print_nat ps))

unfoldable pub mac :
    (hmac : (secret message : Text) → Text) (encode : Text → Text) (print_nat : ℕ → Text)
    → (secret : Text) → List Text
    → Text
unfolding frame
mac hmac encode print_nat secret parts = encode (hmac secret (frame print_nat parts))

abbrev pub id_alphabet : Text
id_alphabet = codes "abcdefghijkmnpqrstuvwxyz23456789"

-- Indexing; Go panics where a list ends before the index.
unfoldable pub char_at : Text → ℕ → ℕ
char_at [] i = 0
char_at (c ∷ cs) zero = c
char_at (c ∷ cs) (suc i) = char_at cs i

abbrev pub id_char : ℕ → ℕ
id_char b = char_at id_alphabet (b % length id_alphabet)

unfoldable pub new_id : (drawn : Text) → Text
unfolding char_at
new_id drawn = map id_char drawn

-- strings.ReplaceAll of a quote mark by two.
unfoldable pub double_quotes : Text → Text
double_quotes [] = []
double_quotes (c ∷ cs) =
    let rest = double_quotes cs in if c == b'\'' then c ∷ c ∷ rest else c ∷ rest

unfoldable pub quote_sql_string : Text → Text
unfolding double_quotes
quote_sql_string s = (b'\'' ∷ double_quotes s) ++ (b'\'' ∷ [])
