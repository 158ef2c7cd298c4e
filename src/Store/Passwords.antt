-- ===== src/Store/Passwords.antt =====
-- `hashPassword` and `verifyPassword` of internal/store/users.go.
--
-- PBKDF2 with SHA-256, the base64 encoding and its decoding, and strconv's numbers are parameters; the salt is
-- drawn. crypto/pbkdf2 fails where a key of no bytes is asked for; its errors in FIPS mode are left out.
pub mod Verified
use quicksurvey.Base.{
  ℕ, suc, if◌then◌else◌, Bool, false, Option, none, some, List, [], ◌∷◌, ◌++◌, length, Text, codes,
  same, is_empty, not, ◌&&◌,
}
use quicksurvey.Web.Setup.{ℤ, pos}
use quicksurvey.Web.Sessions.{split_at}

abbrev pub pbkdf2_iterations : ℕ
pbkdf2_iterations = 600_000

-- The library functions that the two use.
pub record Crypto : Type 0 where
  pub derive : (password salt : Text) (iterations size : ℕ) → Text
  pub encode : Text → Text
  pub decode : Text → Option Text
  pub print_nat : ℕ → Text
  pub parse_int : Text → Option ℤ

module _ (c : Crypto) where
  unfoldable pub hash_password : (salt password : Text) → Text
  hash_password salt password =
      codes "pbkdf2-sha256"
      ++ (b'$'
          ∷ (c.print_nat pbkdf2_iterations
              ++ (b'$'
                  ∷ (c.encode salt
                      ++ (b'$' ∷ c.encode (c.derive password salt pbkdf2_iterations 32))))))

  abbrev derived : (password : Text) (iterations : ℕ) → Option Text → Option Text → Bool
  derived password iterations (some salt) (some want) =
      not (is_empty want) && same (c.derive password salt iterations (length want)) want
  derived password iterations _ _ = false

  unfoldable pub verify_parts : List Text → (password : Text) → Bool
  verify_parts (scheme ∷ iterations ∷ salt ∷ key ∷ []) password =
      if same scheme (codes "pbkdf2-sha256")
      then elim (c.parse_int iterations) [
        | some (pos (suc n)) ↦ derived password (suc n) (c.decode salt) (c.decode key)
        | other ↦ false
      ]
      else false
  verify_parts parts password = false

  unfoldable pub verify_password : (encoded password : Text) → Bool
  unfolding verify_parts
  verify_password encoded password = verify_parts (split_at b'$' encoded) password
