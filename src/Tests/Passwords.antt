-- ===== src/Tests/Passwords.antt =====
-- A password that is hashed and verified, with keys that are cut to their size.
use quicksurvey.Base.{
  ℕ, zero, suc, ◌+◌, ◌-◌, ◌≡◌, refl, ap, true, false, Option, none, some, [], ◌∷◌, ◌++◌, any,
  length, Text, codes, same, text_discrete, arith,
}
use quicksurvey.Web.Setup.{ℤ, pos}
use quicksurvey.Web.Sessions.{split_at}
use quicksurvey.Web.Sessions.Tokens.{IsFree}
use quicksurvey.Store.Passwords.{Crypto, hash_password, verify_parts, verify_password}
use quicksurvey.Store.Passwords.Verified.{verify_password-hash_password}

abbrev fitted : ℕ → Text → Text
fitted zero t = []
fitted (suc n) [] = 0 ∷ fitted n []
fitted (suc n) (c ∷ t) = c ∷ fitted n t

length-fitted : (n : ℕ) (t : Text) → length (fitted n t) ≡ n
length-fitted zero t = refl
length-fitted (suc n) [] = ap suc (length-fitted n [])
length-fitted (suc n) (c ∷ t) = ap suc (length-fitted n t)

abbrev raised : Text → Text
raised [] = []
raised (c ∷ t) = (200 + c) ∷ raised t

abbrev lowered : Text → Text
lowered [] = []
lowered (c ∷ t) = (c - 200) ∷ lowered t

lowered-raised : (t : Text) → lowered (raised t) ≡ t
lowered-raised [] = refl
lowered-raised (c ∷ t) = ground (arith, lowered-raised t)

raised-IsFree : (t : Text) → IsFree b'$' (raised t)
unfolding any
raised-IsFree [] = refl
raised-IsFree (c ∷ t) = ground (arith, raised-IsFree t)

abbrev first_number : Text → Option ℤ
first_number [] = none
first_number (c ∷ t) = some (pos (c - 200))

abbrev crypto : Crypto
crypto = record {
  derive = λ password salt iterations size. fitted size (password ++ salt);
  encode = raised;
  decode = λ t. some (lowered t);
  print_nat = λ n. (200 + n) ∷ [];
  parse_int = first_number;
}

verify_password-hash_password_example :
    (verify_password crypto (hash_password crypto (codes "salt") (codes "secret")) (codes "secrex")
      ≡ same (fitted 32 (codes "secrexsalt")) (fitted 32 (codes "secretsalt")))
    × (verify_password crypto
          (hash_password crypto (codes "salt") (codes "secret"))
          (codes "secret")
        ≡ true)
unfolding any
verify_password-hash_password_example =
    verify_password-hash_password crypto
      (λ password salt n size. length-fitted size (password ++ salt))
      (λ t. ap some (lowered-raised t)) (λ n. ap (λ m. some (pos m)) (omega arith)) raised-IsFree
      (λ n. ground arith) (codes "salt") (codes "secret") (codes "secrex")

refused :
    verify_password crypto (hash_password crypto (codes "salt") (codes "secret")) (codes "secrex")
    ≡ false
unfolding verify_password verify_parts hash_password split_at text_discrete
refused = refl

malformed : verify_password crypto (codes "pbkdf2-sha256$1$x") (codes "x") ≡ false
unfolding verify_password verify_parts split_at text_discrete
malformed = refl
