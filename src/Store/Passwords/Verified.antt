-- ===== src/Store/Passwords/Verified.antt =====
-- Which passwords `verifyPassword` of internal/store/users.go takes for a hash of `hashPassword`.
use quicksurvey.Base.{
  ℕ, suc, ◌≡◌, refl, ap, ◌∙◌, true, false, is_empty, some, [], ◌∷◌, ◌++◌, any, length, Text, codes,
  same, same_refl, text_discrete, arith,
}
use quicksurvey.Web.Setup.{pos}
use quicksurvey.Web.Sessions.{split_at}
use quicksurvey.Web.Sessions.Tokens.{IsFree, split_at-free, split_at-append}
use quicksurvey.Store.Passwords.{
  Crypto, pbkdf2_iterations, hash_password, verify_parts, verify_password,
}

nonempty : (t : Text) (n : ℕ) → length t ≡ suc n → is_empty t ≡ false
nonempty [] n h = absurd (omega (arith, h))
nonempty (b ∷ t) n h = refl

module _ (c : Crypto)
    (sized : (password salt : Text) (n size : ℕ) → length (c.derive password salt n size) ≡ size)
    (decoded : (t : Text) → c.decode (c.encode t) ≡ some t)
    (parsed : (n : ℕ) → c.parse_int (c.print_nat n) ≡ some (pos n))
    (encoded : (t : Text) → IsFree b'$' (c.encode t))
    (numeric : (n : ℕ) → IsFree b'$' (c.print_nat n)) where
  split_at-hash_password :
      (salt password : Text)
      → split_at b'$' (hash_password c salt password)
        ≡ codes "pbkdf2-sha256"
          ∷ c.print_nat pbkdf2_iterations
          ∷ c.encode salt
          ∷ c.encode (c.derive password salt pbkdf2_iterations 32)
          ∷ []
  unfolding hash_password any
  split_at-hash_password salt password =
      let key = c.encode (c.derive password salt pbkdf2_iterations 32) in
      split_at-append b'$' (codes "pbkdf2-sha256")
        (c.print_nat pbkdf2_iterations ++ (b'$' ∷ (c.encode salt ++ (b'$' ∷ key)))) refl
      ∙ ap (λ ts. codes "pbkdf2-sha256" ∷ ts)
          (split_at-append b'$' (c.print_nat pbkdf2_iterations) (c.encode salt ++ (b'$' ∷ key))
            (numeric pbkdf2_iterations))
      ∙ ap (λ ts. codes "pbkdf2-sha256" ∷ c.print_nat pbkdf2_iterations ∷ ts)
          (split_at-append b'$' (c.encode salt) key (encoded salt))
      ∙ ap (λ ts. codes "pbkdf2-sha256" ∷ c.print_nat pbkdf2_iterations ∷ c.encode salt ∷ ts)
          (split_at-free b'$' key (encoded (c.derive password salt pbkdf2_iterations 32)))

  takes :
      (salt password typed : Text)
      → verify_password c (hash_password c salt password) typed
        ≡ same
            (c.derive typed salt pbkdf2_iterations 32)
            (c.derive password salt pbkdf2_iterations 32)
  unfolding verify_password verify_parts text_discrete
  takes salt password typed =
      let key = c.derive password salt pbkdf2_iterations 32 in
      ap (λ ps. verify_parts c ps typed) (split_at-hash_password salt password)
      ∙ ground (
        arith,
        decoded salt,
        decoded key,
        parsed pbkdf2_iterations,
        sized password salt pbkdf2_iterations 32,
        nonempty key 31 (sized password salt pbkdf2_iterations 32),
      )

  -- Where a derived key is as long as it is asked for, what is encoded is decoded again, a number is
  -- read as it was printed, and neither encodings nor numbers have a dollar sign: the hash of a
  -- password takes exactly the passwords that derive the same key from its salt, so it takes the
  -- password itself.
  pub verify_password-hash_password :
      (salt password typed : Text)
      → (verify_password c (hash_password c salt password) typed
          ≡ same
              (c.derive typed salt pbkdf2_iterations 32)
              (c.derive password salt pbkdf2_iterations 32))
        × (verify_password c (hash_password c salt password) password ≡ true)
  verify_password-hash_password salt password typed = (
    takes salt password typed,
    takes salt password password ∙ same_refl (c.derive password salt pbkdf2_iterations 32),
  )
