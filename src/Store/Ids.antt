-- ===== src/Store/Ids.antt =====
-- The ids that `newID` of internal/store/store.go draws.
use quicksurvey.Base.{
  ℕ, zero, suc, ◌%◌, ◌<◌, ◌==◌, ◌≡◌, refl, ap, if◌then◌else◌, Bool, true, [], ◌∷◌, All, any, length,
  Text, arith,
}
use quicksurvey.Store.{id_alphabet, char_at, id_char, new_id}

abbrev pub is_id_char : ℕ → Bool
is_id_char c = any (λ d. d == c) id_alphabet

char_at-has : (cs : Text) (i : ℕ) → i < length cs → any (λ d. d == char_at cs i) cs ≡ true
unfolding char_at any length
char_at-has [] i h = absurd (omega arith)
char_at-has (c ∷ cs) zero h = ground arith
char_at-has (c ∷ cs) (suc i) h = ground (arith, char_at-has cs i (omega arith))

new_id-drawn :
    (drawn : Text)
    → (length (new_id drawn) ≡ length drawn) × All (λ c. is_id_char c ≡ true) (new_id drawn)
unfolding new_id length
new_id-drawn [] = (refl, tt)
new_id-drawn (b ∷ bs) =
    let rest = new_id-drawn bs in
    (ap suc rest.0, (char_at-has id_alphabet (b % 32) (omega arith), rest.1))

-- The bytes that give a character.
unfoldable pub giving : ℕ → (count : ℕ) → ℕ
giving c zero = 0
giving c (suc b) = if id_char b == c then suc (giving c b) else giving c b

id_char-fair : All (λ c. giving c 256 ≡ 8) id_alphabet
unfolding giving char_at
id_char-fair = (
  refl,
  (
    refl,
    (
      refl,
      (
        refl,
        (
          refl,
          (
            refl,
            (
              refl,
              (
                refl,
                (
                  refl,
                  (
                    refl,
                    (
                      refl,
                      (
                        refl,
                        (
                          refl,
                          (
                            refl,
                            (
                              refl,
                              (
                                refl,
                                (
                                  refl,
                                  (
                                    refl,
                                    (
                                      refl,
                                      (
                                        refl,
                                        (
                                          refl,
                                          (
                                            refl,
                                            (
                                              refl,
                                              (
                                                refl,
                                                (
                                                  refl,
                                                  (
                                                    refl,
                                                    (
                                                      refl,
                                                      (refl, (refl, (refl, (refl, (refl, tt))))),
                                                    ),
                                                  ),
                                                ),
                                              ),
                                            ),
                                          ),
                                        ),
                                      ),
                                    ),
                                  ),
                                ),
                              ),
                            ),
                          ),
                        ),
                      ),
                    ),
                  ),
                ),
              ),
            ),
          ),
        ),
      ),
    ),
  ),
)

-- An id has one character for each byte that was drawn, all of them of the alphabet, and each
-- character of the alphabet comes from 8 of the 256 bytes, as many as any other.
pub new_id-fair :
    (drawn : Text)
    → (length (new_id drawn) ≡ length drawn)
      × All (λ c. is_id_char c ≡ true) (new_id drawn)
      × All (λ c. giving c 256 ≡ 8) id_alphabet
new_id-fair drawn = let (long, safe) = new_id-drawn drawn in (long, safe, id_char-fair)
