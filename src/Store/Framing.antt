-- ===== src/Store/Framing.antt =====
-- What `MAC` of internal/store/store.go makes of its parts.
use quicksurvey.Base.{ℕ, ◌==◌, ◌≡◌, refl, sym, false, List, [], ◌∷◌, ◌++◌, any, length, Text, arith}
use quicksurvey.Store.{frame}

-- Two texts cut at their first colon.
cut_colon :
    (a b t t' : Text)
    → any (λ c. c == b':') a ≡ false
    → any (λ c. c == b':') b ≡ false
    → a ++ (b':' ∷ t) ≡ b ++ (b':' ∷ t')
    → (a ≡ b) × (t ≡ t')
unfolding any
cut_colon [] [] t t' ha hb e = (refl, ground arith)
cut_colon [] (x ∷ b) t t' ha hb e = absurd (ground arith)
cut_colon (x ∷ a) [] t t' ha hb e = absurd (ground arith)
cut_colon (x ∷ a) (y ∷ b) t t' ha hb e =
    let rest = cut_colon a b t t' (ground arith) (ground arith) (ground arith) in
    (ground (arith, rest), rest.1)

-- Two texts whose beginnings are equally long.
split_length : (a b t t' : Text) → length a ≡ length b → a ++ t ≡ b ++ t' → (a ≡ b) × (t ≡ t')
unfolding length
split_length [] [] t t' n e = (refl, e)
split_length [] (y ∷ b) t t' n e = absurd (ground arith)
split_length (x ∷ a) [] t t' n e = absurd (ground arith)
split_length (x ∷ a) (y ∷ b) t t' n e =
    let rest = split_length a b t t' (ground arith) (ground arith) in (ground (arith, rest), rest.1)

not_empty : (a : Text) (c : ℕ) (t : Text) → ¬ ([] ≡ a ++ (c ∷ t))
not_empty [] c t e = cc
not_empty (x ∷ a) c t e = cc

module _ (print_nat : ℕ → Text) (printed : (m n : ℕ) → print_nat m ≡ print_nat n → m ≡ n)
    (numeric : (n : ℕ) → any (λ c. c == b':') (print_nat n) ≡ false) where
  frame-some : (p : Text) (ps : List Text) → ¬ ([] ≡ frame print_nat (p ∷ ps))
  unfolding frame
  frame-some p ps = not_empty (print_nat (length p)) b':' (p ++ frame print_nat ps)

  -- Where the digits of a number determine it and have no colon, lists of parts that are different
  -- give the hash different messages.
  pub frame-injective : (ps qs : List Text) → frame print_nat ps ≡ frame print_nat qs → ps ≡ qs
  unfolding frame
  frame-injective [] [] e = refl
  frame-injective [] (q ∷ qs) e = absurd (frame-some q qs e)
  frame-injective (p ∷ ps) [] e = absurd (frame-some p ps (sym e))
  frame-injective (p ∷ ps) (q ∷ qs) e =
      let (digits, rest) =
        cut_colon (print_nat (length p)) (print_nat (length q)) (p ++ frame print_nat ps)
          (q ++ frame print_nat qs) (numeric (length p)) (numeric (length q)) e in
      let (same_part, tail) =
        split_length p q (frame print_nat ps) (frame print_nat qs)
          (printed (length p) (length q) digits) rest in
      ground (arith, same_part, frame-injective ps qs tail)
