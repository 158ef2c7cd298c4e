-- ===== src/Base/Texts.antt =====
-- Text as the list of its bytes. Equality is decided; `trim_space` is Go's strings.TrimSpace on
-- UTF-8: the ASCII blanks and the encodings of the other code points with the White_Space property.
use Prim.Native.Nat.{ℕ}
use Prim.Native.Char.{code}
use Prim.Native.String.{String}
use mathlib.Core.Path.{◌≡◌, refl, sym, ap, ◌∙◌, subst}
use mathlib.Core.Logic.{◌⊎◌, inl, inr}
use mathlib.Core.Bool.{Bool, true, false, ◌&&◌, ◌||◌}
use mathlib.Core.List.{List, [], ◌∷◌, ◌++◌, reverse, reverse-append, reverse-reverse}
use native.Mathlib.Decide.{ℕ_discrete}
use native.Mathlib.Omega.{arith}
use quicksurvey.Base.Tests.{leb, ◌==◌, if◌then◌else◌}

abbrev pub Text : Type 0
Text = List ℕ

-- A literal, for ASCII constants of the source.
abbrev pub codes : String → Text
codes String.[] = []
codes (String.◌∷◌ c s) = code c ∷ codes s

cons_dec : {x y : ℕ} {xs ys : Text} → Dec (x ≡ y) → Dec (xs ≡ ys) → Dec (x ∷ xs ≡ y ∷ ys)
cons_dec (yes p) (yes q) = yes (cc)
cons_dec (yes p) (no q) = no (λ e. q (cc))
cons_dec (no p) r = no (λ e. p (cc))

unfoldable pub text_discrete : (a b : Text) → Dec (a ≡ b)
unfolding cons_dec ℕ_discrete
text_discrete [] [] = yes refl
text_discrete [] (y ∷ ys) = no (λ e. cc)
text_discrete (x ∷ xs) [] = no (λ e. cc)
text_discrete (x ∷ xs) (y ∷ ys) = cons_dec (ℕ_discrete x y) (text_discrete xs ys)

abbrev pub same : Text → Text → Bool
same a b = elim (text_discrete a b) [ yes _ ↦ true | no _ ↦ false ]

pub same_refl : (a : Text) → same a a ≡ true
same_refl a = ground arith

pub same→eq : (a b : Text) → same a b ≡ true → a ≡ b
same→eq a b h = ground arith

pub ne_of_same : (a b : Text) → same a b ≡ false → ¬ (a ≡ b)
ne_of_same a b h e = ground arith

abbrev pub is_empty : Text → Bool
is_empty [] = true
is_empty (x ∷ xs) = false

-- Blanks of one, two and three bytes.
is_blank : ℕ → Bool
is_blank a = (leb 9 a && leb a 13) || a == 32

is_blank2 : ℕ → ℕ → Bool
is_blank2 a b = a == 0xC2 && (b == 0x85 || b == 0xA0)

is_blank3 : ℕ → ℕ → ℕ → Bool
is_blank3 a b c =
    (a == 0xE1 && b == 0x9A && c == 0x80)
    || (a == 0xE2
        && b == 0x80
        && ((leb 0x80 c && leb c 0x8A) || c == 0xA8 || c == 0xA9 || c == 0xAF))
    || (a == 0xE2 && b == 0x81 && c == 0x9F)
    || (a == 0xE3 && b == 0x80 && c == 0x80)

trim_front : (ℕ → Bool) → (ℕ → ℕ → Bool) → (ℕ → ℕ → ℕ → Bool) → Text → Text
trim_front p q r [] = []
trim_front p q r (a ∷ []) = if p a then [] else a ∷ []
trim_front p q r (a ∷ b ∷ []) =
    let one = trim_front p q r (b ∷ []) in if p a then one else if q a b then [] else a ∷ b ∷ []
trim_front p q r (a ∷ b ∷ c ∷ s) =
    let one = trim_front p q r (b ∷ c ∷ s) in
    let two = trim_front p q r (c ∷ s) in
    let three = trim_front p q r s in
    if p a then one else if q a b then two else if r a b c then three else a ∷ b ∷ c ∷ s

unfoldable pub trim_space : Text → Text
unfolding trim_front is_blank is_blank2 is_blank3
trim_space s =
    let front = trim_front is_blank is_blank2 is_blank3 s in
    let back =
      trim_front is_blank (λ a b. is_blank2 b a) (λ a b c. is_blank3 c b a) (reverse front) in
    reverse back

-- A byte that is neither a blank nor part of one.
abbrev pub is_visible : ℕ → Bool
is_visible c = leb 33 c && leb c 126

-- All bytes of a text are visible.
abbrev pub Visible : Text → Type 0
Visible [] = Unit {0}
Visible (c ∷ cs) = (is_visible c ≡ true) × Visible cs

Visible-append : (s t : Text) → Visible s → Visible t → Visible (s ++ t)
Visible-append [] t hs ht = ht
Visible-append (c ∷ s) t (seen, hs) ht = (seen, Visible-append s t hs ht)

Visible-reverse : (s : Text) → Visible s → Visible (reverse s)
Visible-reverse [] h = tt
Visible-reverse (c ∷ s) (seen, h) =
    subst Visible (sym (reverse-append (c ∷ []) s))
      (Visible-append (reverse s) (c ∷ []) (Visible-reverse s h) (seen, tt))

module _ (q : ℕ → ℕ → Bool) (r : ℕ → ℕ → ℕ → Bool)
    (two : (c d : ℕ) → is_visible c ≡ true → q c d ≡ false)
    (three : (c d e : ℕ) → is_visible c ≡ true → r c d e ≡ false) where
  trim_front-visible :
      (c : ℕ) (s : Text) → is_visible c ≡ true → trim_front is_blank q r (c ∷ s) ≡ c ∷ s
  unfolding trim_front is_blank
  trim_front-visible c [] seen = ground arith
  trim_front-visible c (a ∷ []) seen = ground (arith, two c a seen)
  trim_front-visible c (a ∷ b ∷ s) seen = ground (arith, two c a seen, three c a b seen)

  trim_front-line : (s : Text) → Visible s → trim_front is_blank q r (10 ∷ s) ≡ s
  unfolding trim_front is_blank
  trim_front-line [] seen = ground arith
  trim_front-line (a ∷ []) (seen, rest) = ground (arith, trim_front-visible a [] seen)
  trim_front-line (a ∷ b ∷ s) (seen, rest) = ground (arith, trim_front-visible a (b ∷ s) seen)

  trim_front-ended :
      (s : Text)
      → Visible s
      → (trim_front is_blank q r (s ++ (10 ∷ [])) ≡ s ++ (10 ∷ [])) ⊎ (s ≡ [])
  trim_front-ended [] seen = inr refl
  trim_front-ended (c ∷ s) (seen, rest) = inl (trim_front-visible c (s ++ (10 ∷ [])) seen)

-- A line is trimmed to its text, where that is visible.
pub trim_space-line : (s : Text) → Visible s → trim_space (s ++ (10 ∷ [])) ≡ s
unfolding trim_space is_blank2 is_blank3
trim_space-line s seen =
    elim (trim_front-ended is_blank2 is_blank3 (λ c d h. ground arith) (λ c d e h. ground arith) s
      seen) [
        | inr empty ↦ subst (λ t. trim_space (t ++ (10 ∷ [])) ≡ t) (sym empty) refl
        | inl kept ↦
            let q : ℕ → ℕ → Bool = λ a b. is_blank2 b a in
            let r : ℕ → ℕ → ℕ → Bool = λ a b c. is_blank3 c b a in
            ap (λ t. reverse (trim_front is_blank q r (reverse t))) kept
            ∙ ap (λ t. reverse (trim_front is_blank q r t)) (reverse-append s (10 ∷ []))
            ∙ ap reverse (
                trim_front-line q r (λ c d h. ground arith) (λ c d e h. ground arith) (reverse s)
                  (Visible-reverse s seen))
            ∙ reverse-reverse s
      ]

trim_space_test : trim_space (codes "  a b ") ≡ codes "a b"
unfolding trim_space
trim_space_test = refl

same_test : same (codes "ab") (codes "ac") ≡ false
unfolding text_discrete
same_test = refl
