-- ===== src/Response/Sets.antt =====
-- Lists of ids as sets.
use quicksurvey.Base.{
  subst, ◌≤◌, ◌<◌, ◌≡◌, refl, ◌∙◌, ◌≢◌, inl, inr, true, false, not, ◌||◌, List, [], ◌∷◌, ◌++◌,
  arith, filter, length, length-filter-le, Text, same, text_discrete, Bool-cases,
}
use quicksurvey.Response.{has}

-- Every member of the first list is one of the second.
abbrev pub Within : List Text → List Text → Type 0
Within xs ys = (id : Text) → has id xs ≡ true → has id ys ≡ true

-- No id stands in the list twice.
abbrev pub Distinct : List Text → Type 0
Distinct [] = Unit {0}
Distinct (x ∷ xs) = (has x xs ≡ false) × Distinct xs

pub has-append : (id : Text) (xs ys : List Text) → has id (xs ++ ys) ≡ (has id xs || has id ys)
unfolding has
has-append id [] ys = refl
has-append id (x ∷ xs) ys = ground (arith, has-append id xs ys)

pub has-snoc :
    (id : Text) (xs : List Text) (x : Text) → has id (xs ++ (x ∷ [])) ≡ (has id xs || same x id)
unfolding has
has-snoc id [] x = ground arith
has-snoc id (y ∷ xs) x = ground (arith, has-snoc id xs x)

pub Distinct-snoc :
    (xs : List Text) (x : Text) → Distinct xs → has x xs ≡ false → Distinct (xs ++ (x ∷ []))
unfolding has
Distinct-snoc [] x d h = (refl, tt)
Distinct-snoc (y ∷ xs) x d h =
    (ground (arith, has-snoc y xs x), Distinct-snoc xs x d.1 (ground arith))

remove : Text → List Text → List Text
remove x ys = filter (λ y. not (same y x)) ys

has-remove_ne : (x y : Text) (ys : List Text) → y ≢ x → has y (remove x ys) ≡ has y ys
unfolding has remove filter
has-remove_ne x y [] h = refl
has-remove_ne x y (z ∷ ys) h = ground (arith, has-remove_ne x y ys h)

length-remove : (x : Text) (ys : List Text) → has x ys ≡ true → length (remove x ys) < length ys
unfolding has remove filter
length-remove x [] h = absurd (ground arith)
length-remove x (y ∷ ys) h =
    ground (arith, length-remove x ys, length-filter-le (λ y. not (same y x)) ys)

-- A list without repetitions is no longer than one that holds its members.
pub length_of_Within : (xs ys : List Text) → Distinct xs → Within xs ys → length xs ≤ length ys
unfolding has
length_of_Within [] ys d w = omega arith
length_of_Within (x ∷ xs) ys d w = omega (
  arith,
  length_of_Within xs (remove x ys) d.1
      (λ y h. has-remove_ne x y ys (λ e. ground (arith, d.0)) ∙ w y (ground arith)),
  length-remove x ys (w x (ground arith)),
)

-- If it is as long, it has all of them.
pub Within-of_length :
    (xs ys : List Text) → Distinct xs → Within xs ys → length ys ≤ length xs → Within ys xs
unfolding has
Within-of_length xs ys d w long y h = elim (Bool-cases (has y xs)) [
  | inl there ↦ there
  | inr absent ↦ absurd (omega (arith, length_of_Within (y ∷ xs) ys (absent, d) bigger))
]
  where
    bigger : Within (y ∷ xs) ys
    bigger z k = elim (text_discrete y z) [
      | yes e ↦ subst (λ i. has i ys ≡ true) e h
      | no n ↦ w z (ground arith)
    ]
