-- ===== src/Tally/Order.antt =====
-- The order of texts, and what sorting by it makes.
use quicksurvey.Base.{
  ◌≡◌, refl, true, false, ◌||◌, Bool-cases, inl, inr, subst, List, [], ◌∷◌, All, All-mono,
  All-insert_by, insert_by, sort_by, Text, same, same→eq, arith,
}
use quicksurvey.Response.{has}
use quicksurvey.Tally.{text_le}

text_le-total : (a b : Text) → text_le a b ≡ false → text_le b a ≡ true
unfolding text_le
text_le-total [] b h = absurd (ground arith)
text_le-total (x ∷ a) [] h = refl
text_le-total (x ∷ a) (y ∷ b) h = elim (Bool-cases (text_le a b)) [
  | inl le ↦ ground (arith, le)
  | inr gt ↦ ground (arith, gt, text_le-total a b gt)
]

text_le_trans : (a b c : Text) → text_le a b ≡ true → text_le b c ≡ true → text_le a c ≡ true
unfolding text_le
text_le_trans [] b c h k = refl
text_le_trans (x ∷ a) [] c h k = absurd (ground arith)
text_le_trans (x ∷ a) (y ∷ b) [] h k = absurd (ground arith)
text_le_trans (x ∷ a) (y ∷ b) (z ∷ c) h k = ground (arith, text_le_trans a b c)

pub text_le-antisym : (a b : Text) → text_le a b ≡ true → text_le b a ≡ true → a ≡ b
unfolding text_le
text_le-antisym [] [] h k = refl
text_le-antisym [] (y ∷ b) h k = absurd (ground arith)
text_le-antisym (x ∷ a) [] h k = absurd (ground arith)
text_le-antisym (x ∷ a) (y ∷ b) h k = ground (arith, text_le-antisym a b)

abbrev pub IsSorted : List Text → Type 0
IsSorted [] = Unit {0}
IsSorted (x ∷ xs) = All (λ y. text_le x y ≡ true) xs × IsSorted xs

insert_by-IsSorted : (x : Text) (xs : List Text) → IsSorted xs → IsSorted (insert_by text_le x xs)
unfolding insert_by
insert_by-IsSorted x [] h = (tt, tt)
insert_by-IsSorted x (y ∷ ys) (first, h) = elim (Bool-cases (text_le x y)) [
  | inl le ↦ rw le (
      (
        (
          le,
          All-mono (λ z. text_le y z ≡ true) (λ z. text_le x z ≡ true) ys
              (λ z k. text_le_trans x y z le k) first,
        ),
        (first, h),
      ))
  | inr gt ↦ rw gt (
      (
        All-insert_by (λ z. text_le y z ≡ true) text_le x ys (text_le-total x y gt) first,
        insert_by-IsSorted x ys h,
      ))
]

pub sort_by-IsSorted : (xs : List Text) → IsSorted (sort_by text_le xs)
unfolding sort_by
sort_by-IsSorted [] = tt
sort_by-IsSorted (x ∷ xs) = insert_by-IsSorted x (sort_by text_le xs) (sort_by-IsSorted xs)

has-insert_by :
    (z x : Text) (xs : List Text) → has z (insert_by text_le x xs) ≡ (same x z || has z xs)
unfolding insert_by has
has-insert_by z x [] = ground arith
has-insert_by z x (y ∷ ys) = ground (arith, has-insert_by z x ys)

pub has-sort_by : (z : Text) (xs : List Text) → has z (sort_by text_le xs) ≡ has z xs
unfolding sort_by has
has-sort_by z [] = refl
has-sort_by z (x ∷ xs) = ground (arith, has-insert_by z x (sort_by text_le xs), has-sort_by z xs)

-- What holds of all holds of one that is there.
pub All-has : (P : Text → Type 0) (xs : List Text) (z : Text) → All P xs → has z xs ≡ true → P z
unfolding has
All-has P [] z h k = absurd (ground arith)
All-has P (x ∷ xs) z (first, h) k = elim (Bool-cases (same x z)) [
  | inl hit ↦ subst P (same→eq x z hit) first
  | inr miss ↦ All-has P xs z h (ground arith)
]
