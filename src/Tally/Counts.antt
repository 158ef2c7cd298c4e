-- ===== src/Tally/Counts.antt =====
-- What the counters of the tally of internal/store/response.go hold, as numbers of responses.
use quicksurvey.Base.{
  ℕ, ◌+◌, ◌≤◌, ◌≡◌, sym, subst, inl, inr, if◌then◌else◌, Bool, true, not, ◌&&◌, List, [], ◌∷◌,
  arith, Text, same, text_discrete, Bool-cases, any, All, length,
}
use quicksurvey.Survey.{Survey, resolve}
use quicksurvey.Response.{Response, has}
use quicksurvey.Response.Sets.{Within}
use quicksurvey.Tally.{bump, count_rest, count_once, Counted, count_response, count_responses}

-- One of the ids stands, through merges, for the approved option `t`.
abbrev pub lands : Survey → Text → Text → Bool
lands sv t id = (resolve sv id).1 && same (resolve sv id).0 t

unfoldable pub credits : Survey → Text → List Text → Bool
credits sv t ids = any (lands sv t) ids

abbrev pub one_if : Bool → ℕ
one_if b = if b then 1 else 0

-- How many of the responses pass a test.
unfoldable pub count_by : (Response → Bool) → List Response → ℕ
count_by p [] = 0
count_by p (r ∷ rs) = one_if (p r) + count_by p rs

count_rest_lem :
    (sv : Survey) (done : List Text) (into : Text → ℕ) (ids : List Text) (t : Text)
    → count_rest sv done into ids t ≡ into t + one_if (not (has t done) && credits sv t ids)
unfolding count_rest credits any
count_rest_lem sv done into [] t = ground arith
count_rest_lem sv done into (id ∷ ids) t =
    elim (Bool-cases ((resolve sv id).1 && not (has (resolve sv id).0 done))) [
      | inl hit ↦
          rw (hit, count_rest_lem sv ((resolve sv id).0 ∷ done) (bump (resolve sv id).0 into) ids t)
            (unfold has in ground arith)
      | inr pass ↦ rw (pass, count_rest_lem sv done into ids t) (ground arith)
    ]

count_once_lem :
    (sv : Survey) (into : Text → ℕ) (ids : List Text) (t : Text)
    → count_once sv ids into t ≡ into t + one_if (credits sv t ids)
unfolding count_once has
count_once_lem sv into ids t = count_rest_lem sv [] into ids t

-- The loop over the responses adds up, for each option, the responses that are credited to it.
pub count_responses_lem :
    (sv : Survey) (c : Counted) (rs : List Response) (t : Text)
    → ((count_responses sv c rs).counts t ≡ c.counts t + count_by (λ r. credits sv t r.choices) rs)
      × ((count_responses sv c rs).shown t ≡ c.shown t + count_by (λ r. credits sv t r.seen) rs)
      × ((count_responses sv c rs).respondents ≡ c.respondents + length rs)
unfolding count_responses count_by
count_responses_lem sv c [] t = omega arith
count_responses_lem sv c (r ∷ rs) t = omega (
  arith,
  count_once_lem sv c.counts r.choices t,
  count_once_lem sv c.shown r.seen t,
  count_responses_lem sv (count_response sv c r) rs t,
)

pub credits-Within :
    (sv : Survey) (t : Text) (xs ys : List Text)
    → Within xs ys
    → credits sv t xs ≡ true
    → credits sv t ys ≡ true
unfolding credits any has
credits-Within sv t [] ys w h = absurd (ground arith)
credits-Within sv t (x ∷ xs) ys w h = elim (Bool-cases (lands sv t x)) [
  | inl first ↦ landed ys (w x (ground arith)) first
  | inr later ↦ credits-Within sv t xs ys (λ j m. w j (ground arith)) (ground arith)
]
  where
    landed : (zs : List Text) → has x zs ≡ true → lands sv t x ≡ true → credits sv t zs ≡ true
    landed [] m l = absurd (ground arith)
    landed (z ∷ zs) m l = elim (text_discrete z x) [
      | yes e ↦ rw (subst (λ i. lands sv t i ≡ true) (sym e) l)
      | no n ↦ ground (arith, landed zs (ground arith) l)
    ]

pub count_by_mono :
    (p q : Response → Bool) (rs : List Response)
    → All (λ r. p r ≡ true → q r ≡ true) rs
    → count_by p rs ≤ count_by q rs
unfolding count_by
count_by_mono p q [] h = omega arith
count_by_mono p q (r ∷ rs) h = ground (arith, count_by_mono p q rs h.1)

pub count_by-le-length : (p : Response → Bool) (rs : List Response) → count_by p rs ≤ length rs
unfolding count_by
count_by-le-length p [] = omega arith
count_by-le-length p (r ∷ rs) = ground (arith, count_by-le-length p rs)
