-- ===== src/Survey/Merge.antt =====
-- The merge chains that `Resolve` of internal/store/survey.go follows.
use quicksurvey.Base.{
  ℕ, zero, suc, ◌≤◌, ◌<◌, ◌≡◌, refl, ap, ◌∙◌, subst, ◌⊎◌, inl, inr, ◌≢◌, not, Bool, true, false,
  none, some, List, [], ◌∷◌, arith, filter, length, Text, same, Option-cases, Bool-cases,
  length-filter-le,
}
use quicksurvey.Survey.{
  SurveyOption, Survey, find_option, moves_on, is_approved, resolve_rounds, resolve,
}

-- The walk stops at this id: no option has it, or its option is not handed on.
abbrev pub StopsAt : List SurveyOption → Text → Text × Bool → Type 0
StopsAt os id r =
    ((find_option id os ≡ none) × (r ≡ (id, false)))
    ⊎ ((o : SurveyOption) × (find_option id os ≡ some o)
        × (moves_on o ≡ false)
        × (r ≡ (o.id, is_approved o.status)))

-- Following the merge pointers from `id` stops after exactly `n` of them, with result `r`.
abbrev pub Ends : List SurveyOption → ℕ → Text → Text × Bool → Type 0
Ends os zero id r = StopsAt os id r
Ends os (suc n) id r =
    (o : SurveyOption) × (find_option id os ≡ some o)
    × (moves_on o ≡ true)
    × Ends os n o.merged_into r

-- No chain of merges runs for ever.
abbrev pub IsAcyclic : List SurveyOption → Type 0
IsAcyclic os = (id : Text) → (n : ℕ) × (r : Text × Bool) × Ends os n id r

-- A chain's length is a function of its start.
length-Ends :
    (os : List SurveyOption) (m n : ℕ) (id : Text) (r s : Text × Bool)
    → Ends os m id r
    → Ends os n id s
    → m ≡ n
length-Ends os zero zero id r s e f = refl
length-Ends os zero (suc n) id r s (inl (absent, _)) f = ground (arith, f.1)
length-Ends os zero (suc n) id r s (inr (o, found, stays, _)) f = ground arith
length-Ends os (suc m) zero id r s e (inl (absent, _)) = ground (arith, e.1)
length-Ends os (suc m) zero id r s e (inr (o, found, stays, _)) = ground arith
length-Ends os (suc m) (suc n) id r s (o, found, moves, e) (o', found', moves', f) =
    let q : o' ≡ o = ground arith in
    ap suc (length-Ends os m n o.merged_into r s e (subst (λ x. Ends os n x.merged_into s) q f))

-- Enough rounds follow a chain to its end.
rounds-Ends :
    (os : List SurveyOption) (k n : ℕ) (id : Text) {r : Text × Bool}
    → n < k
    → Ends os n id r
    → resolve_rounds k os id ≡ r
unfolding resolve_rounds
rounds-Ends os zero n id h e = absurd (omega arith)
rounds-Ends os (suc k) zero id h (inl (absent, q)) = ground arith
rounds-Ends os (suc k) zero id h (inr (o, found, stays, q)) = ground arith
rounds-Ends os (suc k) (suc n) id h (o, found, moves, e) =
    ground (arith, rounds-Ends os k n o.merged_into (omega arith) e)

-- What the loop finds to be approved is the end of a chain.
Ends-rounds :
    (os : List SurveyOption) (k : ℕ) (id t : Text)
    → resolve_rounds k os id ≡ (t, true)
    → (n : ℕ) × (n < k) × Ends os n id (t, true)
unfolding resolve_rounds
Ends-rounds os zero id t h = cc
Ends-rounds os (suc k) id t h = elim (Option-cases (find_option id os)) [
  | inl absent ↦ ground arith
  | inr (o, found) ↦ elim (Bool-cases (moves_on o)) [
    | inl moves ↦
        let (n, below, e) = Ends-rounds os k o.merged_into t (ground arith) in
        (suc n, omega arith, (o, found, moves, e))
    | inr stays ↦ (0, omega arith, inr (o, found, stays, ground arith))
  ]
]

-- The options but those with one id.
without : Text → List SurveyOption → List SurveyOption
without id os = filter (λ o. not (same o.id id)) os

find-without :
    (id j : Text) (os : List SurveyOption)
    → j ≢ id
    → find_option j (without id os) ≡ find_option j os
unfolding find_option without filter
find-without id j [] h = refl
find-without id j (o ∷ os) h = ground (arith, find-without id j os h)

length-without :
    (id : Text) (os : List SurveyOption) (o : SurveyOption)
    → find_option id os ≡ some o
    → length (without id os) < length os
unfolding find_option without filter
length-without id [] o h = cc
length-without id (x ∷ os) o h =
    ground (arith, length-without id os o, length-filter-le (λ o. not (same o.id id)) os)

-- A chain shorter than the one from `id` never meets `id`.
shorter_apart :
    (os : List SurveyOption) (id : Text) (m : ℕ) (s : Text × Bool) (n : ℕ) (j : Text)
    (r : Text × Bool)
    → Ends os m id s
    → n < m
    → Ends os n j r
    → j ≢ id
shorter_apart os id m s n j r long h e q =
    absurd (omega (arith, length-Ends os n m id r s (subst (λ x. Ends os n x r) q e) long))

-- So it stays when `id` is taken out.
Ends-without :
    (os : List SurveyOption) (id : Text) (m : ℕ) (s : Text × Bool) (n : ℕ) (j : Text)
    (r : Text × Bool)
    → Ends os m id s
    → n < m
    → Ends os n j r
    → Ends (without id os) n j r
Ends-without os id m s zero j r long h e =
    let apart = shorter_apart os id m s zero j r long h e in rw (find-without id j os apart) e
Ends-without os id m s (suc n) j r long h e =
    let apart = shorter_apart os id m s (suc n) j r long h e in
    let (o, found, moves, rest) = e in
    (
      o,
      find-without id j os apart ∙ found,
      moves,
      Ends-without os id m s n o.merged_into r long (omega arith) rest,
    )

-- Each option is visited once at most, so a chain is no longer than the list of options.
Ends-le :
    (k : ℕ) (os : List SurveyOption) (n : ℕ) (id : Text) (r : Text × Bool)
    → length os ≤ k
    → Ends os n id r
    → n ≤ k
Ends-le k os zero id r h e = omega arith
Ends-le zero os (suc n) id r h (o, found, _, _) =
    absurd (omega (arith, length-without id os o found))
Ends-le (suc k) os (suc n) id r h (o, found, moves, e) = omega (
  arith,
  Ends-le k (without id os) n o.merged_into r (omega (arith, length-without id os o found))
      (Ends-without os id (suc n) r n o.merged_into r (o, found, moves, e) (omega arith) e),
)

-- Whatever the length of the chain of merges from `id`, if it ends then `Resolve` returns its end:
-- the bound on the loop never cuts a chain short.
pub resolve-Ends :
    (sv : Survey) (n : ℕ) (id : Text) (r : Text × Bool) → Ends sv.options n id r → resolve sv id ≡ r
unfolding resolve
resolve-Ends sv n id r e =
    rounds-Ends sv.options (suc (length sv.options)) n id
      (omega (arith, Ends-le (length sv.options) sv.options n id r (omega arith) e)) e

-- A vote is counted for an option only if a finite chain of merges leads to it and it is approved.
pub Ends-resolve :
    (sv : Survey) (id t : Text)
    → resolve sv id ≡ (t, true)
    → (n : ℕ) × (n ≤ length sv.options) × Ends sv.options n id (t, true)
unfolding resolve
Ends-resolve sv id t h =
    let (n, below, e) = Ends-rounds sv.options (suc (length sv.options)) id t h in
    (n, omega arith, e)
