-- ===== src/Tally/Rows.antt =====
-- What each row of a tally of internal/store/response.go says, and the order of the rows.
use quicksurvey.Base.{
  ℕ, ◌≤◌, ◌≡◌, inl, inr, leb, leb→le, true, List, [], ◌∷◌, arith, Text, same, Bool-cases, some, All,
  All-sort_by, All-insert_by, filter, map, length, sort_by, insert_by, length-filter-sort_by, Bool,
  ◌∙◌, refl, ◌*◌,
}
use quicksurvey.Survey.{SurveyOption, Survey, is_approved}
use quicksurvey.Tables.{Tables, ResponseRow, load_survey}
use quicksurvey.Response.{Response}
use quicksurvey.Response.Sets.{Within}
use quicksurvey.Response.Covered.{IsCovered}
use quicksurvey.Tally.{
  responses, attached, count_responses, TallyRow, row_for, nothing_counted, older, sort_by_votes,
  tally_of, compute_tally, percent_of, Counted,
}
use quicksurvey.Tally.Counts.{
  credits, count_by, count_responses_lem, credits-Within, count_by_mono, count_by-le-length,
}

-- What a row of the tally says of its option.
pub record IsTrue (sv : Survey) (rs : List Response) (row : TallyRow) : Type 0 where
  pub approved : is_approved row.option.status ≡ true
  pub votes : row.votes ≡ count_by (λ r. credits sv row.option.id r.choices) rs
  pub shown : row.shown ≡ count_by (λ r. credits sv row.option.id r.seen) rs
  pub votes_le : row.votes ≤ row.shown
  pub shown_le : row.shown ≤ length rs
  pub percent_le : row.percent.numerator ≤ 100 * row.percent.denominator
  pub shown_percent_le : row.shown_percent.numerator ≤ 100 * row.shown_percent.denominator

-- As many rows as approved options of the survey pass any test: the rows are those options, reordered.
abbrev pub IsComplete : Survey → List TallyRow → Type 0
IsComplete sv rows =
    (p : SurveyOption → Bool)
    → length (filter (λ (row : TallyRow). p row.option) rows)
      ≡ length (filter p (filter (λ o. is_approved o.status) sv.options))

abbrev pub AllCovered : List Response → Type 0
AllCovered rs = All (λ (r : Response). Within r.choices r.seen) rs

AllCovered-credits :
    (sv : Survey) (t : Text) (rs : List Response)
    → AllCovered rs
    → All (λ (r : Response). credits sv t r.choices ≡ true → credits sv t r.seen ≡ true) rs
AllCovered-credits sv t [] c = tt
AllCovered-credits sv t (r ∷ rs) c =
    (credits-Within sv t r.choices r.seen c.0, AllCovered-credits sv t rs c.1)

percent_of-le :
    (part whole : ℕ)
    → part ≤ whole
    → (percent_of part whole).numerator ≤ 100 * (percent_of part whole).denominator
unfolding percent_of
percent_of-le part whole h = ground arith

row_for-IsTrue :
    (sv : Survey) (rs : List Response) (o : SurveyOption)
    → AllCovered rs
    → is_approved o.status ≡ true
    → IsTrue sv rs (row_for (count_responses sv nothing_counted rs) o)
unfolding row_for
row_for-IsTrue sv rs o c live = record {
  approved = live;
  votes = omega (arith, count_responses_lem sv nothing_counted rs o.id);
  shown = omega (arith, count_responses_lem sv nothing_counted rs o.id);
  votes_le = omega (
    arith,
    count_responses_lem sv nothing_counted rs o.id,
    count_by_mono (λ r. credits sv o.id r.choices) (λ r. credits sv o.id r.seen) rs
        (AllCovered-credits sv o.id rs c),
  );
  shown_le = omega (
    arith,
    count_responses_lem sv nothing_counted rs o.id,
    count_by-le-length (λ r. credits sv o.id r.seen) rs,
  );
  percent_le = percent_of-le _ _ (
      omega (
        arith,
        count_responses_lem sv nothing_counted rs o.id,
        count_by_mono (λ r. credits sv o.id r.choices) (λ r. credits sv o.id r.seen) rs
            (AllCovered-credits sv o.id rs c),
        count_by-le-length (λ r. credits sv o.id r.seen) rs,
      ));
  shown_percent_le = percent_of-le _ _ (
      omega (
        arith,
        count_responses_lem sv nothing_counted rs o.id,
        count_by_mono (λ r. credits sv o.id r.choices) (λ r. credits sv o.id r.seen) rs
            (AllCovered-credits sv o.id rs c),
      ));
}

rows-IsTrue :
    (sv : Survey) (rs : List Response) (os : List SurveyOption)
    → AllCovered rs
    → All (IsTrue sv rs) (
        map
          (row_for (count_responses sv nothing_counted rs))
          (filter (λ o. is_approved o.status) os))
unfolding filter
rows-IsTrue sv rs [] c = tt
rows-IsTrue sv rs (o ∷ os) c = elim (Bool-cases (is_approved o.status)) [
  | inl live ↦ rw live (row_for-IsTrue sv rs o c live, rows-IsTrue sv rs os c)
  | inr hidden ↦ rw hidden (rows-IsTrue sv rs os c)
]

-- Most votes first.
abbrev pub Descending : List TallyRow → Type 0
Descending [] = Unit {0}
Descending (x ∷ xs) = All (λ (y : TallyRow). y.votes ≤ x.votes) xs × Descending xs

All-weaken :
    (m n : ℕ) (xs : List TallyRow)
    → m ≤ n
    → All (λ (y : TallyRow). y.votes ≤ m) xs
    → All (λ (y : TallyRow). y.votes ≤ n) xs
All-weaken m n [] h a = tt
All-weaken m n (x ∷ xs) h a = (omega arith, All-weaken m n xs h a.1)

insert_by-Descending :
    (x : TallyRow) (xs : List TallyRow)
    → Descending xs
    → Descending (insert_by (λ a b. leb b.votes a.votes) x xs)
unfolding insert_by
insert_by-Descending x [] d = (tt, tt)
insert_by-Descending x (y ∷ ys) d = elim (Bool-cases (leb y.votes x.votes)) [
  | inl first ↦
      rw first ((leb→le _ _ first, All-weaken y.votes x.votes ys (leb→le _ _ first) d.0), d)
  | inr later ↦ rw later (
    All-insert_by (λ (z : TallyRow). z.votes ≤ y.votes) (λ a b. leb b.votes a.votes) x ys
        (ground arith) d.0,
    insert_by-Descending x ys d.1,
  )
]

sort_by_votes-Descending : (rows : List TallyRow) → Descending (sort_by_votes rows)
unfolding sort_by_votes sort_by
sort_by_votes-Descending [] = tt
sort_by_votes-Descending (x ∷ xs) =
    insert_by-Descending x (sort_by (λ a b. leb b.votes a.votes) xs) (sort_by_votes-Descending xs)

rows-IsComplete :
    (c : Counted) (p : SurveyOption → Bool) (os : List SurveyOption)
    → length (filter (λ (row : TallyRow). p row.option) (map (row_for c) os)) ≡ length (filter p os)
unfolding filter row_for
rows-IsComplete c p [] = refl
rows-IsComplete c p (o ∷ os) = ground (arith, rows-IsComplete c p os)

tally_of-IsComplete : (sv : Survey) (rs : List Response) → IsComplete sv (tally_of sv rs).0
unfolding tally_of sort_by_votes
tally_of-IsComplete sv rs p =
    length-filter-sort_by (λ (row : TallyRow). p row.option) (λ a b. leb b.votes a.votes)
      (map (row_for (count_responses sv nothing_counted rs))
        (filter (λ o. is_approved o.status) sv.options))
    ∙ rows-IsComplete (count_responses sv nothing_counted rs) p
        (filter (λ o. is_approved o.status) sv.options)

-- What holds of the rows, of their order and of the total, for covered responses.
pub tally_of-IsTrue :
    (sv : Survey) (rs : List Response)
    → AllCovered rs
    → All (IsTrue sv rs) (tally_of sv rs).0
      × Descending (tally_of sv rs).0
      × ((tally_of sv rs).1 ≡ length rs)
unfolding tally_of
tally_of-IsTrue sv rs c = (
  All-sort_by (IsTrue sv rs) (λ a b. leb b.votes a.votes)
      (map (row_for (count_responses sv nothing_counted rs))
        (filter (λ o. is_approved o.status) sv.options))
      (rows-IsTrue sv rs sv.options c),
  sort_by_votes-Descending (
      map (row_for (count_responses sv nothing_counted rs))
        (filter (λ o. is_approved o.status) sv.options)),
  omega (arith, count_responses_lem sv nothing_counted rs []),
)

responses-AllCovered : (db : Tables) (sid : Text) → IsCovered db → AllCovered (responses db sid)
unfolding responses
responses-AllCovered db sid c = go (sort_by older (filter (λ r. same r.survey_id sid) db.responses))
  where
    go : (rows : List ResponseRow) → AllCovered (map (attached db) rows)
    go [] = tt
    go (r ∷ rows) = (c r.id, go rows)

-- While the stored choices are covered by what is stored as seen, the rows of the tally of a
-- survey that is there are its approved options, each once, ordered by votes, most first. A row
-- has as votes and as shown the numbers of responses that credit its option, through merges,
-- with a choice and with an option seen, each response once; it has at most as many votes as
-- shown and at most as many shown as responses, and neither percentage is over 100. The
-- respondents are the responses.
pub compute_tally-IsTrue :
    (db : Tables) (sid : Text) (sv : Survey)
    → IsCovered db
    → load_survey db sid ≡ some sv
    → All (IsTrue sv (responses db sid)) (compute_tally db sid).0
      × IsComplete sv (compute_tally db sid).0
      × Descending (compute_tally db sid).0
      × ((compute_tally db sid).1 ≡ length (responses db sid))
unfolding compute_tally
compute_tally-IsTrue db sid sv c found =
    let (rows, ordered, total) =
      tally_of-IsTrue sv (responses db sid) (responses-AllCovered db sid c) in
    let e : compute_tally db sid ≡ tally_of sv (responses db sid) = rw (found, compute_tally) in
    rw e (rows, tally_of-IsComplete sv (responses db sid), ordered, total)
