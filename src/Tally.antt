-- ===== src/Tally.antt =====
-- The tally of internal/store/response.go: `Responses`, `countOnce`, `computeTally`.
--
-- A `map[string]int` is a function that is 0 where nothing was stored. A percentage is the exact
-- ratio that the source rounds to a float64.
pub mod Counts
pub mod Rows
pub mod Cache
pub mod Order
use quicksurvey.Base.{
  ℕ, suc, ◌+◌, ◌*◌, ltb, leb, ◌==◌, if◌then◌else◌, Bool, true, false, not, ◌&&◌, ◌||◌, Option, none,
  some, List, [], ◌∷◌, map, filter, length, sort_by, Text, same,
}
use quicksurvey.Survey.{SurveyOption, Survey, is_approved, resolve}
use quicksurvey.Tables.{Tables, ResponseRow, load_survey}
use quicksurvey.Response.{Response, has}
use quicksurvey.Response.Save.{load_ids}

-- Bytewise order of texts, as SQLite's BINARY collation has it.
unfoldable pub text_le : Text → Text → Bool
text_le [] ys = true
text_le (x ∷ xs) [] = false
text_le (x ∷ xs) (y ∷ ys) = let rest = text_le xs ys in ltb x y || (x == y && rest)

-- ORDER BY created, id
abbrev pub older : ResponseRow → ResponseRow → Bool
older a b = ltb a.created b.created || (a.created == b.created && text_le a.id b.id)

-- A row of `Responses` with what `attach` adds to it.
unfoldable pub attached : Tables → ResponseRow → Response
attached db r = record {
  id = r.id;
  voter = r.voter;
  choices = load_ids db.choices r.id;
  seen = load_ids db.seen r.id;
  comment = r.comment;
  created = r.created;
  updated = r.updated;
}

unfoldable pub responses : Tables → Text → List Response
unfolding attached
responses db sid =
    map (attached db) (sort_by older (filter (λ r. same r.survey_id sid) db.responses))

abbrev pub bump : Text → (Text → ℕ) → Text → ℕ
bump t counts s = if same t s then suc (counts s) else counts s

-- The loop of `countOnce`; `done` lists the targets that were counted.
unfoldable pub count_rest : Survey → List Text → (Text → ℕ) → List Text → Text → ℕ
count_rest sv done into [] = into
count_rest sv done into (id ∷ ids) =
    let (target, counted) = resolve sv id in
    let hit = counted && not (has target done) in
    count_rest sv (if hit then target ∷ done else done) (if hit then bump target into else into) ids

unfoldable pub count_once : Survey → List Text → (Text → ℕ) → Text → ℕ
unfolding count_rest
count_once sv ids into = count_rest sv [] into ids

pub record Counted : Type 0 where
  pub counts : Text → ℕ
  pub shown : Text → ℕ
  pub respondents : ℕ

-- What one response adds.
unfoldable pub count_response : Survey → Counted → Response → Counted
count_response sv c r = record {
  counts = count_once sv r.choices c.counts;
  shown = count_once sv r.seen c.shown;
  respondents = suc c.respondents;
}

-- The loop over the responses.
unfoldable pub count_responses : Survey → Counted → List Response → Counted
unfolding count_response
count_responses sv c [] = c
count_responses sv c (r ∷ rs) = count_responses sv (count_response sv c r) rs

pub record Ratio : Type 0 where
  pub numerator : ℕ
  pub denominator : ℕ

pub record TallyRow : Type 0 where
  pub option : SurveyOption
  pub votes : ℕ
  pub percent : Ratio
  pub shown : ℕ
  pub shown_percent : Ratio

-- 100 * part / whole, and 0 of nothing.
unfoldable pub percent_of : ℕ → ℕ → Ratio
percent_of part whole =
    if ltb 0 whole
    then record { numerator = 100 * part; denominator = whole }
    else record { numerator = 0; denominator = 1 }

unfoldable pub row_for : Counted → SurveyOption → TallyRow
unfolding percent_of
row_for c o = record {
  option = o;
  votes = c.counts o.id;
  percent = percent_of (c.counts o.id) c.respondents;
  shown = c.shown o.id;
  shown_percent = percent_of (c.counts o.id) (c.shown o.id);
}

-- `sortResultsByVotes`: most votes first, and the survey's order among equals.
unfoldable pub sort_by_votes : List TallyRow → List TallyRow
sort_by_votes = sort_by (λ a b. leb b.votes a.votes)

abbrev pub nothing_counted : Counted
nothing_counted = record { counts = λ _. 0; shown = λ _. 0; respondents = 0 }

unfoldable pub tally_of : Survey → List Response → List TallyRow × ℕ
unfolding row_for sort_by_votes
tally_of sv rs =
    let c = count_responses sv nothing_counted rs in
    (sort_by_votes (map (row_for c) (filter (λ o. is_approved o.status) sv.options)), c.respondents)

unfoldable pub compute_tally : Tables → Text → List TallyRow × ℕ
compute_tally db sid = elim (load_survey db sid) [
  | none ↦ ([], 0)
  | some sv ↦ tally_of sv (responses db sid)
]
