-- ===== src/Tables.antt =====
-- The tables of internal/store/store.go that surveys live in, and `loadSurvey` and `saveSurvey` of
-- internal/store/survey.go, which read and write them.
--
-- A table is the list of its rows, oldest first. A statement is a function on the tables it names,
-- and a violated UNIQUE or PRIMARY KEY constraint is the error `constraint_failed`. A column that
-- holds a time holds the time itself: the text format between is Go's own.
pub mod Scope
pub mod Authored
pub mod Fresh
use quicksurvey.Base.{
  ℕ, suc, ltb, leb, if◌then◌else◌, Bool, ◌&&◌, Option, none, some, List, [], ◌∷◌, ◌++◌, map, filter,
  length, sort_by, Text, same, Result, ok, err, ◌>>=◌, ◌>>◌, require, too_many_options,
}
use quicksurvey.Survey.{SurveyOption, Survey, is_opened, is_zero}
use quicksurvey.Survey.Edit.{max_options}

pub record OptionRow : Type 0 where
  pub survey_id : Text
  pub position : ℕ
  pub option : SurveyOption

pub record ResponseRow : Type 0 where
  pub id : Text
  pub survey_id : Text
  pub voter : Text
  pub comment : Text
  pub created : ℕ
  pub updated : ℕ

-- A row of `choices` or of `seen`.
pub record Mark : Type 0 where
  pub response_id : Text
  pub option_id : Text

-- A row of `surveys` is the survey that `scanSurvey` reads from it, which has no options yet.
pub record Tables : Type 0 where
  pub surveys : List Survey
  pub options : List OptionRow
  pub responses : List ResponseRow
  pub choices : List Mark
  pub seen : List Mark

-- SELECT … FROM surveys WHERE id = ?
unfoldable pub find_survey : Text → List Survey → Option Survey
find_survey id [] = none
find_survey id (sv ∷ svs) = if same sv.id id then some sv else find_survey id svs

-- SELECT … FROM options WHERE survey_id = ? ORDER BY position
unfoldable pub load_options : List OptionRow → Text → List SurveyOption
load_options rows sid =
    map (λ r. r.option)
      (sort_by (λ a b. leb a.position b.position) (filter (λ r. same r.survey_id sid) rows))

unfoldable pub load_survey : Tables → Text → Option Survey
load_survey db id = elim (find_survey id db.surveys) [
  | none ↦ none
  | some sv ↦ some (record sv { options = load_options db.options sv.id })
]

-- The stamp at the head of `saveSurvey`.
unfoldable pub stamp : Survey → ℕ → Survey
stamp sv now =
    if is_opened sv.state && is_zero sv.first_opened_at
    then record sv { first_opened_at = now }
    else sv

-- INSERT INTO surveys … ON CONFLICT(id) DO UPDATE: all but `created` is set anew.
unfoldable pub upsert_survey : Survey → List Survey → List Survey
upsert_survey sv [] = record sv { options = [] } ∷ []
upsert_survey sv (r ∷ rs) =
    let rest = r ∷ upsert_survey sv rs in
    if same r.id sv.id then record sv { options = []; created = r.created } ∷ rs else rest

-- INSERT INTO options … ON CONFLICT(id) DO UPDATE … WHERE options.survey_id = excluded.survey_id
unfoldable pub upsert_option : Text → ℕ → SurveyOption → List OptionRow → List OptionRow
upsert_option sid i o [] = record { survey_id = sid; position = i; option = o } ∷ []
upsert_option sid i o (r ∷ rs) =
    let rest = r ∷ upsert_option sid i o rs in
    if same r.option.id o.id
    then (if same r.survey_id sid
        then record r { position = i; option = record o { created = r.option.created } } ∷ rs
        else r ∷ rs)
    else rest

unfoldable pub upsert_options : Text → ℕ → List SurveyOption → List OptionRow → List OptionRow
unfolding upsert_option
upsert_options sid i [] rows = rows
upsert_options sid i (o ∷ os) rows = upsert_options sid (suc i) os (upsert_option sid i o rows)

-- SELECT COUNT(*) FROM options WHERE survey_id = ?
unfoldable pub count_options : List OptionRow → Text → ℕ
count_options rows sid = length (filter (λ r. same r.survey_id sid) rows)

unfoldable pub save_survey : Tables → Survey → (now : ℕ) → Result Tables
save_survey db sv now = do
  let stamped = stamp sv now
  let fits =
      (if ltb max_options (length sv.options)
        then leb (length sv.options) (count_options db.options sv.id)
        else Bool.true)
  require fits too_many_options
  ok (record db {
    surveys = upsert_survey stamped db.surveys;
    options = upsert_options sv.id 0 sv.options db.options;
  })
